-- ===== src/Doppelganger/Commands/Speech.antt =====
-- daemon/doppelganger.go: what a user says reaches the chat channel.
use wtelnet.Common.{
  ℕ, sym, ◌≡◌, refl, ◌≢◌, ◌∙◌, Bool, false, some, List, ◌∷◌, ◌++◌, Bytes, codes, same_text, Int64,
  arith,
}
use wtelnet.Message.{Chan, UserToChannel, UserToChannelOp}
use wtelnet.Database.{Sql}
use wtelnet.Doppelganger.{UserInfo, Effect, to_channel, wrote, blanks, backspace_out, does}
use wtelnet.Helper.{trim, trim_left}
use wtelnet.Doppelganger.Backspace.{IsBlanks, backspace_out-rounds}
use wtelnet.Doppelganger.Commands.{reply, send_emote, on_emote, execute, do_command}
use wtelnet.Doppelganger.Commands.Words.{split_command, emote_of}

-- The operand of `/say`, with the quotation that the channel gets.
abbrev pub says : Bytes → Bytes → Bytes
says user_name words = user_name ++ codes " says, \"" ++ words ++ codes "\""

split_command-say :
    (words : Bytes) → split_command (codes "/say " ++ words) ≡ (codes "/say", trim words)
unfolding split_command codes trim trim_left
split_command-say words = refl

emote_of-say :
    (user_name words : Bytes)
    → emote_of user_name (codes "/say") words ≡ (codes "/emote", says user_name words)
unfolding emote_of codes same_text
emote_of-say user_name words = refl

execute-emote :
    (sql : Sql) (fails : List Effect → Bytes → Bool) (operand parameter : Bytes)
    (s : UserInfo sql.Db)
    → execute sql fails (codes "/emote") operand parameter s ≡ on_emote fails parameter s
unfolding execute codes same_text
execute-emote sql fails operand parameter s = refl

-- Wiping the line out keeps the user, the channel and what reaches it.
backspace_out-Keeps :
    {Db : Type 0} (fails : List Effect → Bytes → Bool) (s : UserInfo Db) (n : ℕ)
    → let t = (backspace_out fails s n).1 in
      (t.user_id ≡ s.user_id)
      × (t.chat_channel_id ≡ s.chat_channel_id)
      × (t.chat_channel_callback ≡ s.chat_channel_callback)
unfolding backspace_out
backspace_out-Keeps fails s n = (refl, refl, refl)

-- The message that carries a text to the chat channel.
abbrev pub text_message : Int64 → Bytes → UserToChannel
text_message user_id parameter = record {
  operation = UserToChannelOp.text_message;
  user_id = user_id;
  parameter = parameter;
}

pub send_emote-sends :
    {Db : Type 0} (fails : List Effect → Bytes → Bool) (s : UserInfo Db) (parameter : Bytes)
    (c : Chan)
    → s.user_id ≢ 0
    → s.chat_channel_id ≢ 0
    → s.chat_channel_callback ≡ some c
    → send_emote fails parameter s
      ≡ reply false false (does (to_channel c (text_message s.user_id parameter)) s)
unfolding send_emote
send_emote-sends fails s parameter c u i k = ground arith

pub on_emote-goes_on :
    {Db : Type 0} (fails : List Effect → Bytes → Bool) (s : UserInfo Db) (parameter : Bytes)
    → s.chat_channel_id ≢ 0
    → (backspace_out fails s s.cursor_column).0 ≡ false
    → on_emote fails parameter s
      ≡ send_emote fails parameter (backspace_out fails s s.cursor_column).1
unfolding on_emote
on_emote-goes_on fails s parameter i f = ground arith

pub do_command-say :
    (sql : Sql) (fails : List Effect → Bytes → Bool) (s : UserInfo sql.Db) (words : Bytes)
    → do_command sql fails s (codes "/say " ++ words)
      ≡ on_emote fails (says s.user_name (trim words)) s
unfolding do_command
do_command-say sql fails s words =
    let operand = trim words in
    rw (split_command-say words, emote_of-say s.user_name operand)
      (execute-emote sql fails operand (says s.user_name operand) s)

-- A user who is logged in and on a channel whose Go channel is known, and who says something while
-- the write does not fail, has the typed line wiped out, as many columns as the cursor stands at, and
-- then one text message sent to the channel, with the user's id and the words in quotation marks.
pub say-sends :
    (sql : Sql) (fails : List Effect → Bytes → Bool) (s : UserInfo sql.Db) (words : Bytes)
    (c : Chan)
    → s.user_id ≢ 0
    → s.chat_channel_id ≢ 0
    → s.chat_channel_callback ≡ some c
    → IsBlanks s.backspace_buffer
    → fails s.trace (blanks s.cursor_column) ≡ false
    → (t : UserInfo sql.Db) × (do_command sql fails s (codes "/say " ++ words)
        ≡ reply false false t)
      × (t.trace
          ≡ to_channel c (text_message s.user_id (says s.user_name (trim words)))
            ∷ wrote (blanks s.cursor_column) false
            ∷ s.trace)
say-sends sql fails s words c u i k b f =
    let w = backspace_out fails s s.cursor_column in
    let (e, tr, _) = backspace_out-rounds fails s s.cursor_column b in
    let (ku, ki, kc) = backspace_out-Keeps fails s s.cursor_column in
    let text = says s.user_name (trim words) in
    let sent =
      on_emote-goes_on fails s text i (e ∙ f)
      ∙ send_emote-sends fails w.1 text c (λ z. u (sym ku ∙ z)) (λ z. i (sym ki ∙ z)) (kc ∙ k) in
    (
      does (to_channel c (text_message w.1.user_id text)) w.1,
      do_command-say sql fails s words ∙ sent,
      rw (tr, f, ku) refl,
    )
