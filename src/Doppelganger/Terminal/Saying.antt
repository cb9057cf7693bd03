-- ===== src/Doppelganger/Terminal/Saying.antt =====
-- daemon/doppelganger.go: a line that the user says: what is sent, and what the user's terminal shows.
pub mod Cleared
use mathlib.Core.List.{foldl}
use mathlib.Core.Path.{subst, ap₂}
use wtelnet.Common.{
  ℕ, ◌≡◌, ◌≢◌, refl, sym, ap, ◌∙◌, Bool, false, some, List, [], ◌∷◌, ◌++◌, ◌==◌, ◌||◌, Bytes, codes,
  arith, length-take, Int64, same_text, if◌then◌else◌,
}
use wtelnet.Message.{Chan}
use wtelnet.Database.{Sql}
use wtelnet.Helper.{trim}
use wtelnet.Helper.Trimming.{trim-trim}
use wtelnet.Doppelganger.{
  UserInfo, Effect, wrote, to_channel, typed, command_mode, blanks, backspace_out, does,
}
use wtelnet.Doppelganger.Backspace.{IsBlanks, backspace_out-rounds}
use wtelnet.Doppelganger.Keys.Typing.{escape, view}
use wtelnet.Doppelganger.Keys.Screen.{onto, IsBlank, screen}
use wtelnet.Doppelganger.Commands.{reply, on_emote, do_command}
use wtelnet.Doppelganger.Commands.Speech.{
  says, text_message, send_emote-sends, on_emote-goes_on, do_command-say,
}
use wtelnet.Doppelganger.Lines.{
  handled, command_of, after_reply, reset_cursor, on_command, by_mode, handle_line,
}
use wtelnet.Doppelganger.Terminal.{page, page-screen, feed, said, feeds-wipe}
use wtelnet.Doppelganger.Terminal.Redraw.{
  Undisturbed-prompt, Undisturbed-escape, Undisturbed-IsReading,
}
use wtelnet.Doppelganger.Terminal.Messages.{IsAtPrompt, Undisturbed}

-- A trimmed line that is no command and no emote.
abbrev pub IsPlain : Bytes → Type 0
IsPlain [] = ⊥
IsPlain (c ∷ cs) = (c == b'\'' || c == b';' || c == b'/') ≡ false

-- A user on a channel, who can talk.
pub record IsTalking {Db : Type 0} (uid : Int64) (name : Bytes) (ch : Chan) (s : UserInfo Db)
    : Type 0 where
  pub is_user : s.user_id ≡ uid
  pub known : uid ≢ 0
  pub is_named : s.user_name ≡ name
  pub on_channel : s.chat_channel_id ≢ 0
  pub reached : s.chat_channel_callback ≡ some ch

command_of-plain : (line : Bytes) → IsPlain line → command_of line ≡ codes "/say " ++ trim line
unfolding command_of
command_of-plain [] h = absurd h
command_of-plain (c ∷ cs) h = ground arith

same_text-plain : (line : Bytes) → IsPlain line → same_text line [] ≡ false
unfolding same_text
same_text-plain [] h = absurd h
same_text-plain (c ∷ cs) h = refl

module _ (sql : Sql) (fails : List Effect → Bytes → Bool)
    (works : (trace : List Effect) (text : Bytes) → fails trace text ≡ false) where
  -- The state after a line that is said.
  abbrev pub after_saying : Chan → Bytes → UserInfo sql.Db → UserInfo sql.Db
  after_saying ch line s =
      let w = (backspace_out fails s s.cursor_column).1 in
      record (does (to_channel ch (text_message w.user_id (says s.user_name line))) w) {
        prompt_needed = false;
        cursor_column = 0;
      }

  pub backspace-Undisturbed :
      (s : UserInfo sql.Db) (n : ℕ) → Undisturbed s (backspace_out fails s n).1
  unfolding backspace_out
  backspace-Undisturbed s n = ground arith

  emote-sends :
      (text : Bytes) (ch : Chan) (s : UserInfo sql.Db)
      → s.user_id ≢ 0
      → s.chat_channel_id ≢ 0
      → s.chat_channel_callback ≡ some ch
      → IsBlanks s.backspace_buffer
      → let w = (backspace_out fails s s.cursor_column).1 in
        on_emote fails text s
        ≡ reply false false (does (to_channel ch (text_message w.user_id text)) w)
  emote-sends text ch s u i k b =
      let w = backspace_out fails s s.cursor_column in
      let (e, tr, _) = backspace_out-rounds fails s s.cursor_column b in
      let d = backspace-Undisturbed s s.cursor_column in
      on_emote-goes_on fails s text i (e ∙ works s.trace (blanks s.cursor_column))
      ∙ send_emote-sends fails w.1 text ch (λ z. u (sym d.same_user_id ∙ z))
          (λ z. i (sym d.same_channel_id ∙ z)) (d.same_callback ∙ k)

  command-says :
      (ch : Chan) (name : Bytes) (uid : Int64) (line : Bytes) (s : UserInfo sql.Db)
      → IsTalking uid name ch s
      → IsBlanks s.backspace_buffer
      → IsPlain line
      → trim line ≡ line
      → reset_cursor (on_command sql fails line s) ≡ handled (after_saying ch line s)
  unfolding on_command
  command-says ch name uid line s t b h e =
      let say = command_of-plain line h ∙ ap (λ x. codes "/say " ++ x) e in
      let done =
        do_command-say sql fails s line ∙ ap (λ x. on_emote fails (says s.user_name x) s) e in
      let sent =
        emote-sends (says s.user_name line) ch s (λ z. t.known (sym t.is_user ∙ z)) t.on_channel
          t.reached b in
      ap
        (λ x. reset_cursor (
          if same_text x []
          then handled s
          else after_reply (do_command sql fails s (command_of x))))
        e
      ∙ ap
          (λ b.
            reset_cursor
              (if b then handled s else after_reply (do_command sql fails s (command_of line))))
          (same_text-plain line h)
      ∙ ap (λ x. reset_cursor (after_reply (do_command sql fails s x))) say
      ∙ ap (λ r. reset_cursor (after_reply r)) (done ∙ sent)

  -- A line that is said, from the return on.
  pub handle_line-says :
      (ch : Chan) (name : Bytes) (uid : Int64) (s : UserInfo sql.Db)
      → s.mode ≡ command_mode
      → IsTalking uid name ch s
      → IsBlanks s.backspace_buffer
      → IsPlain (trim (typed s))
      → handle_line sql fails s ≡ handled (after_saying ch (trim (typed s)) s)
  unfolding handle_line by_mode
  handle_line-says ch name uid s m t b h =
      let line = trim (typed s) in
      ap
        (λ b.
          if b
          then handled (record s { prompt_needed = false })
          else reset_cursor (by_mode sql fails s.mode line s))
        (same_text-plain line h)
      ∙ ap (λ mode. reset_cursor (by_mode sql fails mode line s)) m
      ∙ command-says ch name uid line s t b h (trim-trim (typed s))
