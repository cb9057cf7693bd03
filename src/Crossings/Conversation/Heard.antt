-- ===== src/Crossings/Conversation/Heard.antt =====
-- daemon/doppelganger.go with daemon/chatchannel.go: what one user types is what another user reads.
use mathlib.Core.List.{append_assoc, append-nil}
use mathlib.Core.Path.{subst}
use wtelnet.Common.{
  ◌≡◌, refl, sym, ap, ◌∙◌, Bool, false, some, List, [], ◌∷◌, ◌++◌, Bytes, Int64, map, ◌==◌,
  if◌then◌else◌, arith,
}
use wtelnet.Common.Dict.{Dict}
use wtelnet.Message.{Chan, UserToChannel, ChannelToUser}
use wtelnet.Database.{Sql}
use wtelnet.Doppelganger.{UserInfo, Effect}
use wtelnet.Doppelganger.Commands.Speech.{says, text_message}
use wtelnet.Doppelganger.Keys.Screen.{IsBlank}
use wtelnet.Doppelganger.Keys.Typing.{Escape, view}
use wtelnet.Doppelganger.Loop.{Event, from_channel, prompt, run}
use wtelnet.Doppelganger.Terminal.{page, said, IsPrintable}
use wtelnet.Doppelganger.Terminal.Messages.{IsAtPrompt}
use wtelnet.Doppelganger.Terminal.Saying.{IsTalking}
use wtelnet.Doppelganger.Terminal.Talk.{talks, speeches, AreCalm, Rows}
use wtelnet.Doppelganger.Terminal.Returns.{sends}
use wtelnet.Doppelganger.Terminal.Turns.{run-IsShown}
use wtelnet.ChatChannel.{UserEntry, ChatChannel}
use wtelnet.ChatChannel.Handlers.{text_copy}
use wtelnet.ChatChannel.Loop.{loop}
use wtelnet.ChatChannel.Notices.{IsRound}
use wtelnet.Crossings.Conversation.{mail, holders, talked, AreTexts, loop-mail}

-- What a log of sends, the newest first, has for one Go channel, in order.
abbrev pub delivered : Chan → List (Chan × UserToChannel) → List UserToChannel
delivered c [] = []
delivered c ((d, msg) ∷ log) = if d == c then delivered c log ++ msg ∷ [] else delivered c log

-- What a doppelganger receives from a chat channel, one message after the other.
abbrev pub received : List ChannelToUser → List Event
received msgs = map (λ msg. from_channel (some msg)) msgs

-- Each line that was said is a line on the terminal, quoted and with nothing but blanks behind it.
abbrev pub Reads : Bytes → List Bytes → List Bytes → List Bytes → Type 0
Reads name [] old new = new ≡ old
Reads name (line ∷ lines) old new =
    (w : Bytes) × IsBlank w × Reads name lines ((says name line ++ w) ∷ old) new

abbrev pub ArePrintable : Bytes → List Bytes → Type 0
ArePrintable name [] = Unit {0}
ArePrintable name (line ∷ lines) = IsPrintable (says name line) × ArePrintable name lines

module _ (uid : Int64) (name : Bytes) (ch : Chan) where
  delivered-cons :
      (log : List (Chan × UserToChannel)) (msg : UserToChannel)
      → delivered ch ((ch, msg) ∷ log) ≡ delivered ch log ++ msg ∷ []
  delivered-cons log msg = ground arith

  delivered-sends :
      (log : List (Chan × UserToChannel)) (lines : List Bytes)
      → delivered ch (sends ch uid name log lines)
        ≡ delivered ch log ++ map (λ line. text_message uid (says name line)) lines
  delivered-sends log [] = sym (append-nil (delivered ch log))
  delivered-sends log (line ∷ lines) =
      let rest = map (λ line. text_message uid (says name line)) lines in
      let msg = text_message uid (says name line) in
      delivered-sends ((ch, msg) ∷ log) lines
      ∙ ap (λ x. x ++ rest) (delivered-cons log msg)
      ∙ append_assoc (delivered ch log) (msg ∷ []) rest

  spoken-AreTexts :
      (lines : List Bytes) → AreTexts (map (λ line. text_message uid (says name line)) lines)
  spoken-AreTexts [] = tt
  spoken-AreTexts (line ∷ lines) = (refl, spoken-AreTexts lines)

  -- The copies of the lines, as the channel sends them.
  abbrev heard_events : ChatChannel → List Bytes → List Event
  heard_events room lines =
      received (map (text_copy room) (map (λ line. text_message uid (says name line)) lines))

  heard-AreCalm :
      (id : Int64) (v : Bytes × Escape) (room : ChatChannel) (lines : List Bytes)
      → ArePrintable name lines
      → AreCalm id v (heard_events room lines)
  heard-AreCalm id v room [] p = tt
  heard-AreCalm id v room (line ∷ lines) p = ((tt, p.0), heard-AreCalm id v room lines p.1)

  heard-talks :
      (v : Bytes × Escape) (room : ChatChannel) (lines : List Bytes)
      → talks v (heard_events room lines) ≡ v
  heard-talks v room [] = refl
  heard-talks v room (line ∷ lines) = heard-talks v room lines

  heard-Reads :
      (room : ChatChannel) (lines old new : List Bytes)
      → Rows (heard_events room lines) old new
      → Reads name lines old new
  heard-Reads room [] old new r = r
  heard-Reads room (line ∷ lines) old new (mid, (w, b, e), r) =
      (w, b, subst (λ x. Reads name lines x new) e (heard-Reads room lines mid new r))

module _ (sql : Sql) (fails : List Effect → Bytes → Bool)
    (works : (trace : List Effect) (text : Bytes) → fails trace text ≡ false) where
  -- No write fails. One user, the speaker, is on a channel and at the prompt of a command, once a
  -- prompt is written where one is due, and has sent nothing before; the speaker types any bytes but
  -- ^C and ^D, hands over no line that begins with a slash, a quote or a semicolon, and receives
  -- printable messages of the channel in between. The chat channel handles what was sent to `ch`, in
  -- order, and each round over its members visits each of them once. Another user, the listener, is
  -- on a channel and at a prompt likewise, has a Go channel that exactly one member of the chat
  -- channel has, and receives what the chat channel sends to it. The prompts and the quoted lines are
  -- printable. Then on the terminal of the listener, once a prompt is written where one is due, every
  -- line that the speaker handed over and that was not blank stands once, quoted, in a line of its
  -- own, in the order of typing; and below them the terminal shows the listener's prompt and the line
  -- that the listener had typed.
  pub said-heard :
      (p q name name' : Bytes) (uid uid' : Int64) (ch ch' incoming : Chan) (es : List Event)
      (s r : UserInfo sql.Db) (room : ChatChannel) (visit : Dict UserEntry → Dict UserEntry)
      → IsPrintable p
      → AreCalm s.doppelganger_id (view (prompt fails s)) es
      → IsAtPrompt p (prompt fails s)
      → IsTalking uid name ch (prompt fails s)
      → said (prompt fails s).trace ≡ []
      → IsPrintable q
      → IsAtPrompt q (prompt fails r)
      → IsTalking uid' name' ch' (prompt fails r)
      → IsRound visit
      → holders r.incoming_from_chat_channel room.member_list ≡ 1
      → ArePrintable name (speeches (view (prompt fails s)) es)
      → let sent = delivered ch (said (prompt fails (run sql fails s es).state).trace) in
        let letters =
          mail r.incoming_from_chat_channel (loop visit incoming room (talked sent)).effects in
        let t = (run sql fails r (received letters)).state in
        IsAtPrompt q (prompt fails t)
        × (view (prompt fails t) ≡ view (prompt fails r))
        × Reads name
            (speeches (view (prompt fails s)) es)
            (page (prompt fails r).trace).0
            (page (prompt fails t).trace).0
  said-heard p q name name' uid uid' ch ch' incoming es s r room visit pp calm a k none qq b l round
        one pl =
      let lines = speeches (view (prompt fails s)) es in
      let shown = run-IsShown sql fails works p uid name ch es s pp calm a k in
      let out = map (λ line. text_message uid (says name line)) lines in
      let sent : delivered ch (said (prompt fails (run sql fails s es).state).trace) ≡ out =
        ap (delivered ch) (shown.sent ∙ ap (λ log. sends ch uid name log lines) none)
        ∙ delivered-sends uid name ch [] lines in
      let c = r.incoming_from_chat_channel in
      let letters =
        ap (λ x. mail c (loop visit incoming room (talked x)).effects) sent
        ∙ loop-mail visit round incoming c room out one (spoken-AreTexts uid name ch lines) in
      let events = heard_events uid name ch room lines in
      let heard =
        run-IsShown sql fails works q uid' name' ch' events r qq
          (heard-AreCalm uid name ch r.doppelganger_id (view (prompt fails r)) room lines pl) b l in
      let P = λ (x : List Event).
        let t = (run sql fails r x).state in
        IsAtPrompt q (prompt fails t)
        × (view (prompt fails t) ≡ view (prompt fails r))
        × Reads name lines (page (prompt fails r).trace).0 (page (prompt fails t).trace).0 in
      subst P (sym (ap received letters)) (
        heard.at_prompt,
        heard.edited ∙ heard-talks uid name ch (view (prompt fails r)) room lines,
        heard-Reads uid name ch room lines (page (prompt fails r).trace).0
            (page (prompt fails (run sql fails r events).state).trace).0 heard.above,
      )
