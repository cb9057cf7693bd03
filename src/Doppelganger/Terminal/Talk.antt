-- ===== src/Doppelganger/Terminal/Talk.antt =====
-- daemon/doppelganger.go: a conversation, as the user at a terminal sees it: the line that is being typed, the
-- lines that have been said, and the messages that have come.
use wtelnet.Common.{
  ℕ, ◌≡◌, Bool, true, false, not, none, some, List, [], ◌∷◌, ◌++◌, ◌==◌, ◌&&◌, Bytes, Int64,
  if◌then◌else◌, same_text,
}
use wtelnet.Helper.{trim}
use wtelnet.Doppelganger.Keys.{is_return}
use wtelnet.Doppelganger.Keys.Typing.{Escape, input_byte, interpret, type_byte}
use wtelnet.Doppelganger.Keys.Screen.{IsBlank}
use wtelnet.Doppelganger.Loop.{Event, from_telnet, from_master, from_channel}
use wtelnet.Doppelganger.Terminal.{IsPrintable}
use wtelnet.Doppelganger.Terminal.Messages.{IsNotice}
use wtelnet.Doppelganger.Terminal.Saying.{IsPlain}
use wtelnet.Doppelganger.Terminal.Typing.{ends}

-- Whether a byte hands over a line that is not blank.
abbrev pub hands_over : Bytes × Escape → ℕ → Bool
hands_over (line, seq) c = is_return (interpret seq c).0 && not (same_text (trim line) [])

-- The line editor, in which a line that is handed over is gone.
abbrev pub talk_byte : Bytes × Escape → ℕ → Bytes × Escape
talk_byte v c = if hands_over v c then ([], (interpret v.1 c).1) else type_byte v c

abbrev pub line_said : Bytes × Escape → ℕ → List Bytes
line_said v c = if hands_over v c then trim v.0 ∷ [] else []

-- The line after an event, and what was said by it.
abbrev pub talk : Bytes × Escape → Event → Bytes × Escape
talk v (from_telnet none) = v
talk v (from_telnet (some c)) = talk_byte v (input_byte (some c))
talk v (from_master m) = v
talk v (from_channel m) = v

abbrev pub speech : Bytes × Escape → Event → List Bytes
speech v (from_telnet none) = []
speech v (from_telnet (some c)) = line_said v (input_byte (some c))
speech v (from_master m) = []
speech v (from_channel m) = []

abbrev pub talks : Bytes × Escape → List Event → Bytes × Escape
talks v [] = v
talks v (e ∷ es) = talks (talk v e) es

abbrev pub speeches : Bytes × Escape → List Event → List Bytes
speeches v [] = []
speeches v (e ∷ es) = speech v e ++ speeches (talk v e) es

-- A byte that does not end the session, and hands over no command and no emote; or a printable message
-- of somebody.
abbrev pub IsCalm : Int64 → Bytes × Escape → Event → Type 0
IsCalm id v (from_telnet none) = ⊥
IsCalm id v (from_telnet (some c)) =
    (ends c ≡ false) × (hands_over v (input_byte (some c)) ≡ true → IsPlain (trim v.0))
IsCalm id v (from_master m) = ⊥
IsCalm id v (from_channel none) = ⊥
IsCalm id v (from_channel (some msg)) =
    IsNotice (id == msg.leaving_doppelganger_id) msg.operation × IsPrintable msg.parameter

abbrev pub AreCalm : Int64 → Bytes × Escape → List Event → Type 0
AreCalm id v [] = Unit {0}
AreCalm id v (e ∷ es) = IsCalm id v e × AreCalm id (talk v e) es

-- The lines above the cursor before and after: a message adds one, of its text and blanks.
abbrev pub Row : Event → List Bytes → List Bytes → Type 0
Row (from_telnet c) old new = new ≡ old
Row (from_master m) old new = new ≡ old
Row (from_channel none) old new = new ≡ old
Row (from_channel (some msg)) old new = (w : Bytes) × IsBlank w × (new ≡ (msg.parameter ++ w) ∷ old)

abbrev pub Rows : List Event → List Bytes → List Bytes → Type 0
Rows [] old new = new ≡ old
Rows (e ∷ es) old new = (mid : List Bytes) × Row e old mid × Rows es mid new
