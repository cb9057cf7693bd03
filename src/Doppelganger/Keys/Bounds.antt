-- ===== src/Doppelganger/Keys/Bounds.antt =====
-- daemon/doppelganger.go: the indices of the line buffer and of the escape sequence stay in range.
use wtelnet.Common.{
  ℕ, ◌≤◌, ◌≡◌, Option, Bool, List, [], ◌∷◌, Bytes, arith, length, length-append, length-set,
}
use wtelnet.Doppelganger.{UserInfo, Effect}
use wtelnet.Doppelganger.Keys.{receive, control_sequence, control_code, echo, edit, key}

-- The slice `lineBuffer[:cursorColumn]` and the writes `controlSequence[ctrlSeqPosition] = …` and
-- `controlSequence[0] = …` are in range.
pub record IsInRange {Db : Type 0} (s : UserInfo Db) : Type 0 where
  pub cursor_in_line : s.cursor_column ≤ length s.line_buffer
  pub position_in_sequence : s.ctrl_seq_position ≤ 2
  pub sequence_of_three : length s.control_sequence ≡ 3

module _ {Db : Type 0} (s : UserInfo Db) (r : IsInRange s) where
  pub receive-IsInRange : (input : Option ℕ) → IsInRange (receive input s).1
  unfolding receive
  receive-IsInRange input = ground arith

  pub control_sequence-IsInRange : (c : ℕ) → IsInRange (control_sequence c s).1
  unfolding control_sequence
  control_sequence-IsInRange c = ground (arith, length-set s.control_sequence s.ctrl_seq_position c)

  pub control_code-IsInRange : (c : ℕ) → IsInRange (control_code c s).1
  unfolding control_code
  control_code-IsInRange c = ground (arith, length-set s.control_sequence 0 c)

  pub echo-IsInRange : (fails : List Effect → Bytes → Bool) (c : ℕ) → IsInRange (echo fails c s)
  unfolding echo
  echo-IsInRange fails c = ground arith

  pub edit-IsInRange : (c : ℕ) → IsInRange (edit c s)
  unfolding edit
  edit-IsInRange c =
      ground
        (arith, length-set s.line_buffer s.cursor_column c, length-append s.line_buffer (c ∷ []))

-- No byte that the user types, and no end of the connection, takes an index out of range.
pub key-IsInRange :
    {Db : Type 0} (fails : List Effect → Bytes → Bool) (input : Option ℕ) (s : UserInfo Db)
    → IsInRange s
    → IsInRange (key fails input s).1
unfolding key
key-IsInRange fails input s r =
    let (c₁, s₁) = receive input s in
    let r₁ = receive-IsInRange s r input in
    let (c₂, s₂) = control_sequence c₁ s₁ in
    let r₂ = control_sequence-IsInRange s₁ r₁ c₁ in
    let (c₃, s₃) = control_code c₂ s₂ in
    let r₃ = control_code-IsInRange s₂ r₂ c₂ in
    edit-IsInRange (echo fails c₃ s₃) (echo-IsInRange s₃ r₃ fails c₃) c₃
