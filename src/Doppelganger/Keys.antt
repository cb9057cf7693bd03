-- ===== src/Doppelganger/Keys.antt =====
-- daemon/doppelganger.go: what the main loop does with a byte that the user types, up to the line
-- that a return hands over. Each stage gives the byte that the next one sees; 0 is no byte.
pub mod Bounds
pub mod Typing
pub mod Refinement
pub mod Screen
use wtelnet.Common.{
  ℕ, ◌+◌, ◌-◌, Bool, true, false, Option, none, some, List, [], ◌∷◌, ◌++◌, ◌==◌, ltb, leb, ◌&&◌,
  ◌||◌, if◌then◌else◌, Bytes, length, set, get_or,
}
use wtelnet.Doppelganger.{UserInfo, Effect, say}

abbrev pub is_return : ℕ → Bool
is_return c = c == 10 || c == 13

module _ {Db : Type 0} where
  -- A closed channel, ^C and ^D end the session; a delete is a backspace.
  unfoldable pub receive : Option ℕ → UserInfo Db → ℕ × UserInfo Db
  receive none s = (0, record s { telnet_goroutine_has_gone_away = true; prompt_needed = false })
  receive (some c) s =
      if c == 3 || c == 4
      then (0, record s { telnet_goroutine_has_gone_away = true; prompt_needed = false })
      else (if c == 127 then 8 else c, record s { prompt_needed = false })

  -- The bytes of an escape sequence: the left arrow is a backspace, all others are dropped.
  unfoldable pub control_sequence : ℕ → UserInfo Db → ℕ × UserInfo Db
  control_sequence c s =
      let seq = set s.control_sequence s.ctrl_seq_position c in
      if s.ctrl_seq_position == 0
      then (c, s)
      else if s.ctrl_seq_position + 1 == 3
      then (
        if get_or seq 0 0 == 27 && get_or seq 1 0 == 91 && get_or seq 2 0 == 68 then 8 else 0,
        record s { control_sequence = seq; ctrl_seq_position = 0 },
      )
      else (0, record s { control_sequence = seq; ctrl_seq_position = s.ctrl_seq_position + 1 })

  -- Control codes. An escape opens a sequence.
  unfoldable pub control_code : ℕ → UserInfo Db → ℕ × UserInfo Db
  control_code c s =
      if ltb c 32
      then if c == 27
        then (0, record s { control_sequence = set s.control_sequence 0 c; ctrl_seq_position = 1 })
        else if is_return c
        then (if is_return s.prev_usr_byte then 0 else c, s)
        else (if c == 8 then 8 else 0, s)
      else (c, s)

  unfoldable pub echo : (List Effect → Bytes → Bool) → ℕ → UserInfo Db → UserInfo Db
  echo fails c s =
      if s.echo_on && ltb 0 c
      then if c == 8
        then if leb 1 s.cursor_column then say fails (8 ∷ 32 ∷ 8 ∷ []) s else s
        else if is_return c
        then s
        else say fails (c ∷ []) s
      else s

  -- The line buffer: a backspace moves the cursor back, and stops at 0.
  unfoldable pub edit : ℕ → UserInfo Db → UserInfo Db
  edit c s =
      if c == 0
      then s
      else if c == 8
      then record s { cursor_column = if s.cursor_column == 0 then 0 else s.cursor_column - 1 }
      else if leb 32 c
      then if ltb s.cursor_column (length s.line_buffer)
        then record s {
          line_buffer = set s.line_buffer s.cursor_column c;
          cursor_column = s.cursor_column + 1;
        }
        else record s {
          line_buffer = s.line_buffer ++ c ∷ [];
          cursor_column = length s.line_buffer + 1;
        }
      else s

  -- All stages, for a byte or for the closed channel. The byte left says whether a line is done.
  unfoldable pub key : (List Effect → Bytes → Bool) → Option ℕ → UserInfo Db → ℕ × UserInfo Db
  key fails input s =
      let (c₁, s₁) = receive input s in
      let (c₂, s₂) = control_sequence c₁ s₁ in
      let (c₃, s₃) = control_code c₂ s₂ in (c₃, edit c₃ (echo fails c₃ s₃))
