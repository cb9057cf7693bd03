-- ===== src/Doppelganger/Keys/Typing.antt =====
-- daemon/doppelganger.go: the stages for a byte, against a line editor without buffers: a line that
-- grows and shrinks at its end, and how much of an escape sequence has been read.
use native.Mathlib.Numerals.{add-one}
use wtelnet.Common.{
  ℕ, zero, suc, ◌+◌, ◌-◌, ◌≤◌, ◌<◌, ◌≡◌, refl, ap, ◌≢◌, Bool, false, Option, none, some, List, [],
  ◌∷◌, ◌++◌, ◌==◌, leb, ltb, ◌&&◌, ◌||◌, if◌then◌else◌, Bytes, arith, length, take, set, get_or,
  length-append, take-set, take-length,
}
use wtelnet.Doppelganger.{UserInfo, Effect, typed}
use wtelnet.Doppelganger.Keys.{is_return, receive, control_sequence, control_code, echo, edit}
use wtelnet.Doppelganger.Keys.Bounds.{IsInRange}

-- What has been read of an escape sequence.
pub data Escape : Type 0 where
  no_escape opened : Escape
  opened_by : ℕ → Escape

abbrev pub input_byte : Option ℕ → ℕ
input_byte none = 0
input_byte (some c) = if c == 3 || c == 4 then 0 else if c == 127 then 8 else c

-- What a byte stands for outside of a sequence: itself, or no byte for a control code.
abbrev pub plain : ℕ → ℕ
plain c = if leb 32 c || is_return c || c == 8 then c else 0

-- The byte that the line editor takes, and the escape sequence after it.
abbrev pub interpret : Escape → ℕ → ℕ × Escape
interpret no_escape c = if c == 27 then (0, opened) else (plain c, no_escape)
interpret opened c = (0, opened_by c)
interpret (opened_by b) c = (if b == 91 && c == 68 then 8 else 0, no_escape)

abbrev pub drop_last : Bytes → Bytes
drop_last [] = []
drop_last (x ∷ []) = []
drop_last (x ∷ y ∷ xs) = x ∷ drop_last (y ∷ xs)

abbrev pub typed_after : ℕ → Bytes → Bytes
typed_after c line = if c == 8 then drop_last line else if leb 32 c then line ++ c ∷ [] else line

-- The abstract line editor: a byte typed at a line and an escape sequence.
abbrev pub type_byte : Bytes × Escape → ℕ → Bytes × Escape
type_byte (line, seq) c = (typed_after (interpret seq c).0 line, (interpret seq c).1)

take-pred : (xs : Bytes) (n : ℕ) → suc n ≤ length xs → take n xs ≡ drop_last (take (suc n) xs)
take-pred [] n h = elim h [ ]
take-pred (x ∷ xs) zero h = refl
take-pred (x ∷ []) (suc n) h = absurd (omega arith)
take-pred (x ∷ y ∷ xs) (suc n) h = ap (◌∷◌ x) (take-pred (y ∷ xs) n (omega arith))

take-back :
    (xs : Bytes) (n : ℕ)
    → n ≤ length xs
    → take (if n == 0 then 0 else n - 1) xs ≡ drop_last (take n xs)
take-back xs zero h = refl
take-back xs (suc n) h = ground (arith, take-pred xs n)

take-forth :
    (xs : Bytes) (n c : ℕ) → n < length xs → take (n + 1) (set xs n c) ≡ take n xs ++ c ∷ []
take-forth xs n c h = rw add-one (take-set xs n c h)

take-end :
    (xs : Bytes) (n c : ℕ)
    → n ≤ length xs
    → ltb n (length xs) ≡ false
    → take (length xs + 1) (xs ++ c ∷ []) ≡ take n xs ++ c ∷ []
take-end xs n c h full =
    let e : n ≡ length xs = ground arith in
    let l : length xs + 1 ≡ length (xs ++ c ∷ []) = omega (arith, length-append xs (c ∷ [])) in
    rw (l, take-length (xs ++ c ∷ []), e, take-length xs)

module _ {Db : Type 0} where
  abbrev pub escape : UserInfo Db → Escape
  escape s =
      if s.ctrl_seq_position == 0
      then no_escape
      else if s.ctrl_seq_position == 1
      then opened
      else opened_by (get_or s.control_sequence 1 0)

  pub edit-typed :
      (c : ℕ) (s : UserInfo Db) → IsInRange s → typed (edit c s) ≡ typed_after c (typed s)
  unfolding edit
  edit-typed c s r = ground (
    arith,
    take-back s.line_buffer s.cursor_column r.cursor_in_line,
    take-forth s.line_buffer s.cursor_column c,
    take-end s.line_buffer s.cursor_column c r.cursor_in_line,
  )

-- What the code keeps true besides: a sequence began with an escape, and the byte before counts as
-- no return.
pub record IsReading {Db : Type 0} (s : UserInfo Db) : Type 0 where
  pub in_range : IsInRange s
  pub began : s.ctrl_seq_position ≢ 0 → get_or s.control_sequence 0 0 ≡ 27
  pub no_return_before : is_return s.prev_usr_byte ≡ false

get_or-set_0 : (xs : Bytes) (c : ℕ) → length xs ≡ 3 → get_or (set xs 0 c) 0 0 ≡ c
get_or-set_0 [] c h = absurd (omega arith)
get_or-set_0 (x ∷ xs) c h = refl

get_or-set_1 :
    (xs : Bytes) (c : ℕ)
    → length xs ≡ 3
    → (get_or (set xs 1 c) 0 0 ≡ get_or xs 0 0) × (get_or (set xs 1 c) 1 0 ≡ c)
get_or-set_1 [] c h = absurd (omega arith)
get_or-set_1 (x ∷ []) c h = absurd (omega arith)
get_or-set_1 (x ∷ y ∷ xs) c h = (refl, refl)

get_or-set_2 :
    (xs : Bytes) (c : ℕ)
    → length xs ≡ 3
    → (get_or (set xs 2 c) 0 0 ≡ get_or xs 0 0)
      × (get_or (set xs 2 c) 1 0 ≡ get_or xs 1 0)
      × (get_or (set xs 2 c) 2 0 ≡ c)
get_or-set_2 [] c h = absurd (omega arith)
get_or-set_2 (x ∷ []) c h = absurd (omega arith)
get_or-set_2 (x ∷ y ∷ []) c h = absurd (omega arith)
get_or-set_2 (x ∷ y ∷ z ∷ xs) c h = (refl, refl, refl)

module _ {Db : Type 0} where
  -- The stages between the connection and the line buffer.
  abbrev pub meaning : ℕ → UserInfo Db → ℕ × UserInfo Db
  meaning c s = let (c', s') = control_sequence c s in control_code c' s'

  pub meaning-interpret :
      (c : ℕ) (s : UserInfo Db)
      → IsReading s
      → ((meaning c s).0 ≡ (interpret (escape s) c).0)
        × (escape (meaning c s).1 ≡ (interpret (escape s) c).1)
        × (typed (meaning c s).1 ≡ typed s)
  unfolding control_sequence control_code
  meaning-interpret c s r = ground (
    arith,
    r.began,
    get_or-set_0 s.control_sequence c,
    get_or-set_1 s.control_sequence c,
    get_or-set_2 s.control_sequence c,
  )

  pub meaning-began :
      (c : ℕ) (s : UserInfo Db)
      → IsReading s
      → let s' = (meaning c s).1 in
        (s'.ctrl_seq_position ≢ 0 → get_or s'.control_sequence 0 0 ≡ 27)
        × (s'.prev_usr_byte ≡ s.prev_usr_byte)
  unfolding control_sequence control_code
  meaning-began c s r = ground (
    arith,
    r.began,
    get_or-set_0 s.control_sequence c,
    get_or-set_1 s.control_sequence c,
    get_or-set_2 s.control_sequence c,
  )

  -- The state, as the abstract editor sees it.
  abbrev pub view : UserInfo Db → Bytes × Escape
  view s = (typed s, escape s)

  pub receive-lem :
      (input : Option ℕ) (s : UserInfo Db)
      → IsReading s
      → ((receive input s).0 ≡ input_byte input)
        × (view (receive input s).1 ≡ view s)
        × IsReading (receive input s).1
  unfolding receive
  receive-lem input s r = ground arith

  pub echo-view :
      (fails : List Effect → Bytes → Bool) (c : ℕ) (s : UserInfo Db)
      → (view (echo fails c s) ≡ view s)
        × ((echo fails c s).control_sequence ≡ s.control_sequence)
        × ((echo fails c s).ctrl_seq_position ≡ s.ctrl_seq_position)
        × ((echo fails c s).prev_usr_byte ≡ s.prev_usr_byte)
  unfolding echo
  echo-view fails c s = ground arith

  pub edit-escape :
      (c : ℕ) (s : UserInfo Db)
      → (escape (edit c s) ≡ escape s)
        × ((edit c s).control_sequence ≡ s.control_sequence)
        × ((edit c s).ctrl_seq_position ≡ s.ctrl_seq_position)
        × ((edit c s).prev_usr_byte ≡ s.prev_usr_byte)
  unfolding edit
  edit-escape c s = ground arith
