-- ===== src/Doppelganger/Keys/Screen.antt =====
-- daemon/doppelganger.go: the line of a terminal that shows what the echo writes.
pub mod Echo
use mathlib.Core.List.{foldl}
use mathlib.Core.Path.{subst}
use wtelnet.Common.{
  ℕ, zero, suc, ◌≤◌, ◌≡◌, refl, sym, ap, ◌∙◌, inl, inr, Bool, true, false, Option, List, [], ◌∷◌,
  ◌++◌, ◌==◌, leb, if◌then◌else◌, Bytes, arith, length, take, map, Bool-cases,
}
use wtelnet.Doppelganger.{UserInfo, Effect, wrote, typed}
use wtelnet.Doppelganger.Keys.{receive, control_sequence, control_code, echo, edit, key}
use wtelnet.Doppelganger.Keys.Bounds.{
  IsInRange, control_sequence-IsInRange, control_code-IsInRange, echo-IsInRange,
}
use wtelnet.Doppelganger.Keys.Typing.{
  interpret, plain, Escape, no_escape, opened, opened_by, drop_last, typed_after, escape, IsReading,
  meaning, edit-typed, meaning-interpret, receive-lem, echo-view,
}

-- The line of a terminal with the cursor: what stands left of the cursor, the nearest first, and what
-- stands from the cursor on.
abbrev pub Screen : Type 0
Screen = Bytes × Bytes

-- A line, from its end, in front of what is left of it.
abbrev pub onto : Bytes → Bytes → Bytes
onto left [] = left
onto left (c ∷ cs) = onto (c ∷ left) cs

abbrev pub back : Bytes → Bytes → Screen
back [] right = ([], right)
back (c ∷ left) right = (left, c ∷ right)

abbrev pub rest : Bytes → Bytes
rest [] = []
rest (c ∷ cs) = cs

-- A terminal gets a byte: a backspace moves the cursor left, a return moves it to the first column, a
-- line feed opens a line, and a printable byte is put in the place of what the cursor stands on. Other
-- control codes do nothing.
abbrev pub put : Screen → ℕ → Screen
put (left, right) c =
    if c == 8
    then back left right
    else if c == 13
    then ([], onto right left)
    else if c == 10
    then (map (λ x. 32) left, [])
    else if leb 32 c
    then (c ∷ left, rest right)
    else (left, right)

-- The line after a trace, the newest write first; of a write with an error nothing arrives.
abbrev pub screen : List Effect → Screen
screen [] = ([], [])
screen (wrote text e ∷ trace) = if e then screen trace else foldl put (screen trace) text
screen (_ ∷ trace) = screen trace

abbrev pub IsBlank : Bytes → Type 0
IsBlank [] = Unit {0}
IsBlank (c ∷ cs) = (c ≡ 32) × IsBlank cs

-- The terminal shows the prompt and then the line that a return would hand over, and nothing else.
pub record Shows {Db : Type 0} (prompt : Bytes) (s : UserInfo Db) : Type 0 where
  pub line : (screen s.trace).0 ≡ onto prompt (typed s)
  pub blank : IsBlank (screen s.trace).1

pub onto-snoc : (left cs : Bytes) (c : ℕ) → onto left (cs ++ c ∷ []) ≡ c ∷ onto left cs
onto-snoc left [] c = refl
onto-snoc left (x ∷ cs) c = onto-snoc (x ∷ left) cs c

pub onto-drop_last :
    (left : Bytes) (c : ℕ) (cs : Bytes)
    → (x : ℕ) × (onto left (c ∷ cs) ≡ x ∷ onto left (drop_last (c ∷ cs)))
onto-drop_last left c [] = (c, refl)
onto-drop_last left c (d ∷ cs) = onto-drop_last (c ∷ left) d cs

pub rest-IsBlank : (cs : Bytes) → IsBlank cs → IsBlank (rest cs)
rest-IsBlank [] b = tt
rest-IsBlank (c ∷ cs) b = b.1

-- A backspace, a blank and a backspace.
pub wiped :
    (scr : Screen) (x : ℕ) (left : Bytes)
    → scr.0 ≡ x ∷ left
    → foldl put scr (8 ∷ 32 ∷ 8 ∷ []) ≡ (left, 32 ∷ scr.1)
wiped scr x left e = ap (λ l. ((back l scr.1).0, 32 ∷ rest (back l scr.1).1)) e

-- A byte that is left when the control codes are gone.
abbrev pub IsPlain : ℕ → Type 0
IsPlain c = plain c ≡ c

pub interpret-IsPlain : (seq : Escape) (c : ℕ) → IsPlain (interpret seq c).0
interpret-IsPlain no_escape c = ground arith
interpret-IsPlain opened c = refl
interpret-IsPlain (opened_by b) c = ground arith

pub typed-cases :
    (xs : Bytes) (n : ℕ)
    → n ≤ length xs
    → leb 1 n ≡ true
    → (c : ℕ) × (cs : Bytes) × (take n xs ≡ c ∷ cs)
typed-cases xs zero h l = absurd (ground arith)
typed-cases [] (suc n) h l = absurd (omega arith)
typed-cases (x ∷ xs) (suc n) h l = (x, take n xs, refl)

pub put-printable : (scr : Screen) (c : ℕ) → leb 32 c ≡ true → put scr c ≡ (c ∷ scr.0, rest scr.1)
put-printable scr c l =
    let a : c == 8 ≡ false = ground arith in
    let b : c == 13 ≡ false = ground arith in
    let d : c == 10 ≡ false = ground arith in rw (a, b, d, l)
