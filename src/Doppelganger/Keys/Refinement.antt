-- ===== src/Doppelganger/Keys/Refinement.antt =====
-- daemon/doppelganger.go: the stages for a byte refine the abstract line editor.
use mathlib.Core.List.{foldl}
use mathlib.Core.Path.{ap₂}
use wtelnet.Common.{ℕ, ◌≡◌, refl, ◌∙◌, ap, Bool, Option, List, [], ◌∷◌, Bytes, map}
use wtelnet.Doppelganger.{UserInfo, Effect, typed}
use wtelnet.Doppelganger.Keys.{receive, control_sequence, echo, edit, key}
use wtelnet.Doppelganger.Keys.Bounds.{
  IsInRange, control_sequence-IsInRange, control_code-IsInRange, echo-IsInRange, key-IsInRange,
}
use wtelnet.Doppelganger.Keys.Typing.{
  input_byte, interpret, typed_after, type_byte, escape, view, IsReading, meaning, edit-typed,
  meaning-interpret, meaning-began, receive-lem, echo-view, edit-escape,
}

module _ {Db : Type 0} (fails : List Effect → Bytes → Bool) where
  -- The last two stages: the echo changes no line, and the edit is the abstract one.
  finish-view :
      (c : ℕ) (s : UserInfo Db)
      → IsInRange s
      → (typed (edit c (echo fails c s)) ≡ typed_after c (typed s))
        × (escape (edit c (echo fails c s)) ≡ escape s)
  finish-view c s r = (
    edit-typed c (echo fails c s) (echo-IsInRange s r fails c)
        ∙ ap (λ v. typed_after c (v.0)) (echo-view fails c s).0,
    (edit-escape c (echo fails c s)).0 ∙ ap (λ v. v.1) (echo-view fails c s).0,
  )

  -- The stages after the first.
  byte-refines :
      (c : ℕ) (s : UserInfo Db)
      → IsReading s
      → let (c', s') = meaning c s in
        (c' ≡ (interpret (escape s) c).0)
        × (view (edit c' (echo fails c' s')) ≡ type_byte (view s) c)
  byte-refines c s r =
      let (c', s') = meaning c s in
      let m = meaning-interpret c s r in
      let range =
        control_code-IsInRange (control_sequence c s).1 (control_sequence-IsInRange s r.in_range c)
          (control_sequence c s).0 in
      let f = finish-view c' s' range in
      (m.0, ap₂ (λ line seq. (line, seq)) (f.0 ∙ ap₂ typed_after m.0 m.2) (f.1 ∙ m.1))

  pub key-IsReading :
      (input : Option ℕ) (s : UserInfo Db) → IsReading s → IsReading (key fails input s).1
  unfolding key
  key-IsReading input s r =
      let r₁ = (receive-lem input s r).2 in
      let (c₁, s₁) = receive input s in
      let m = meaning-began c₁ s₁ r₁ in
      let (c', s') = meaning c₁ s₁ in
      let e = echo-view fails c' s' in
      let d = edit-escape c' (echo fails c' s') in
      record {
        in_range = key-IsInRange fails input s r.in_range;
        began = λ h. rw (d.1, e.1) (m.0 (rw (d.2, e.2) at h));
        no_return_before = rw (d.3, e.3, m.1) r₁.no_return_before;
      }

  -- A byte does to the line and the escape sequence what the abstract editor says, and the byte that
  -- is left is the one that the editor took.
  pub key-refines :
      (input : Option ℕ) (s : UserInfo Db)
      → IsReading s
      → ((key fails input s).0 ≡ (interpret (escape s) (input_byte input)).0)
        × (view (key fails input s).1 ≡ type_byte (view s) (input_byte input))
  unfolding key
  key-refines input s r =
      let q = receive-lem input s r in
      let b = byte-refines (receive input s).0 (receive input s).1 q.2 in
      (
        b.0 ∙ ap₂ (λ c seq. (interpret seq c).0) q.0 (ap (λ v. v.1) q.1),
        b.1 ∙ ap₂ (λ c v. type_byte v c) q.0 q.1,
      )

  abbrev pub keys : List (Option ℕ) → UserInfo Db → UserInfo Db
  keys [] s = s
  keys (input ∷ inputs) s = keys inputs (key fails input s).1

  -- From a state whose indices are in range, whose escape sequence is as far as its position says, and
  -- whose previous byte is no return: after any bytes the slice of the line buffer up to the cursor is
  -- the line of the abstract editor, which appends printable bytes, drops the last byte for a
  -- backspace, a delete or a left arrow, and ignores control codes and other escape sequences.
  pub keys-refine :
      (inputs : List (Option ℕ)) (s : UserInfo Db)
      → IsReading s
      → view (keys inputs s) ≡ foldl type_byte (view s) (map input_byte inputs)
  keys-refine [] s r = refl
  keys-refine (input ∷ inputs) s r =
      keys-refine inputs (key fails input s).1 (key-IsReading input s r)
      ∙ ap (λ v. foldl type_byte v (map input_byte inputs)) (key-refines input s r).1
