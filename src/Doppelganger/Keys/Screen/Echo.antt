-- ===== src/Doppelganger/Keys/Screen/Echo.antt =====
-- daemon/doppelganger.go: the echo of what the user types, on the line of a terminal.
use mathlib.Core.List.{foldl}
use mathlib.Core.Path.{subst}
use wtelnet.Common.{
  ℕ, ◌≡◌, refl, sym, ap, ◌∙◌, inl, inr, Bool, true, false, Option, List, [], ◌∷◌, ◌==◌, leb, Bytes,
  arith, take, Bool-cases,
}
use wtelnet.Doppelganger.{UserInfo, Effect, wrote, typed}
use wtelnet.Doppelganger.Keys.{receive, control_sequence, control_code, echo, edit, key}
use wtelnet.Doppelganger.Keys.Bounds.{
  IsInRange, control_sequence-IsInRange, control_code-IsInRange, echo-IsInRange,
}
use wtelnet.Doppelganger.Keys.Typing.{
  drop_last, typed_after, escape, IsReading, meaning, edit-typed, meaning-interpret, receive-lem,
  echo-view,
}
use wtelnet.Doppelganger.Keys.Refinement.{keys, key-IsReading}
use wtelnet.Doppelganger.Keys.Screen.{
  IsBlank, IsPlain, Screen, Shows, interpret-IsPlain, onto, onto-drop_last, onto-snoc, put,
  put-printable, rest, rest-IsBlank, screen, typed-cases, wiped,
}

module _ {Db : Type 0} (fails : List Effect → Bytes → Bool)
    (works : (trace : List Effect) (text : Bytes) → fails trace text ≡ false) where
  edit-trace :
      (c : ℕ) (s : UserInfo Db) → ((edit c s).trace ≡ s.trace) × ((edit c s).echo_on ≡ s.echo_on)
  unfolding edit
  edit-trace c s = ground arith

  echo-wipes :
      (s : UserInfo Db)
      → s.echo_on ≡ true
      → leb 1 s.cursor_column ≡ true
      → screen (echo fails 8 s).trace ≡ foldl put (screen s.trace) (8 ∷ 32 ∷ 8 ∷ [])
  unfolding echo
  echo-wipes s on l = rw (on, l, works s.trace (8 ∷ 32 ∷ 8 ∷ []))

  echo-stops : (s : UserInfo Db) → leb 1 s.cursor_column ≡ false → (echo fails 8 s).trace ≡ s.trace
  unfolding echo
  echo-stops s l = ground arith

  echo-writes :
      (c : ℕ) (s : UserInfo Db)
      → s.echo_on ≡ true
      → leb 32 c ≡ true
      → (echo fails c s).trace ≡ wrote (c ∷ []) (fails s.trace (c ∷ [])) ∷ s.trace
  unfolding echo
  echo-writes c s on l = ground arith

  echo-prints :
      (c : ℕ) (s : UserInfo Db)
      → s.echo_on ≡ true
      → leb 32 c ≡ true
      → screen (echo fails c s).trace ≡ (c ∷ (screen s.trace).0, rest (screen s.trace).1)
  echo-prints c s on l =
      ap screen (echo-writes c s on l)
      ∙ rw (works s.trace (c ∷ []), put-printable (screen s.trace) c l)

  echo-silent :
      (c : ℕ) (s : UserInfo Db)
      → IsPlain c
      → c == 8 ≡ false
      → leb 32 c ≡ false
      → (echo fails c s).trace ≡ s.trace
  unfolding echo
  echo-silent c s p e l = ground arith

  module _ (prompt : Bytes) (s : UserInfo Db) (v : Shows prompt s) (r : IsInRange s)
      (on : s.echo_on ≡ true) where
    finish_typed : (c : ℕ) → typed (edit c (echo fails c s)) ≡ typed_after c (typed s)
    finish_typed c =
        edit-typed c (echo fails c s) (echo-IsInRange s r fails c)
        ∙ ap (λ w. typed_after c (w.0)) (echo-view fails c s).0

    -- What a byte must do to the screen.
    finish-Shows :
        (c : ℕ) (scr : Screen)
        → screen (echo fails c s).trace ≡ scr
        → scr.0 ≡ onto prompt (typed_after c (typed s))
        → IsBlank scr.1
        → Shows prompt (edit c (echo fails c s))
    finish-Shows c scr e l b =
        let same : screen (edit c (echo fails c s)).trace ≡ scr =
          ap screen (edit-trace c (echo fails c s)).0 ∙ e in
        record {
          line = ap (λ x. x.0) same ∙ l ∙ ap (onto prompt) (sym (finish_typed c));
          blank = rw same b;
        }

    back-Shows : Shows prompt (edit 8 (echo fails 8 s))
    back-Shows = elim (Bool-cases (leb 1 s.cursor_column)) [
      | inl l ↦
          let (c, cs, e) = typed-cases s.line_buffer s.cursor_column r.cursor_in_line l in
          let (x, o) = onto-drop_last prompt c cs in
          let left : (screen s.trace).0 ≡ x ∷ onto prompt (drop_last (c ∷ cs)) =
            v.line ∙ ap (onto prompt) e ∙ o in
          finish-Shows 8 (onto prompt (drop_last (c ∷ cs)), 32 ∷ (screen s.trace).1)
            (echo-wipes s on l ∙ wiped (screen s.trace) x (onto prompt (drop_last (c ∷ cs))) left)
            (ap (λ t. onto prompt (drop_last t)) (sym e)) (refl, v.blank)
      | inr l ↦
          let first : s.cursor_column ≡ 0 = ground arith in
          let none_typed : typed s ≡ [] = ap (λ n. take n s.line_buffer) first in
          finish-Shows 8 (screen s.trace) (ap screen (echo-stops s l))
            (v.line ∙ ap (onto prompt) (none_typed ∙ ap drop_last (sym none_typed))) v.blank
    ]

    byte-Shows : (c : ℕ) → IsPlain c → Shows prompt (edit c (echo fails c s))
    byte-Shows c p = elim (Bool-cases (c == 8)) [
      | inl e ↦
          let same : c ≡ 8 = ground arith in
          subst (λ b. Shows prompt (edit b (echo fails b s))) (sym same) back-Shows
      | inr e ↦ elim (Bool-cases (leb 32 c)) [
        | inl l ↦
            finish-Shows c (c ∷ (screen s.trace).0, rest (screen s.trace).1) (echo-prints c s on l)
              (ap (◌∷◌ c) v.line ∙ sym (onto-snoc prompt (typed s) c) ∙ rw (e, l))
              (rest-IsBlank (screen s.trace).1 v.blank)
        | inr l ↦
            finish-Shows c (screen s.trace) (ap screen (echo-silent c s p e l)) (v.line ∙ rw (e, l))
              v.blank
      ]
    ]

  meaning-keeps :
      (c : ℕ) (s : UserInfo Db)
      → ((meaning c s).1.trace ≡ s.trace) × ((meaning c s).1.echo_on ≡ s.echo_on)
  unfolding control_sequence control_code
  meaning-keeps c s = ground arith

  receive-keeps :
      (input : Option ℕ) (s : UserInfo Db)
      → ((receive input s).1.trace ≡ s.trace) × ((receive input s).1.echo_on ≡ s.echo_on)
  unfolding receive
  receive-keeps input s = ground arith

  echo-echo_on : (c : ℕ) (s : UserInfo Db) → (echo fails c s).echo_on ≡ s.echo_on
  unfolding echo
  echo-echo_on c s = ground arith

  -- The stages before the echo leave what the terminal shows as it is.
  moved-Shows :
      (prompt : Bytes) (s t : UserInfo Db)
      → t.trace ≡ s.trace
      → typed t ≡ typed s
      → Shows prompt s
      → Shows prompt t
  moved-Shows prompt s t e f v = record {
    line = ap (λ x. (screen x).0) e ∙ v.line ∙ ap (onto prompt) (sym f);
    blank = subst (λ x. IsBlank (screen x).1) (sym e) v.blank;
  }

  pub key-Shows :
      (prompt : Bytes) (input : Option ℕ) (s : UserInfo Db)
      → IsReading s
      → s.echo_on ≡ true
      → Shows prompt s
      → Shows prompt (key fails input s).1 × ((key fails input s).1.echo_on ≡ true)
  unfolding key
  key-Shows prompt input s r on v =
      let (c₁, s₁) = receive input s in
      let q = (receive-lem input s r).1 in
      let r₁ = (receive-lem input s r).2 in
      let (c, t) = meaning c₁ s₁ in
      let m = meaning-interpret c₁ s₁ r₁ in
      let range =
        control_code-IsInRange (control_sequence c₁ s₁).1
          (control_sequence-IsInRange s₁ r₁.in_range c₁) (control_sequence c₁ s₁).0 in
      let on' : t.echo_on ≡ true = (meaning-keeps c₁ s₁).1 ∙ (receive-keeps input s).1 ∙ on in
      let v' =
        moved-Shows prompt s t ((meaning-keeps c₁ s₁).0 ∙ (receive-keeps input s).0)
          (m.2 ∙ ap (λ w. w.0) q) v in
      let p : IsPlain c = subst IsPlain (sym m.0) (interpret-IsPlain (escape s₁) c₁) in
      (
        byte-Shows prompt t v' range on' c p,
        (edit-trace c (echo fails c t)).1 ∙ echo-echo_on c t ∙ on',
      )

  -- From a state whose indices are in range, whose escape sequence is as far as its position says,
  -- and whose previous byte is no return, while the echo is on and no write has an error: if a
  -- terminal shows a prompt and then the line that a return would hand over, with the cursor behind
  -- it and blanks from there on, then it shows the same prompt and the line that a return would hand
  -- over, likewise, after any bytes that the user types, backspaces, arrow keys and returns
  -- included.
  pub keys-Shows :
      (prompt : Bytes) (inputs : List (Option ℕ)) (s : UserInfo Db)
      → IsReading s
      → s.echo_on ≡ true
      → Shows prompt s
      → Shows prompt (keys fails inputs s)
  keys-Shows prompt [] s r on v = v
  keys-Shows prompt (input ∷ inputs) s r on v =
      let (v', on') = key-Shows prompt input s r on v in
      keys-Shows prompt inputs (key fails input s).1 (key-IsReading fails input s r) on' v'
