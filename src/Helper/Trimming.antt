-- ===== src/Helper/Trimming.antt =====
-- daemon/helper.go: what `trim` cuts off.
use mathlib.Core.List.{reverse, reverse_aux, reverse-append, reverse-reverse}
use mathlib.Core.Path.{subst}
use wtelnet.Common.{
  ◌≡◌, refl, ◌∙◌, ap, sym, true, false, [], ◌∷◌, ◌++◌, Bytes, Bool-cases, inl, inr,
}
use wtelnet.Helper.{is_space, trim_left, trim}

abbrev pub AreSpaces : Bytes → Type 0
AreSpaces [] = Unit {0}
AreSpaces (c ∷ cs) = (is_space c ≡ true) × AreSpaces cs

-- No white space comes first.
abbrev pub IsFlush : Bytes → Type 0
IsFlush [] = Unit {0}
IsFlush (c ∷ cs) = is_space c ≡ false

trim_left-lem :
    (text : Bytes)
    → (pre : Bytes) × AreSpaces pre × (text ≡ pre ++ trim_left text) × IsFlush (trim_left text)
unfolding trim_left
trim_left-lem [] = ([], tt, refl, tt)
trim_left-lem (c ∷ cs) = elim (Bool-cases (is_space c)) [
  | inl e ↦ let (pre, s, q, f) = trim_left-lem cs in rw e (c ∷ pre, (e, s), ap (◌∷◌ c) q, f)
  | inr e ↦ rw e ([], tt, refl, e)
]

AreSpaces-reverse_aux :
    (xs ys : Bytes) → AreSpaces xs → AreSpaces ys → AreSpaces (reverse_aux xs ys)
AreSpaces-reverse_aux [] ys p q = q
AreSpaces-reverse_aux (x ∷ xs) ys p q = AreSpaces-reverse_aux xs (x ∷ ys) p.1 (p.0, q)

-- A beginning of a text that is flush.
IsFlush-prefix : (xs ys : Bytes) → IsFlush (xs ++ ys) → IsFlush xs
IsFlush-prefix [] ys f = tt
IsFlush-prefix (x ∷ xs) ys f = f

-- `trim` cuts white space off both ends of a text, and leaves a text that neither begins nor ends
-- with white space.
pub trim-exactly :
    (text : Bytes)
    → (pre : Bytes) × (suf : Bytes) × AreSpaces pre
      × AreSpaces suf
      × (text ≡ pre ++ (trim text ++ suf))
      × IsFlush (trim text)
      × IsFlush (reverse (trim text))
unfolding trim
trim-exactly text =
    let (pre, s, q, f) = trim_left-lem text in
    let left = trim_left text in
    let (suf, t, r, g) = trim_left-lem (reverse left) in
    let rest = trim_left (reverse left) in
    let split : left ≡ reverse rest ++ reverse suf =
      sym (reverse-reverse left) ∙ ap reverse r ∙ reverse-append suf rest in
    (
      pre,
      reverse suf,
      s,
      AreSpaces-reverse_aux suf [] t tt,
      q ∙ ap (λ x. pre ++ x) split,
      IsFlush-prefix (reverse rest) (reverse suf) (subst IsFlush split f),
      subst IsFlush (sym (reverse-reverse rest)) g,
    )

trim_left-IsFlush : (text : Bytes) → IsFlush text → trim_left text ≡ text
unfolding trim_left
trim_left-IsFlush [] f = refl
trim_left-IsFlush (c ∷ cs) f = rw f refl

-- A text that has been trimmed is trimmed to itself.
pub trim-trim : (text : Bytes) → trim (trim text) ≡ trim text
unfolding trim
trim-trim text =
    let (pre, suf, p, q, e, f, g) = trim-exactly text in
    let t = trim text in
    ap (λ x. reverse (trim_left (reverse x))) (trim_left-IsFlush t f)
    ∙ ap reverse (trim_left-IsFlush (reverse t) g)
    ∙ reverse-reverse t
