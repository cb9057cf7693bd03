-- ===== src/Server/Phrase.antt =====
-- daemon/wtelnet.go: the test of `main` on the message of an error.
use mathlib.Core.Path.{ap₂}
use wtelnet.Common.{
  ℕ, suc, ltb, ◌≡◌, refl, sym, ap, ◌∙◌, true, false, some, [], ◌∷◌, ◌++◌, Bytes, Error, Bool-cases,
  Option-cases, inl, inr, arith,
}
use wtelnet.Server.{too_many, starts_with, index, keeps_going}

-- `text` stands in the message.
abbrev pub Has : Bytes → Error → Type 0
Has text e = (pre : Bytes) × (post : Bytes) × (pre ++ text ++ post ≡ e)

-- The message begins with `text`.
abbrev pub BeginsWith : Bytes → Error → Type 0
BeginsWith text e = (post : Bytes) × (text ++ post ≡ e)

-- The message says that there are too many open files, and not at its very beginning.
abbrev pub IsBusy : Error → Type 0
IsBusy e = Has too_many e × (¬ BeginsWith too_many e)

starts-split : (p t : Bytes) → starts_with p t ≡ true → BeginsWith p t
unfolding starts_with
starts-split [] t h = (t, refl)
starts-split (x ∷ p) [] h = absurd cc
starts-split (x ∷ p) (y ∷ t) h =
    let same : x ≡ y = ground arith in
    let rest : starts_with p t ≡ true = ground arith in
    let (post, q) = starts-split p t rest in (post, ap₂ (λ b bs. b ∷ bs) same q)

pub starts-append : (p post : Bytes) → starts_with p (p ++ post) ≡ true
unfolding starts_with
starts-append [] post = refl
starts-append (x ∷ p) post = ground (arith, starts-append p post)

-- Where it is found first: at 0 exactly if the message begins with it.
index-starts : (p t : Bytes) → starts_with p t ≡ true → index p t ≡ some 0
unfolding index
index-starts p [] h = ground arith
index-starts p (c ∷ t) h = ground arith

index-later : (p t : Bytes) (i : ℕ) → index p t ≡ some i → starts_with p t ≡ false → ltb 0 i ≡ true
unfolding index
index-later p [] i h s = ground arith
index-later p (c ∷ t) i h s = elim (Option-cases (index p t)) [
  | inl e ↦ ground arith
  | inr (j, e) ↦ ground arith
]

index-Has : (p t : Bytes) (i : ℕ) → index p t ≡ some i → Has p t
unfolding index
index-Has p [] i h = elim (Bool-cases (starts_with p [])) [
  | inl e ↦ let (post, q) = starts-split p [] e in ([], post, q)
  | inr e ↦ absurd (ground arith)
]
index-Has p (c ∷ t) i h = elim (Bool-cases (starts_with p (c ∷ t))) [
  | inl e ↦ let (post, q) = starts-split p (c ∷ t) e in ([], post, q)
  | inr e ↦ elim (Option-cases (index p t)) [
    | inl n ↦ absurd (ground arith)
    | inr (j, n) ↦ let (pre, post, q) = index-Has p t j n in (c ∷ pre, post, ap (◌∷◌ c) q)
  ]
]

index-found : (p pre post : Bytes) → (i : ℕ) × (index p (pre ++ p ++ post) ≡ some i)
unfolding index
index-found p [] post = (0, index-starts p (p ++ post) (starts-append p post))
index-found p (c ∷ pre) post =
    let (i, e) = index-found p pre post in
    elim (Bool-cases (starts_with p (c ∷ (pre ++ p ++ post)))) [
      | inl s ↦ (0, rw s refl)
      | inr s ↦ (suc i, rw (s, e) refl)
    ]

pub busy-keeps_going : (e : Error) → IsBusy e → keeps_going e ≡ true
unfolding keeps_going
busy-keeps_going e ((pre, post, q), n) =
    let (i, f) = index-found too_many pre post in
    let found : index too_many e ≡ some i = ap (index too_many) (sym q) ∙ f in
    elim (Bool-cases (starts_with too_many e)) [
      | inl s ↦ absurd (n (starts-split too_many e s))
      | inr s ↦ rw (found, keeps_going) (index-later too_many e i found s)
    ]

pub keeps_going-IsBusy : (e : Error) → keeps_going e ≡ true → IsBusy e
unfolding keeps_going
keeps_going-IsBusy e h = elim (Option-cases (index too_many e)) [
  | inl n ↦ absurd (ground arith)
  | inr (i, n) ↦ (
    index-Has too_many e i n,
    λ (post, q).
        let s : starts_with too_many e ≡ true =
          ap (starts_with too_many) (sym q) ∙ starts-append too_many post in
        let first = index-starts too_many e s in ground arith,
  )
]
