-- ===== src/Helper/Decimal.antt =====
-- daemon/helper.go: the number that stands in a text of `int64ToStr`.
use Prim.Native.Nat.{◌/◌}
use mathlib.Core.Path.{subst}
use wtelnet.Common.{
  ℕ, zero, suc, ◌+◌, ◌-◌, ◌*◌, ◌%◌, ◌^◌, ◌<◌, ◌≡◌, refl, ◌∙◌, ap, sym, Bool, true, false, [], ◌∷◌,
  ◌==◌, leb, ltb, ◌&&◌, if◌then◌else◌, Bytes, Int64, modulus, sign_bit, arith, Bool-cases, inl, inr,
  if_elim, ◌≢◌,
}
use wtelnet.Helper.{digits, int64_to_str}

-- The number that decimal digits stand for, after those that have been read.
abbrev pub value : ℕ → Bytes → ℕ
value n [] = n
value n (c ∷ cs) = value (n * 10 + (c - 48)) cs

abbrev pub AreDigits : Bytes → Type 0
AreDigits [] = Unit {0}
AreDigits (c ∷ cs) = (leb 48 c && leb c 57 ≡ true) × AreDigits cs

-- The last digit after the digits before it.
value-last : (n : ℕ) (text : Bytes) → value (n / 10) ((48 + n % 10) ∷ text) ≡ value n text
value-last n text = ap (λ x. value x text) (omega arith)

value-digits : (k n : ℕ) (text : Bytes) → n < 10 ^ k → value 0 (digits k n text) ≡ value n text
unfolding digits
value-digits zero n text h = ap (λ x. value x text) (omega arith)
value-digits (suc k) n text h = elim (Bool-cases (ltb n 10)) [
  | inl e ↦ rw e (ap (λ x. value x text) (ground arith))
  | inr e ↦
      rw e (value-digits k (n / 10) ((48 + n % 10) ∷ text) (omega (arith, h)) ∙ value-last n text)
]

digits-AreDigits : (k n : ℕ) (text : Bytes) → AreDigits text → AreDigits (digits k n text)
unfolding digits
digits-AreDigits zero n text d = d
digits-AreDigits (suc k) n text d =
    let last : AreDigits ((48 + n % 10) ∷ text) = (ground arith, d) in
    if_elim AreDigits (ltb n 10) last (digits-AreDigits k (n / 10) ((48 + n % 10) ∷ text) last)

-- No digit 0 comes first, but in the number 0.
abbrev pub IsShort : Bytes → Type 0
IsShort [] = ⊥
IsShort (c ∷ []) = Unit {0}
IsShort (c ∷ d ∷ cs) = c ≢ 48

digits-IsShort :
    (k n : ℕ) (text : Bytes)
    → n < 10 ^ k
    → n ≢ 0
    → (c : ℕ) × (cs : Bytes) × (digits k n text ≡ c ∷ cs) × (c ≢ 48)
unfolding digits
digits-IsShort zero n text h p = absurd (p (omega (arith, h)))
digits-IsShort (suc k) n text h p = elim (Bool-cases (ltb n 10)) [
  | inl e ↦ (48 + n % 10, text, rw e refl, ground arith)
  | inr e ↦
      let (c, cs, q, d) =
        digits-IsShort k (n / 10) ((48 + n % 10) ∷ text) (omega (arith, h)) (ground arith) in
      (c, cs, rw e q, d)
]

-- The decimal form of a number that is not negative.
abbrev pub IsNumeral : Bytes → Type 0
IsNumeral text = AreDigits text × IsShort text

IsShort-cons : (c : ℕ) (cs : Bytes) → c ≢ 48 → IsShort (c ∷ cs)
IsShort-cons c [] d = tt
IsShort-cons c (x ∷ cs) d = d

digits-IsNumeral : (n : ℕ) → n < 10 ^ 19 → IsNumeral (digits 19 n [])
digits-IsNumeral n h = (
  digits-AreDigits 19 n [] tt,
  elim (Bool-cases (n == 0)) [
    | inl e ↦
        let z : n ≡ 0 = ground arith in
        subst (λ m. IsShort (digits 19 m [])) (sym z) (unfold digits in tt)
    | inr e ↦
        let (c, cs, q, d) = digits-IsShort 19 n [] h (ground arith) in
        subst IsShort (sym q) (IsShort-cons c cs d)
  ],
)

-- The int64 that a text stands for: after a minus sign it is negative.
abbrev pub read_int64 : Bytes → Int64
read_int64 [] = 0
read_int64 (c ∷ cs) = if c == b'-' then modulus - value 0 cs else value 0 (c ∷ cs)

-- A numeral, with a minus sign in front of it where the number is negative.
abbrev pub IsDecimal : Bool → Bytes → Type 0
IsDecimal false text = IsNumeral text
IsDecimal true [] = ⊥
IsDecimal true (c ∷ cs) = (c ≡ b'-') × IsNumeral cs × (value 0 cs ≢ 0)

read-numeral : (text : Bytes) → AreDigits text → read_int64 text ≡ value 0 text
read-numeral [] d = refl
read-numeral (c ∷ cs) d = ground arith

-- The text of an int64 is its decimal form, without zeros in front and with a minus sign exactly where
-- it is negative, and the number is read back from it: also the least int64, whose negation is
-- itself.
pub int64_to_str-read :
    (i : Int64)
    → i < modulus
    → IsDecimal (leb sign_bit i) (int64_to_str i) × (read_int64 (int64_to_str i) ≡ i)
unfolding int64_to_str
int64_to_str-read i h = elim (Bool-cases (ltb i sign_bit)) [
  | inl e ↦
      let n : leb sign_bit i ≡ false = ground arith in
      let small : i < 10 ^ 19 = ground arith in
      rw (e, n)
        (
          digits-IsNumeral i small,
          read-numeral (digits 19 i []) (digits-AreDigits 19 i [] tt) ∙ value-digits 19 i [] small,
        )
  | inr e ↦
      let n : leb sign_bit i ≡ true = ground arith in
      let small : modulus - i < 10 ^ 19 = ground arith in
      let positive : modulus - i ≢ 0 = ground arith in
      let v = value-digits 19 (modulus - i) [] small in
      rw (e, n)
        (
          (refl, digits-IsNumeral (modulus - i) small, λ z. positive (sym v ∙ z)),
          ap (λ x. modulus - x) v ∙ ground arith,
        )
]
