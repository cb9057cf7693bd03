-- ===== src/Helper.antt =====
-- daemon/helper.go: texts, trimmed and without slashes, and numbers in decimal.
pub mod Decimal
pub mod Trimming
use Prim.Native.Nat.{◌/◌}
use mathlib.Core.List.{reverse}
use wtelnet.Common.{
  ℕ, zero, suc, ◌+◌, ◌-◌, ◌%◌, Bool, List, [], ◌∷◌, ◌==◌, ltb, ◌||◌, if◌then◌else◌, Bytes, Int64,
  modulus, sign_bit,
}

-- `trim`: white space at both ends.
abbrev pub is_space : ℕ → Bool
is_space c = c == 32 || c == 9 || c == 10 || c == 13

unfoldable pub trim_left : Bytes → Bytes
trim_left [] = []
trim_left (c ∷ cs) = if is_space c then trim_left cs else c ∷ cs

unfoldable pub trim : Bytes → Bytes
unfolding trim_left
trim text = reverse (trim_left (reverse (trim_left text)))

-- `strings.Replace(strn, "/", "", -1)`.
unfoldable pub deslash : Bytes → Bytes
deslash [] = []
deslash (c ∷ cs) = if c == b'/' then deslash cs else c ∷ deslash cs

-- The decimal digits of a number in front of a text, the last one first: at most `rounds`.
unfoldable pub digits : ℕ → ℕ → Bytes → Bytes
digits zero n text = text
digits (suc rounds) n text =
    let last = (48 + n % 10) ∷ text in
    let longer = digits rounds (n / 10) last in if ltb n 10 then last else longer

-- `strconv.FormatInt(…, 10)`. An int64 has at most nineteen digits.
unfoldable pub int64_to_str : Int64 → Bytes
unfolding digits
int64_to_str i = if ltb i sign_bit then digits 19 i [] else b'-' ∷ digits 19 (modulus - i) []

-- An `int` has 64 bits as well.
unfoldable pub int_to_str : Int64 → Bytes
int_to_str i = int64_to_str i
