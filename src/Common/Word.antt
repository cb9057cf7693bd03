-- ===== src/Common/Word.antt =====
-- Go's `int64`, and `int` on a 64-bit machine, as bit patterns below 2 ^ 64.
use Prim.Native.Nat.{ℕ, ◌+◌, ◌%◌}
use mathlib.Core.Bool.{Bool, ◌&&◌}
use wtelnet.Common.Tests.{ltb, leb}

abbrev pub Int64 : Type 0
Int64 = ℕ

abbrev pub modulus : ℕ
modulus = 18446744073709551616

abbrev pub sign_bit : ℕ
sign_bit = 9223372036854775808

abbrev pub minus_one : Int64
minus_one = 18446744073709551615

-- `x++` and `x--`.
abbrev pub inc : Int64 → Int64
inc x = (x + 1) % modulus

abbrev pub dec : Int64 → Int64
dec x = (x + minus_one) % modulus

-- `x > 0`, and `x >= k` for a `k` that is not negative.
abbrev pub is_positive : Int64 → Bool
is_positive x = ltb 0 x && ltb x sign_bit

abbrev pub at_least : ℕ → Int64 → Bool
at_least k x = leb k x && ltb x sign_bit
