-- ===== src/Doppelganger/Backspace.antt =====
-- daemon/doppelganger.go: `backspaceOut`, and the buffer that it keeps so as not to allocate anew.
use wtelnet.Common.{
  ℕ, zero, suc, ◌+◌, ◌-◌, ◌*◌, ◌≤◌, ◌≡◌, refl, ap, ◌∙◌, inl, inr, Bool, List, ◌∷◌, ◌++◌, ltb, Bytes,
  arith, length, take, Bool-cases,
}
use Prim.Native.Nat.{◌/◌}
use wtelnet.Doppelganger.{UserInfo, Effect, wrote, blanks, grow_backspace_buffer, backspace_out}

-- The buffer holds whole rounds of backspace, blank, backspace.
abbrev pub IsBlanks : Bytes → Type 0
IsBlanks buffer = buffer ≡ blanks (length buffer / 3)

length-blanks : (n : ℕ) → length (blanks n) ≡ 3 * n
unfolding blanks
length-blanks zero = refl
length-blanks (suc n) = omega (arith, length-blanks n)

pub blanks-append : (m n : ℕ) → blanks m ++ blanks n ≡ blanks (m + n)
unfolding blanks
blanks-append zero n = ap blanks (omega arith)
blanks-append (suc m) n =
    ap (λ l. 8 ∷ 32 ∷ 8 ∷ l) (blanks-append m n)
    ∙ ap blanks (let e : suc (m + n) ≡ suc m + n = omega arith in e)

take-blanks : (m n : ℕ) → m ≤ n → take (m * 3) (blanks n) ≡ blanks m
unfolding blanks
take-blanks zero n h = refl
take-blanks (suc m) zero h = elim h [ ]
take-blanks (suc m) (suc n) h =
    let e : suc m * 3 ≡ suc (suc (suc (m * 3))) = omega arith in
    rw e (ap (λ l. 8 ∷ 32 ∷ 8 ∷ l) (take-blanks m n (omega arith)))

IsBlanks-blanks : (n : ℕ) → IsBlanks (blanks n)
IsBlanks-blanks n = ap blanks (omega (arith, length-blanks n))

-- Grown or not, the buffer is whole rounds, at least as many as the amount.
grow-blanks :
    (buffer : Bytes) (amount : ℕ)
    → IsBlanks buffer
    → (n : ℕ) × (amount ≤ n) × (grow_backspace_buffer buffer amount ≡ blanks n)
unfolding grow_backspace_buffer
grow-blanks buffer amount b =
    let k = length buffer / 3 in
    let l : length buffer ≡ 3 * k = omega (arith, ap length b, length-blanks k) in
    elim (Bool-cases (ltb (length buffer) (amount * 3))) [
      | inl short ↦ (
        amount,
        omega arith,
        rw short (
            ap (λ x. x ++ blanks ((amount * 3 - length buffer + 2) / 3)) b
            ∙ blanks-append k ((amount * 3 - length buffer + 2) / 3)
            ∙ ap blanks (ground arith)),
      )
      | inr long ↦ (k, ground arith, rw long b)
    ]

pub grow-IsBlanks :
    (buffer : Bytes) (amount : ℕ) → IsBlanks buffer → IsBlanks (grow_backspace_buffer buffer amount)
grow-IsBlanks buffer amount b =
    let (n, _, e) = grow-blanks buffer amount b in rw e (IsBlanks-blanks n)

-- From a buffer of whole rounds, `backspaceOut` makes one write, of exactly as many rounds of
-- backspace, blank and backspace as it is asked for, returns the error of that write, and leaves a
-- buffer of whole rounds.
pub backspace_out-rounds :
    {Db : Type 0} (fails : List Effect → Bytes → Bool) (s : UserInfo Db) (amount : ℕ)
    → IsBlanks s.backspace_buffer
    → let (e, s') = backspace_out fails s amount in
      (e ≡ fails s.trace (blanks amount))
      × (s'.trace ≡ wrote (blanks amount) (fails s.trace (blanks amount)) ∷ s.trace)
      × IsBlanks s'.backspace_buffer
unfolding backspace_out
backspace_out-rounds fails s amount b =
    let (n, le, e) = grow-blanks s.backspace_buffer amount b in
    let t : take (amount * 3) (grow_backspace_buffer s.backspace_buffer amount) ≡ blanks amount =
      ap (take (amount * 3)) e ∙ take-blanks amount n le in
    (
      ap (fails s.trace) t,
      ap (λ x. wrote x (fails s.trace x) ∷ s.trace) t,
      grow-IsBlanks s.backspace_buffer amount b,
    )
