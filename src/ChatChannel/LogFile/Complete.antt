-- ===== src/ChatChannel/LogFile/Complete.antt =====
-- daemon/chatchannel.go: `logConversationMessage` writes the whole line where the file takes it.
use mathlib.Core.List.{append_assoc}
use wtelnet.Common.{
  ℕ, zero, suc, ◌+◌, ◌≤◌, ◌≡◌, refl, ap, sym, ◌∙◌, none, List, [], ◌∷◌, ◌++◌, ◌==◌, ltb, Bytes,
  arith, length, take, drop, take-append-drop, take-length, if_elim, Bool-cases, Option-cases, inl,
  inr,
}
use wtelnet.ChatChannel.LogFile.{
  Answer, complete, failed, Log, write_rest, log_conversation_message,
}

-- No call has an error, and each takes at least one byte.
abbrev pub MakesProgress : List Answer → Type 0
MakesProgress [] = Unit {0}
MakesProgress (a ∷ answers) = (a.error ≡ none) × (1 ≤ a.num_bytes) × MakesProgress answers

drop-nil : (n : ℕ) → ◌≡◌ {A = Bytes} (drop n []) []
drop-nil zero = refl
drop-nil (suc n) = refl

drop-add : (i n : ℕ) (xs : Bytes) → drop n (drop i xs) ≡ drop (i + n) xs
drop-add zero n xs = ap (λ k. drop k xs) (omega arith)
drop-add (suc i) n [] = drop-nil n ∙ sym (drop-nil (suc i + n))
drop-add (suc i) n (x ∷ xs) =
    drop-add i n xs ∙ ap (λ k. drop k (x ∷ xs)) (let e : suc (i + n) ≡ suc i + n = omega arith in e)

drop-all : (xs : Bytes) (n : ℕ) → length xs ≤ n → drop n xs ≡ []
drop-all [] n h = drop-nil n
drop-all (x ∷ xs) zero h = elim h [ ]
drop-all (x ∷ xs) (suc n) h = drop-all xs n (omega arith)

write_rest-complete :
    (message : Bytes) (i : ℕ) (answers : List Answer)
    → MakesProgress answers
    → length message ≤ i + length answers
    → write_rest message i answers ≡ (drop i message, complete)
unfolding write_rest
write_rest-complete message i [] p h = ground (arith, drop-all message i)
write_rest-complete message i (a ∷ answers) p h = elim (Bool-cases (ltb i (length message))) [
  | inl more ↦ ground (
    arith,
    write_rest-complete message (i + a.num_bytes) answers p.2,
    take-append-drop a.num_bytes (drop i message),
    drop-add i a.num_bytes message,
  )
  | inr done ↦ ground (arith, drop-all message i)
]

-- If each call of `Write` takes at least one byte and has no error, and there are at least as many
-- answers as bytes, and one, then the loop ends and exactly the message has reached the file.
pub log_conversation_message-complete :
    (message : Bytes) (a : Answer) (answers : List Answer)
    → MakesProgress (a ∷ answers)
    → length message ≤ length (a ∷ answers)
    → log_conversation_message message (a ∷ answers) ≡ (message, complete)
unfolding log_conversation_message
log_conversation_message-complete message a answers p h = ground (
  arith,
  write_rest-complete message a.num_bytes answers p.2,
  take-append-drop a.num_bytes message,
  take-length message,
)

abbrev IsPrefix : Bytes → Bytes → Type 0
IsPrefix xs ys = (rest : Bytes) × (xs ++ rest ≡ ys)

-- A chunk, and then a beginning of what follows it.
chunk-IsPrefix : (n : ℕ) (xs r : Bytes) → IsPrefix r (drop n xs) → IsPrefix (take n xs ++ r) xs
chunk-IsPrefix n xs r (rest, e) =
    (rest, append_assoc (take n xs) r rest ∙ ap (λ l. take n xs ++ l) e ∙ take-append-drop n xs)

write_rest-IsPrefix :
    (message : Bytes) (i : ℕ) (answers : List Answer)
    → IsPrefix (write_rest message i answers).0 (drop i message)
unfolding write_rest
write_rest-IsPrefix message i [] =
    if_elim (λ (l : Log). IsPrefix l.0 (drop i message)) (ltb i (length message))
      (drop i message, refl) (drop i message, refl)
write_rest-IsPrefix message i (a ∷ answers) =
    let P = λ (l : Log). IsPrefix l.0 (drop i message) in
    let n = a.num_bytes in
    let later = write_rest message (i + n) answers in
    let (rest, e) = write_rest-IsPrefix message (i + n) answers in
    elim (Option-cases a.error) [
      | inl ok ↦ rw ok (
          if_elim P (ltb i (length message)) {x = (take n (drop i message) ++ later.0, later.1)}
            {y = ([], complete)}
            (chunk-IsPrefix n (drop i message) later.0 (rest, e ∙ sym (drop-add i n message)))
            (drop i message, refl))
      | inr (x, bad) ↦ rw bad (
          if_elim P (ltb i (length message)) {x = (take n (drop i message), failed x)}
            {y = ([], complete)} (drop n (drop i message), take-append-drop n (drop i message))
            (drop i message, refl))
    ]

-- Whatever the file answers, what has reached it is a beginning of the message.
pub log_conversation_message-prefix :
    (message : Bytes) (answers : List Answer)
    → (rest : Bytes) × ((log_conversation_message message answers).0 ++ rest ≡ message)
unfolding log_conversation_message
log_conversation_message-prefix message [] = (message, refl)
log_conversation_message-prefix message (a ∷ answers) =
    let P = λ (l : Log). IsPrefix l.0 message in
    let n = a.num_bytes in
    let later = write_rest message n answers in
    let whole : IsPrefix (take n message) message = (drop n message, take-append-drop n message) in
    elim (Option-cases a.error) [
      | inl ok ↦ rw ok (
          if_elim P (n == length message) {x = (take n message, complete)}
            {y = (take n message ++ later.0, later.1)} whole
            (chunk-IsPrefix n message later.0 (write_rest-IsPrefix message n answers)))
      | inr (x, bad) ↦ rw bad whole
    ]
