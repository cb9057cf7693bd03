-- ===== src/Server/Listening.antt =====
-- daemon/wtelnet.go: the loop round `telnet.ListenAndServe`; and daemon/heartbeat.go with
-- daemon/channelmaster.go.
use mathlib.Core.List.{append-nil}
use mathlib.Core.Path.{subst}
use wtelnet.Common.{
  ℕ, suc, ◌+◌, ◌≡◌, refl, ap, Option, none, some, List, [], ◌∷◌, ◌++◌, map, length, Error, ok,
  arith, Bool-cases, inl, inr,
}
use wtelnet.Master.{Master, running}
use wtelnet.Master.Loop.{Event, heartbeat, turn, run}
use wtelnet.Server.{
  Status, listening, returned, Effect, launched_heartbeat, launched_master, listened, slept, logged,
  keeps_going, listen, main, Beat, paused, sent, printed,
}
use wtelnet.Server.Phrase.{IsBusy, busy-keeps_going, keeps_going-IsBusy}

abbrev pub AreBusy : List Error → Type 0
AreBusy [] = Unit {0}
AreBusy (e ∷ es) = IsBusy e × AreBusy es

-- No error, or one with another message.
abbrev pub IsLast : Option Error → Type 0
IsLast none = Unit {0}
IsLast (some e) = ¬ IsBusy e

abbrev pub count_listened : List Effect → ℕ
count_listened [] = 0
count_listened (listened ∷ es) = suc (count_listened es)
count_listened (launched_heartbeat ∷ es) = count_listened es
count_listened (launched_master ∷ es) = count_listened es
count_listened (slept ∷ es) = count_listened es
count_listened (logged text ∷ es) = count_listened es

abbrev pub count_slept : List Effect → ℕ
count_slept [] = 0
count_slept (slept ∷ es) = suc (count_slept es)
count_slept (launched_heartbeat ∷ es) = count_slept es
count_slept (launched_master ∷ es) = count_slept es
count_slept (listened ∷ es) = count_slept es
count_slept (logged text ∷ es) = count_slept es

-- So many listens, so many pauses, and where `main` is then.
abbrev pub Rounds : ℕ → ℕ → Status → List Effect × Status → Type 0
Rounds listens pauses status r =
    (count_listened r.0 ≡ listens) × (count_slept r.0 ≡ pauses) × (r.1 ≡ status)

listen-busy :
    (busy : List Error) (answers : List (Option Error)) (status : Status)
    → AreBusy busy
    → Rounds 1 0 status (listen answers)
    → Rounds (length busy + 1) (length busy) status (listen (map some busy ++ answers))
unfolding listen
listen-busy [] answers status b r = ground (arith, r)
listen-busy (e ∷ busy) answers status b r =
    let (l, p, s) = listen-busy busy answers status b.1 r in
    rw (busy-keeps_going e b.0) (ground (arith, l), ground (arith, p), s)

listen-last :
    (last : Option Error) (rest : List (Option Error))
    → IsLast last
    → Rounds 1 0 returned (listen (last ∷ rest))
unfolding listen
listen-last none rest l = (refl, refl, refl)
listen-last (some e) rest l = elim (Bool-cases (keeps_going e)) [
  | inl k ↦ absurd (l (keeps_going-IsBusy e k))
  | inr k ↦ rw k (refl, refl, refl)
]

-- Once the database is open, and while `ListenAndServe` gives errors whose message has the phrase "too
-- many open files", though not at its beginning, `main` pauses after each and listens again, and has
-- listened once more than there were such errors; it returns at the first answer that is no error or
-- an error with another message (a message that begins with the phrase is another), without a pause
-- after it and whatever would follow.
pub main-Rounds :
    {World : Type 0} (w : World) (busy : List Error) (last : Option Error)
    (rest : List (Option Error))
    → AreBusy busy
    → IsLast last
    → Rounds (length busy + 1) (length busy) listening (main (ok w) (map some busy))
      × Rounds (length busy + 1) (length busy) returned (main (ok w) (map some busy ++ last ∷ rest))
unfolding main listen
main-Rounds w busy last rest b l = (
  subst (λ answers. Rounds (length busy + 1) (length busy) listening (listen answers))
      (append-nil (map some busy)) (listen-busy busy [] listening b (refl, refl, refl)),
  listen-busy busy (last ∷ rest) returned b (listen-last last rest l),
)

-- The messages that the heartbeats send, as the channel master receives them.
abbrev pub received : List Beat → List Event
received [] = []
received (sent ∷ bs) = heartbeat (some tt) ∷ received bs
received (paused ∷ bs) = received bs
received (printed n ∷ bs) = received bs

-- However many goroutines run at the beats, the heartbeats send one message for each beat, and the
-- channel master, whatever its table, is running after them with its table as it was.
pub heartbeat-harmless :
    (counts : List ℕ) (m : Master)
    → (length (received (wtelnet.Server.heartbeat counts)) ≡ length counts)
      × (run m (received (wtelnet.Server.heartbeat counts)) ≡ (m, running))
unfolding wtelnet.Server.heartbeat run turn
heartbeat-harmless [] m = (refl, refl)
heartbeat-harmless (count ∷ counts) m = let (l, r) = heartbeat-harmless counts m in (ap suc l, r)
