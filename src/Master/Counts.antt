-- ===== src/Master/Counts.antt =====
-- daemon/channelmaster.go: the table of running channels over any events.
use native.Mathlib.Nat.{add-zero}
use wtelnet.Common.{
  ℕ, suc, ◌+◌, ◌≤◌, ◌<◌, ◌≡◌, ◌≢◌, inl, inr, Option, none, some, List, [], ◌∷◌, ◌++◌, ◌==◌, Bytes,
  Int64, modulus, inc, dec, arith, Result, ok, err, panic, length, Option-cases, if_split, if_elim,
}
use wtelnet.Common.Dict.{lookup, insert, delete, lookup-insert, lookup-delete}
use wtelnet.Message.{
  Chan, MasterToUser, MasterToChannel, MasterToChannelOp, UserToMaster, UserToMasterOp,
  ChannelToMaster, ChannelToMasterOp,
}
use wtelnet.Master.{
  PerChatChan, Effect, to_user, to_channel, logged, join_message, Master, Turn, goes_on, reply,
  Status, running, returned, panicked,
}
use wtelnet.Master.Joining.{
  join_chat_channel, who_is_on_chat_channel, join_found, join_answer, join_named, on_join,
}
use wtelnet.Master.Leaving.{refuse_exit, member_left, on_exit, on_join_denied}
use wtelnet.Master.Loop.{
  from_user, from_channel, heartbeat, Event, on_user_message, on_channel_message, turn, start, run,
}

-- An entry of the table: its channel has an id, at least one and at most `n` members counted, and a
-- Go channel that was made.
abbrev pub IsEntry : ℕ → Chan → Int64 → PerChatChan → Type 0
IsEntry n next k info =
    (k ≢ 0)
    × (1 ≤ info.member_count)
    × (info.member_count ≤ n)
    × (info.chat_channel_callback < next)

abbrev pub IsTable : ℕ → Master → Type 0
IsTable n m =
    (k : Int64) (info : PerChatChan)
    → lookup k m.running_map ≡ some info
    → IsEntry n m.next_chan k info

module _ (n : ℕ) (m : Master) (t : IsTable n m) where
  -- One more member may be counted, and Go channels are only made.
  IsTable-mono : IsTable (suc n) m
  IsTable-mono k info e = omega (arith, t k info e)

  insert-IsTable :
      (id next : ℕ) (v : PerChatChan)
      → m.next_chan ≤ next
      → IsEntry (suc n) next id v
      → IsTable (suc n) (record { running_map = insert id v m.running_map; next_chan = next })
  insert-IsTable id next v le h k info e =
      ground (arith, lookup-insert id k v m.running_map, t k info)

  delete-IsTable :
      (id : Int64) → IsTable (suc n) (record m { running_map = delete id m.running_map })
  delete-IsTable id k info e = ground (arith, lookup-delete id k m.running_map, t k info)

  join-IsTable :
      (msg : UserToMaster) (id : Int64) (name : Bytes)
      → suc n < modulus
      → IsTable (suc n) (join_chat_channel m msg id name).master
  unfolding join_chat_channel
  join-IsTable msg id name lt =
      let P = λ (r : Turn). IsTable (suc n) r.master in
      elim (Option-cases (lookup id m.running_map)) [
        | inl e ↦
            rw (e, join_chat_channel)
              (if_split P (id == 0) (λ _. IsTable-mono)
                (λ h. insert-IsTable id (suc m.next_chan) _ (omega arith) (ground arith)))
        | inr (info, e) ↦
            rw (e, join_chat_channel)
              (let i = t id info e in
                insert-IsTable id m.next_chan (record info { member_count = inc info.member_count })
                  (omega arith) (ground arith))
      ]

  member_left-IsTable :
      (id : Int64) (info : PerChatChan) (msg : MasterToChannel) (es : List Effect)
      → suc n < modulus
      → lookup id m.running_map ≡ some info
      → IsTable (suc n) (member_left m id info msg es).master
  unfolding member_left
  member_left-IsTable id info msg es lt e =
      let P = λ (r : Turn). IsTable (suc n) r.master in
      let i = t id info e in
      if_split P (dec info.member_count == 0) (λ _. delete-IsTable id)
        (λ h.
          insert-IsTable id m.next_chan (record info { member_count = dec info.member_count })
            (omega arith) (ground arith))

  -- A turn that leaves the table alone, or changes it as above.
  abbrev Kept : Turn → Type 0
  Kept r = IsTable (suc n) r.master

  reply-IsTable :
      (c : Option Chan) (r : MasterToUser) (next : List Effect → Turn) (es : List Effect)
      → ((fs : List Effect) → Kept (next fs))
      → Kept (reply m c r next es)
  reply-IsTable none r next es h = IsTable-mono
  reply-IsTable (some c) r next es h = h (es ++ to_user c r ∷ [])

  join_found-IsTable :
      (msg : UserToMaster) (id : Int64) (es : List Effect)
      → suc n < modulus
      → Kept (join_found m msg id es)
  unfolding join_found
  join_found-IsTable msg id es lt =
      if_elim Kept (id == 0)
        (reply-IsTable msg.callback_from_channel_master _ (goes_on m) es (λ _. IsTable-mono))
        (join-IsTable msg id msg.parameter lt)

  join_answer-IsTable :
      (msg : UserToMaster) (r : Result Int64) → suc n < modulus → Kept (join_answer m msg r)
  unfolding join_answer
  join_answer-IsTable msg (ok id) lt = join_found-IsTable msg id [] lt
  join_answer-IsTable msg (err e) lt =
      reply-IsTable msg.callback_from_channel_master _ (join_found m msg 0) (logged e ∷ [])
        (λ fs. join_found-IsTable msg 0 fs lt)
  join_answer-IsTable msg panic lt = IsTable-mono

  join_named-IsTable :
      (get : Bytes → Result Int64) (msg : UserToMaster) (name : Bytes)
      → suc n < modulus
      → Kept (join_named get m msg name)
  unfolding join_named
  join_named-IsTable get msg [] lt =
      reply-IsTable msg.callback_from_channel_master _ (goes_on m) [] (λ _. IsTable-mono)
  join_named-IsTable get msg (c ∷ cs) lt = join_answer-IsTable msg (get (c ∷ cs)) lt

  refuse_exit-IsTable : (c : Option Chan) → Kept (refuse_exit m c)
  refuse_exit-IsTable none = IsTable-mono
  refuse_exit-IsTable (some c) = IsTable-mono

  on_exit-IsTable : (msg : UserToMaster) → suc n < modulus → Kept (on_exit m msg)
  unfolding on_exit
  on_exit-IsTable msg lt = elim (Option-cases (lookup msg.chat_channel_id m.running_map)) [
    | inl e ↦
        rw (e, on_exit)
          (if_elim Kept (msg.chat_channel_id == 0)
            (refuse_exit-IsTable msg.callback_from_channel_master) IsTable-mono)
    | inr (info, e) ↦
        rw (e, on_exit)
          (if_elim Kept (msg.chat_channel_id == 0)
            (refuse_exit-IsTable msg.callback_from_channel_master)
            (member_left-IsTable msg.chat_channel_id info
              (join_message msg MasterToChannelOp.shutdown)
              (to_channel info.chat_channel_callback (join_message msg MasterToChannelOp.exit) ∷ [])
              lt e))
  ]

  denied-IsTable : (msg : ChannelToMaster) → suc n < modulus → Kept (on_join_denied m msg)
  unfolding on_join_denied
  denied-IsTable msg lt = elim (Option-cases (lookup msg.chat_channel_id m.running_map)) [
    | inl e ↦ rw (e, on_join_denied) IsTable-mono
    | inr (info, e) ↦
        rw (e, on_join_denied) (member_left-IsTable msg.chat_channel_id info _ [] lt e)
  ]

  who-same : (msg : UserToMaster) → (who_is_on_chat_channel m msg).master ≡ m
  unfolding who_is_on_chat_channel
  who-same msg = ground arith

  user-IsTable :
      (get : Bytes → Result Int64) (op : UserToMasterOp) (msg : UserToMaster)
      → suc n < modulus
      → Kept (on_user_message get op m msg)
  unfolding on_user_message on_join
  user-IsTable get UserToMasterOp.join msg lt = join_named-IsTable get msg msg.parameter lt
  user-IsTable get UserToMasterOp.who msg lt = rw (who-same msg) IsTable-mono
  user-IsTable get UserToMasterOp.exit msg lt = on_exit-IsTable msg lt
  user-IsTable get (UserToMasterOp.other k) msg lt = IsTable-mono

  channel-IsTable :
      (op : ChannelToMasterOp) (msg : ChannelToMaster)
      → suc n < modulus
      → Kept (on_channel_message op m msg)
  unfolding on_channel_message
  channel-IsTable ChannelToMasterOp.join_denied msg lt = denied-IsTable msg lt
  channel-IsTable (ChannelToMasterOp.other k) msg lt = IsTable-mono

  turn-IsTable : (e : Event) → suc n < modulus → Kept (turn m e)
  unfolding turn
  turn-IsTable (from_user get none) lt = IsTable-mono
  turn-IsTable (from_user get (some msg)) lt = user-IsTable get msg.operation msg lt
  turn-IsTable (from_channel none) lt = IsTable-mono
  turn-IsTable (from_channel (some msg)) lt = channel-IsTable msg.operation msg lt
  turn-IsTable (heartbeat none) lt = IsTable-mono
  turn-IsTable (heartbeat (some _)) lt = IsTable-mono

IsTable-le : (n k : ℕ) (m : Master) → n ≤ k → IsTable n m → IsTable k m
IsTable-le n k m le t j info e = omega (arith, t j info e)

-- Where the loop is after the first of its events.
abbrev pub go_on : Turn → List Event → Status → Master × Status
go_on t es running = run t.master es
go_on t es returned = (t.master, returned)
go_on t es panicked = (t.master, panicked)

pub run-cons :
    (m : Master) (e : Event) (es : List Event)
    → run m (e ∷ es) ≡ go_on (turn m e) es (turn m e).status
unfolding run
run-cons m e es = ground arith

-- As long as fewer than 2 ^ 64 events have come, every entry of the table has an id that is not 0, at
-- least one member and at most as many as there were events more, so that no count wraps round, and a
-- Go channel that was made.
pub run-IsTable :
    (n : ℕ) (m : Master) (es : List Event)
    → IsTable n m
    → n + length es < modulus
    → IsTable (n + length es) (run m es).0
unfolding run
run-IsTable n m [] t lt = rw add-zero t
run-IsTable n m (e ∷ es) t lt =
    let t' = turn-IsTable n m t e (omega arith) in
    let last = IsTable-le (suc n) (n + suc (length es)) (turn m e).master (omega arith) t' in
    rw (run-cons m e es)
      (elim (turn m e).status as (λ st. IsTable (n + suc (length es)) (go_on (turn m e) es st).0) [
        | running ↦
            IsTable-le (suc n + length es) (n + suc (length es)) (run (turn m e).master es).0
              (omega arith) (run-IsTable (suc n) (turn m e).master es t' (omega arith))
        | returned ↦ last
        | panicked ↦ last
      ])

start-IsTable : IsTable 0 start
unfolding start lookup
start-IsTable k info e = cc

-- From the start of the goroutine, over fewer than 2 ^ 64 events, every running channel has an id
-- that is not 0 and a count of at least one member and at most as many as there were events.
pub run-start-IsTable :
    (es : List Event) → length es < modulus → IsTable (length es) (run start es).0
run-start-IsTable es lt =
    IsTable-le (0 + length es) (length es) (run start es).0 (omega arith)
      (run-IsTable 0 start es start-IsTable (omega arith))
