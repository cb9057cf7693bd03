-- ===== src/Master/Ownership.antt =====
-- daemon/channelmaster.go: the Go channels of the running chat channels.
use wtelnet.Common.{
  ◌<◌, ◌≡◌, ◌⊎◌, ◌==◌, none, some, List, [], ◌∷◌, Bytes, Int64, inc, dec, arith, Result, ok, err,
  panic, inl, inr, Option-cases, Bool-cases, refl,
}
use wtelnet.Common.Dict.{lookup, lookup-insert, lookup-delete}
use wtelnet.Message.{
  MasterToChannel, MasterToChannelOp, UserToMaster, UserToMasterOp, ChannelToMaster,
  ChannelToMasterOp,
}
use wtelnet.Master.{
  PerChatChan, Effect, Master, Turn, Status, running, returned, panicked, join_message, to_channel,
}
use wtelnet.Master.Joining.{
  launch_channel, join_running, join_chat_channel, who_is_on_chat_channel, join_found, join_answer,
  join_named, on_join,
}
use wtelnet.Master.Leaving.{member_left, on_exit, shutdown_for, on_join_denied}
use wtelnet.Master.Loop.{
  Event, from_user, from_channel, heartbeat, on_user_message, on_channel_message, turn, start, run,
}

Status-cases : (s : Status) → (s ≡ running) ⊎ (s ≡ returned) ⊎ (s ≡ panicked)
Status-cases running = inl refl
Status-cases returned = inr (inl refl)
Status-cases panicked = inr (inr refl)

-- The Go channels of the running chat channels have been made, and no two share one.
pub record IsApart (m : Master) : Type 0 where
  pub made :
      (j : Int64) (a : PerChatChan)
      → lookup j m.running_map ≡ some a
      → a.chat_channel_callback < m.next_chan
  pub apart :
      (i j : Int64) (a b : PerChatChan)
      → lookup i m.running_map ≡ some a
      → lookup j m.running_map ≡ some b
      → a.chat_channel_callback ≡ b.chat_channel_callback
      → i ≡ j

module _ (m : Master) (v : IsApart m) where
  launch-IsApart :
      (msg : UserToMaster) (id : Int64) (name : Bytes)
      → IsApart (launch_channel m msg id name).master
  unfolding launch_channel
  launch-IsApart msg id name =
      let new : PerChatChan = record { member_count = 1; chat_channel_callback = m.next_chan } in
      record {
        made = λ j a e. ground (arith, lookup-insert id j new m.running_map, v.made j a);
        apart = λ i j a b e f c. ground (
          arith,
          lookup-insert id i new m.running_map,
          lookup-insert id j new m.running_map,
          v.made i a,
          v.made j b,
          v.apart i j a b,
        );
      }

  -- An entry of the same Go channel is put in place of the old one.
  joined-IsApart :
      (msg : UserToMaster) (id : Int64) (info : PerChatChan)
      → lookup id m.running_map ≡ some info
      → IsApart (join_running m msg id info).master
  unfolding join_running
  joined-IsApart msg id info e =
      let new : PerChatChan = record info { member_count = inc info.member_count } in
      record {
        made = λ j a f.
            ground (arith, lookup-insert id j new m.running_map, v.made j a, v.made id info);
        apart = λ i j a b f g c. ground (
          arith,
          lookup-insert id i new m.running_map,
          lookup-insert id j new m.running_map,
          v.apart i j a b,
          v.apart id j info b,
          v.apart i id a info,
        );
      }

  join_chat_channel-IsApart :
      (msg : UserToMaster) (id : Int64) (name : Bytes)
      → IsApart (join_chat_channel m msg id name).master
  unfolding join_chat_channel
  join_chat_channel-IsApart msg id name = elim (Option-cases (lookup id m.running_map)) [
    | inl e ↦ rw (e, join_chat_channel) (launch-IsApart msg id name)
    | inr (info, e) ↦ rw (e, join_chat_channel) (joined-IsApart msg id info e)
  ]

  member_left-IsApart :
      (id : Int64) (info : PerChatChan) (msg : MasterToChannel) (es : List Effect)
      → lookup id m.running_map ≡ some info
      → IsApart (member_left m id info msg es).master
  unfolding member_left
  member_left-IsApart id info msg es e =
      let new : PerChatChan = record info { member_count = dec info.member_count } in
      record {
        made = λ j a f. ground (
          arith,
          lookup-delete id j m.running_map,
          lookup-insert id j new m.running_map,
          v.made j a,
          v.made id info,
        );
        apart = λ i j a b f g c. ground (
          arith,
          lookup-delete id i m.running_map,
          lookup-delete id j m.running_map,
          lookup-insert id i new m.running_map,
          lookup-insert id j new m.running_map,
          v.apart i j a b,
          v.apart id j info b,
          v.apart i id a info,
        );
      }

  same-IsApart : (t : Turn) → t.master ≡ m → IsApart t.master
  same-IsApart t e = rw e v

  join_found-IsApart :
      (msg : UserToMaster) (id : Int64) (es : List Effect) → IsApart (join_found m msg id es).master
  unfolding join_found
  join_found-IsApart msg id es = elim (Bool-cases (id == 0)) [
    | inl z ↦ same-IsApart (join_found m msg id es) (ground arith)
    | inr z ↦ rw z (join_chat_channel-IsApart msg id msg.parameter)
  ]

  join_answer-IsApart :
      (msg : UserToMaster) (r : Result Int64) → IsApart (join_answer m msg r).master
  unfolding join_answer join_found
  join_answer-IsApart msg (ok id) = join_found-IsApart msg id []
  join_answer-IsApart msg (err x) = same-IsApart (join_answer m msg (err x)) (ground arith)
  join_answer-IsApart msg panic = v

  join_named-IsApart :
      (get : Bytes → Result Int64) (msg : UserToMaster) (name : Bytes)
      → IsApart (join_named get m msg name).master
  unfolding join_named
  join_named-IsApart get msg [] = same-IsApart (join_named get m msg []) (ground arith)
  join_named-IsApart get msg (c ∷ cs) = join_answer-IsApart msg (get (c ∷ cs))

  on_exit-IsApart : (msg : UserToMaster) → IsApart (on_exit m msg).master
  unfolding on_exit
  on_exit-IsApart msg = elim (Bool-cases (msg.chat_channel_id == 0)) [
    | inl z ↦ same-IsApart (on_exit m msg) (ground arith)
    | inr z ↦ elim (Option-cases (lookup msg.chat_channel_id m.running_map)) [
      | inl e ↦ same-IsApart (on_exit m msg) (ground arith)
      | inr (info, e) ↦
          rw (z, e, on_exit)
            (member_left-IsApart msg.chat_channel_id info
              (join_message msg MasterToChannelOp.shutdown)
              (to_channel info.chat_channel_callback (join_message msg MasterToChannelOp.exit) ∷ [])
              e)
    ]
  ]

  on_user-IsApart :
      (op : UserToMasterOp) (get : Bytes → Result Int64) (msg : UserToMaster)
      → IsApart (on_user_message get op m msg).master
  unfolding on_user_message on_join who_is_on_chat_channel
  on_user-IsApart UserToMasterOp.join get msg = join_named-IsApart get msg msg.parameter
  on_user-IsApart UserToMasterOp.who get msg =
      same-IsApart (who_is_on_chat_channel m msg) (ground arith)
  on_user-IsApart UserToMasterOp.exit get msg = on_exit-IsApart msg
  on_user-IsApart (UserToMasterOp.other n) get msg = v

  on_channel-IsApart :
      (op : ChannelToMasterOp) (msg : ChannelToMaster)
      → IsApart (on_channel_message op m msg).master
  unfolding on_channel_message on_join_denied
  on_channel-IsApart ChannelToMasterOp.join_denied msg =
      elim (Option-cases (lookup msg.chat_channel_id m.running_map)) [
        | inl e ↦ same-IsApart (on_join_denied m msg) (ground arith)
        | inr (info, e) ↦
            rw (e, on_join_denied)
              (member_left-IsApart msg.chat_channel_id info (shutdown_for msg) [] e)
      ]
  on_channel-IsApart (ChannelToMasterOp.other n) msg = v

  pub turn-IsApart : (e : Event) → IsApart (turn m e).master
  unfolding turn
  turn-IsApart (from_user get none) = v
  turn-IsApart (from_user get (some msg)) = on_user-IsApart msg.operation get msg
  turn-IsApart (from_channel none) = v
  turn-IsApart (from_channel (some msg)) = on_channel-IsApart msg.operation msg
  turn-IsApart (heartbeat none) = v
  turn-IsApart (heartbeat (some _)) = v

start-IsApart : IsApart start
unfolding start lookup
start-IsApart = record { made = λ j a e. ground arith; apart = λ i j a b e f c. ground arith }

run_on-IsApart : (m : Master) (events : List Event) → IsApart m → IsApart (run m events).0
unfolding run
run_on-IsApart m [] v = v
run_on-IsApart m (e ∷ events) v =
    let t = turn m e in
    let next = turn-IsApart m v e in
    elim (Status-cases t.status) [
      | inl r ↦ rw (r, run) (run_on-IsApart t.master events next)
      | inr (inl r) ↦ rw (r, run) next
      | inr (inr r) ↦ rw (r, run) next
    ]

-- Whatever the channel master receives from its start on, the Go channels of the running chat channels
-- have been made, and no two of these chat channels share one.
pub run-IsApart : (events : List Event) → IsApart (run start events).0
run-IsApart events = run_on-IsApart start events start-IsApart
