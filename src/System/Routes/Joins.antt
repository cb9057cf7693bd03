-- ===== src/System/Routes/Joins.antt =====
-- daemon/channelmaster.go: what a join sends to one Go channel.
use wtelnet.Common.{
  ◌≡◌, refl, ap, ◌∙◌, ◌⊎◌, inl, inr, none, some, [], ◌∷◌, ◌==◌, Bytes, Int64, inc, arith, Result,
  ok, err, Option-cases, Bool-cases, Result-cases,
}
use wtelnet.Common.Dict.{lookup, lookup-insert}
use wtelnet.Message.{Chan, MasterToChannelOp, UserToMaster}
use wtelnet.Master.{PerChatChan, Master, Turn, join_message}
use wtelnet.Master.Joining.{
  launch_channel, join_running, join_chat_channel, join_found, join_answer, join_named, on_join,
}
use wtelnet.System.Routes.{IsOwner, IsQuiet, IsJoined, IsStill, still-IsQuiet, still-IsOwner}

module _ (own : Chan) (A : Int64 → Type 0) (k : Int64) (m : Master) (o : IsOwner own A m) where
  launch-IsOwner :
      (msg : UserToMaster) (id : Int64) (name : Bytes)
      → IsOwner own A (launch_channel m msg id name).master
  unfolding launch_channel
  launch-IsOwner msg id name = (
    ground (arith, o.0),
    λ j info' e' u. ground (
      arith,
      o.0,
      lookup-insert id j (record { member_count = 1; chat_channel_callback = m.next_chan })
          m.running_map,
      o.1 j info',
    ),
  )

  joined-IsOwner :
      (msg : UserToMaster) (id : Int64) (info : PerChatChan)
      → lookup id m.running_map ≡ some info
      → IsOwner own A (join_running m msg id info).master
  unfolding join_running
  joined-IsOwner msg id info e = (
    o.0,
    λ j info' e' u. ground (
      arith,
      lookup-insert id j (record info { member_count = inc info.member_count }) m.running_map,
      o.1 j info',
      o.1 id info,
    ),
  )

  join_chat_channel-IsOwner :
      (msg : UserToMaster) (id : Int64) (name : Bytes)
      → IsOwner own A (join_chat_channel m msg id name).master
  unfolding join_chat_channel
  join_chat_channel-IsOwner msg id name = elim (Option-cases (lookup id m.running_map)) [
    | inl e ↦ rw (e, join_chat_channel) (launch-IsOwner msg id name)
    | inr (info, e) ↦ rw (e, join_chat_channel) (joined-IsOwner msg id info e)
  ]

  launch-route :
      (msg : UserToMaster) (id : Int64) (name : Bytes)
      → lookup id m.running_map ≡ none
      → IsQuiet k own m (launch_channel m msg id name)
  unfolding launch_channel
  launch-route msg id name e = record {
    silent = ground arith;
    kept = λ info e' u. ground (
      arith,
      lookup-insert id k (record { member_count = 1; chat_channel_callback = m.next_chan })
          m.running_map,
    );
  }

  join_running-route :
      (msg : UserToMaster) (id : Int64) (info : PerChatChan)
      → lookup id m.running_map ≡ some info
      → let t = join_running m msg id info in
        IsQuiet k own m t ⊎ IsJoined A own m id (join_message msg MasterToChannelOp.join) t
  unfolding join_running
  join_running-route msg id info e =
      let more = record info { member_count = inc info.member_count } in
      elim (Bool-cases (info.chat_channel_callback == own)) [
        | inl u ↦ inr (record {
          owns = o.1 id info e (ground arith);
          info = info;
          found = e;
          uses = ground arith;
          entry = ground (arith, lookup-insert id id more m.running_map);
          sent = ground arith;
        })
        | inr u ↦ inl (record {
          silent = ground arith;
          kept = λ info' e' u'. ground (arith, lookup-insert id k more m.running_map);
        })
      ]

  join_chat_channel-route :
      (msg : UserToMaster) (id : Int64) (name : Bytes)
      → let t = join_chat_channel m msg id name in
        IsQuiet k own m t ⊎ IsJoined A own m id (join_message msg MasterToChannelOp.join) t
  unfolding join_chat_channel
  join_chat_channel-route msg id name = elim (Option-cases (lookup id m.running_map)) [
    | inl e ↦ rw (e, join_chat_channel) (inl (launch-route msg id name e))
    | inr (info, e) ↦ rw (e, join_chat_channel) (join_running-route msg id info e)
  ]

  abbrev pub IsOnWay : (Bytes → Result Int64) → UserToMaster → Turn → Type 0
  IsOnWay get msg t =
      IsOwner own A t.master
      × (IsQuiet k own m t
          ⊎ ((id : Int64) × (get msg.parameter ≡ ok id)
              × IsJoined A own m id (join_message msg MasterToChannelOp.join) t))

  still-IsOnWay :
      (get : Bytes → Result Int64) (msg : UserToMaster) (t : Turn)
      → IsStill own m t
      → IsOnWay get msg t
  still-IsOnWay get msg t s = (still-IsOwner own m A o t s, inl (still-IsQuiet own m k t s))

  join_found-way :
      (get : Bytes → Result Int64) (msg : UserToMaster) (id : Int64)
      → get msg.parameter ≡ ok id
      → IsOnWay get msg (join_found m msg id [])
  unfolding join_found
  join_found-way get msg id g =
      let t = join_chat_channel m msg id msg.parameter in
      elim (Bool-cases (id == 0)) [
        | inl z ↦ still-IsOnWay get msg (join_found m msg id []) (ground arith)
        | inr z ↦ rw (z) (
          join_chat_channel-IsOwner msg id msg.parameter,
          elim (join_chat_channel-route msg id msg.parameter) [
            | inl q ↦ inl q
            | inr j ↦ inr (id, g, j)
          ],
        )
      ]

  failed-IsStill : (msg : UserToMaster) (x : Bytes) → IsStill own m (join_answer m msg (err x))
  unfolding join_answer join_found
  failed-IsStill msg x = ground arith

  join_named-way :
      (get : Bytes → Result Int64) (msg : UserToMaster) (name : Bytes)
      → msg.parameter ≡ name
      → IsOnWay get msg (join_named get m msg name)
  unfolding join_named join_answer
  join_named-way get msg [] e = still-IsOnWay get msg _ (ground arith)
  join_named-way get msg (c ∷ cs) e = elim (Result-cases (get (c ∷ cs))) [
    | inl (id, g) ↦ rw (g, join_named, join_answer) (join_found-way get msg id (ap get e ∙ g))
    | inr (inl (x, g)) ↦ rw (g, join_named) (still-IsOnWay get msg _ (failed-IsStill msg x))
    | inr (inr g) ↦ rw (g, join_named, join_answer) (still-IsOnWay get msg _ (refl, refl))
  ]

  pub on_join-way :
      (get : Bytes → Result Int64) (msg : UserToMaster) → IsOnWay get msg (on_join get m msg)
  unfolding on_join
  on_join-way get msg = join_named-way get msg msg.parameter refl
