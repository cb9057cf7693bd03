-- ===== src/Master/Routing.antt =====
-- daemon/channelmaster.go: where a join and an exit go, and what they do to the running channels.
use wtelnet.Common.{
  ◌≡◌, ◌≢◌, none, some, [], ◌∷◌, ◌==◌, if◌then◌else◌, Bytes, Int64, inc, dec, arith, Result, ok,
  inl, inr, Option-cases, List-cases,
}
use wtelnet.Common.Dict.{lookup, lookup-insert, lookup-delete}
use wtelnet.Message.{Chan, MasterToChannelOp, UserToMaster}
use wtelnet.Master.{PerChatChan, to_channel, launch, Master, running, join_message}
use wtelnet.Master.Joining.{on_join}
use wtelnet.Master.Leaving.{on_exit}

module _ (m : Master) (msg : UserToMaster) where
  -- A join of a channel that the database knows and that is not running launches its goroutine, with
  -- the join as first message and a new Go channel, and enters it with one member; a join of a
  -- running channel is sent to it, and its count grows by one. No other entry changes.
  pub on_join-lookup :
      (get : Bytes → Result Int64) (id j : Int64) (c : Chan)
      → msg.parameter ≢ []
      → get msg.parameter ≡ ok id
      → id ≢ 0
      → msg.callback_from_chat_channel ≡ some c
      → let t = on_join get m msg in
        (t.status ≡ running)
        × (lookup j t.master.running_map ≡ (
            if id == j
            then elim (lookup id m.running_map) [
              | none ↦ some (record { member_count = 1; chat_channel_callback = m.next_chan })
              | some info ↦ some (record info { member_count = inc info.member_count })
            ]
            else lookup j m.running_map))
        × (t.effects ≡ elim (lookup id m.running_map) [
          | none ↦
              launch id msg.parameter (join_message msg MasterToChannelOp.join) m.next_chan ∷ []
          | some info ↦
              to_channel info.chat_channel_callback (join_message msg MasterToChannelOp.join) ∷ []
        ])
  unfolding on_join
  on_join-lookup get id j c p g i k = elim (List-cases msg.parameter) [
    | inl e ↦ absurd (p e)
    | inr (x, rest, e) ↦ elim (Option-cases (lookup id m.running_map)) [
      | inl new ↦ ground (
        arith,
        lookup-insert id j (record { member_count = 1; chat_channel_callback = m.next_chan })
            m.running_map,
      )
      | inr (info, old) ↦ ground (
        arith,
        lookup-insert id j (record info { member_count = inc info.member_count }) m.running_map,
      )
    ]
  ]

  -- An exit from a running channel is sent to it. If the member was the last, a shutdown follows and
  -- the channel is forgotten; otherwise its count falls by one. No other entry changes.
  pub on_exit-lookup :
      (info : PerChatChan) (j : Int64)
      → msg.chat_channel_id ≢ 0
      → lookup msg.chat_channel_id m.running_map ≡ some info
      → let t = on_exit m msg in
        let last = dec info.member_count == 0 in
        (t.status ≡ running)
        × (lookup j t.master.running_map ≡ (
            if msg.chat_channel_id == j
            then if last then none else some (record info { member_count = dec info.member_count })
            else lookup j m.running_map))
        × (t.effects
            ≡ to_channel info.chat_channel_callback (join_message msg MasterToChannelOp.exit)
              ∷ (if last
                  then to_channel info.chat_channel_callback
                      (join_message msg MasterToChannelOp.shutdown)
                    ∷ []
                  else []))
  unfolding on_exit
  on_exit-lookup info j i e = ground (
    arith,
    lookup-delete msg.chat_channel_id j m.running_map,
    lookup-insert msg.chat_channel_id j (record info { member_count = dec info.member_count })
        m.running_map,
  )
