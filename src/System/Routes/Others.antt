-- ===== src/System/Routes/Others.antt =====
-- daemon/channelmaster.go: what a request for the members, an exit and a denial send to one Go channel.
use wtelnet.Common.{
  ◌≡◌, refl, ◌⊎◌, inl, inr, some, List, [], ◌∷◌, ◌==◌, Int64, dec, arith, Option-cases, Bool-cases,
}
use wtelnet.Common.Dict.{lookup, lookup-insert, lookup-delete}
use wtelnet.Message.{
  Chan, MasterToChannel, MasterToChannelOp, UserToMaster, ChannelToMaster, ChannelToMasterOp,
}
use wtelnet.Master.{PerChatChan, Effect, Master, join_message}
use wtelnet.Master.Joining.{who_is_on_chat_channel}
use wtelnet.Master.Leaving.{member_left, on_exit, shutdown_for, on_join_denied}
use wtelnet.Master.Loop.{on_channel_message}
use wtelnet.System.{sent_to}
use wtelnet.System.Routes.{
  IsOwner, IsQuiet, IsRoute, sends, sent_to-sends, sent_to-sends_last, IsStill, still-IsQuiet,
  still-IsOwner,
}

module _ (own : Chan) (A : Int64 → Type 0) (k : Int64) (m : Master) (o : IsOwner own A m) where
  member_left-IsOwner :
      (id : Int64) (info : PerChatChan) (msg : MasterToChannel) (es : List Effect)
      → lookup id m.running_map ≡ some info
      → IsOwner own A (member_left m id info msg es).master
  unfolding member_left
  member_left-IsOwner id info msg es e = (
    ground (arith, o.0),
    λ j info' e' u. ground (
      arith,
      lookup-delete id j m.running_map,
      lookup-insert id j (record info { member_count = dec info.member_count }) m.running_map,
      o.1 j info',
      o.1 id info,
    ),
  )

  member_left-used :
      (id : Int64) (info : PerChatChan) (last : MasterToChannel) (msgs : List MasterToChannel)
      → lookup id m.running_map ≡ some info
      → info.chat_channel_callback ≡ own
      → IsRoute A own m id dec msgs
          (last ∷ [])
          (member_left m id info last (sends info.chat_channel_callback msgs))
  unfolding member_left
  member_left-used id info last msgs e u =
      let c = info.chat_channel_callback in
      let left = record info { member_count = dec info.member_count } in
      record {
        owns = o.1 id info e u;
        info = info;
        found = e;
        uses = u;
        entry =
            ground
              (arith, lookup-delete id id m.running_map, lookup-insert id id left m.running_map);
        sent = ground (arith, sent_to-sends own c msgs, sent_to-sends_last own c msgs last);
      }

  member_left-IsRoute :
      (id : Int64) (info : PerChatChan) (last : MasterToChannel) (msgs : List MasterToChannel)
      → lookup id m.running_map ≡ some info
      → let t = member_left m id info last (sends info.chat_channel_callback msgs) in
        IsQuiet k own m t ⊎ IsRoute A own m id dec msgs (last ∷ []) t
  unfolding member_left
  member_left-IsRoute id info last msgs e =
      let c = info.chat_channel_callback in
      let left = record info { member_count = dec info.member_count } in
      elim (Bool-cases (c == own)) [
        | inl u ↦ inr (member_left-used id info last msgs e (ground arith))
        | inr u ↦ inl (record {
          silent = ground (arith, sent_to-sends own c msgs, sent_to-sends_last own c msgs last);
          kept = λ info' e' u'.
              ground
                (arith, lookup-delete id k m.running_map, lookup-insert id k left m.running_map);
        })
      ]

  -- A request for the members goes to the channel that it names, and changes no entry.
  pub who-way :
      (msg : UserToMaster)
      → let t = who_is_on_chat_channel m msg in
        (t.master ≡ m)
        × ((sent_to own t.effects ≡ [])
            ⊎ (A msg.chat_channel_id
                × (sent_to own t.effects ≡ join_message msg MasterToChannelOp.who ∷ [])))
  unfolding who_is_on_chat_channel
  who-way msg = elim (Option-cases (lookup msg.chat_channel_id m.running_map)) [
    | inl e ↦ ground arith
    | inr (info, e) ↦ elim (Bool-cases (info.chat_channel_callback == own)) [
      | inl u ↦ ground (arith, o.1 msg.chat_channel_id info)
      | inr u ↦ ground arith
    ]
  ]

  pub on_exit-way :
      (msg : UserToMaster)
      → let t = on_exit m msg in
        IsOwner own A t.master
        × (IsQuiet k own m t
            ⊎ IsRoute A own m msg.chat_channel_id dec
                (join_message msg MasterToChannelOp.exit ∷ [])
                (join_message msg MasterToChannelOp.shutdown ∷ [])
                t)
  unfolding on_exit
  on_exit-way msg = elim (Bool-cases (msg.chat_channel_id == 0)) [
    | inl z ↦
        let s : IsStill own m (on_exit m msg) = ground arith in
        (still-IsOwner own m A o (on_exit m msg) s, inl (still-IsQuiet own m k (on_exit m msg) s))
    | inr z ↦ elim (Option-cases (lookup msg.chat_channel_id m.running_map)) [
      | inl e ↦
          let s : IsStill own m (on_exit m msg) = ground arith in
          (still-IsOwner own m A o (on_exit m msg) s, inl (still-IsQuiet own m k (on_exit m msg) s))
      | inr (info, e) ↦
          let last = join_message msg MasterToChannelOp.shutdown in
          let same : on_exit m msg
              ≡ member_left m msg.chat_channel_id info last (
                  sends info.chat_channel_callback (join_message msg MasterToChannelOp.exit ∷ [])) =
            ground arith in
          rw same (
            member_left-IsOwner msg.chat_channel_id info last
                (sends info.chat_channel_callback (join_message msg MasterToChannelOp.exit ∷ [])) e,
            member_left-IsRoute msg.chat_channel_id info last
                (join_message msg MasterToChannelOp.exit ∷ []) e,
          )
    ]
  ]

  -- A denial of the channel that uses `own`.
  pub on_join_denied-way :
      (msg : ChannelToMaster) (info : PerChatChan)
      → lookup msg.chat_channel_id m.running_map ≡ some info
      → info.chat_channel_callback ≡ own
      → let t = on_join_denied m msg in
        IsOwner own A t.master
        × IsRoute A own m msg.chat_channel_id dec [] (shutdown_for msg ∷ []) t
  unfolding on_join_denied
  on_join_denied-way msg info e u =
      let last = shutdown_for msg in
      let same : on_join_denied m msg ≡ member_left m msg.chat_channel_id info last [] =
        ground arith in
      rw same (
        member_left-IsOwner msg.chat_channel_id info last [] e,
        member_left-used msg.chat_channel_id info last [] e u,
      )

  -- A message of any chat channel: it reaches `own` only if it names the channel that uses it.
  pub on_channel-way :
      (op : ChannelToMasterOp) (msg : ChannelToMaster)
      → let t = on_channel_message op m msg in
        IsOwner own A t.master × (IsQuiet k own m t ⊎ A msg.chat_channel_id)
  unfolding on_channel_message on_join_denied
  on_channel-way ChannelToMasterOp.join_denied msg =
      let t = on_join_denied m msg in
      elim (Option-cases (lookup msg.chat_channel_id m.running_map)) [
        | inl e ↦
            let s : IsStill own m t = ground arith in
            (still-IsOwner own m A o t s, inl (still-IsQuiet own m k t s))
        | inr (info, e) ↦
            let last = shutdown_for msg in
            let same : t ≡ member_left m msg.chat_channel_id info last [] = ground arith in
            rw same (
              member_left-IsOwner msg.chat_channel_id info last [] e,
              elim (member_left-IsRoute msg.chat_channel_id info last [] e) [
                | inl q ↦ inl q
                | inr r ↦ inr r.owns
              ],
            )
      ]
  on_channel-way (ChannelToMasterOp.other x) msg =
      let t = on_channel_message (ChannelToMasterOp.other x) m msg in
      (o, inl (still-IsQuiet own m k t (refl, refl)))
