-- ===== src/Crossings/Twice.antt =====
-- daemon/doppelganger.go, daemon/channelmaster.go and daemon/chatchannel.go: a user who joins twice before
-- the answer.
use wtelnet.Common.{
  ◌≡◌, ◌≢◌, ◌+◌, ◌<◌, refl, ap, ◌∙◌, Bool, true, false, none, some, List, [], ◌∷◌, ◌==◌, Bytes,
  Int64, inc, minus_one, arith, length, Result, ok,
}
use wtelnet.Common.Dict.{Dict, lookup, lookup-insert}
use wtelnet.Common.Dict.Size.{length-insert_new, length-insert_held}
use wtelnet.Message.{Chan, UserToMaster, MasterToChannelOp, MasterToChannel}
use wtelnet.Doppelganger.{UserInfo, Effect, to_master}
use wtelnet.Doppelganger.Commands.{reply}
use wtelnet.Doppelganger.Commands
use wtelnet.Doppelganger.Commands.Frame.{state_of}
use wtelnet.Crossings.{join_request, join-pending}
use wtelnet.Master.Joining.{on_join}
use wtelnet.Master.{Master, PerChatChan, join_message}
use wtelnet.Master.Routing.{on_join-lookup}
use wtelnet.ChatChannel.{UserEntry, ChatChannel, max_members}
use wtelnet.ChatChannel.Joining.{with_member, entry}
use wtelnet.System.{denials_of}
use wtelnet.System.Quiet.{on_join-admits}

module _ {Db : Type 0} (fails : List Effect → Bytes → Bool) (s : UserInfo Db) where
  -- A join while the one before is pending sends the same request.
  again-pending :
      (c : Chan) (operand : Bytes)
      → s.user_id ≢ 0
      → s.chat_channel_id ≡ minus_one
      → s.master_chan ≡ some c
      → Commands.on_join fails operand s
        ≡ reply false false (record s {
          chat_channel_id = minus_one;
          trace = to_master (join_request s operand) ∷ s.trace;
        })
  unfolding Commands.on_join
  again-pending c operand u i m = ground arith

-- The user that two joins leave.
abbrev pub joined_twice :
    {Db : Type 0} → (List Effect → Bytes → Bool) → UserInfo Db → Bytes → UserInfo Db
joined_twice fails s operand =
    state_of (Commands.on_join fails operand (state_of (Commands.on_join fails operand s)))

twice-sent :
    {Db : Type 0} (fails : List Effect → Bytes → Bool) (s : UserInfo Db) (c : Chan)
    (operand : Bytes)
    → s.user_id ≢ 0
    → s.chat_channel_id ≡ 0
    → s.master_chan ≡ some c
    → joined_twice fails s operand ≡ record s {
      chat_channel_id = minus_one;
      trace = to_master (join_request s operand) ∷ to_master (join_request s operand) ∷ s.trace;
    }
twice-sent {Db} fails s c operand u i m =
    let t : UserInfo Db = record s {
      chat_channel_id = minus_one;
      trace = to_master (join_request s operand) ∷ s.trace;
    } in
    ap (λ r. state_of (Commands.on_join fails operand (state_of r)))
      (join-pending fails s c operand u i m)
    ∙ ap state_of (again-pending fails t c operand u refl m)

module _ (get : Bytes → Result Int64) (msg : UserToMaster) (id : Int64) (c : Chan)
    (p : msg.parameter ≢ []) (g : get msg.parameter ≡ ok id) (i : id ≢ 0)
    (k : msg.callback_from_chat_channel ≡ some c) where
  joined-counted :
      (m : Master) (info : PerChatChan)
      → lookup id m.running_map ≡ some info
      → lookup id (on_join get m msg).master.running_map
        ≡ some (record info { member_count = inc info.member_count })
  joined-counted m info f =
      let same : id == id ≡ true = ground arith in
      (on_join-lookup m msg get id id c p g i k).1 ∙ rw (same, f)

  -- The channel master counts both.
  twice-counted :
      (m : Master) (info : PerChatChan)
      → lookup id m.running_map ≡ some info
      → lookup id (on_join get (on_join get m msg).master msg).master.running_map
        ≡ some (record info { member_count = inc (inc info.member_count) })
  twice-counted m info f =
      joined-counted (on_join get m msg).master
        (record info { member_count = inc info.member_count }) (joined-counted m info f)

-- The chat channel has one member more.
twice-one_member :
    (visit : Dict UserEntry → Dict UserEntry) (room : ChatChannel) (own c : Chan)
    (msg : MasterToChannel)
    → room.chat_channel_id ≢ 0
    → room.incoming_from_doppelganger ≡ some own
    → msg.doppelganger_callback ≡ some c
    → lookup msg.doppelganger_id room.member_list ≡ none
    → length room.member_list + 1 < max_members
    → let next = (wtelnet.ChatChannel.Joining.on_join visit room msg).channel in
      let t = wtelnet.ChatChannel.Joining.on_join visit next msg in
      (length t.channel.member_list ≡ length room.member_list + 1) × (denials_of t.effects ≡ [])
twice-one_member visit room own c msg i o k f lt =
    let (first, _) = on_join-admits visit room msg own c i o (omega arith) k in
    let t = with_member room msg c in
    let new = entry msg c in
    let size = length-insert_new msg.doppelganger_id new room.member_list f in
    let (second, silent) = on_join-admits visit t msg own c i o (omega (arith, size)) k in
    let held : lookup msg.doppelganger_id t.member_list ≡ some new =
      ground (arith, lookup-insert msg.doppelganger_id msg.doppelganger_id new room.member_list) in
    rw (first, second)
      (
        omega (arith, size, length-insert_held msg.doppelganger_id new new t.member_list held),
        silent,
      )

-- A user who is logged in and on no channel joins a running channel, of which it is no member, and joins
-- it again before the answer. If there is room for two, the two joins send the same request twice, the
-- channel master counts two members more, and the chat channel has one member more and denies nothing.
pub second_join-miscounts :
    {Db : Type 0} (fails : List Effect → Bytes → Bool) (s : UserInfo Db) (c : Chan)
    (operand : Bytes)
    → s.user_id ≢ 0
    → s.chat_channel_id ≡ 0
    → s.master_chan ≡ some c
    → (get : Bytes → Result Int64) (m : Master) (id : Int64) (info : PerChatChan) → operand ≢ []
    → get operand ≡ ok id
    → id ≢ 0
    → lookup id m.running_map ≡ some info
    → (visit : Dict UserEntry → Dict UserEntry) (room : ChatChannel) (own : Chan)
    → room.chat_channel_id ≢ 0
    → room.incoming_from_doppelganger ≡ some own
    → lookup s.doppelganger_id room.member_list ≡ none
    → length room.member_list + 1 < max_members
    → let request = join_request s operand in
      let msg = join_message request MasterToChannelOp.join in
      let next = (wtelnet.ChatChannel.Joining.on_join visit room msg).channel in
      let t = wtelnet.ChatChannel.Joining.on_join visit next msg in
      (joined_twice fails s operand ≡ record s {
        chat_channel_id = minus_one;
        trace = to_master request ∷ to_master request ∷ s.trace;
      })
      × (lookup id (on_join get (on_join get m request).master request).master.running_map
          ≡ some (record info { member_count = inc (inc info.member_count) }))
      × (length t.channel.member_list ≡ length room.member_list + 1)
      × (denials_of t.effects ≡ [])
second_join-miscounts fails s c operand u z mc get m id info p g i f visit room own ri ro rf lt =
    let request = join_request s operand in
    let reply_on = s.incoming_from_chat_channel in
    let (size, silent) =
      twice-one_member visit room own reply_on (join_message request MasterToChannelOp.join) ri ro
        refl rf lt in
    (
      twice-sent fails s c operand u z mc,
      twice-counted get request id reply_on p g i refl m info f,
      size,
      silent,
    )
