-- ===== src/System/Launch.antt =====
-- daemon/channelmaster.go with daemon/chatchannel.go: the launch of a chat channel.
use wtelnet.Common.{◌≡◌, refl, ◌≢◌, inl, some, [], ◌∷◌, Bytes, Int64, arith}
use wtelnet.Common.Dict.{Dict, lookup, lookup-insert}
use wtelnet.Message.{Chan, MasterToChannelOp, UserToMaster}
use wtelnet.Master.{PerChatChan, Master, join_message}
use wtelnet.Master.Joining.{launch_channel}
use wtelnet.Master.Ownership.{IsApart}
use wtelnet.ChatChannel.{UserEntry}
use wtelnet.ChatChannel.Loop.{new_channel}
use wtelnet.System.{System, settle}
use wtelnet.System.Rooms.{IsRoom}
use wtelnet.System.Invariant.{tally, IsLine, IsSound, push-IsLine}

-- The system when the channel master has launched a chat channel, with the join as first message.
abbrev pub launched : Master → UserToMaster → Int64 → Bytes → Chan → Chan → System
launched m msg id name room_chan master_chan = record {
  master = (launch_channel m msg id name).master;
  room = new_channel id name room_chan (some master_chan);
  queue = join_message msg MasterToChannelOp.join ∷ [];
  denials = [];
}

module _ (visit : Dict UserEntry → Dict UserEntry) (m : Master) (msg : UserToMaster) (id : Int64)
    (name : Bytes) (room_chan master_chan : Chan) (v : IsApart m) (set : id ≢ 0) where
  new-IsRoom : IsRoom id (new_channel id name room_chan (some master_chan))
  new-IsRoom = record {
    same_id = refl;
    id_set = set;
    own_set = (room_chan, refl);
    master_set = (master_chan, refl);
    unique = tt;
  }

  -- The first message fits, and brings one member, or a denial.
  first-IsLine :
      (c : Chan)
      → msg.callback_from_chat_channel ≡ some c
      → let room = new_channel id name room_chan (some master_chan) in
        let first = join_message msg MasterToChannelOp.join in
        IsLine visit id room (first ∷ []) [] × (tally visit room (first ∷ []) [] ≡ 1)
  unfolding settle lookup
  first-IsLine c e =
      let room = new_channel id name room_chan (some master_chan) in
      let first = join_message msg MasterToChannelOp.join in
      let (l, sums) =
        push-IsLine visit id room [] [] first
          (record { sound = new-IsRoom; fits = tt; last = tt; named = tt }) tt (refl, (c, e)) in
      (l, omega (arith, sums))

  -- A chat channel is sound at its launch.
  pub launched-IsSound :
      (c : Chan)
      → msg.callback_from_chat_channel ≡ some c
      → IsSound visit id m.next_chan (launched m msg id name room_chan master_chan)
  unfolding launch_channel
  launched-IsSound c e =
      let new : PerChatChan = record { member_count = 1; chat_channel_callback = m.next_chan } in
      let (l, one) = first-IsLine c e in
      record {
        line = l;
        phase = inl (record {
          owner = (
            ground arith,
            λ j info f u. ground (arith, lookup-insert id j new m.running_map, v.made j info),
          );
          info = new;
          found = ground (arith, lookup-insert id id new m.running_map);
          uses = refl;
          counted = omega (arith, one);
          some_left = omega (arith, one);
          in_range = omega (arith, one);
          open_queue = (λ e. cc, tt);
        });
      }
