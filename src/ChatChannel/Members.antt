-- ===== src/ChatChannel/Members.antt =====
-- daemon/chatchannel.go: who is on the channel after a message of the channel master.
use wtelnet.Common.{
  ◌++◌, ◌+◌, ◌≤◌, ◌<◌, ◌≡◌, refl, ◌≢◌, inl, inr, Bool, true, false, Option, none, some, List, [],
  ◌∷◌, ◌==◌, if◌then◌else◌, Bytes, codes, Int64, arith, length, Option-cases, Error,
}
use wtelnet.Common.Dict.{Dict, lookup, lookup-insert, length-insert, length-delete}
use wtelnet.Message.{Chan, MasterToChannel, MasterToChannelOp, ChannelToUserOp}
use wtelnet.ChatChannel.{
  UserEntry, ChatChannel, Effect, to_user, to_master, Outcome, carry_on, shut_down, panicked,
  max_members, notice,
}
use wtelnet.ChatChannel.Joining.{denial, entry, with_member, refuse, welcome, admit, on_join}
use wtelnet.ChatChannel.Handlers.{on_exit, dispatch, process_message_from_channel_master}
use wtelnet.ChatChannel.LogFile.{log_path}
use wtelnet.ChatChannel.Loop.{
  Status, finished, crashed, fatal, looping, Progress, deferred, after_start,
  chat_channel_goroutine, Event, from_master, from_user, after_outcome, handle_from_master,
  chat_channel_start, loop_turn, loop,
}

module _ (visit : Dict UserEntry → Dict UserEntry) (s : ChatChannel) (msg : MasterToChannel) where
  refuse-members : (refuse s msg).channel ≡ s
  unfolding refuse
  refuse-members = ground arith

  welcome-members :
      (t : ChatChannel) (c : Chan) (es : List Effect) → (welcome visit t msg c es).channel ≡ t
  unfolding welcome
  welcome-members t c es = ground arith

  admit-size : length (admit visit s msg).channel.member_list ≤ length s.member_list + 1
  unfolding admit
  admit-size = elim (Option-cases msg.doppelganger_callback) [
    | inl e ↦ ground arith
    | inr (c, e) ↦ ground (
      arith,
      welcome-members (with_member s msg c) c
          (to_user c (notice s ChannelToUserOp.joined s.chat_channel_name) ∷ []),
      length-insert msg.doppelganger_id (entry msg c) s.member_list,
    )
  ]

  on_join-size :
      length s.member_list ≤ max_members
      → length (on_join visit s msg).channel.member_list ≤ max_members
  unfolding on_join
  on_join-size h = ground (arith, refuse-members, admit-size)

  on_exit-size : length (on_exit visit s msg).channel.member_list ≤ length s.member_list
  unfolding on_exit
  on_exit-size = ground (arith, length-delete msg.doppelganger_id s.member_list)

module _ (visit : Dict UserEntry → Dict UserEntry) where
  process-size :
      (op : MasterToChannelOp) (s : ChatChannel) (msg : MasterToChannel)
      → length s.member_list ≤ max_members
      → length (dispatch visit op s msg).channel.member_list ≤ max_members
  unfolding dispatch
  process-size MasterToChannelOp.join s msg h = on_join-size visit s msg h
  process-size MasterToChannelOp.who s msg h = ground (arith, h)
  process-size MasterToChannelOp.exit s msg h = omega (arith, on_exit-size visit s msg)
  process-size MasterToChannelOp.shutdown s msg h = h
  process-size (MasterToChannelOp.other n) s msg h = h

  after_outcome-channel :
      (incoming : Chan) (first : Bool) (o : Outcome) (s : ChatChannel) (es : List Effect)
      → (after_outcome incoming first o s es).channel ≡ s
  unfolding after_outcome
  after_outcome-channel incoming first carry_on s es = refl
  after_outcome-channel incoming first shut_down s es = refl
  after_outcome-channel incoming first panicked s es = refl

  from_master-size :
      (incoming : Chan) (first : Bool) (s : ChatChannel) (msg : MasterToChannel)
      → length s.member_list ≤ max_members
      → length (handle_from_master visit incoming first s msg).channel.member_list ≤ max_members
  unfolding handle_from_master process_message_from_channel_master
  from_master-size incoming first s msg h =
      let t = dispatch visit msg.operation s msg in
      rw (after_outcome-channel incoming first t.outcome t.channel t.effects)
        (process-size msg.operation s msg h)

  turn-size :
      (incoming : Chan) (s : ChatChannel) (e : Event)
      → length s.member_list ≤ max_members
      → length (loop_turn visit incoming s e).channel.member_list ≤ max_members
  unfolding loop_turn
  turn-size incoming s (from_master (some msg)) h = from_master-size incoming false s msg h
  turn-size incoming s (from_master none) h = h
  turn-size incoming s (from_user (some msg)) h = h
  turn-size incoming s (from_user none) h = h

  loop-size :
      (incoming : Chan) (s : ChatChannel) (es : List Event)
      → length s.member_list ≤ max_members
      → length (loop visit incoming s es).channel.member_list ≤ max_members
  unfolding loop
  loop-size incoming s [] h = h
  loop-size incoming s (e ∷ es) h =
      let t = loop_turn visit incoming s e in
      ground (
        arith,
        turn-size incoming s e h,
        loop-size incoming t.channel es (turn-size incoming s e h),
      )

  start-size :
      (incoming own : Chan) (id : Int64) (name : Bytes) (master_chan : Option Chan)
      (open_log : Bytes → Option Error) (first_message : MasterToChannel)
      → length
          (chat_channel_start visit incoming id name own master_chan open_log
            first_message).channel.member_list
        ≤ max_members
  unfolding chat_channel_start
  start-size incoming own id name master_chan open_log first_message =
      elim (Option-cases (open_log (log_path name))) [
        | inl o ↦
            rw (o, chat_channel_start)
              (from_master-size incoming true _ first_message (omega arith))
        | inr (e, o) ↦ rw (o, chat_channel_start) (omega arith)
      ]

  deferred-channel :
      (incoming : Chan) (e : Option Error) (st : Status) (t : Progress)
      → (deferred visit incoming e st t).channel ≡ t.channel
  unfolding deferred
  deferred-channel incoming e looping t = refl
  deferred-channel incoming e finished t = refl
  deferred-channel incoming e crashed t = refl
  deferred-channel incoming e fatal t = refl

  after_start-size :
      (incoming : Chan) (e : Option Error) (es : List Event) (st : Status) (t : Progress)
      → length t.channel.member_list ≤ max_members
      → length (after_start visit incoming e es st t).channel.member_list ≤ max_members
  unfolding after_start
  after_start-size incoming e es looping t h =
      let rest = loop visit incoming t.channel es in
      rw
        (deferred-channel incoming e rest.status
          (record rest { effects = t.effects ++ rest.effects }))
        (loop-size incoming t.channel es h)
  after_start-size incoming e es finished t h = rw (deferred-channel incoming e finished t) h
  after_start-size incoming e es crashed t h = rw (deferred-channel incoming e crashed t) h
  after_start-size incoming e es fatal t h = h

  -- From the launch of its goroutine on, in whatever order maps are visited, and whatever errors the
  -- file of the log has, a chat channel has never more than six members, after any messages of the
  -- channel master and of its members.
  pub chat_channel-size :
      (incoming own : Chan) (id : Int64) (name : Bytes) (master_chan : Option Chan)
      (open_log : Bytes → Option Error) (close_error : Option Error)
      (first_message : MasterToChannel) (es : List Event)
      → length
          (chat_channel_goroutine visit incoming id name own master_chan open_log close_error
            first_message es).channel.member_list
        ≤ max_members
  unfolding chat_channel_goroutine
  chat_channel-size incoming own id name master_chan open_log close_error first_message es =
      let t = chat_channel_start visit incoming id name own master_chan open_log first_message in
      after_start-size incoming close_error es t.status t
        (start-size incoming own id name master_chan open_log first_message)

module _ (visit : Dict UserEntry → Dict UserEntry) (s : ChatChannel) (msg : MasterToChannel) where
  -- On a full channel a join changes nothing but to send one denial to the channel master, which
  -- names the user's doppelganger and the channel, and one to the user.
  pub on_join-full :
      (m c : Chan)
      → max_members ≤ length s.member_list
      → s.master_chan ≡ some m
      → msg.doppelganger_callback ≡ some c
      → let t = on_join visit s msg in
        (t.channel ≡ s)
        × (t.outcome ≡ carry_on)
        × (t.effects
            ≡ to_master (denial s msg)
              ∷ to_user c (record (notice s ChannelToUserOp.join_denied (codes "Channel is full")) {
                chat_channel_callback = none;
              })
              ∷ [])
  unfolding on_join
  on_join-full m c h e d = ground arith

  -- On a channel that has room, with its id and its Go channel set, a join whose callback is set
  -- makes the user a member under the doppelganger's id and leaves all other members as they were.
  pub on_join-member_list :
      (own c : Chan) (j : Int64)
      → length s.member_list < max_members
      → s.chat_channel_id ≢ 0
      → s.incoming_from_doppelganger ≡ some own
      → msg.doppelganger_callback ≡ some c
      → lookup j (on_join visit s msg).channel.member_list
        ≡ (if msg.doppelganger_id == j then some (entry msg c) else lookup j s.member_list)
  unfolding on_join
  on_join-member_list own c j h i o e = ground (
    arith,
    welcome-members visit s msg (with_member s msg c) c
        (to_user c (notice s ChannelToUserOp.joined s.chat_channel_name) ∷ []),
    lookup-insert msg.doppelganger_id j (entry msg c) s.member_list,
  )
