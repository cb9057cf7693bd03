-- ===== src/Doppelganger/Mailbox.antt =====
-- daemon/doppelganger.go: what the main loop does with a message from the channel master or from a
-- chat channel.
use wtelnet.Common.{
  ◌+◌, Bool, true, false, none, some, List, ◌∷◌, ◌++◌, ◌==◌, ◌&&◌, if◌then◌else◌, Bytes, codes,
}
use wtelnet.Helper.{int_to_str}
use wtelnet.Message.{MasterToUser, MasterToUserOp, ChannelToUser, ChannelToUserOp}
use wtelnet.Doppelganger.{
  about, UserInfo, Effect, logged, does, no_channel, long_write, say, backspace_out,
}

module _ {Db : Type 0} (fails : List Effect → Bytes → Bool) where
  -- The result is `true` where the telnet goroutine is gone. For a message of the user's own the
  -- error of the first write is not looked at.
  unfoldable pub generic_text_output : UserInfo Db → ChannelToUser → Bool × UserInfo Db
  generic_text_output s msg =
      let w = backspace_out fails s (s.prompt_len + s.cursor_column) in
      let v = long_write fails (msg.parameter ++ codes "\r\n") w.1 in
      if msg.originator == s.user_id then v else if w.0 then (true, w.1) else v

  -- A text for a user who is still there.
  unfoldable pub tell : Bytes → UserInfo Db → UserInfo Db
  tell text s =
      if s.telnet_goroutine_has_gone_away
      then s
      else say fails (codes "\r\n" ++ text ++ codes "\r\n") s

  abbrev release_if_gone : UserInfo Db → UserInfo Db
  release_if_gone s = record s {
    cant_exit_before_exit_message =
        if s.telnet_goroutine_has_gone_away then false else s.cant_exit_before_exit_message;
  }

  unfoldable pub by_master_op : MasterToUserOp → MasterToUser → UserInfo Db → UserInfo Db
  unfolding tell
  by_master_op MasterToUserOp.generic_text msg s = tell msg.msg_to_user s
  by_master_op MasterToUserOp.join_denied msg s =
      release_if_gone (tell msg.msg_to_user (record s { chat_channel_id = 0 }))
  by_master_op (MasterToUserOp.other n) msg s =
      does
        (logged (about s (codes " error: unexpected opcode from channel master: " ++ int_to_str n)))
        s

  unfoldable pub on_master_message : MasterToUser → UserInfo Db → UserInfo Db
  unfolding by_master_op
  on_master_message msg s = record (by_master_op msg.operation msg s) { prompt_needed = true }

  unfoldable pub on_joined : ChannelToUser → UserInfo Db → UserInfo Db
  unfolding tell
  on_joined msg s =
      let s' = record s {
        chat_channel_id = msg.chat_channel_id;
        chat_channel_name = msg.parameter;
        chat_channel_callback = msg.chat_channel_callback;
        trace = elim msg.chat_channel_callback [
          | none ↦
              logged (about s (codes " error: doppelgangerState.chatChannelCallback == nil"))
              ∷ s.trace
          | some _ ↦ s.trace
        ];
      } in
      release_if_gone (tell (codes "You have joined #" ++ msg.parameter) s')

  abbrev gone_after : Bool × UserInfo Db → UserInfo Db
  gone_after (shutdown, s) = record s {
    telnet_goroutine_has_gone_away = if shutdown then true else s.telnet_goroutine_has_gone_away;
  }

  abbrev pub is_own_exit : ChannelToUser → UserInfo Db → Bool
  is_own_exit msg s = s.doppelganger_id == msg.leaving_doppelganger_id

  -- The exit of a member, where the goroutine does not end by it.
  unfoldable pub on_text_exit : ChannelToUser → UserInfo Db → UserInfo Db
  on_text_exit msg s =
      let own = is_own_exit msg s in
      let s₁ = record s {
        cant_exit_before_exit_message = if own then false else s.cant_exit_before_exit_message;
      } in
      let s₂ = gone_after (generic_text_output s₁ msg) in
      record s₂ {
        chat_channel_id = if own then 0 else s₂.chat_channel_id;
        chat_channel_name = if own then no_channel else s₂.chat_channel_name;
      }

  -- The result is `true` where the goroutine returns: the user is gone, and this is its own exit.
  unfoldable pub by_channel_op : ChannelToUserOp → ChannelToUser → UserInfo Db → Bool × UserInfo Db
  unfolding tell on_joined on_text_exit
  by_channel_op ChannelToUserOp.join_denied msg s =
      (false, tell (codes "Request to join channel denied: " ++ msg.parameter) s)
  by_channel_op ChannelToUserOp.joined msg s = (false, on_joined msg s)
  by_channel_op ChannelToUserOp.text_message msg s = (false, gone_after (generic_text_output s msg))
  by_channel_op ChannelToUserOp.text_exit msg s =
      if s.telnet_goroutine_has_gone_away && is_own_exit msg s
      then (true, s)
      else (false, on_text_exit msg s)
  by_channel_op (ChannelToUserOp.other n) msg s = (
    false,
    does
        (logged (
          about s (codes " error: unexpected opcode received from chat channel: " ++ int_to_str n)))
        s,
  )

  unfoldable pub on_channel_message : ChannelToUser → UserInfo Db → Bool × UserInfo Db
  unfolding by_channel_op
  on_channel_message msg s =
      let (ended, s') = by_channel_op msg.operation msg s in
      (ended, if ended then s' else record s' { prompt_needed = true })
