-- ===== src/Crossings/Bounce.antt =====
-- daemon/doppelganger.go: the exit of a user that bounces back from the channel that is left, and the
-- message of the channel that is joined next, in either order.
use wtelnet.Common.{◌≡◌, ◌∙◌, Bool, false, List, Bytes, arith}
use wtelnet.Message.{ChannelToUser, ChannelToUserOp}
use wtelnet.Doppelganger.{UserInfo, Effect}
use wtelnet.Doppelganger.Exit.Waiting.{requests}
use wtelnet.Doppelganger.Commands.{on_exit}
use wtelnet.Doppelganger.Commands.Frame.{state_of}
use wtelnet.Doppelganger.Mailbox.{by_channel_op, on_joined, on_text_exit, tell}

module _ {Db : Type 0} (fails : List Effect → Bytes → Bool) where
  joined-sets :
      (s : UserInfo Db) (msg : ChannelToUser)
      → let t = (by_channel_op fails ChannelToUserOp.joined msg s).1 in
        (t.chat_channel_id ≡ msg.chat_channel_id) × (t.doppelganger_id ≡ s.doppelganger_id)
  unfolding by_channel_op on_joined tell
  joined-sets s msg = ground arith

  bounce-clears :
      (s : UserInfo Db) (msg : ChannelToUser)
      → s.telnet_goroutine_has_gone_away ≡ false
      → s.doppelganger_id ≡ msg.leaving_doppelganger_id
      → (by_channel_op fails ChannelToUserOp.text_exit msg s).1.chat_channel_id ≡ 0
  unfolding by_channel_op on_text_exit
  bounce-clears s msg g own = ground arith

  -- Off every channel, `/exit` asks the channel master for nothing.
  exit-off_channel :
      (s : UserInfo Db) (operand : Bytes)
      → s.chat_channel_id ≡ 0
      → requests (state_of (on_exit fails operand s)).trace ≡ requests s.trace
  unfolding on_exit
  exit-off_channel s operand i = ground arith

  -- A user whose own exit from a channel is on its way back and whose next join is answered. If the
  -- exit comes back first, the user is on the new channel after both. If the answer comes first, and
  -- the user is not gone after it, the exit that comes after it takes the user off the new channel, and
  -- an `/exit` then asks the channel master for nothing.
  pub late_bounce-loses_channel :
      (s : UserInfo Db) (bounce answer : ChannelToUser) (operand : Bytes)
      → s.doppelganger_id ≡ bounce.leaving_doppelganger_id
      → (by_channel_op fails ChannelToUserOp.joined answer s).1.telnet_goroutine_has_gone_away
        ≡ false
      → let first = (by_channel_op fails ChannelToUserOp.text_exit bounce s).1 in
        let sooner = (by_channel_op fails ChannelToUserOp.joined answer first).1 in
        let joined = (by_channel_op fails ChannelToUserOp.joined answer s).1 in
        let later = (by_channel_op fails ChannelToUserOp.text_exit bounce joined).1 in
        (sooner.chat_channel_id ≡ answer.chat_channel_id)
        × (later.chat_channel_id ≡ 0)
        × (requests (state_of (on_exit fails operand later)).trace ≡ requests later.trace)
  late_bounce-loses_channel s bounce answer operand own g =
      let first = (by_channel_op fails ChannelToUserOp.text_exit bounce s).1 in
      let joined = (by_channel_op fails ChannelToUserOp.joined answer s).1 in
      let later = (by_channel_op fails ChannelToUserOp.text_exit bounce joined).1 in
      let off = bounce-clears joined bounce g ((joined-sets s answer).1 ∙ own) in
      ((joined-sets first answer).0, off, exit-off_channel later operand off)
