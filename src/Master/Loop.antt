-- ===== src/Master/Loop.antt =====
-- daemon/channelmaster.go: the `select` loop of the channel master.
use wtelnet.Common.{◌++◌, Option, none, some, List, [], ◌∷◌, Bytes, codes, Int64, length, Result}
use wtelnet.Helper.{int_to_str}
use wtelnet.Message.{UserToMaster, UserToMasterOp, ChannelToMaster, ChannelToMasterOp}
use wtelnet.Master.{
  Status, Master, Turn, goes_on, returns, logged, printed, running, returned, panicked,
}
use wtelnet.Master.Joining.{who_is_on_chat_channel, on_join}
use wtelnet.Master.Leaving.{on_exit, on_join_denied}

unfoldable pub on_user_message :
    (Bytes → Result Int64) → UserToMasterOp → Master → UserToMaster → Turn
unfolding on_join who_is_on_chat_channel on_exit
on_user_message get UserToMasterOp.join m msg = on_join get m msg
on_user_message get UserToMasterOp.who m msg = who_is_on_chat_channel m msg
on_user_message get UserToMasterOp.exit m msg = on_exit m msg
on_user_message get (UserToMasterOp.other n) m msg = goes_on m (
    logged (
      codes
        "channel master error: Unrecognized operation code received by channelmaster from doppelganger: "
      ++ int_to_str n)
    ∷ [])

unfoldable pub on_channel_message : ChannelToMasterOp → Master → ChannelToMaster → Turn
unfolding on_join_denied
on_channel_message ChannelToMasterOp.join_denied m msg = on_join_denied m msg
on_channel_message (ChannelToMasterOp.other n) m msg = goes_on m (
    logged (
      codes
        "channel master error: Unrecognized operation code received by channelmaster from chat channel: "
      ++ int_to_str n)
    ∷ [])

-- What the `select` receives; `none` where the Go channel is closed. With a message of a user comes
-- what the database answers when it is handled.
pub data Event : Type 0 where
  from_user : (Bytes → Result Int64) → Option UserToMaster → Event
  from_channel : Option ChannelToMaster → Event
  heartbeat : Option (Unit {0}) → Event

unfoldable pub turn : Master → Event → Turn
unfolding on_user_message on_channel_message
turn m (from_user get none) = returns m (
    logged (
      codes
        "channel master error: Channel master's channel for receiving messages from doppelganger's unexpectedly closed.")
    ∷ [])
turn m (from_user get (some msg)) = on_user_message get msg.operation m msg
turn m (from_channel none) = returns m (
    logged (codes "channel master error: incomingFromChatChannel go channel unexpectedly closed")
    ∷ [])
turn m (from_channel (some msg)) = on_channel_message msg.operation m msg
turn m (heartbeat none) =
    goes_on m (logged (codes "Channel master error: Heartbeat channel closed.") ∷ [])
turn m (heartbeat (some _)) = goes_on m (printed (length m.running_map) ∷ [])

unfoldable pub start : Master
start = record { running_map = []; next_chan = 0 }

-- The loop, over the events that arrive: it ends where the goroutine returns or panics.
unfoldable pub run : Master → List Event → Master × Status
run m [] = (m, running)
run m (e ∷ es) =
    let t = turn m e in
    elim t.status [
      | running ↦ run t.master es
      | returned ↦ (t.master, returned)
      | panicked ↦ (t.master, panicked)
    ]
