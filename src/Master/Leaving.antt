-- ===== src/Master/Leaving.antt =====
-- daemon/channelmaster.go: what the channel master does with an exit and with a denial of a chat channel.
use wtelnet.Common.{Option, none, some, List, [], ◌∷◌, ◌++◌, ◌==◌, if◌then◌else◌, codes, Int64, dec}
use wtelnet.Common.Dict.{lookup, insert, delete}
use wtelnet.Message.{
  Chan, MasterToUser, MasterToUserOp, MasterToChannel, MasterToChannelOp, UserToMaster,
  ChannelToMaster,
}
use wtelnet.Master.{
  to_user, PerChatChan, Effect, Master, Turn, goes_on, returns, panics, join_message, to_channel,
  logged,
}

-- A member less; the channel that has none left is told to shut down and is forgotten.
unfoldable pub member_left : Master → Int64 → PerChatChan → MasterToChannel → List Effect → Turn
member_left m id info shutdown_message es =
    if dec info.member_count == 0
    then goes_on (record m { running_map = delete id m.running_map })
        (es ++ to_channel info.chat_channel_callback shutdown_message ∷ [])
    else goes_on
        (record m {
          running_map =
              insert id (record info { member_count = dec info.member_count }) m.running_map;
        })
        es

abbrev pub not_on_channel : MasterToUser
not_on_channel = record {
  channel_id = 0;
  operation = MasterToUserOp.generic_text;
  msg_to_user =
      codes "You are not on a channel. You have to join a channel before you can exit it.";
}

-- The branch for a user who is on no channel.
abbrev pub refuse_exit : Master → Option Chan → Turn
refuse_exit m none =
    returns m (
      logged (codes "channel master: theMessage.doppelgangerCallbackFromChannelMaster == nil") ∷ [])
refuse_exit m (some c) = goes_on m (to_user c not_on_channel ∷ [])

-- `case fromDoppelgangerToChannelMasterOpExit`.
unfoldable pub on_exit : Master → UserToMaster → Turn
unfolding member_left
on_exit m msg =
    if msg.chat_channel_id == 0
    then refuse_exit m msg.callback_from_channel_master
    else elim (lookup msg.chat_channel_id m.running_map) [
      | none ↦ returns m (
          logged (
            codes
              "channel master error: runningChatchannelMap[theMessage.chatChannelID] does not exist (trying to exit a channel that doesn't exist)")
          ∷ [])
      | some info ↦
          member_left m msg.chat_channel_id info (join_message msg MasterToChannelOp.shutdown)
            (to_channel info.chat_channel_callback (join_message msg MasterToChannelOp.exit) ∷ [])
    ]

abbrev pub shutdown_for : ChannelToMaster → MasterToChannel
shutdown_for msg = record {
  operation = MasterToChannelOp.shutdown;
  user_id = msg.user_id;
  user_name = [];
  doppelganger_id = msg.doppelganger_id;
  doppelganger_callback = none;
}

-- `case fromChatChannelToChannelMasterOpJoinDenied`. An entry that is missing reads as `nil`.
unfoldable pub on_join_denied : Master → ChannelToMaster → Turn
unfolding member_left
on_join_denied m msg = elim (lookup msg.chat_channel_id m.running_map) [
  | none ↦ panics m []
  | some info ↦ member_left m msg.chat_channel_id info (shutdown_for msg) []
]
