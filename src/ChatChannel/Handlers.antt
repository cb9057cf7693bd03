-- ===== src/ChatChannel/Handlers.antt =====
-- daemon/chatchannel.go: what a chat channel does with an exit, a request for its members, and a text.
use wtelnet.Common.{Bool, true, false, none, some, List, [], ◌∷◌, ◌++◌, ◌==◌, if◌then◌else◌, codes}
use wtelnet.Common.Dict.{Dict, delete}
use wtelnet.Helper.{int_to_str}
use wtelnet.Message.{
  ChannelToUser, ChannelToUserOp, MasterToChannel, MasterToChannelOp, UserToChannel,
}
use wtelnet.ChatChannel.{
  about, UserEntry, ChatChannel, Effect, Turn, carries_on, notice, to_user, conversation, logged,
  carry_on, shut_down, panicked,
}
use wtelnet.ChatChannel.Joining.{tell_who_is_on_channel, on_join}

abbrev pub exit_notice : ChatChannel → MasterToChannel → UserEntry → ChannelToUser
exit_notice s msg member =
    record (notice s ChannelToUserOp.text_exit (
      if member.user_id == msg.user_id
      then codes "You left #" ++ s.chat_channel_name
      else msg.user_name ++ codes " has left #" ++ s.chat_channel_name)) {
        leaving_doppelganger_id = msg.doppelganger_id;
      }

-- The loop of the exit branch: its effects, and `false` if it returned early.
unfoldable pub announce_exit : ChatChannel → MasterToChannel → Dict UserEntry → List Effect × Bool
announce_exit s msg [] = ([], true)
announce_exit s msg ((_, member) ∷ rest) =
    let later = announce_exit s msg rest in
    if s.chat_channel_id == 0
    then (logged (about s (codes " error: chatChannelState.chatChannelID == 0")) ∷ [], false)
    else elim s.incoming_from_doppelganger [
      | none ↦
          (logged (about s (codes " error: announceMsg.chatChannelCallback == nil")) ∷ [], false)
      | some _ ↦
          (to_user member.doppelganger_callback (exit_notice s msg member) ∷ later.0, later.1)
    ]

-- `case fromChannelMasterToChatChanOpExit`.
unfoldable pub on_exit : (Dict UserEntry → Dict UserEntry) → ChatChannel → MasterToChannel → Turn
unfolding announce_exit
on_exit visit s msg =
    let r = announce_exit s msg (visit s.member_list) in
    if r.1
    then carries_on (record s { member_list = delete msg.doppelganger_id s.member_list })
        (r.0
          ++ conversation (
              codes " <"
              ++ msg.user_name
              ++ codes " has EXITED #"
              ++ s.chat_channel_name
              ++ codes ">\n")
            ∷ [])
    else carries_on s r.0

unfoldable pub on_who : (Dict UserEntry → Dict UserEntry) → ChatChannel → MasterToChannel → Turn
unfolding tell_who_is_on_channel
on_who visit s msg =
    let who = tell_who_is_on_channel visit s msg.doppelganger_callback in
    record { channel = s; outcome = if who.1 then carry_on else panicked; effects = who.0 }

unfoldable pub dispatch :
    (Dict UserEntry → Dict UserEntry) → MasterToChannelOp → ChatChannel → MasterToChannel → Turn
unfolding on_join on_who on_exit
dispatch visit MasterToChannelOp.join s msg = on_join visit s msg
dispatch visit MasterToChannelOp.who s msg = on_who visit s msg
dispatch visit MasterToChannelOp.exit s msg = on_exit visit s msg
dispatch visit MasterToChannelOp.shutdown s msg = record {
  channel = s;
  outcome = shut_down;
  effects = [];
}
dispatch visit (MasterToChannelOp.other n) s msg = carries_on s (
    logged (
      about s
        (codes " error: unrecognized case for operation from channel master: " ++ int_to_str n))
    ∷ [])

-- The sends are effects; `Sends.sends` says what becomes of the turn if a doppelganger has closed its
-- Go channel.
unfoldable pub process_message_from_channel_master :
    (Dict UserEntry → Dict UserEntry) → ChatChannel → MasterToChannel → Turn
unfolding dispatch
process_message_from_channel_master visit s msg = dispatch visit msg.operation s msg

abbrev pub text_copy : ChatChannel → UserToChannel → ChannelToUser
text_copy s msg = record {
  operation = ChannelToUserOp.text_message;
  originator = msg.user_id;
  chat_channel_id = s.chat_channel_id;
  leaving_doppelganger_id = 0;
  parameter = msg.parameter;
  chat_channel_callback = none;
}

unfoldable pub distribute_message : ChatChannel → UserToChannel → Dict UserEntry → List Effect
distribute_message s msg [] = []
distribute_message s msg ((_, member) ∷ rest) =
    to_user member.doppelganger_callback (text_copy s msg) ∷ distribute_message s msg rest
