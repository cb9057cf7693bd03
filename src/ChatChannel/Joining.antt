-- ===== src/ChatChannel/Joining.antt =====
-- daemon/chatchannel.go: what a chat channel does with a join.
use wtelnet.Common.{
  Bool, true, false, Option, none, some, List, [], ◌∷◌, ◌++◌, ◌==◌, ltb, leb, if◌then◌else◌, Bytes,
  codes, length, drop,
}
use wtelnet.Common.Dict.{Dict, insert}
use wtelnet.Message.{Chan, ChannelToUserOp, MasterToChannel, ChannelToMaster, ChannelToMasterOp}
use wtelnet.ChatChannel.{
  about, about_channel, UserEntry, ChatChannel, Effect, Turn, carries_on, max_members, notice,
  to_user, to_master, conversation, logged, panicked,
}

-- `memberStr`.
unfoldable pub member_str : Dict UserEntry → Bytes
member_str [] = []
member_str ((_, member) ∷ rest) = (codes ", " ++ member.user_name) ++ member_str rest

abbrev pub log_who : Bytes → List Effect × Bool
log_who text = (logged text ∷ [], true)

-- The result is the effects, and `false` if the slice `memberStr[2:]` is out of range.
unfoldable pub tell_who_is_on_channel :
    (Dict UserEntry → Dict UserEntry) → ChatChannel → Option Chan → List Effect × Bool
tell_who_is_on_channel visit s callback =
    if s.chat_channel_id == 0
    then log_who (about s (codes " error: chatChannelState.chatChannelID == 0"))
    else if ltb (length (member_str (visit s.member_list))) 2
    then ([], false)
    else elim s.incoming_from_doppelganger [
      | none ↦ log_who (about s (codes " error: whoMsg.chatChannelCallback == nil"))
      | some _ ↦ elim callback [
        | none ↦ log_who (about s (codes " error: doppelgangerCallback == nil"))
        | some c ↦ (
          to_user c (
                notice s ChannelToUserOp.text_message
                  (codes "On this channel: " ++ drop 2 (member_str (visit s.member_list))))
              ∷ [],
          true,
        )
      ]
    ]

-- The announcement of a new member. The tests for `nil` and 0 in this loop repeat those that the
-- handler has passed.
unfoldable pub announce_join : ChatChannel → MasterToChannel → Dict UserEntry → List Effect
announce_join s msg [] = []
announce_join s msg ((_, member) ∷ rest) =
    if member.user_id == msg.user_id
    then announce_join s msg rest
    else to_user member.doppelganger_callback (
        notice s ChannelToUserOp.text_message
          (msg.user_name ++ codes " has joined #" ++ s.chat_channel_name))
      ∷ announce_join s msg rest

abbrev pub denial : ChatChannel → MasterToChannel → ChannelToMaster
denial s msg = record {
  operation = ChannelToMasterOp.join_denied;
  user_id = msg.user_id;
  doppelganger_id = msg.doppelganger_id;
  chat_channel_id = s.chat_channel_id;
}

-- The branch of a join on a full channel.
unfoldable pub refuse : ChatChannel → MasterToChannel → Turn
refuse s msg = elim s.master_chan [
  | none ↦
      carries_on s
        (logged (about s (codes " error: global.chanMasterFromChatChannelGoChan == nil")) ∷ [])
  | some _ ↦ elim msg.doppelganger_callback [
    | none ↦ carries_on s (
        to_master (denial s msg)
        ∷ logged (about s (codes " error: theMessage.doppelgangerCallback == nil"))
        ∷ [])
    | some c ↦ carries_on s (
        to_master (denial s msg)
        ∷ to_user c (record (notice s ChannelToUserOp.join_denied (codes "Channel is full")) {
          chat_channel_callback = none;
        })
        ∷ [])
  ]
]

abbrev pub entry : MasterToChannel → Chan → UserEntry
entry msg c = record { user_id = msg.user_id; user_name = msg.user_name; doppelganger_callback = c }

abbrev pub with_member : ChatChannel → MasterToChannel → Chan → ChatChannel
with_member s msg c = record s {
  member_list = insert msg.doppelganger_id (entry msg c) s.member_list;
}

-- What is sent once the new member is in the list.
unfoldable pub welcome :
    (Dict UserEntry → Dict UserEntry) → ChatChannel → MasterToChannel → Chan → List Effect → Turn
unfolding tell_who_is_on_channel announce_join
welcome visit s msg c es =
    let who = tell_who_is_on_channel visit s (some c) in
    if who.1
    then carries_on s (
        (es ++ who.0)
        ++ announce_join s msg (visit s.member_list)
        ++ conversation (
            codes " <"
            ++ msg.user_name
            ++ codes " has JOINED #"
            ++ s.chat_channel_name
            ++ codes ">\n")
          ∷ [])
    else record { channel = s; outcome = panicked; effects = es }

-- The branch of a join on a channel that has room.
unfoldable pub admit : (Dict UserEntry → Dict UserEntry) → ChatChannel → MasterToChannel → Turn
unfolding welcome
admit visit s msg =
    if s.chat_channel_id == 0
    then carries_on s (logged (about s (codes " error: chatChannelState.chatChannelID == 0")) ∷ [])
    else elim s.incoming_from_doppelganger [
      | none ↦
          carries_on s
            (logged (about_channel s (codes " error: newMsg.chatChannelCallback == nil")) ∷ [])
      | some _ ↦ elim msg.doppelganger_callback [
        | none ↦
            carries_on s (
              logged (about_channel s (codes " error: theMessage.doppelgangerCallback == nil"))
              ∷ [])
        | some c ↦
            welcome visit (with_member s msg c) msg c
              (to_user c (notice s ChannelToUserOp.joined s.chat_channel_name) ∷ [])
      ]
    ]

-- `case fromChannelMasterToChatChanOpJoin`.
unfoldable pub on_join : (Dict UserEntry → Dict UserEntry) → ChatChannel → MasterToChannel → Turn
unfolding refuse admit
on_join visit s msg =
    if leb max_members (length s.member_list) then refuse s msg else admit visit s msg
