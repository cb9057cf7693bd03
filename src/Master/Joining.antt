-- ===== src/Master/Joining.antt =====
-- daemon/channelmaster.go: what the channel master does with a join and a request for the members.
use wtelnet.Common.{
  suc, Option, none, some, List, [], ◌∷◌, ◌++◌, ◌==◌, if◌then◌else◌, Bytes, codes, Int64, inc,
  Result, ok, err, panic,
}
use wtelnet.Common.Dict.{lookup, insert}
use wtelnet.Message.{Chan, MasterToChannelOp, UserToMaster}
use wtelnet.Master.{
  PerChatChan, Effect, Master, Turn, goes_on, panics, join_message, reply, denied, to_channel,
  launch, logged,
}

abbrev pub log_if_nil : Option Chan → List Effect
log_if_nil none = logged (codes "channel master error: doppelgangerCallback == nil") ∷ []
log_if_nil (some c) = []

-- The branch of `joinChatChannel` for a channel that is not running.
unfoldable pub launch_channel : Master → UserToMaster → Int64 → Bytes → Turn
launch_channel m msg id name =
    if id == 0
    then goes_on m (
        log_if_nil msg.callback_from_chat_channel
        ++ logged (codes "channel master error: joinChatChannel: chatChannelID == 0") ∷ [])
    else goes_on
        (record m {
          running_map =
              insert id (record { member_count = 1; chat_channel_callback = m.next_chan })
                m.running_map;
          next_chan = suc m.next_chan;
        })
        (log_if_nil msg.callback_from_chat_channel
          ++ launch id name (join_message msg MasterToChannelOp.join) m.next_chan ∷ [])

-- The branch for a channel that is running.
unfoldable pub join_running : Master → UserToMaster → Int64 → PerChatChan → Turn
join_running m msg id info =
    goes_on
      (record m {
        running_map =
            insert id (record info { member_count = inc info.member_count }) m.running_map;
      })
      (log_if_nil msg.callback_from_chat_channel
        ++ to_channel info.chat_channel_callback (join_message msg MasterToChannelOp.join) ∷ [])

unfoldable pub join_chat_channel : Master → UserToMaster → Int64 → Bytes → Turn
unfolding launch_channel join_running
join_chat_channel m msg id name = elim (lookup id m.running_map) [
  | none ↦ launch_channel m msg id name
  | some info ↦ join_running m msg id info
]

unfoldable pub who_is_on_chat_channel : Master → UserToMaster → Turn
who_is_on_chat_channel m msg = elim msg.callback_from_chat_channel [
  | none ↦ goes_on m (logged (codes "channel master error: doppelgangerCallback == nil") ∷ [])
  | some _ ↦ elim (lookup msg.chat_channel_id m.running_map) [
    | none ↦ goes_on m (
        logged (codes "channel master error: runningChatchannelMap[chatChannelID] does not exist")
        ∷ [])
    | some info ↦
        goes_on m
          (to_channel info.chat_channel_callback (join_message msg MasterToChannelOp.who) ∷ [])
  ]
]

-- What follows once the id of the channel is known: 0 where it does not exist.
unfoldable pub join_found : Master → UserToMaster → Int64 → List Effect → Turn
unfolding join_chat_channel
join_found m msg id es =
    if id == 0
    then reply m msg.callback_from_channel_master
        (denied (codes "Channel #" ++ msg.parameter ++ codes " does not exist.")) (goes_on m) es
    else let t = join_chat_channel m msg id msg.parameter in record t { effects = es ++ t.effects }

-- What `getChatchannelID` gave. After a database error the code goes on with the id 0.
unfoldable pub join_answer : Master → UserToMaster → Result Int64 → Turn
unfolding join_found
join_answer m msg (ok id) = join_found m msg id []
join_answer m msg (err e) =
    reply m msg.callback_from_channel_master (denied (codes "A database error has occurred."))
      (join_found m msg 0) (logged e ∷ [])
join_answer m msg panic = panics m []

unfoldable pub join_named : (Bytes → Result Int64) → Master → UserToMaster → Bytes → Turn
unfolding join_answer
join_named get_chatchannel_id m msg [] =
    reply m msg.callback_from_channel_master (denied (codes "Please specify a channel name."))
      (goes_on m) []
join_named get_chatchannel_id m msg (c ∷ cs) = join_answer m msg (get_chatchannel_id (c ∷ cs))

-- `case fromDoppelgangerToChannelMasterOpJoin`.
unfoldable pub on_join : (Bytes → Result Int64) → Master → UserToMaster → Turn
unfolding join_named
on_join get_chatchannel_id m msg = join_named get_chatchannel_id m msg msg.parameter
