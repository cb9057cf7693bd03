-- ===== src/ChatChannel.antt =====
-- daemon/chatchannel.go: the goroutine of one chat channel, with its members. A map is ranged over
-- in an order that Go leaves open: `visit` gives the entries in the order of the round.
pub mod Joining
pub mod Handlers
pub mod Loop
pub mod Members
pub mod Notices
pub mod Sends
pub mod LogFile
use wtelnet.Common.{codes, ◌++◌, ℕ, Option, List, Bytes, Int64}
use wtelnet.Common.Dict.{Dict}
use wtelnet.Helper.{int64_to_str}
use wtelnet.Message.{Chan, ChannelToUser, ChannelToUserOp, ChannelToMaster}

-- A callback is stored after the code has found that it is not `nil`.
pub record UserEntry : Type 0 where
  pub user_id : Int64
  pub user_name : Bytes
  pub doppelganger_callback : Chan

-- `master_chan` is the global `chanMasterFromChatChannelGoChan`, which the code compares with `nil`.
pub record ChatChannel : Type 0 where
  pub chat_channel_id : Int64
  pub chat_channel_name : Bytes
  pub member_list : Dict UserEntry
  pub incoming_from_doppelganger : Option Chan
  pub master_chan : Option Chan

-- `conversation` is a call of `logConversationMessage` with its text after the time.
pub data Effect : Type 0 where
  to_user : Chan → ChannelToUser → Effect
  to_master : ChannelToMaster → Effect
  conversation : Bytes → Effect
  logged : Bytes → Effect
  closed : Option Chan → Effect

-- What a handler returns: `false`, `true` (shut down), or a panic.
pub data Outcome : Type 0 where
  carry_on shut_down panicked : Outcome

pub record Turn : Type 0 where
  pub channel : ChatChannel
  pub outcome : Outcome
  pub effects : List Effect

abbrev pub carries_on : ChatChannel → List Effect → Turn
carries_on s es = record { channel = s; outcome = carry_on; effects = es }

-- A line of the program's log, with the id of the channel.
abbrev pub about : ChatChannel → Bytes → Bytes
about s text = codes "chatChannel channel " ++ int64_to_str s.chat_channel_id ++ text

-- The same, in the two places that leave out the space before the id.
abbrev pub about_channel : ChatChannel → Bytes → Bytes
about_channel s text = codes "chatChannel channel" ++ int64_to_str s.chat_channel_id ++ text

abbrev pub max_members : ℕ
max_members = 6

-- A message of the channel itself.
abbrev pub notice : ChatChannel → ChannelToUserOp → Bytes → ChannelToUser
notice s op text = record {
  operation = op;
  originator = 0;
  chat_channel_id = s.chat_channel_id;
  leaving_doppelganger_id = 0;
  parameter = text;
  chat_channel_callback = s.incoming_from_doppelganger;
}
