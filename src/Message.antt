-- ===== src/Message.antt =====
-- daemon/datastructures.go: the messages that the goroutines exchange. A Go channel is a number;
-- a field that may be `nil` is an option. An operation code that no constant names is `other`.
use wtelnet.Common.{ℕ, Option, Bytes, Int64}

abbrev pub Chan : Type 0
Chan = ℕ

-- Channel master to doppelganger.
pub data MasterToUserOp : Type 0 where
  generic_text join_denied : MasterToUserOp
  other : ℕ → MasterToUserOp

pub record MasterToUser : Type 0 where
  pub channel_id : Int64
  pub operation : MasterToUserOp
  pub msg_to_user : Bytes

-- Doppelganger to chat channel.
pub data UserToChannelOp : Type 0 where
  text_message exit : UserToChannelOp
  other : ℕ → UserToChannelOp

pub record UserToChannel : Type 0 where
  pub operation : UserToChannelOp
  pub user_id : Int64
  pub parameter : Bytes

-- Chat channel to doppelganger.
pub data ChannelToUserOp : Type 0 where
  join_denied joined text_message text_exit : ChannelToUserOp
  other : ℕ → ChannelToUserOp

pub record ChannelToUser : Type 0 where
  pub operation : ChannelToUserOp
  pub originator : Int64
  pub chat_channel_id : Int64
  pub leaving_doppelganger_id : Int64
  pub parameter : Bytes
  pub chat_channel_callback : Option Chan

-- Channel master to chat channel.
pub data MasterToChannelOp : Type 0 where
  join who exit shutdown : MasterToChannelOp
  other : ℕ → MasterToChannelOp

pub record MasterToChannel : Type 0 where
  pub operation : MasterToChannelOp
  pub user_id : Int64
  pub user_name : Bytes
  pub doppelganger_id : Int64
  pub doppelganger_callback : Option Chan

-- Doppelganger to channel master.
pub data UserToMasterOp : Type 0 where
  join who exit : UserToMasterOp
  other : ℕ → UserToMasterOp

pub record UserToMaster : Type 0 where
  pub operation : UserToMasterOp
  pub user_id : Int64
  pub user_name : Bytes
  pub doppelganger_id : Int64
  pub chat_channel_id : Int64
  pub parameter : Bytes
  pub callback_from_channel_master : Option Chan
  pub callback_from_chat_channel : Option Chan

-- Chat channel to channel master.
pub data ChannelToMasterOp : Type 0 where
  join_denied : ChannelToMasterOp
  other : ℕ → ChannelToMasterOp

pub record ChannelToMaster : Type 0 where
  pub operation : ChannelToMasterOp
  pub user_id : Int64
  pub doppelganger_id : Int64
  pub chat_channel_id : Int64
