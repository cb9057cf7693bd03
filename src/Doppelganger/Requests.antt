-- ===== src/Doppelganger/Requests.antt =====
-- daemon/doppelganger.go: the messages that the goroutine of a user sends to the channel master.
pub mod Commands
pub mod Lines
pub mod Turns
use wtelnet.Common.{◌≡◌, ◌≢◌, Option, some, List, [], ◌∷◌, Int64}
use wtelnet.Message.{Chan, UserToMaster, UserToMasterOp}
use wtelnet.Doppelganger.{UserInfo, Effect, wrote, to_master, to_channel, logged, slept}

-- What the operations name: a join no channel, a request for the members the channel of the user and no
-- doppelganger, and an exit both. No other code is sent.
abbrev pub Names : Int64 → UserToMasterOp → UserToMaster → Type 0
Names id UserToMasterOp.join msg = (msg.chat_channel_id ≡ 0) × (msg.doppelganger_id ≡ id)
Names id UserToMasterOp.who msg = (msg.chat_channel_id ≢ 0) × (msg.doppelganger_id ≡ 0)
Names id UserToMasterOp.exit msg = (msg.chat_channel_id ≢ 0) × (msg.doppelganger_id ≡ id)
Names id (UserToMasterOp.other n) msg = ⊥

-- A request of the doppelganger `id`, with its own two Go channels for the replies.
pub record IsRequest (id : Int64) (from_master from_channel : Chan) (msg : UserToMaster)
    : Type 0 where
  pub master_reply : msg.callback_from_channel_master ≡ some from_master
  pub channel_reply : msg.callback_from_chat_channel ≡ some from_channel
  pub names : Names id msg.operation msg

module _ (id : Int64) (from_master from_channel : Chan) where
  -- Every message to the channel master in a trace is such a request.
  abbrev pub Requests : List Effect → Type 0
  Requests [] = Unit {0}
  Requests (to_master msg ∷ trace) = IsRequest id from_master from_channel msg × Requests trace
  Requests (wrote text e ∷ trace) = Requests trace
  Requests (to_channel c msg ∷ trace) = Requests trace
  Requests (logged text ∷ trace) = Requests trace
  Requests (slept ∷ trace) = Requests trace

  pub record IsHonest {Db : Type 0} (s : UserInfo Db) : Type 0 where
    pub own_id : s.doppelganger_id ≡ id
    pub own_master_reply : s.incoming_from_channel_master ≡ from_master
    pub own_channel_reply : s.incoming_from_chat_channel ≡ from_channel
    pub sent : Requests s.trace
