-- ===== src/System.antt =====
-- daemon/channelmaster.go with daemon/chatchannel.go: the channel master and the goroutine of one chat
-- channel, with the messages that are on their way between them. A Go channel hands over what is sent
-- in order.
pub mod Quiet
pub mod Rooms
pub mod Settling
pub mod Routes
pub mod Invariant
pub mod Steps
pub mod Requests
pub mod Preservation
pub mod Launch
pub mod Handling
pub mod Consequences
pub mod Safety
use wtelnet.Common.{
  ℕ, suc, ◌≡◌, ◌≢◌, Option, none, some, List, [], ◌∷◌, ◌++◌, ◌==◌, ◌<◌, ◌+◌, if◌then◌else◌, Bytes,
  Int64, length, sign_bit, Result, ok,
}
use wtelnet.Common.Dict.{Dict, lookup}
use wtelnet.Message.{
  Chan, MasterToChannel, MasterToChannelOp, UserToMaster, UserToMasterOp, ChannelToMaster,
  UserToChannel,
}
use wtelnet.Master.{Master, Effect, to_user, to_channel, launch, logged, printed, Status, running}
use wtelnet.Master.Loop.{Event, from_user, from_channel, heartbeat, turn}
use wtelnet.ChatChannel.{UserEntry, ChatChannel, Outcome, carry_on}
use wtelnet.ChatChannel.Handlers.{process_message_from_channel_master}

-- `queue` is what the channel master has sent to the chat channel, and `denials` what the chat channel
-- has sent to the channel master; each has the oldest message first.
pub record System : Type 0 where
  pub master : Master
  pub room : ChatChannel
  pub queue : List MasterToChannel
  pub denials : List ChannelToMaster

-- What a turn of the channel master sends to one Go channel.
abbrev pub sent_to : Chan → List Effect → List MasterToChannel
sent_to own [] = []
sent_to own (to_channel c msg ∷ es) = if c == own then msg ∷ sent_to own es else sent_to own es
sent_to own (to_user c msg ∷ es) = sent_to own es
sent_to own (launch id name msg c ∷ es) = sent_to own es
sent_to own (logged text ∷ es) = sent_to own es
sent_to own (printed n ∷ es) = sent_to own es

-- What a turn of the chat channel sends to the channel master.
abbrev pub denials_of : List wtelnet.ChatChannel.Effect → List ChannelToMaster
denials_of [] = []
denials_of (wtelnet.ChatChannel.to_master msg ∷ es) = msg ∷ denials_of es
denials_of (wtelnet.ChatChannel.to_user c msg ∷ es) = denials_of es
denials_of (wtelnet.ChatChannel.conversation text ∷ es) = denials_of es
denials_of (wtelnet.ChatChannel.logged text ∷ es) = denials_of es
denials_of (wtelnet.ChatChannel.closed c ∷ es) = denials_of es

-- The channel master handles an event, and what it sends to `own` is queued.
abbrev pub master_does : Chan → Event → System → System
master_does own e s =
    let t = turn s.master e in
    record s { master = t.master; queue = s.queue ++ sent_to own t.effects }

module _ (visit : Dict UserEntry → Dict UserEntry) where
  -- The chat channel once it has handled its queue, and the denials that it sends meanwhile.
  unfoldable pub settle : ChatChannel → List MasterToChannel → ChatChannel × List ChannelToMaster
  settle s [] = (s, [])
  settle s (msg ∷ queue) =
      let t = process_message_from_channel_master visit s msg in
      let (s', ds) = settle t.channel queue in (s', denials_of t.effects ++ ds)

  abbrev pub settled : System → ChatChannel
  settled s = (settle s.room s.queue).0

  abbrev pub on_the_way : System → List ChannelToMaster
  on_the_way s = s.denials ++ (settle s.room s.queue).1

  -- A member of the chat channel, once its queue is handled.
  abbrev pub IsMember : System → Int64 → Type 0
  IsMember s id = (e : UserEntry) × (lookup id (settled s).member_list ≡ some e)

  -- Users who ask as intended of the channel `k`: one joins it who is no member of it, nor on the way
  -- to be one, and says where to reply; one exits it who is a member; and one asks for its members while
  -- it has some.
  abbrev pub IsProper :
      Int64 → UserToMasterOp → (Bytes → Result Int64) → System → UserToMaster → Type 0
  IsProper k UserToMasterOp.join get s msg =
      get msg.parameter ≡ ok k
      → (lookup msg.doppelganger_id (settled s).member_list ≡ none)
        × ((c : Chan) × (msg.callback_from_chat_channel ≡ some c))
  IsProper k UserToMasterOp.who get s msg = msg.chat_channel_id ≡ k → (settled s).member_list ≢ []
  IsProper k UserToMasterOp.exit get s msg =
      msg.chat_channel_id ≡ k → IsMember s msg.doppelganger_id
  IsProper k (UserToMasterOp.other n) get s msg = Unit {0}

  -- The chat channel handles the first message of its queue.
  abbrev pub room_does : MasterToChannel → List MasterToChannel → System → System
  room_does msg queue s =
      let t = process_message_from_channel_master visit s.room msg in
      record s { room = t.channel; queue = queue; denials = s.denials ++ denials_of t.effects }

  -- A step of the channel master or of the chat channel with the id `k` and the Go channel `own`. The
  -- channel master handles a heartbeat, a denial, a message of another chat channel, or a proper request,
  -- the last two if it is running then, and the request while members and denials are fewer than 2 ^ 63. The chat channel handles a message, and carries on; what
  -- members say changes neither of the two.
  pub data Step (k : Int64) (own : Chan) (s : System) : System → Type 0 where
    asked :
        (get : Bytes → Result Int64) (msg : UserToMaster)
        → IsProper k msg.operation get s msg
        → length (settled s).member_list + length (on_the_way s) < sign_bit
        → (turn s.master (from_user get (some msg))).status ≡ running
        → Step k own s (master_does own (from_user get (some msg)) s)
    beat : Step k own s (master_does own (heartbeat (some tt)) s)
    denied :
        (msg : ChannelToMaster) (denials : List ChannelToMaster)
        → s.denials ≡ msg ∷ denials
        → Step k own s (master_does own (from_channel (some msg)) (record s { denials = denials }))
    elsewhere :
        (msg : ChannelToMaster)
        → msg.chat_channel_id ≢ k
        → (turn s.master (from_channel (some msg))).status ≡ running
        → Step k own s (master_does own (from_channel (some msg)) s)
    handled :
        (msg : MasterToChannel) (queue : List MasterToChannel)
        → s.queue ≡ msg ∷ queue
        → (process_message_from_channel_master visit s.room msg).outcome ≡ carry_on
        → Step k own s (room_does msg queue s)

  pub data Reach (k : Int64) (own : Chan) (start : System) : System → Type 0 where
    now : Reach k own start start
    later : {s t : System} → Reach k own start s → Step k own s t → Reach k own start t
