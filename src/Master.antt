-- ===== src/Master.antt =====
-- daemon/channelmaster.go: the goroutine that knows which chat channels are running, and launches
-- their goroutines: its state, what a turn of its loop does, and what its cases share.
pub mod Joining
pub mod Leaving
pub mod Loop
pub mod Routing
pub mod Counts
pub mod Failures
pub mod Ownership
pub mod Sends
use wtelnet.Common.{ℕ, Option, none, some, List, [], ◌∷◌, ◌++◌, Bytes, codes, Int64}
use wtelnet.Common.Dict.{Dict}
use wtelnet.Message.{
  Chan, MasterToUser, MasterToUserOp, MasterToChannel, MasterToChannelOp, UserToMaster,
}

pub record PerChatChan : Type 0 where
  pub member_count : Int64
  pub chat_channel_callback : Chan

-- What a turn does to the rest of the program, in order.
pub data Effect : Type 0 where
  to_user : Chan → MasterToUser → Effect
  to_channel : Chan → MasterToChannel → Effect
  -- `go chatChannelGoRoutine(id, name, firstMessage, incomingFromChannelMaster)`
  launch : Int64 → Bytes → MasterToChannel → Chan → Effect
  logged : Bytes → Effect
  printed : ℕ → Effect

-- The goroutine goes on, has returned, or has panicked.
pub data Status : Type 0 where
  running returned panicked : Status

-- `next_chan` is the name of the next Go channel that `make` gives.
pub record Master : Type 0 where
  pub running_map : Dict PerChatChan
  pub next_chan : Chan

pub record Turn : Type 0 where
  pub master : Master
  pub status : Status
  pub effects : List Effect

abbrev pub goes_on : Master → List Effect → Turn
goes_on m es = record { master = m; status = running; effects = es }

abbrev pub returns : Master → List Effect → Turn
returns m es = record { master = m; status = returned; effects = es }

abbrev panics : Master → List Effect → Turn
panics m es = record { master = m; status = panicked; effects = es }

abbrev pub join_message : UserToMaster → MasterToChannelOp → MasterToChannel
join_message msg op = record {
  operation = op;
  user_id = msg.user_id;
  user_name = msg.user_name;
  doppelganger_id = msg.doppelganger_id;
  doppelganger_callback = msg.callback_from_chat_channel;
}

-- A reply to the doppelganger, and what comes after it. Where there is no channel to reply on the
-- goroutine returns. The reply is an effect; `Sends.sends` says what becomes of the turn if the
-- doppelganger has closed the Go channel.
abbrev pub reply : Master → Option Chan → MasterToUser → (List Effect → Turn) → List Effect → Turn
reply m none r next es = returns m (
    es
    ++ logged
        (codes "channel master error: theMessage.doppelgangerCallbackFromChannelMaster == nil")
      ∷ [])
reply m (some c) r next es = next (es ++ to_user c r ∷ [])

abbrev pub denied : Bytes → MasterToUser
denied text = record { channel_id = 0; operation = MasterToUserOp.join_denied; msg_to_user = text }
