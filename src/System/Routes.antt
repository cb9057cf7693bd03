-- ===== src/System/Routes.antt =====
-- daemon/channelmaster.go: what a turn of the channel master sends to one Go channel, and what it does
-- to the entry of that channel.
pub mod Joins
pub mod Others
use wtelnet.Common.{
  ℕ, suc, ◌+◌, ◌≤◌, ◌<◌, ◌≡◌, refl, sym, ap, ◌∙◌, ◌≢◌, ◌⊎◌, inl, inr, Bool, true, false, Option,
  none, some, List, [], ◌∷◌, ◌++◌, ◌==◌, if◌then◌else◌, Bytes, Int64, inc, dec, arith, Result, ok,
  err, panic, Option-cases, Bool-cases, Result-cases, List-cases, if_elim, if_split,
}
use wtelnet.Common.Dict.{lookup, insert, delete, lookup-insert, lookup-delete}
use wtelnet.Message.{
  Chan, MasterToUser, MasterToChannel, MasterToChannelOp, UserToMaster, UserToMasterOp,
  ChannelToMaster, ChannelToMasterOp,
}
use wtelnet.Master.{
  PerChatChan, Effect, to_user, to_channel, launch, logged, printed, Status, running, returned,
  panicked, Master, Turn, join_message, goes_on, reply,
}
use wtelnet.Master.Joining.{
  log_if_nil, launch_channel, join_running, join_chat_channel, who_is_on_chat_channel, join_found,
  join_answer, join_named, on_join,
}
use wtelnet.Master.Leaving.{member_left, on_exit, shutdown_for, on_join_denied}
use wtelnet.Master.Loop.{on_channel_message}
use wtelnet.System.{sent_to}

-- Only entries that `A` holds of use the Go channel `own`, which has been made.
abbrev pub IsOwner : Chan → (Int64 → Type 0) → Master → Type 0
IsOwner own A m =
    (own < m.next_chan)
    × ((j : Int64) (info : PerChatChan)
        → lookup j m.running_map ≡ some info
        → info.chat_channel_callback ≡ own
        → A j)

-- The turn sends nothing to `own`, and the entry of `k` is as it was, if it used `own`.
pub record IsQuiet (k : Int64) (own : Chan) (m : Master) (t : Turn) : Type 0 where
  pub silent : sent_to own t.effects ≡ []
  pub kept :
      (info : PerChatChan)
      → lookup k m.running_map ≡ some info
      → info.chat_channel_callback ≡ own
      → lookup k t.master.running_map ≡ some info

-- The turn changes the count of the entry of `id`, which uses `own`, and sends messages to it; without
-- a member left the entry is gone.
pub record IsRoute (A : Int64 → Type 0) (own : Chan) (m : Master) (id : Int64) (new : Int64 → Int64)
    (msgs : List MasterToChannel) (last : List MasterToChannel) (t : Turn) : Type 0 where
  pub owns : A id
  pub info : PerChatChan
  pub found : lookup id m.running_map ≡ some info
  pub uses : info.chat_channel_callback ≡ own
  pub entry : lookup id t.master.running_map ≡ (
      if new info.member_count == 0
      then none
      else some (record info { member_count = new info.member_count }))
  pub sent : sent_to own t.effects ≡ (if new info.member_count == 0 then msgs ++ last else msgs)

-- The turn counts one member more in the entry of `id`, which uses `own`, and sends a message to it.
pub record IsJoined (A : Int64 → Type 0) (own : Chan) (m : Master) (id : Int64)
    (msg : MasterToChannel) (t : Turn) : Type 0 where
  pub owns : A id
  pub info : PerChatChan
  pub found : lookup id m.running_map ≡ some info
  pub uses : info.chat_channel_callback ≡ own
  pub entry :
      lookup id t.master.running_map ≡ some (record info { member_count = inc info.member_count })
  pub sent : sent_to own t.effects ≡ msg ∷ []

abbrev pub sends : Chan → List MasterToChannel → List Effect
sends c [] = []
sends c (msg ∷ msgs) = to_channel c msg ∷ sends c msgs

pub sent_to-sends :
    (own c : Chan) (msgs : List MasterToChannel)
    → sent_to own (sends c msgs) ≡ (if c == own then msgs else [])
sent_to-sends own c [] = ground arith
sent_to-sends own c (msg ∷ msgs) = ground (arith, sent_to-sends own c msgs)

pub sent_to-sends_last :
    (own c : Chan) (msgs : List MasterToChannel) (last : MasterToChannel)
    → sent_to own (sends c msgs ++ to_channel c last ∷ [])
      ≡ (if c == own then msgs ++ last ∷ [] else [])
sent_to-sends_last own c [] last = ground arith
sent_to-sends_last own c (msg ∷ msgs) last = ground (arith, sent_to-sends_last own c msgs last)

-- A turn that leaves the table as it was and sends nothing to `own`.
module _ (own : Chan) (m : Master) where
  abbrev pub IsStill : Turn → Type 0
  IsStill t = (t.master ≡ m) × (sent_to own t.effects ≡ [])

  pub still-IsQuiet : (k : Int64) (t : Turn) → IsStill t → IsQuiet k own m t
  still-IsQuiet k t (e, s) = record { silent = s; kept = λ info f u. rw e f }

  pub still-IsOwner :
      (A : Int64 → Type 0) → IsOwner own A m → (t : Turn) → IsStill t → IsOwner own A t.master
  still-IsOwner A o t (e, s) = rw e o
