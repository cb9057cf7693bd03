-- ===== src/ChatChannel/Loop.antt =====
-- daemon/chatchannel.go: `chatChannelGoRoutine`, the start of a chat channel and its `select` loop.
use wtelnet.Common.{
  Bool, true, false, Option, none, some, List, [], ◌∷◌, ◌++◌, ◌==◌, if◌then◌else◌, Bytes, codes,
  Int64, length, Error,
}
use wtelnet.Common.Dict.{Dict}
use wtelnet.Helper.{int_to_str, int64_to_str}
use wtelnet.Message.{Chan, MasterToChannel, UserToChannel, UserToChannelOp}
use wtelnet.ChatChannel.LogFile.{log_path}
use wtelnet.ChatChannel.{
  about, UserEntry, ChatChannel, Effect, Outcome, carry_on, shut_down, panicked, conversation,
  logged, closed,
}
use wtelnet.ChatChannel.Handlers.{process_message_from_channel_master, distribute_message}

-- Where the goroutine is after a turn: in its loop, returned, panicked, or out of the process by
-- `log.Fatal`.
pub data Status : Type 0 where
  looping finished crashed fatal : Status

pub record Progress : Type 0 where
  pub channel : ChatChannel
  pub status : Status
  pub effects : List Effect

-- What the `select` receives; `none` where the Go channel is closed.
pub data Event : Type 0 where
  from_master : Option MasterToChannel → Event
  from_user : Option UserToChannel → Event

abbrev log_leftovers : ChatChannel → List Effect
log_leftovers s =
    if length s.member_list == 0
    then []
    else logged (
        codes "Chat channel exited without empty member list! Channel ID "
        ++ int64_to_str s.chat_channel_id)
      ∷ []

abbrev pub closing : Chan → ChatChannel → List Effect
closing incoming s = closed (some incoming) ∷ closed s.incoming_from_doppelganger ∷ []

unfoldable pub after_outcome : Chan → Bool → Outcome → ChatChannel → List Effect → Progress
after_outcome incoming first carry_on s es = record { channel = s; status = looping; effects = es }
after_outcome incoming first shut_down s es = record {
  channel = s;
  status = finished;
  effects = (es ++ (if first then [] else log_leftovers s)) ++ closing incoming s;
}
after_outcome incoming first panicked s es = record { channel = s; status = crashed; effects = es }

-- The state with which the goroutine starts; `own` is the Go channel that `make` gives for the messages
-- of the members.
abbrev pub new_channel : Int64 → Bytes → Chan → Option Chan → ChatChannel
new_channel id name own master_chan = record {
  chat_channel_id = id;
  chat_channel_name = name;
  member_list = [];
  incoming_from_doppelganger = some own;
  master_chan = master_chan;
}

module _ (visit : Dict UserEntry → Dict UserEntry) (incoming : Chan) where
  unfoldable pub handle_from_master : Bool → ChatChannel → MasterToChannel → Progress
  unfolding after_outcome
  handle_from_master first s msg =
      let t = process_message_from_channel_master visit s msg in
      after_outcome incoming first t.outcome t.channel t.effects

  -- `open_log` is the error of `os.OpenFile`, by the path.
  unfoldable pub chat_channel_start :
      Int64 → Bytes → Chan → Option Chan → (Bytes → Option Error) → MasterToChannel → Progress
  unfolding handle_from_master
  chat_channel_start id name own master_chan open_log first_message =
      let s = new_channel id name own master_chan in
      elim (open_log (log_path name)) [
        | some e ↦ record { channel = s; status = fatal; effects = logged e ∷ [] }
        | none ↦ handle_from_master true s first_message
      ]

  unfoldable pub handle_from_user : UserToChannelOp → ChatChannel → UserToChannel → List Effect
  handle_from_user UserToChannelOp.text_message s msg =
      distribute_message s msg (visit s.member_list)
      ++ conversation (codes " " ++ msg.parameter ++ codes "\n") ∷ []
  handle_from_user UserToChannelOp.exit s msg =
      logged
        (about s (codes " Unexpected message operation code from doppelganger: " ++ int_to_str 1))
      ∷ []
  handle_from_user (UserToChannelOp.other n) s msg =
      logged
        (about s (codes " Unexpected message operation code from doppelganger: " ++ int_to_str n))
      ∷ []

  -- Where one of its Go channels is found closed the code closes both, and the second `close` of a
  -- channel panics.
  unfoldable pub loop_turn : ChatChannel → Event → Progress
  unfolding handle_from_master handle_from_user
  loop_turn s (from_master (some msg)) = handle_from_master false s msg
  loop_turn s (from_master none) = record {
    channel = s;
    status = crashed;
    effects =
        logged (codes "chatChannelGoRoutine: incomingFromChannelMaster has unexpectedly closed!")
        ∷ [];
  }
  loop_turn s (from_user (some msg)) = record {
    channel = s;
    status = looping;
    effects = handle_from_user msg.operation s msg;
  }
  loop_turn s (from_user none) = record {
    channel = s;
    status = crashed;
    effects =
        logged (codes "chatChannelGoRoutine: incomingFromDoppelganger has unexpectedly closed!")
        ∷ closed (some incoming)
        ∷ [];
  }

  -- The loop, over the events that arrive, with all effects in order.
  unfoldable pub loop : ChatChannel → List Event → Progress
  loop s [] = record { channel = s; status = looping; effects = [] }
  loop s (e ∷ es) =
      let t = loop_turn s e in
      let rest = loop t.channel es in
      elim t.status [
        | looping ↦ record rest { effects = t.effects ++ rest.effects }
        | finished ↦ t
        | crashed ↦ t
        | fatal ↦ t
      ]

  -- `closeConversationLog`, with the error of `Close`. It is deferred: it runs when the goroutine
  -- returns or panics, and not where `log.Fatal` ends the process.
  abbrev pub close_conversation_log : Option Error → List Effect
  close_conversation_log none = []
  close_conversation_log (some e) = logged e ∷ []

  unfoldable pub deferred : Option Error → Status → Progress → Progress
  deferred e looping t = t
  deferred e finished t = record t { effects = t.effects ++ close_conversation_log e }
  deferred e crashed t = record t { effects = t.effects ++ close_conversation_log e }
  deferred e fatal t = t

  -- What follows the start.
  unfoldable pub after_start : Option Error → List Event → Status → Progress → Progress
  unfolding loop deferred
  after_start e es looping t =
      let rest = loop t.channel es in
      deferred e rest.status (record rest { effects = t.effects ++ rest.effects })
  after_start e es finished t = deferred e finished t
  after_start e es crashed t = deferred e crashed t
  after_start e es fatal t = t

  -- The goroutine, from its launch over the events that arrive.
  unfoldable pub chat_channel_goroutine :
      Int64
      → Bytes
      → Chan
      → Option Chan
      → (Bytes → Option Error)
      → Option Error
      → MasterToChannel
      → List Event
      → Progress
  unfolding chat_channel_start after_start
  chat_channel_goroutine id name own master_chan open_log close_error first_message es =
      let t = chat_channel_start id name own master_chan open_log first_message in
      after_start close_error es t.status t
