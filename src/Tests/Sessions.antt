-- ===== src/Tests/Sessions.antt =====
-- A whole session of the doppelganger, and what its messages do, on small inputs.
use mathlib.Core.List.{reverse, Memᴰ}
use mathlib.Core.List.Memᴰ.{head}
use wtelnet.Common.{
  Bool, ◌==◌, ◌≡◌, ◌++◌, true, Bytes, refl, some, List, codes, ok, arith, map, same_text,
}
use wtelnet.Common.Dict.{lookup}
use wtelnet.Message.{Chan, UserToMaster, UserToMasterOp}
use wtelnet.Database.{user_exists, login, scan_last, scan_all, check_password}
use wtelnet.Doppelganger.{to_master}
use wtelnet.Helper.Decimal.{IsDecimal, read_int64, int64_to_str-read}
use wtelnet.Helper.Trimming.{AreSpaces, IsFlush, trim-exactly}
use wtelnet.Helper.{int64_to_str, trim, trim_left}
use wtelnet.Doppelganger.Keys.{receive, control_sequence, control_code, echo, edit, key}
use wtelnet.Doppelganger.Commands.{on_join, execute, do_command}
use wtelnet.Doppelganger.Commands.Words.{split_command, index_space, emote_of, strip_hash}
use wtelnet.Doppelganger.Lines.{
  command_of, on_username, name_known, on_password, logged_in, on_command, by_mode, handle_line,
}
use wtelnet.Doppelganger.Loop.{
  Event, from_telnet, new_user_info, doppelganger_start, prompt_of, prompt, finish_turn, on_key,
  on_event, turn, run,
}
use wtelnet.Doppelganger.Requests.{Requests}
use wtelnet.Doppelganger.Requests.Turns.{run-Requests}
use wtelnet.Crossings.Served.{exits_unknown, joins_nothing, IsServed, run-IsServed}
use wtelnet.Master.Loop.{from_user}
use wtelnet.Tests.{one_user, quiet, one_running}

-- Amy logs in and joins a channel.
abbrev amy_joins : List Event
amy_joins = map (λ b. from_telnet (some b)) (codes "amy\rsecret\r/join tea\r")

run-Requests_example :
    Requests 1 10 11
      (run one_user quiet
        (doppelganger_start quiet (new_user_info tt 1 10 11 (some 0))).state
        amy_joins).state.trace
run-Requests_example = run-Requests 1 10 11 one_user quiet tt (some 0) amy_joins

abbrev amy_asks : UserToMaster
amy_asks = record {
  operation = UserToMasterOp.join;
  user_id = 7;
  user_name = codes "amy";
  doppelganger_id = 1;
  chat_channel_id = 0;
  parameter = codes "tea";
  callback_from_channel_master = some 10;
  callback_from_chat_channel = some 11;
}

amy_asks-sent :
    Memᴰ
      (to_master amy_asks)
      (run one_user quiet
        (doppelganger_start quiet (new_user_info tt 1 10 11 (some 0))).state
        amy_joins).state.trace
unfolding run turn on_event on_key key receive control_sequence control_code echo edit prompt
    prompt_of finish_turn handle_line by_mode on_username on_password on_command name_known
    logged_in command_of do_command execute on_join split_command index_space emote_of strip_hash
    user_exists login check_password scan_last scan_all trim trim_left codes same_text
    doppelganger_start new_user_info
amy_asks-sent = head refl

-- The doppelganger with the Go channel 10 has closed it.
abbrev left : Chan → Bool
left c = c == 10

-- The channel does not exist, and the denial comes too late.
run-IsServed_example :
    IsServed left 10 11
      (joins_nothing UserToMasterOp.join (codes "tea") (ok 0))
      (exits_unknown UserToMasterOp.join (lookup 0 one_running.running_map))
      (wtelnet.Master.Loop.turn one_running (from_user (λ name. ok 0) (some amy_asks)))
run-IsServed_example =
    run-IsServed one_user quiet tt 1 10 11 (some 0) amy_joins amy_asks (λ name. ok 0) one_running
      left amy_asks-sent (λ e. ground arith)

-- The least int64.
int64_to_str-read_example :
    IsDecimal true (int64_to_str 9223372036854775808)
    × (read_int64 (int64_to_str 9223372036854775808) ≡ 9223372036854775808)
int64_to_str-read_example = int64_to_str-read 9223372036854775808 (omega arith)

least : int64_to_str 9223372036854775808 ≡ codes "-9223372036854775808"
unfolding int64_to_str codes
least = refl

abbrev padded : Bytes
padded = codes " \ttea cup\r\n"

trim-exactly_example :
    (pre : Bytes) × (suf : Bytes) × AreSpaces pre
    × AreSpaces suf
    × (padded ≡ pre ++ (trim padded ++ suf))
    × IsFlush (trim padded)
    × IsFlush (reverse (trim padded))
trim-exactly_example = trim-exactly padded
