-- ===== src/Tests/Users.antt =====
-- The doppelganger, on small inputs.
use wtelnet.Common.{
  Bytes, Option, ℕ, ◌≡◌, refl, ◌≤◌, Bool, true, false, none, some, List, [], ◌∷◌, codes, arith, ok,
  minus_one,
}
use wtelnet.Common.Dict.{lookup}
use wtelnet.Message.{ChannelToUser, ChannelToUserOp}
use wtelnet.Master.{returned}
use wtelnet.Master.Loop.{from_user, run}
use wtelnet.Doppelganger.{
  UserInfo, wrote, to_master, to_channel, exit_request, off_channel, does, blanks, backspace_out,
  long_write, Mode, command_mode, regular_password,
}
use wtelnet.Doppelganger.Backspace.{IsBlanks, backspace_out-rounds}
use wtelnet.Doppelganger.Exit.Waiting.{repeat_exit, requests, exit-ends}
use wtelnet.Doppelganger.Exit.Gone.{closed_reads, gone-ends}
use wtelnet.Doppelganger.Keys.{key}
use wtelnet.Doppelganger.Keys.Typing.{IsReading, view, no_escape}
use wtelnet.Doppelganger.Keys.Screen.{onto, Shows}
use wtelnet.Doppelganger.Keys.Screen.Echo.{keys-Shows}
use wtelnet.Doppelganger.Keys.Refinement.{keys, keys-refine}
use wtelnet.Doppelganger.Commands.{reply, on_exit}
use wtelnet.Doppelganger.Commands.Frame.{state_of}
use wtelnet.Doppelganger.Loop.{
  Event, finished, from_telnet, new_user_info, doppelganger_start, prompt,
}
use wtelnet.Doppelganger.Session.{IsSound}
use wtelnet.Doppelganger.Session.Turns.{run-start-IsSound, password_not_echoed}
use wtelnet.Crossings.{after_denial, denied-exit-stops_master}
use wtelnet.Crossings.Bounce.{late_bounce-loses_channel}
use wtelnet.Doppelganger.Mailbox.{by_channel_op, on_joined, tell}
use wtelnet.Tests.{one_user, quiet, amy, amy_on_tea, one_running}

abbrev typing_amy : List Event
typing_amy =
    from_telnet (some 97)
    ∷ from_telnet (some 109)
    ∷ from_telnet (some 121)
    ∷ from_telnet (some 13)
    ∷ from_telnet (some 115)
    ∷ []

run-start-IsSound_example :
    IsSound
      (wtelnet.Doppelganger.Loop.run one_user quiet
        (doppelganger_start quiet (new_user_info tt 1 10 11 (some 0))).state
        typing_amy).state
run-start-IsSound_example = run-start-IsSound one_user quiet tt 1 10 11 (some 0) typing_amy

abbrev channel_is_full : ChannelToUser
channel_is_full = record {
  operation = ChannelToUserOp.join_denied;
  originator = 0;
  chat_channel_id = 5;
  leaving_doppelganger_id = 0;
  parameter = codes "Channel is full";
  chat_channel_callback = none;
}

denied-exit-stops_master_example :
    let t = after_denial quiet (codes "tea") channel_is_full amy in
    (on_exit quiet [] t
      ≡ reply true false (
          off_channel (does (to_master (exit_request t [])) (long_write quiet (codes "\r\n") t).1)))
    × ((exit_request t []).chat_channel_id ≡ minus_one)
    × (run one_running (from_user (λ name. ok 5) (some (exit_request t [])) ∷ [])
        ≡ (one_running, returned))
denied-exit-stops_master_example =
    denied-exit-stops_master quiet amy 0 (codes "tea") [] channel_is_full (omega arith) refl refl
      refl (λ name. ok 5) one_running [] (unfold lookup in refl)

typing-IsReading :
    (id : ℕ) (m : Mode) (due : Bool)
    → IsReading (record amy { user_id = id; mode = m; prompt_needed = due })
unfolding codes
typing-IsReading id m due = record {
  in_range = record {
    cursor_in_line = omega arith;
    position_in_sequence = omega arith;
    sequence_of_three = refl;
  };
  began = λ h. ground (arith, h);
  no_return_before = refl;
}

amy-IsReading : IsReading amy
amy-IsReading = typing-IsReading 7 command_mode false

-- `d`, a left arrow, and a backspace leave two of the three bytes and then drop the second.
keys-refine_example :
    view (keys quiet (some 100 ∷ some 27 ∷ some 91 ∷ some 68 ∷ some 8 ∷ []) amy)
    ≡ (97 ∷ 98 ∷ [], no_escape)
unfolding codes
keys-refine_example =
    keys-refine quiet (some 100 ∷ some 27 ∷ some 91 ∷ some 68 ∷ some 8 ∷ []) amy amy-IsReading

exit-ends_example :
    ((repeat_exit 1001 amy_on_tea).0 ≡ true) × (requests (repeat_exit 1001 amy_on_tea).1.trace ≤ 1)
exit-ends_example = exit-ends 1001 amy_on_tea 0 refl (omega arith) (omega arith)

amy-IsBlanks : IsBlanks amy.backspace_buffer
unfolding blanks
amy-IsBlanks = refl

-- Amy, asked for her password.
abbrev asked : UserInfo (Unit {0})
asked = record amy { user_id = 0; mode = regular_password; prompt_needed = true }

asked-IsSound : IsSound asked
asked-IsSound = record {
  steady = record {
    reading = typing-IsReading 0 regular_password true;
    blank = amy-IsBlanks;
    login = refl;
  };
  hidden = refl;
}

password_not_echoed_example :
    (key quiet (some 120) (prompt quiet asked)).1.trace ≡ (prompt quiet asked).trace
password_not_echoed_example = password_not_echoed quiet asked (some 120) asked-IsSound refl

backspace_out-rounds_example :
    let (e, s') = backspace_out quiet amy 3 in
    (e ≡ false) × (s'.trace ≡ wrote (blanks 3) false ∷ []) × IsBlanks s'.backspace_buffer
backspace_out-rounds_example = backspace_out-rounds quiet amy 3 amy-IsBlanks

-- Amy, gone while she is on a channel.
abbrev gone : UserInfo (Unit {0})
gone = record amy_on_tea { telnet_goroutine_has_gone_away = true }

gone-ends_example :
    (wtelnet.Doppelganger.Loop.run one_user quiet gone (closed_reads 1001)).status ≡ finished
gone-ends_example = gone-ends one_user quiet 1001 gone 0 refl refl (omega arith) (omega arith)

abbrev exit_comes_back : ChannelToUser
exit_comes_back = record channel_is_full {
  operation = ChannelToUserOp.text_exit;
  leaving_doppelganger_id = 1;
  parameter = codes "You left #tea";
}

abbrev joined_milk : ChannelToUser
joined_milk = record channel_is_full {
  operation = ChannelToUserOp.joined;
  chat_channel_id = 6;
  parameter = codes "milk";
  chat_channel_callback = some 21;
}

late_bounce-loses_channel_example :
    let joined_first = (by_channel_op quiet ChannelToUserOp.joined joined_milk amy).1 in
    let exit_first = (by_channel_op quiet ChannelToUserOp.text_exit exit_comes_back amy).1 in
    let later = (by_channel_op quiet ChannelToUserOp.text_exit exit_comes_back joined_first).1 in
    ((by_channel_op quiet ChannelToUserOp.joined joined_milk exit_first).1.chat_channel_id ≡ 6)
    × (later.chat_channel_id ≡ 0)
    × (requests (state_of (on_exit quiet [] later)).trace ≡ requests later.trace)
late_bounce-loses_channel_example =
    late_bounce-loses_channel quiet amy exit_comes_back joined_milk [] refl
      (unfold by_channel_op on_joined tell in refl)

-- Amy's terminal, when she has typed three bytes at her prompt.
abbrev amy_at_prompt : UserInfo (Unit {0})
amy_at_prompt = record amy { trace = wrote (codes "abc") false ∷ wrote (codes "amy> ") false ∷ [] }

amy_at_prompt-IsReading : IsReading amy_at_prompt
unfolding codes
amy_at_prompt-IsReading = record {
  in_range = record {
    cursor_in_line = omega arith;
    position_in_sequence = omega arith;
    sequence_of_three = refl;
  };
  began = λ h. absurd (h refl);
  no_return_before = refl;
}

abbrev prompt_of_amy : Bytes
prompt_of_amy = onto [] (codes "amy> ")

amy_at_prompt-Shows : Shows prompt_of_amy amy_at_prompt
unfolding codes
amy_at_prompt-Shows = record { line = refl; blank = tt }

-- A letter, the left arrow twice, a delete and another letter.
abbrev typed_again : List (Option ℕ)
typed_again =
    some 100 ∷ some 27 ∷ some 91 ∷ some 68 ∷ some 27 ∷ some 91 ∷ some 68 ∷ some 127 ∷ some 101 ∷ []

keys-Shows_example : Shows prompt_of_amy (keys quiet typed_again amy_at_prompt)
keys-Shows_example =
    keys-Shows quiet (λ trace text. refl) prompt_of_amy typed_again amy_at_prompt
      amy_at_prompt-IsReading refl amy_at_prompt-Shows
