-- ===== src/Tests/System.antt =====
-- The channel master with one chat channel, step by step.
use wtelnet.Common.{
  true, ◌≡◌, refl, ◌≤◌, ◌⊎◌, ◌+◌, ◌<◌, ℕ, sign_bit, minus_one, Bool, ◌==◌, false, none, some, List,
  [], ◌∷◌, codes, Int64, arith, length,
}
use wtelnet.Common.Dict.{lookup, insert, delete}
use wtelnet.ChatChannel.Sends.{IsOpen, sends}
use wtelnet.Message.{
  Chan, MasterToChannel, MasterToChannelOp, UserToMaster, UserToMasterOp, ChannelToMaster,
  ChannelToUser, ChannelToUserOp,
}
use wtelnet.Master.{running, join_message, to_channel}
use wtelnet.Master.Joining.{launch_channel, on_join}
use wtelnet.Master.Leaving.{on_exit}
use wtelnet.Master.Loop.{from_user, from_channel, start, run, turn}
use wtelnet.Master.Ownership.{IsApart, run-IsApart}
use wtelnet.ChatChannel.{UserEntry, ChatChannel, carry_on}
use wtelnet.ChatChannel.Joining.{entry, denial, member_str}
use wtelnet.ChatChannel.Handlers.{process_message_from_channel_master}
use wtelnet.ChatChannel.Loop.{handle_from_master, closing, looping, finished, crashed}
use wtelnet.System.{
  System, sent_to, denials_of, settle, settled, on_the_way, master_does, room_does, asked, handled,
  Reach, now, later,
}
use wtelnet.System.Launch.{launched}
use wtelnet.System.Safety.{
  member_count-settled, chat_channel-ends_empty, shut_down-silent, exit-keeps_running,
  denial-keeps_running,
}
use wtelnet.Crossings.{join_request}
use wtelnet.Crossings.Late.{late_join-crashes}
use wtelnet.Doppelganger.Commands.{reply}
use wtelnet.Crossings.Twice.{joined_twice, second_join-miscounts}
use wtelnet.Doppelganger.{UserInfo, to_master}
use wtelnet.Tests.{
  one_user, in_order, in_order-IsRound, finds_tea, from_cat, one_running, tea, amy, quiet,
}

-- A request with the id of a doppelganger.
abbrev ask : UserToMasterOp → Int64 → UserToMaster
ask op id = record (from_cat op) { doppelganger_id = id }

abbrev to_room : MasterToChannelOp → Int64 → MasterToChannel
to_room op id = join_message (ask UserToMasterOp.join id) op

run-IsApart_example :
    IsApart (run start (from_user finds_tea (some (ask UserToMasterOp.join 3)) ∷ [])).0
run-IsApart_example = run-IsApart (from_user finds_tea (some (ask UserToMasterOp.join 3)) ∷ [])

abbrev born : System
born = launched (run start []).0 (ask UserToMasterOp.join 3) 5 (codes "tea") 20 1

abbrev Reached : System → Type 0
Reached s = Reach in_order 5 (run start []).0.next_chan born s

abbrev asks : UserToMasterOp → Int64 → System → System
asks op id s = master_does (run start []).0.next_chan (from_user finds_tea (some (ask op id))) s

abbrev alone : System
alone = room_does in_order (to_room MasterToChannelOp.join 3) [] born

alone-Reached : Reached alone
unfolding process_message_from_channel_master member_str insert codes
alone-Reached = later now (handled (to_room MasterToChannelOp.join 3) [] refl refl)

abbrev leaving : System
leaving = asks UserToMasterOp.exit 3 alone

leaving-Reached : Reached leaving
unfolding process_message_from_channel_master run start launch_channel settle turn lookup insert
    on_exit member_str codes
leaving-Reached = later alone-Reached (
    asked finds_tea (ask UserToMasterOp.exit 3)
      (λ e. (entry (to_room MasterToChannelOp.join 3) 13, refl)) (omega arith) refl)

abbrev last_word : System
last_word =
    room_does in_order (to_room MasterToChannelOp.exit 3)
      (to_room MasterToChannelOp.shutdown 3 ∷ []) leaving

last_word-Reached : Reached last_word
unfolding process_message_from_channel_master run start launch_channel settle turn lookup insert
    on_exit member_str codes
last_word-Reached = later leaving-Reached (
    handled (to_room MasterToChannelOp.exit 3) (to_room MasterToChannelOp.shutdown 3 ∷ []) refl
      refl)

-- A join is asked for and handled.
abbrev joins : Int64 → System → System
joins id s =
    room_does in_order (to_room MasterToChannelOp.join id) [] (asks UserToMasterOp.join id s)

joins-Reached :
    (id : Int64) (s : System)
    → lookup id (settled in_order s).member_list ≡ none
    → length (settled in_order s).member_list + length (on_the_way in_order s) < sign_bit
    → (turn s.master (from_user finds_tea (some (ask UserToMasterOp.join id)))).status ≡ running
    → (asks UserToMasterOp.join id s).queue ≡ to_room MasterToChannelOp.join id ∷ []
    → (process_message_from_channel_master in_order s.room
        (to_room MasterToChannelOp.join id)).outcome
      ≡ carry_on
    → Reached s
    → Reached (joins id s)
joins-Reached id s n lt r q c reached =
    later (later reached (asked finds_tea (ask UserToMasterOp.join id) (λ e. (n, (13, refl))) lt r))
      (handled (to_room MasterToChannelOp.join id) [] q c)

abbrev crowd : System
crowd = joins 17 (joins 16 (joins 15 (joins 14 (joins 13 (joins 12 alone)))))

crowd-Reached : Reached crowd
unfolding process_message_from_channel_master run start launch_channel settle turn lookup insert
    member_str codes
crowd-Reached = joins-Reached 17 _ refl (omega arith) refl refl refl (
    joins-Reached 16 _ refl (omega arith) refl refl refl (
      joins-Reached 15 _ refl (omega arith) refl refl refl (
        joins-Reached 14 _ refl (omega arith) refl refl refl (
          joins-Reached 13 _ refl (omega arith) refl refl refl
            (joins-Reached 12 alone refl (omega arith) refl refl refl alone-Reached)))))

member_count-settled_example :
    (◌≡◌ {A = ℕ} 7
      (length (settled in_order crowd).member_list + length (on_the_way in_order crowd)))
    × (1 ≤ 7)
unfolding process_message_from_channel_master run start launch_channel settle turn lookup insert
    member_str codes
member_count-settled_example =
    member_count-settled in_order [] (ask UserToMasterOp.join 3) 5 (codes "tea") 20 1 13
      (omega arith) refl crowd-Reached (record { member_count = 7; chat_channel_callback = 0 }) refl
      refl

-- Every doppelganger but the one with the Go channel 14 has its Go channels open.
abbrev one_gone : Chan → Bool
one_gone c = c == 14

last_word-IsOpen : IsOpen one_gone last_word.room (to_room MasterToChannelOp.shutdown 3)
unfolding process_message_from_channel_master run start launch_channel settle turn lookup insert
    on_exit member_str codes delete
last_word-IsOpen = record { members = refl; sender = λ c e. ground arith }

chat_channel-ends_empty_example :
    let t =
      sends one_gone (
        handle_from_master in_order 9 false last_word.room
          (to_room MasterToChannelOp.shutdown 3)) in
    (t.status ≡ looping)
    ⊎ ((t.status ≡ finished)
        × (t.effects ≡ closing 9 last_word.room)
        × (◌≡◌ {A = List MasterToChannel} [] [])
        × (last_word.denials ≡ []))
unfolding process_message_from_channel_master run start launch_channel settle turn lookup insert
    on_exit member_str codes
chat_channel-ends_empty_example =
    chat_channel-ends_empty in_order [] (ask UserToMasterOp.join 3) 5 (codes "tea") 20 1 13
      (omega arith) refl last_word-Reached one_gone 9 (to_room MasterToChannelOp.shutdown 3) []
      in_order-IsRound refl last_word-IsOpen

shut_down-silent_example :
    sent_to 0 (turn leaving.master (from_user finds_tea (some (ask UserToMasterOp.join 4)))).effects
    ≡ []
unfolding process_message_from_channel_master run start launch_channel settle turn lookup insert
    on_exit member_str codes
shut_down-silent_example =
    shut_down-silent in_order [] (ask UserToMasterOp.join 3) 5 (codes "tea") 20 1 13 (omega arith)
      refl leaving-Reached (to_room MasterToChannelOp.exit 3 ∷ [])
      (to_room MasterToChannelOp.shutdown 3)
      (from_user finds_tea (some (ask UserToMasterOp.join 4))) refl refl

exit-keeps_running_example : (on_exit alone.master (ask UserToMasterOp.exit 3)).status ≡ running
unfolding process_message_from_channel_master run start launch_channel settle turn lookup insert
    on_exit member_str codes
exit-keeps_running_example =
    exit-keeps_running in_order [] (ask UserToMasterOp.join 3) 5 (codes "tea") 20 1 13 (omega arith)
      refl alone-Reached (ask UserToMasterOp.exit 3) refl
      (entry (to_room MasterToChannelOp.join 3) 13, refl)

-- The seventh was denied.
abbrev seventh : ChannelToMaster
seventh = denial crowd.room (to_room MasterToChannelOp.join 17)

denial-keeps_running_example : (turn crowd.master (from_channel (some seventh))).status ≡ running
unfolding process_message_from_channel_master run start launch_channel settle turn lookup insert
    on_exit member_str codes
denial-keeps_running_example =
    denial-keeps_running in_order [] (ask UserToMasterOp.join 3) 5 (codes "tea") 20 1 13
      (omega arith) refl crowd-Reached seventh [] refl

-- Amy on another connection, not on tea.
abbrev amy_again : UserInfo (Unit {0})
amy_again = record amy { doppelganger_id = 3 }

second_join-miscounts_example :
    let request = join_request amy_again (codes "tea") in
    let msg = join_message request MasterToChannelOp.join in
    let next = (wtelnet.ChatChannel.Joining.on_join in_order tea msg).channel in
    let t = wtelnet.ChatChannel.Joining.on_join in_order next msg in
    (joined_twice quiet amy_again (codes "tea") ≡ record amy_again {
      chat_channel_id = minus_one;
      trace = to_master request ∷ to_master request ∷ [];
    })
    × (lookup 5
          (on_join finds_tea
            (on_join finds_tea one_running request).master
            request).master.running_map
        ≡ some (record { member_count = 3; chat_channel_callback = 0 }))
    × (length t.channel.member_list ≡ 3)
    × (denials_of t.effects ≡ [])
unfolding lookup codes
second_join-miscounts_example =
    second_join-miscounts quiet amy_again 0 (codes "tea") (omega arith) refl refl finds_tea
      one_running 5 (record { member_count = 1; chat_channel_callback = 0 }) (λ e. cc) refl
      (omega arith) refl in_order tea 20 (omega arith) refl refl (omega arith)

-- The exit of the doppelganger 1 from another channel, which comes back while the join is pending.
abbrev bounce : ChannelToUser
bounce = record {
  operation = ChannelToUserOp.text_exit;
  originator = 0;
  chat_channel_id = 8;
  leaving_doppelganger_id = amy.doppelganger_id;
  parameter = codes "You left #den";
  chat_channel_callback = some 30;
}

abbrev amy_left : UserInfo (Unit {0})
amy_left = record amy { telnet_goroutine_has_gone_away = true; chat_channel_id = minus_one }

abbrev amys : Chan → Bool
amys c = c == amy.incoming_from_chat_channel

late_join-crashes_example :
    let request = join_request amy (codes "tea") in
    let msg = join_message request MasterToChannelOp.join in
    let t = sends amys (handle_from_master in_order 9 false tea msg) in
    (wtelnet.Doppelganger.Commands.on_join quiet (codes "tea") amy
      ≡ reply false false
          (record amy { chat_channel_id = minus_one; trace = to_master request ∷ [] }))
    × ((wtelnet.Doppelganger.Loop.turn one_user quiet amy_left
          (wtelnet.Doppelganger.Loop.from_channel (some bounce))).status
        ≡ wtelnet.Doppelganger.Loop.finished)
    × ((on_join finds_tea one_running request).effects ≡ to_channel 0 msg ∷ [])
    × (t.status ≡ crashed)
    × (t.effects ≡ [])
unfolding lookup codes
late_join-crashes_example =
    late_join-crashes one_user quiet amy 0 (codes "tea") (omega arith) refl refl amy_left bounce
      refl refl refl finds_tea one_running 5
      (record { member_count = 1; chat_channel_callback = 0 }) (λ e. cc) refl (omega arith) refl
      in_order tea 20 9 amys refl (omega arith) refl (omega arith)
