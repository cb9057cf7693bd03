-- ===== src/Tests.antt =====
-- A small world for the tests: a database, users and channels.
mod Users
mod Sessions
mod Talks
mod Channels
mod Accounts
mod Creations
mod Server
mod System
use mathlib.Core.List.Perm
use wtelnet.Common.{
  ℕ, Bool, true, false, Option, none, some, List, [], ◌∷◌, Bytes, codes, same_text, ok, Int64,
  Result, if◌then◌else◌,
}
use wtelnet.Common.Dict.{Dict}
use wtelnet.Message.{
  MasterToChannel, MasterToChannelOp, UserToMaster, UserToMasterOp, UserToChannel, UserToChannelOp,
}
use wtelnet.Database.{Sql, LoginRow}
use wtelnet.Doppelganger.{UserInfo, Effect, command_mode}
use wtelnet.ChatChannel.{UserEntry, ChatChannel}
use wtelnet.ChatChannel.Notices.{IsRound}
use wtelnet.Master.{Master, PerChatChan}

-- One user, amy with the password `secret`, and one channel, whose id is 5.
abbrev pub one_user : Sql
one_user = record {
  Db = Unit {0};
  Tx = Unit {0};
  prepare = λ db statement. none;
  query_ids = λ db statement values. ok (ok 5 ∷ []);
  query_logins = λ db statement values.
      ok
        (ok (record { user_id = 7; user_name = codes "amy"; password_hash = codes "secret" }) ∷ []);
  query_names = λ db statement values. ok (ok (codes "tea") ∷ []);
  begin = λ db. ok tt;
  tx_prepare = λ tx statement. none;
  tx_query_ids = λ tx statement values. ok (ok 5 ∷ []);
  exec = λ tx statement values. ok tx;
  commit = λ db tx. (db, none);
  generate_from_password = λ password. ok password;
  compare_hash_and_password =
      λ hash password. if same_text hash password then none else some (codes "mismatch");
}

-- No write fails.
abbrev pub quiet : List Effect → Bytes → Bool
quiet trace text = false

-- Amy, logged in and on no channel, with three bytes typed.
abbrev pub amy : UserInfo (Unit {0})
amy = record {
  user_id = 7;
  user_name = codes "amy";
  doppelganger_id = 1;
  chat_channel_id = 0;
  chat_channel_name = codes "(no channel)";
  chat_channel_callback = none;
  incoming_from_channel_master = 10;
  incoming_from_chat_channel = 11;
  mode = command_mode;
  prompt_needed = false;
  prompt_len = 5;
  line_buffer = codes "abc";
  backspace_buffer = [];
  attempting_user_name = [];
  attempting_user_new_password = [];
  control_sequence = 0 ∷ 0 ∷ 0 ∷ [];
  ctrl_seq_position = 0;
  cursor_column = 3;
  prev_usr_byte = 0;
  echo_on = true;
  telnet_goroutine_has_gone_away = false;
  cant_exit_before_exit_message = false;
  cant_exit_count = 0;
  db = tt;
  master_chan = some 0;
  trace = [];
}

-- Amy on the channel 5.
abbrev pub amy_on_tea : UserInfo (Unit {0})
amy_on_tea = record amy { chat_channel_id = 5; chat_channel_callback = some 20 }

-- Two members.
abbrev pub two_members : Dict UserEntry
two_members =
    (1, record { user_id = 7; user_name = codes "amy"; doppelganger_callback = 11 })
    ∷ (2, record { user_id = 8; user_name = codes "bob"; doppelganger_callback = 12 })
    ∷ []

abbrev pub tea : ChatChannel
tea = record {
  chat_channel_id = 5;
  chat_channel_name = codes "tea";
  member_list = two_members;
  incoming_from_doppelganger = some 20;
  master_chan = some 1;
}

-- Six members, each of the same user.
abbrev pub full_tea : ChatChannel
full_tea =
    let e : UserEntry = record {
      user_id = 7;
      user_name = codes "amy";
      doppelganger_callback = 11;
    } in
    record tea { member_list = (1, e) ∷ (2, e) ∷ (3, e) ∷ (4, e) ∷ (5, e) ∷ (6, e) ∷ [] }

abbrev pub from_master_about_cat : MasterToChannelOp → MasterToChannel
from_master_about_cat op = record {
  operation = op;
  user_id = 9;
  user_name = codes "cat";
  doppelganger_id = 3;
  doppelganger_callback = some 13;
}

abbrev pub hello : UserToChannel
hello = record { operation = UserToChannelOp.text_message; user_id = 7; parameter = codes "hello" }

abbrev pub from_cat : UserToMasterOp → UserToMaster
from_cat op = record {
  operation = op;
  user_id = 9;
  user_name = codes "cat";
  doppelganger_id = 3;
  chat_channel_id = 5;
  parameter = codes "tea";
  callback_from_channel_master = some 12;
  callback_from_chat_channel = some 13;
}

-- A channel master with one channel, on which there is one member.
abbrev pub one_running : Master
one_running = record {
  running_map = (5, record { member_count = 1; chat_channel_callback = 0 }) ∷ [];
  next_chan = 1;
}

-- A round over a map that takes the entries as they stand.
abbrev pub in_order : Dict UserEntry → Dict UserEntry
in_order m = m

pub in_order-IsRound : IsRound in_order
in_order-IsRound m = Perm.refl m

abbrev pub finds_tea : Bytes → Result Int64
finds_tea name = ok 5
