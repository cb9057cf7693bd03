-- ===== src/Doppelganger/Loop.antt =====
-- daemon/doppelganger.go: `doppelgangerGoroutine`, its start, the prompt and its main loop.
use wtelnet.Common.{
  ℕ, Bool, true, false, Option, none, some, List, [], ◌∷◌, ◌++◌, ltb, if◌then◌else◌, Bytes, codes,
  Int64, length,
}
use wtelnet.Message.{Chan, MasterToUser, ChannelToUser}
use wtelnet.Database.{Sql}
use wtelnet.Doppelganger.{
  about, UserInfo, Mode, username, new_user_yn, new_password1, new_password2, regular_password,
  command_mode, Effect, logged, does, no_channel, typed, long_write, say,
}
use wtelnet.Doppelganger.Keys.{is_return, key}
use wtelnet.Doppelganger.Exit.{handle_channel_exit_procedure}
use wtelnet.Doppelganger.Lines.{Handled, handled, crashed, handle_line}
use wtelnet.Doppelganger.Mailbox.{on_master_message, on_channel_message}

-- The goroutine is in its loop, has closed its channels and returned, or has panicked.
pub data Status : Type 0 where
  looping finished panicked : Status

pub record Progress (Db : Type 0) : Type 0 where
  pub state : UserInfo Db
  pub status : Status

-- What the `select` receives; `none` where the Go channel is closed.
pub data Event : Type 0 where
  from_telnet : Option ℕ → Event
  from_master : Option MasterToUser → Event
  from_channel : Option ChannelToUser → Event

module _ {Db : Type 0} where
  -- The state before the first write; `fresh` are the Go channels that `make` gives.
  unfoldable pub new_user_info : Db → Int64 → Chan → Chan → Option Chan → UserInfo Db
  new_user_info db id own_master own_channel master_chan = record {
    user_id = 0;
    user_name = codes "(not logged in)";
    doppelganger_id = id;
    chat_channel_id = 0;
    chat_channel_name = no_channel;
    chat_channel_callback = none;
    incoming_from_channel_master = own_master;
    incoming_from_chat_channel = own_channel;
    mode = username;
    prompt_needed = true;
    prompt_len = 0;
    line_buffer = [];
    backspace_buffer = [];
    attempting_user_name = [];
    attempting_user_new_password = [];
    control_sequence = 0 ∷ 0 ∷ 0 ∷ [];
    ctrl_seq_position = 0;
    cursor_column = 0;
    prev_usr_byte = 0;
    echo_on = true;
    telnet_goroutine_has_gone_away = false;
    cant_exit_before_exit_message = false;
    cant_exit_count = 0;
    db = db;
    master_chan = master_chan;
    trace = [];
  }

  abbrev pub command_prompt : UserInfo Db → Bytes
  command_prompt s = s.user_name ++ codes " #" ++ s.chat_channel_name ++ codes "> "

  abbrev pub in_loop : UserInfo Db → Progress Db
  in_loop s = record { state = s; status = looping }

  abbrev pub ended : UserInfo Db → Progress Db
  ended s = record { state = s; status = finished }

  abbrev pub died : UserInfo Db → Progress Db
  died s = record { state = s; status = panicked }

module _ {Db : Type 0} (fails : List Effect → Bytes → Bool) where
  -- The two writes before the loop: the switch to full duplex and the welcome.
  unfoldable pub doppelganger_start : UserInfo Db → Progress Db
  doppelganger_start s =
      let w = long_write fails (255 ∷ 251 ∷ 3 ∷ 255 ∷ 251 ∷ 1 ∷ 13 ∷ 10 ∷ []) s in
      let v =
        long_write fails
          (codes "Welcome to the Wayne Brain Telnet daemon. Type ^D to exit.\r\n\r\n") w.1 in
      if w.0
      then ended (does (logged (about s (codes " error: turn on full duplex failed."))) w.1)
      else if v.0
      then ended (does (logged (about s (codes " error: sending welcome message failed."))) v.1)
      else in_loop v.1

  -- The line that was begun is written again after the prompt.
  unfoldable pub prompt_of : Mode → UserInfo Db → UserInfo Db
  prompt_of username s = record (say fails (codes "Username: ") s) { prompt_len = 0 }
  prompt_of new_user_yn s = record (say fails (codes "Create new account? (y/n) ") s) {
    prompt_len = 0;
  }
  prompt_of new_password1 s = record (say fails (codes "Password for new account: ") s) {
    prompt_len = 0;
    echo_on = false;
  }
  prompt_of new_password2 s = record (say fails (codes "Repeat password: ") s) {
    prompt_len = 0;
    echo_on = false;
  }
  prompt_of regular_password s = record (say fails (codes "Password: ") s) {
    prompt_len = 0;
    echo_on = false;
  }
  prompt_of command_mode s =
      record (say fails
        (if ltb 0 s.cursor_column then command_prompt s ++ typed s else command_prompt s) s) {
          prompt_len = length (command_prompt s);
        }

  unfoldable pub prompt : UserInfo Db → UserInfo Db
  unfolding prompt_of
  prompt s = if s.prompt_needed then prompt_of s.mode s else s

  -- The end of a turn: once the user is gone, the exit procedure.
  unfoldable pub finish_turn : UserInfo Db → Progress Db
  finish_turn s =
      let r = handle_channel_exit_procedure s in
      if s.telnet_goroutine_has_gone_away
      then record { state = r.1; status = if r.0 then finished else looping }
      else in_loop s

module _ (sql : Sql) (fails : List Effect → Bytes → Bool) where
  abbrev User : Type 0
  User = UserInfo sql.Db

  abbrev pub after_line : Handled sql.Db → Progress sql.Db
  after_line (handled s) = finish_turn fails s
  after_line (crashed s) = died s

  unfoldable pub on_key : Option ℕ → User → Progress sql.Db
  on_key input s =
      let (c, s') = key fails input s in
      if is_return c then after_line (handle_line sql fails s') else finish_turn fails s'

  -- Where one of its own Go channels is found closed the code closes it once more, which panics.
  unfoldable pub on_event : Event → User → Progress sql.Db
  on_event (from_telnet input) s = on_key input s
  on_event (from_master (some msg)) s = finish_turn fails (on_master_message fails msg s)
  on_event (from_master none) s = died (
      does
        (logged
          (about s (codes " error: incomingFromChannelMaster go channel has unexpectedly closed.")))
        s)
  on_event (from_channel (some msg)) s =
      let (done, s') = on_channel_message fails msg s in
      if done then ended s' else finish_turn fails s'
  on_event (from_channel none) s = died (
      does
        (logged (about s (codes " error: callback channel for chat channels unexpectedly closed.")))
        s)

  -- A turn of the main loop.
  unfoldable pub turn : User → Event → Progress sql.Db
  turn s e = on_event e (prompt fails s)

  unfoldable pub run : User → List Event → Progress sql.Db
  run s [] = in_loop s
  run s (e ∷ es) =
      let t = turn s e in elim t.status [ looping ↦ run t.state es | finished ↦ t | panicked ↦ t ]
