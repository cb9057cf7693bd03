-- ===== src/Doppelganger/Commands.antt =====
-- daemon/doppelganger.go: `doCommand`, the commands of a user who is logged in.
pub mod Words
pub mod Frame
pub mod Speech
use wtelnet.Doppelganger.Commands.Words.{split_command, emote_of, strip_hash, help_text}
use wtelnet.Common.{
  Bool, true, false, Option, none, some, List, [], ◌∷◌, ◌++◌, ◌==◌, if◌then◌else◌, Bytes, codes,
  same_text, Error, ok, err, panic, is_positive, minus_one,
}
use wtelnet.Message.{UserToMasterOp, UserToChannelOp}
use wtelnet.Database.{Sql, create_chatchannel, get_chatchannel_list}
use wtelnet.Doppelganger.{
  about, UserInfo, Effect, to_master, to_channel, logged, does, long_write, backspace_out,
  exit_request, off_channel,
}

-- What a command returns: whether a prompt is needed, whether there was an error, or a panic.
pub data Reply (Db : Type 0) : Type 0 where
  reply : Bool → Bool → UserInfo Db → Reply Db
  panicked : UserInfo Db → Reply Db

abbrev pub database_error : Bytes
database_error = codes "\r\nA database error has occurred.\r\n"

module _ {Db : Type 0} (fails : List Effect → Bytes → Bool) where
  -- `_, err := oi.LongWrite(…); return true, err`
  abbrev answer : Bytes → UserInfo Db → Reply Db
  answer text s = let (e, s') = long_write fails text s in reply true e s'

  -- The error of the database is logged, and the function ends by `return false, nil`.
  abbrev on_database_error : Error → UserInfo Db → Reply Db
  on_database_error e s =
      let (failed, s') = long_write fails database_error (does (logged e) s) in
      reply false failed s'

  unfoldable pub created : Bytes → Bool → Option Error → UserInfo Db → Reply Db
  created operand existed none s =
      answer
        (if existed
          then codes "\r\nChannel already exists.\r\n"
          else codes "\r\nChannel \"#" ++ operand ++ codes "\" created.\r\n")
        s
  created operand existed (some e) s = on_database_error e s

  -- The loop that writes the names of the channels; `true` is an error.
  unfoldable pub write_names : List Bytes → UserInfo Db → Bool × UserInfo Db
  write_names [] s = (false, s)
  write_names (name ∷ names) s =
      let w = long_write fails (codes "#" ++ name ++ codes "\r\n") s in
      let rest = write_names names w.1 in if w.0 then (true, w.1) else rest

  unfoldable pub write_list : List Bytes → UserInfo Db → Reply Db
  unfolding write_names
  write_list names s =
      let w = long_write fails (codes "\r\n") s in
      let r = write_names names w.1 in
      if w.0
      then reply false true w.1
      else if r.0
      then reply false true r.1
      else reply true false r.1

  unfoldable pub on_join : Bytes → UserInfo Db → Reply Db
  on_join operand s =
      if s.user_id == 0
      then answer (codes "\r\nYou have to log in before you can join a channel.\r\n") s
      else if is_positive s.chat_channel_id
      then answer
          (codes "\r\nYou have to exit your current channel before you can join a new channel.\r\n")
          s
      else elim s.master_chan [
        | none ↦ reply false false (
            does (logged (about s (codes " error: global.chanMasterFromDoppelgangerGoChan == nil")))
              s)
        | some _ ↦ reply false false (
            does
              (to_master (record {
                operation = UserToMasterOp.join;
                user_id = s.user_id;
                user_name = s.user_name;
                doppelganger_id = s.doppelganger_id;
                chat_channel_id = 0;
                parameter = operand;
                callback_from_channel_master = some s.incoming_from_channel_master;
                callback_from_chat_channel = some s.incoming_from_chat_channel;
              }))
              (record s { chat_channel_id = minus_one }))
      ]

  -- The message of `/who` leaves the doppelganger's id at 0.
  unfoldable pub on_who : Bytes → UserInfo Db → Reply Db
  on_who operand s =
      let (e, s') = long_write fails (codes "\r\n") s in
      if s.user_id == 0
      then answer (codes "\r\nYou are not logged in.\r\n") s
      else if s.chat_channel_id == 0
      then answer (codes "\r\nYou are not on a channel.\r\n") s
      else if e
      then reply true true s'
      else elim s.master_chan [
        | none ↦ reply false false (
            does (logged (about s (codes " error: global.chanMasterFromDoppelgangerGoChan == nil")))
              s')
        | some _ ↦ reply true false (
            does
              (to_master (record {
                operation = UserToMasterOp.who;
                user_id = s.user_id;
                user_name = s.user_name;
                doppelganger_id = 0;
                chat_channel_id = s.chat_channel_id;
                parameter = operand;
                callback_from_channel_master = some s.incoming_from_channel_master;
                callback_from_chat_channel = some s.incoming_from_chat_channel;
              }))
              s')
      ]

  unfoldable pub on_exit : Bytes → UserInfo Db → Reply Db
  on_exit operand s =
      let (e, s') = long_write fails (codes "\r\n") s in
      if s.user_id == 0
      then answer (codes "\r\nYou are not logged in.\r\n") s
      else if s.chat_channel_id == 0
      then answer
          (codes
            "\r\nYou are not on a channel. You have to join a channel before you can exit it.\r\n")
          s
      else if e
      then reply true true s'
      else elim s.master_chan [
        | none ↦ reply false false (
            does (logged (about s (codes " error: global.chanMasterFromDoppelgangerGoChan == nil")))
              s')
        | some _ ↦ reply true false (off_channel (does (to_master (exit_request s operand)) s'))
      ]

  -- What `/emote` does after the line has been backspaced out.
  unfoldable pub send_emote : Bytes → UserInfo Db → Reply Db
  send_emote parameter s =
      let w =
        long_write fails (codes "\r\nYou have to log in before you can talk on a channel.\r\n") s in
      if s.user_id == 0
      then reply false w.0 w.1
      else if s.chat_channel_id == 0
      then answer
          (codes
            "\r\nYou have to join a channel before you can say anything on a channel. Right now you're just talking to yourself.\r\n")
          s
      else elim s.chat_channel_callback [
        | none ↦ reply false false (
            does (logged (about s (codes " error: doppelgangerState.chatChannelCallback == nil")))
              s)
        | some c ↦ reply false false (
            does
              (to_channel c (record {
                operation = UserToChannelOp.text_message;
                user_id = s.user_id;
                parameter = parameter;
              }))
              s)
      ]

  unfoldable pub on_emote : Bytes → UserInfo Db → Reply Db
  unfolding send_emote
  on_emote parameter s =
      let w = backspace_out fails s s.cursor_column in
      if s.chat_channel_id == 0
      then send_emote parameter s
      else if w.0
      then reply false true w.1
      else send_emote parameter w.1

  unfoldable pub on_unknown : Bytes → UserInfo Db → Reply Db
  on_unknown command s =
      let w = long_write fails (codes "\r\n") s in
      if w.0
      then reply false true w.1
      else answer (codes "\r\nCommand \"" ++ command ++ codes "\" not recognized.\r\n") w.1

module _ (sql : Sql) (fails : List Effect → Bytes → Bool) where
  abbrev User : Type 0
  User = UserInfo sql.Db

  unfoldable pub on_create : Bytes → User → Reply sql.Db
  unfolding created
  on_create operand s =
      if same_text operand []
      then answer fails (codes "\r\nPlease specify a channel name to create.\r\n") s
      else elim (create_chatchannel sql s.db operand) [
        | ok (db', existed, e) ↦ created fails operand existed e (record s { db = db' })
        | err e ↦ on_database_error fails e s
        | panic ↦ panicked s
      ]

  -- After a database error the code goes on with an empty list.
  unfoldable pub on_list : User → Reply sql.Db
  unfolding write_list
  on_list s = elim (get_chatchannel_list sql s.db) [
    | ok names ↦ write_list fails names s
    | err e ↦
        let w = long_write fails database_error (does (logged e) s) in
        if w.0 then reply false true w.1 else write_list fails [] w.1
    | panic ↦ panicked s
  ]

  -- The second `switch`.
  unfoldable pub execute : Bytes → Bytes → Bytes → User → Reply sql.Db
  execute command operand emote_parameter s =
      if same_text command (codes "/create")
      then on_create (strip_hash operand) s
      else if same_text command (codes "/list")
      then on_list s
      else if same_text command (codes "/join")
      then on_join fails operand s
      else if same_text command (codes "/who")
      then on_who fails operand s
      else if same_text command (codes "/exit")
      then on_exit fails operand s
      else if same_text command (codes "/emote")
      then on_emote fails emote_parameter s
      else if same_text command (codes "/help")
      then answer fails help_text s
      else on_unknown fails command s

  unfoldable pub do_command : User → Bytes → Reply sql.Db
  do_command s line =
      let (command, operand) = split_command line in
      let (command', emote_parameter) = emote_of s.user_name command operand in
      execute command' operand emote_parameter s
