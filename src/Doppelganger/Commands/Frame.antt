-- ===== src/Doppelganger/Commands/Frame.antt =====
-- daemon/doppelganger.go: no command changes the login, the echo or the line.
use wtelnet.Common.{
  Bool, List, [], ◌∷◌, ◌++◌, Bytes, codes, arith, Option, none, some, inl, inr, Result-cases,
  if_elim, same_text,
}
use wtelnet.Database.{Sql, get_chatchannel_list}
use wtelnet.Doppelganger.{UserInfo, Effect, long_write, backspace_out, does, logged}
use wtelnet.Doppelganger.Backspace.{grow-IsBlanks}
use wtelnet.Doppelganger.Frame.{Keeps}
use wtelnet.Doppelganger.Commands.{
  Reply, reply, panicked, created, write_names, write_list, on_join, on_who, on_exit, on_emote,
  on_unknown, on_create, on_list, execute, do_command, database_error,
}
use wtelnet.Doppelganger.Commands.Words.{strip_hash, split_command, emote_of}

abbrev pub state_of : {Db : Type 0} → Reply Db → UserInfo Db
state_of (reply p e s) = s
state_of (panicked s) = s

module _ {Db : Type 0} (fails : List Effect → Bytes → Bool) (s : UserInfo Db) where
  on_join-Keeps : (operand : Bytes) → Keeps s (state_of (on_join fails operand s))
  unfolding on_join
  on_join-Keeps operand = ground arith

  on_who-Keeps : (operand : Bytes) → Keeps s (state_of (on_who fails operand s))
  unfolding on_who
  on_who-Keeps operand = ground arith

  on_exit-Keeps : (operand : Bytes) → Keeps s (state_of (on_exit fails operand s))
  unfolding on_exit
  on_exit-Keeps operand = ground arith

  on_unknown-Keeps : (command : Bytes) → Keeps s (state_of (on_unknown fails command s))
  unfolding on_unknown
  on_unknown-Keeps command = ground arith

  on_emote-Keeps : (parameter : Bytes) → Keeps s (state_of (on_emote fails parameter s))
  unfolding on_emote backspace_out
  on_emote-Keeps parameter = ground (arith, grow-IsBlanks s.backspace_buffer s.cursor_column)

module _ {Db : Type 0} (fails : List Effect → Bytes → Bool) where
  write_names-Keeps : (names : List Bytes) (s : UserInfo Db) → Keeps s (write_names fails names s).1
  unfolding write_names
  write_names-Keeps [] s = ground arith
  write_names-Keeps (name ∷ names) s =
      ground
        (arith, write_names-Keeps names (long_write fails (codes "#" ++ name ++ codes "\r\n") s).1)

  write_list-Keeps :
      (names : List Bytes) (s : UserInfo Db) → Keeps s (state_of (write_list fails names s))
  unfolding write_list
  write_list-Keeps names s =
      ground (arith, write_names-Keeps names (long_write fails (codes "\r\n") s).1)

  created-Keeps :
      (operand : Bytes) (existed : Bool) (e : Option Bytes) (s : UserInfo Db)
      → Keeps s (state_of (created fails operand existed e s))
  unfolding created
  created-Keeps operand existed none s = ground arith
  created-Keeps operand existed (some e) s = ground arith

module _ (sql : Sql) (fails : List Effect → Bytes → Bool) (s : UserInfo sql.Db) where
  on_create-Keeps : (operand : Bytes) → Keeps s (state_of (on_create sql fails operand s))
  unfolding on_create
  on_create-Keeps operand = ground arith

  on_list-Keeps : Keeps s (state_of (on_list sql fails s))
  unfolding on_list
  on_list-Keeps = elim (Result-cases (get_chatchannel_list sql s.db)) [
    | inl (names, e) ↦ rw (e, on_list) (write_list-Keeps fails names s)
    | inr (inl (x, e)) ↦
        rw (e, on_list)
          (ground (
            arith,
            write_list-Keeps fails [] (long_write fails database_error (does (logged x) s)).1,
          ))
    | inr (inr e) ↦ rw (e, on_list) (ground arith)
  ]

  execute-Keeps :
      (command operand parameter : Bytes)
      → Keeps s (state_of (execute sql fails command operand parameter s))
  unfolding execute
  execute-Keeps command operand parameter =
      let P = λ (r : Reply sql.Db). Keeps s (state_of r) in
      if_elim P (same_text command (codes "/create")) (on_create-Keeps (strip_hash operand)) (
        if_elim P (same_text command (codes "/list")) on_list-Keeps (
          if_elim P (same_text command (codes "/join")) (on_join-Keeps fails s operand) (
            if_elim P (same_text command (codes "/who")) (on_who-Keeps fails s operand) (
              if_elim P (same_text command (codes "/exit")) (on_exit-Keeps fails s operand) (
                if_elim P (same_text command (codes "/emote")) (on_emote-Keeps fails s parameter) (
                  if_elim P (same_text command (codes "/help")) (ground arith)
                    (on_unknown-Keeps fails s command)))))))

  -- No command changes the login mode, the user, the echo or the line buffer.
  pub do_command-Keeps : (line : Bytes) → Keeps s (state_of (do_command sql fails s line))
  unfolding do_command
  do_command-Keeps line =
      let (command, operand) = split_command line in
      let (command', parameter) = emote_of s.user_name command operand in
      execute-Keeps command' operand parameter
