-- ===== src/Doppelganger/Requests/Commands.antt =====
-- daemon/doppelganger.go: what `doCommand` and the exit procedure send to the channel master.
use wtelnet.Common.{
  Bool, List, [], ◌∷◌, ◌++◌, Bytes, codes, arith, Option, none, some, inl, inr, Result-cases, Int64,
  if_elim, same_text,
}
use wtelnet.Message.{Chan}
use wtelnet.Database.{Sql, get_chatchannel_list}
use wtelnet.Doppelganger.{UserInfo, Effect, long_write, backspace_out, does, logged}
use wtelnet.Doppelganger.Exit.{handle_channel_exit_procedure}
use wtelnet.Doppelganger.Commands.{
  Reply, created, write_names, write_list, on_join, on_who, on_exit, on_emote, on_unknown,
  on_create, on_list, execute, do_command, database_error,
}
use wtelnet.Doppelganger.Commands.Words.{strip_hash, split_command, emote_of}
use wtelnet.Doppelganger.Commands.Frame.{state_of}
use wtelnet.Doppelganger.Requests.{IsHonest}

module _ (id : Int64) (m c : Chan) where
  abbrev pub Honest : {Db : Type 0} → UserInfo Db → Type 0
  Honest s = IsHonest id m c s

  module _ {Db : Type 0} (fails : List Effect → Bytes → Bool) (s : UserInfo Db) (h : Honest s) where
    on_join-IsHonest : (operand : Bytes) → Honest (state_of (on_join fails operand s))
    unfolding on_join
    on_join-IsHonest operand = ground arith

    on_who-IsHonest : (operand : Bytes) → Honest (state_of (on_who fails operand s))
    unfolding on_who
    on_who-IsHonest operand = ground arith

    on_exit-IsHonest : (operand : Bytes) → Honest (state_of (on_exit fails operand s))
    unfolding on_exit
    on_exit-IsHonest operand = ground arith

    pub exit-IsHonest : Honest (handle_channel_exit_procedure s).1
    unfolding handle_channel_exit_procedure
    exit-IsHonest = ground arith

    on_unknown-IsHonest : (command : Bytes) → Honest (state_of (on_unknown fails command s))
    unfolding on_unknown
    on_unknown-IsHonest command = ground arith

    on_emote-IsHonest : (parameter : Bytes) → Honest (state_of (on_emote fails parameter s))
    unfolding on_emote backspace_out
    on_emote-IsHonest parameter = ground arith

  module _ {Db : Type 0} (fails : List Effect → Bytes → Bool) where
    write_names-IsHonest :
        (names : List Bytes) (s : UserInfo Db) → Honest s → Honest (write_names fails names s).1
    unfolding write_names
    write_names-IsHonest [] s h = h
    write_names-IsHonest (name ∷ names) s h = ground (
      arith,
      write_names-IsHonest names (long_write fails (codes "#" ++ name ++ codes "\r\n") s).1,
    )

    write_list-IsHonest :
        (names : List Bytes) (s : UserInfo Db)
        → Honest s
        → Honest (state_of (write_list fails names s))
    unfolding write_list
    write_list-IsHonest names s h =
        ground (arith, write_names-IsHonest names (long_write fails (codes "\r\n") s).1)

    created-IsHonest :
        (operand : Bytes) (existed : Bool) (e : Option Bytes) (s : UserInfo Db)
        → Honest s
        → Honest (state_of (created fails operand existed e s))
    unfolding created
    created-IsHonest operand existed none s h = ground arith
    created-IsHonest operand existed (some e) s h = ground arith

  module _ (sql : Sql) (fails : List Effect → Bytes → Bool) (s : UserInfo sql.Db)
      (h : Honest s) where
    on_create-IsHonest : (operand : Bytes) → Honest (state_of (on_create sql fails operand s))
    unfolding on_create
    on_create-IsHonest operand = ground arith

    on_list-IsHonest : Honest (state_of (on_list sql fails s))
    unfolding on_list
    on_list-IsHonest = elim (Result-cases (get_chatchannel_list sql s.db)) [
      | inl (names, e) ↦ rw (e, on_list) (write_list-IsHonest fails names s h)
      | inr (inl (x, e)) ↦
          rw (e, on_list)
            (ground (
              arith,
              write_list-IsHonest fails [] (long_write fails database_error (does (logged x) s)).1,
            ))
      | inr (inr e) ↦ rw (e, on_list) h
    ]

    execute-IsHonest :
        (command operand parameter : Bytes)
        → Honest (state_of (execute sql fails command operand parameter s))
    unfolding execute
    execute-IsHonest command operand parameter =
        let P = λ (r : Reply sql.Db). Honest (state_of r) in
        if_elim P (same_text command (codes "/create")) (on_create-IsHonest (strip_hash operand)) (
          if_elim P (same_text command (codes "/list")) on_list-IsHonest (
            if_elim P (same_text command (codes "/join")) (on_join-IsHonest fails s h operand) (
              if_elim P (same_text command (codes "/who")) (on_who-IsHonest fails s h operand) (
                if_elim P (same_text command (codes "/exit")) (on_exit-IsHonest fails s h operand) (
                  if_elim P (same_text command (codes "/emote"))
                    (on_emote-IsHonest fails s h parameter)
                    (if_elim P (same_text command (codes "/help")) (ground arith)
                      (on_unknown-IsHonest fails s h command)))))))

    pub do_command-IsHonest : (line : Bytes) → Honest (state_of (do_command sql fails s line))
    unfolding do_command
    do_command-IsHonest line =
        let (command, operand) = split_command line in
        let (command', parameter) = emote_of s.user_name command operand in
        execute-IsHonest command' operand parameter
