-- ===== src/Doppelganger/Requests/Lines.antt =====
-- daemon/doppelganger.go: what the lines that the user ends send to the channel master.
use wtelnet.Common.{
  Bool, true, false, Option, none, some, List, [], ◌∷◌, Bytes, arith, Int64, if_elim, inl, inr,
  Result-cases, same_text, codes,
}
use wtelnet.Message.{Chan}
use wtelnet.Database.{Sql, user_exists, create_user, login}
use wtelnet.Doppelganger.{
  UserInfo, Effect, Mode, username, new_user_yn, new_password1, new_password2, regular_password,
  command_mode, typed, long_write, say, does, logged,
}
use wtelnet.Helper.{trim}
use wtelnet.Doppelganger.Commands.{Reply, reply, panicked, do_command}
use wtelnet.Doppelganger.Commands.Frame.{state_of}
use wtelnet.Doppelganger.Lines.{
  Handled, handled, crashed, command_of, name_known, on_yes_no, on_new_password1, account_made,
  no_match, logged_in, after_reply, reset_cursor, on_username, make_account, on_new_password2,
  on_password, on_command, by_mode, handle_line,
}
use wtelnet.Doppelganger.Loop.{prompt}
use wtelnet.Doppelganger.Session.Lines.{state_after}
use wtelnet.Doppelganger.Requests.Commands.{Honest, do_command-IsHonest}

module _ (id : Int64) (m c : Chan) where
  module _ {Db : Type 0} (fails : List Effect → Bytes → Bool) (s : UserInfo Db)
      (h : Honest id m c s) where
    name_known-IsHonest : (exists : Bool) → Honest id m c (name_known fails exists s)
    unfolding name_known
    name_known-IsHonest true = ground arith
    name_known-IsHonest false = ground arith

    on_yes_no-IsHonest : (command : Bytes) → Honest id m c (on_yes_no fails command s)
    unfolding on_yes_no
    on_yes_no-IsHonest command = ground arith

    on_new_password1-IsHonest : (command : Bytes) → Honest id m c (on_new_password1 fails command s)
    unfolding on_new_password1
    on_new_password1-IsHonest command = ground arith

    account_made-IsHonest : (e : Option Bytes) → Honest id m c (account_made fails e s)
    unfolding account_made
    account_made-IsHonest none = ground arith
    account_made-IsHonest (some e) = ground arith

    no_match-IsHonest : Honest id m c (no_match fails s)
    unfolding no_match
    no_match-IsHonest = ground arith

    logged_in-IsHonest : (user : Int64) (name : Bytes) → Honest id m c (logged_in fails user name s)
    unfolding logged_in
    logged_in-IsHonest user name = ground arith

  module _ {Db : Type 0} where
    after_reply-IsHonest :
        (r : Reply Db) → Honest id m c (state_of r) → Honest id m c (state_after (after_reply r))
    after_reply-IsHonest (reply prompt e t) h = ground arith
    after_reply-IsHonest (panicked t) h = h

    reset_cursor-IsHonest :
        (r : Handled Db)
        → Honest id m c (state_after r)
        → Honest id m c (state_after (reset_cursor r))
    reset_cursor-IsHonest (handled t) h = ground arith
    reset_cursor-IsHonest (crashed t) h = h

  module _ (sql : Sql) (fails : List Effect → Bytes → Bool) where
    abbrev HonestAfter : Handled sql.Db → Type 0
    HonestAfter r = Honest id m c (state_after r)

    on_username-IsHonest :
        (s : UserInfo sql.Db) (h : Honest id m c s) (command : Bytes)
        → HonestAfter (on_username sql fails command s)
    unfolding on_username
    on_username-IsHonest s h command =
        let named = record s { attempting_user_name = command } in
        elim (Result-cases (user_exists sql s.db command)) [
          | inl (exists, e) ↦
              rw (e, on_username) (name_known-IsHonest fails named (ground arith) exists)
          | inr (inl (x, e)) ↦
              rw (e, on_username)
                (name_known-IsHonest fails
                  (say fails (codes "A database error occurred.\r\n") (does (logged x) named))
                  (ground arith) false)
          | inr (inr e) ↦ rw (e, on_username) (ground arith)
        ]

    make_account-IsHonest :
        (s : UserInfo sql.Db) (h : Honest id m c s) → HonestAfter (make_account sql fails s)
    unfolding make_account
    make_account-IsHonest s h =
        elim (Result-cases
          (create_user sql s.db s.attempting_user_name s.attempting_user_new_password)) [
            | inl ((db', x), e) ↦
                rw (e, make_account)
                  (account_made-IsHonest fails (record s { db = db' }) (ground arith) x)
            | inr (inl (x, e)) ↦ rw (e, make_account) (account_made-IsHonest fails s h (some x))
            | inr (inr e) ↦ rw (e, make_account) h
          ]

    on_password-IsHonest :
        (s : UserInfo sql.Db) (h : Honest id m c s) (command : Bytes)
        → HonestAfter (on_password sql fails command s)
    unfolding on_password
    on_password-IsHonest s h command =
        elim (Result-cases (login sql s.db s.attempting_user_name command)) [
          | inl ((user, name), e) ↦ rw (e, on_password) (logged_in-IsHonest fails s h user name)
          | inr (inl (x, e)) ↦ rw (e, on_password) (logged_in-IsHonest fails s h 0 [])
          | inr (inr e) ↦ rw (e, on_password) h
        ]

    on_new_password2-IsHonest :
        (s : UserInfo sql.Db) (h : Honest id m c s) (command : Bytes)
        → HonestAfter (on_new_password2 sql fails command s)
    unfolding on_new_password2
    on_new_password2-IsHonest s h command =
        let s' = (long_write fails (13 ∷ 10 ∷ []) s).1 in
        let h' : Honest id m c s' = ground arith in
        if_elim HonestAfter (same_text command s.attempting_user_new_password)
          (make_account-IsHonest s' h') (no_match-IsHonest fails s' h')

    on_command-IsHonest :
        (s : UserInfo sql.Db) (h : Honest id m c s) (command : Bytes)
        → HonestAfter (on_command sql fails command s)
    unfolding on_command
    on_command-IsHonest s h command =
        let r = do_command sql fails s (command_of (trim command)) in
        if_elim HonestAfter (same_text (trim command) []) {x = handled s} {y = after_reply r} h (
          after_reply-IsHonest r
            (do_command-IsHonest id m c sql fails s h (command_of (trim command))))

    by_mode-IsHonest :
        (mode : Mode) (s : UserInfo sql.Db) (h : Honest id m c s) (command : Bytes)
        → HonestAfter (by_mode sql fails mode command s)
    unfolding by_mode
    by_mode-IsHonest username s h command = on_username-IsHonest s h command
    by_mode-IsHonest new_user_yn s h command = on_yes_no-IsHonest fails s h command
    by_mode-IsHonest new_password1 s h command = on_new_password1-IsHonest fails s h command
    by_mode-IsHonest new_password2 s h command = on_new_password2-IsHonest s h command
    by_mode-IsHonest regular_password s h command = on_password-IsHonest s h command
    by_mode-IsHonest command_mode s h command = on_command-IsHonest s h command

    pub handle_line-IsHonest :
        (s : UserInfo sql.Db) → Honest id m c s → HonestAfter (handle_line sql fails s)
    unfolding handle_line
    handle_line-IsHonest s h =
        let r = by_mode sql fails s.mode (trim (typed s)) s in
        let blank = record s { prompt_needed = false } in
        if_elim HonestAfter (same_text (trim (typed s)) []) {x = handled blank} {y = reset_cursor r}
          (ground arith) (reset_cursor-IsHonest r (by_mode-IsHonest s.mode s h (trim (typed s))))
