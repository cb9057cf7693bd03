-- ===== src/Doppelganger/Lines.antt =====
-- daemon/doppelganger.go: what the main loop does with a line, by the login mode.
use wtelnet.Common.{
  Bool, true, false, Option, none, some, List, [], ◌∷◌, ◌++◌, ◌==◌, ltb, ◌||◌, if◌then◌else◌, Bytes,
  codes, same_text, length, Int64, Error, ok, err, panic,
}
use wtelnet.Database.{Sql, user_exists, create_user, login}
use wtelnet.Doppelganger.{
  UserInfo, Mode, username, new_user_yn, new_password1, new_password2, regular_password,
  command_mode, Effect, logged, does, typed, long_write, say,
}
use wtelnet.Helper.{trim}
use wtelnet.Doppelganger.Commands.{Reply, reply, panicked, do_command}

-- The state after a line, or a panic.
pub data Handled (Db : Type 0) : Type 0 where
  handled : UserInfo Db → Handled Db
  crashed : UserInfo Db → Handled Db

-- A line of a logged-in user, as the command that it stands for.
unfoldable pub command_of : Bytes → Bytes
command_of [] = []
command_of (c ∷ cs) =
    if c == b'\''
    then codes "/say " ++ trim cs
    else if c == b';'
    then codes "/emote " ++ trim cs
    else if c == b'/'
    then c ∷ cs
    else codes "/say " ++ trim (c ∷ cs)

abbrev says_yes : Bytes → Bool
says_yes [] = false
says_yes (c ∷ _) = c == b'Y' || c == b'y'

module _ {Db : Type 0} (fails : List Effect → Bytes → Bool) where
  -- `loginUsernameMode`, once it is known whether the user exists.
  unfoldable pub name_known : Bool → UserInfo Db → UserInfo Db
  name_known true s = record (say fails (codes "\r\n") s) {
    mode = regular_password;
    prompt_needed = true;
  }
  name_known false s =
      record (say fails (codes "\r\nThat username does not exist on this system. ") s) {
        mode = new_user_yn;
        prompt_needed = true;
      }

  unfoldable pub on_yes_no : Bytes → UserInfo Db → UserInfo Db
  on_yes_no command s = record (say fails (codes "\r\n") s) {
    mode = if says_yes command then new_password1 else username;
    prompt_needed = true;
  }

  unfoldable pub on_new_password1 : Bytes → UserInfo Db → UserInfo Db
  on_new_password1 command s =
      let s' = say fails (13 ∷ 10 ∷ []) s in
      if ltb (length command) 4
      then record (say fails (codes "Please enter a password at least 4 characters long.\r\n") s') {
        prompt_needed = true;
      }
      else record s' {
        attempting_user_new_password = command;
        mode = new_password2;
        prompt_needed = true;
      }

  -- `loginNewPassword2Mode` after `createUser`. The error of the write after a failure is ignored.
  unfoldable pub account_made : Option Error → UserInfo Db → UserInfo Db
  account_made none s =
      record (say fails
        (codes "Your new account has been created. Please log in as you will normally.\r\n") s) {
          mode = username;
          prompt_needed = true;
          echo_on = true;
        }
  account_made (some e) s =
      record (long_write fails
        (codes "An error occurred while creating your account: " ++ e ++ codes "\r\n") s).1 {
          mode = username;
          prompt_needed = true;
          echo_on = true;
        }

  unfoldable pub no_match : UserInfo Db → UserInfo Db
  no_match s =
      record (say fails (codes "Confirmation password did not match. Please try again.\r\n") s) {
        mode = new_password1;
        prompt_needed = true;
        echo_on = true;
      }

  -- `loginRegularPasswordMode`, from what `login` returned.
  unfoldable pub logged_in : Int64 → Bytes → UserInfo Db → UserInfo Db
  logged_in id name s =
      let s' = record s { user_id = id; user_name = name } in
      if id == 0
      then record (say fails (codes "\r\nIncorrect password.\r\n") s') {
        mode = username;
        prompt_needed = true;
        echo_on = true;
      }
      else record (say fails (codes "\r\nYou are logged in. Use /help for help with commands.\r\n")
          s') { mode = command_mode; prompt_needed = true; echo_on = true }

module _ {Db : Type 0} where
  abbrev pub after_reply : Reply Db → Handled Db
  after_reply (reply prompt e s) = handled (record s {
    prompt_needed = prompt;
    telnet_goroutine_has_gone_away = if e then true else s.telnet_goroutine_has_gone_away;
  })
  after_reply (panicked s) = crashed s

  -- The end of every line that is not blank.
  abbrev pub reset_cursor : Handled Db → Handled Db
  reset_cursor (handled s) = handled (record s { cursor_column = 0 })
  reset_cursor (crashed s) = crashed s

module _ (sql : Sql) (fails : List Effect → Bytes → Bool) where
  abbrev User : Type 0
  User = UserInfo sql.Db

  -- After a database error the code goes on as for a user who does not exist.
  unfoldable pub on_username : Bytes → User → Handled sql.Db
  unfolding name_known
  on_username command s =
      let s' = record s { attempting_user_name = command } in
      elim (user_exists sql s.db command) [
        | ok exists ↦ handled (name_known fails exists s')
        | err e ↦ handled (
            name_known fails false
              (say fails (codes "A database error occurred.\r\n") (does (logged e) s')))
        | panic ↦ crashed s'
      ]

  -- The branch of `loginNewPassword2Mode` for a password that was repeated.
  unfoldable pub make_account : User → Handled sql.Db
  unfolding account_made
  make_account s =
      elim (create_user sql s.db s.attempting_user_name s.attempting_user_new_password) [
        | ok (db', e) ↦ handled (account_made fails e (record s { db = db' }))
        | err e ↦ handled (account_made fails (some e) s)
        | panic ↦ crashed s
      ]

  unfoldable pub on_new_password2 : Bytes → User → Handled sql.Db
  unfolding make_account no_match
  on_new_password2 command s =
      let s' = (long_write fails (13 ∷ 10 ∷ []) s).1 in
      if same_text command s.attempting_user_new_password
      then make_account s'
      else handled (no_match fails s')

  -- An error of the database reads as a wrong password.
  unfoldable pub on_password : Bytes → User → Handled sql.Db
  unfolding logged_in
  on_password command s = elim (login sql s.db s.attempting_user_name command) [
    | ok (id, name) ↦ handled (logged_in fails id name s)
    | err e ↦ handled (logged_in fails 0 [] s)
    | panic ↦ crashed s
  ]

  unfoldable pub on_command : Bytes → User → Handled sql.Db
  on_command command s =
      if same_text (trim command) []
      then handled s
      else after_reply (do_command sql fails s (command_of (trim command)))

  unfoldable pub by_mode : Mode → Bytes → User → Handled sql.Db
  by_mode username command s = on_username command s
  by_mode new_user_yn command s = handled (on_yes_no fails command s)
  by_mode new_password1 command s = handled (on_new_password1 fails command s)
  by_mode new_password2 command s = on_new_password2 command s
  by_mode regular_password command s = on_password command s
  by_mode command_mode command s = on_command command s

  -- A return: the line that was typed, without the blanks round it.
  unfoldable pub handle_line : User → Handled sql.Db
  handle_line s =
      if same_text (trim (typed s)) []
      then handled (record s { prompt_needed = false })
      else reset_cursor (by_mode s.mode (trim (typed s)) s)
