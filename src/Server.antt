-- ===== src/Server.antt =====
-- daemon/wtelnet.go: the start of the server, `main`, and the file of its database; and
-- daemon/heartbeat.go. The file system, the database driver and `telnet.ListenAndServe` are not in the
-- repository: `Disk` is what the code calls of the first two, and the answers of the last are a list.
-- The line that `openDatabase` prints after it has created the file is left out.
pub mod Files
pub mod Listening
pub mod Phrase
use wtelnet.Common.{
  ℕ, ◌+◌, ◌-◌, ◌%◌, suc, ◌==◌, Bool, true, false, Option, none, some, List, [], ◌∷◌, ◌++◌, ltb,
  ◌&&◌, if◌then◌else◌, Bytes, codes, same_text, Int64, modulus, length, drop, Error, Result, ok,
  err, panic, ◌>>=◌, ◌>>◌, check,
}

-- What the code calls, for the path of the database: `os.Open` and `Close`, `sql.Open`, and the calls
-- on a database and its transaction.
pub record Disk : Type 1 where
  pub World : Type 0
  pub Tx : Type 0
  pub open_file : World → Option Error
  pub close_file : World → Option Error
  pub sql_open : World → Option Error
  pub begin : World → Result Tx
  pub tx_prepare : Tx → Bytes → Option Error
  pub exec : Tx → Bytes → Result Tx
  pub commit : World → Tx → Result World

abbrev pub create_user_table : Bytes
create_user_table =
    codes
      "CREATE TABLE user (userid INTEGER PRIMARY KEY AUTOINCREMENT, username VARCHAR(255) NOT NULL UNIQUE, password VARCHAR(255) NOT NULL);"

abbrev pub create_user_index : Bytes
create_user_index = codes "CREATE INDEX idx_usr_nm ON user (username);"

abbrev pub create_channel_table : Bytes
create_channel_table =
    codes
      "CREATE TABLE channel (channelid INTEGER PRIMARY KEY AUTOINCREMENT, channelname VARCHAR(255) NOT NULL UNIQUE);"

abbrev pub create_channel_index : Bytes
create_channel_index = codes "CREATE INDEX idx_chan ON channel (channelname);"

abbrev pub not_found : Bytes
not_found = codes "no such file or directory"

abbrev pub too_many : Bytes
too_many = codes "too many open files"

-- `theMessage[len(theMessage)-25:] == "no such file or directory"`; the slice is out of range in a
-- message of fewer than 25 bytes.
unfoldable pub says_not_found : Error → Result Bool
says_not_found e =
    if ltb (length e) 25 then panic else ok (same_text (drop (length e - 25) e) not_found)

-- What `fileExists` makes of the error of `os.Open`.
unfoldable pub missing_file : Error → Result Bool
unfolding says_not_found
missing_file e = says_not_found e >>= λ missing. if missing then ok false else err e

module _ (disk : Disk) where
  open disk use {World, Tx, open_file, close_file, sql_open, begin, tx_prepare, exec, commit}

  unfoldable pub file_exists : World → Result Bool
  unfolding missing_file
  file_exists w = elim (open_file w) [
    | some e ↦ missing_file e
    | none ↦ check (close_file w) >> ok true
  ]

  -- `tx.Prepare` and then `Exec` of the statement.
  unfoldable pub exec_statement : Tx → Bytes → Result Tx
  exec_statement tx cmd = check (tx_prepare tx cmd) >> exec tx cmd

  unfoldable pub create_database : World → Result World
  create_database w = do
    check (sql_open w)
    tx ← begin w
    tx₁ ← exec_statement tx create_user_table
    tx₂ ← exec_statement tx₁ create_user_index
    tx₃ ← exec_statement tx₂ create_channel_table
    tx₄ ← exec_statement tx₃ create_channel_index
    commit w tx₄

  unfoldable pub open_database : World → Result World
  open_database w = do
    exists ← file_exists w
    w' ← if exists then ok w else create_database w
    check (sql_open w')
    ok w'

-- What `main` does, in order. `launched_master` is `go channelMasterGoroutine(…)`.
pub data Effect : Type 0 where
  launched_heartbeat launched_master listened slept : Effect
  logged : Bytes → Effect

-- `main` listens still, has returned, or has panicked.
pub data Status : Type 0 where
  listening returned panicked : Status

unfoldable pub starts_with : Bytes → Bytes → Bool
starts_with [] text = true
starts_with (p ∷ ps) [] = false
starts_with (p ∷ ps) (c ∷ cs) = p == c && starts_with ps cs

-- `strings.Index`: where the pattern begins first.
unfoldable pub index : Bytes → Bytes → Option ℕ
unfolding starts_with
index pattern [] = if starts_with pattern [] then some 0 else none
index pattern (c ∷ cs) =
    let rest = index pattern cs in
    if starts_with pattern (c ∷ cs)
    then some 0
    else elim rest [ none ↦ none | some i ↦ some (suc i) ]

-- `strings.Index(err.Error(), "too many open files") > 0`.
unfoldable pub keeps_going : Error → Bool
unfolding index
keeps_going e = elim (index too_many e) [ none ↦ false | some i ↦ ltb 0 i ]

-- The loop round `telnet.ListenAndServe`, over what it returns.
unfoldable pub listen : List (Option Error) → List Effect × Status
listen [] = (listened ∷ [], listening)
listen (none ∷ answers) = (listened ∷ [], returned)
listen (some e ∷ answers) =
    let rest = listen answers in
    if keeps_going e
    then (
      listened
          ∷ logged (
              codes
                "We got the accept tcp [::]:5555: accept: too many open files error!!! Trying to keep going!!!")
          ∷ slept
          ∷ rest.0,
      rest.1,
    )
    else (listened ∷ logged e ∷ [], returned)

-- `main`, from what `openDatabase` gives.
unfoldable pub main : {World : Type 0} → Result World → List (Option Error) → List Effect × Status
unfolding listen
main (ok w) answers =
    (launched_heartbeat ∷ launched_master ∷ (listen answers).0, (listen answers).1)
main (err e) answers =
    (logged e ∷ logged (codes "Not starting server: Problem starting database.") ∷ [], returned)
main panic answers = ([], panicked)

-- What `heartbeatGoroutine` does; it never ends. The count is that of the running goroutines.
pub data Beat : Type 0 where
  paused sent : Beat
  printed : Int64 → Beat

-- Its loop, over what `runtime.NumGoroutine` returns.
unfoldable pub heartbeat : List ℕ → List Beat
heartbeat [] = []
heartbeat (count ∷ counts) =
    paused ∷ sent ∷ printed ((count + modulus - 5) % modulus) ∷ paused ∷ heartbeat counts
