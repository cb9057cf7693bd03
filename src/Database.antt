-- ===== src/Database.antt =====
-- The functions of daemon/doppelganger.go and daemon/channelmaster.go that ask the database.
-- `database/sql`, the SQLite driver and bcrypt are not in the repository: `Sql` is what the code
-- calls of them. A query gives its rows with what `Scan` gives in each row.
pub mod Accounts
pub mod Channels
use wtelnet.Common.{
  Bool, Option, none, some, List, [], ◌∷◌, ◌==◌, if◌then◌else◌, not, Bytes, codes, Int64, Error,
  Result, ok, panic, ◌>>=◌, ◌>>◌, check,
}

pub data Value : Type 0 where
  int : Int64 → Value
  text : Bytes → Value

pub record LoginRow : Type 0 where
  pub user_id : Int64
  pub user_name : Bytes
  pub password_hash : Bytes

pub record Sql : Type 1 where
  pub Db : Type 0
  pub Tx : Type 0
  pub prepare : Db → Bytes → Option Error
  pub query_ids : Db → Bytes → List Value → Result (List (Result Int64))
  pub query_logins : Db → Bytes → List Value → Result (List (Result LoginRow))
  pub query_names : Db → Bytes → List Value → Result (List (Result Bytes))
  pub begin : Db → Result Tx
  pub tx_prepare : Tx → Bytes → Option Error
  pub tx_query_ids : Tx → Bytes → List Value → Result (List (Result Int64))
  pub exec : Tx → Bytes → List Value → Result Tx
  pub commit : Db → Tx → Db × Option Error
  pub generate_from_password : Bytes → Result Bytes
  pub compare_hash_and_password : Bytes → Bytes → Option Error

-- `for rows.Next() { err = rows.Scan(&x); if err != nil { return … } }`: the last row wins.
module _ {A : Type 0} where
  unfoldable pub scan_last : A → List (Result A) → Result A
  scan_last a [] = ok a
  scan_last a (row ∷ rows) = row >>= λ b. scan_last b rows

  unfoldable pub scan_all : List (Result A) → Result (List A)
  scan_all [] = ok []
  scan_all (row ∷ rows) = row >>= λ a. scan_all rows >>= λ rest. ok (a ∷ rest)

abbrev pub select_user : Bytes
select_user = codes "SELECT userid FROM user WHERE username = ?;"

abbrev pub insert_user : Bytes
insert_user = codes "INSERT INTO user (username, password) VALUES (?, ?);"

abbrev pub update_user : Bytes
update_user = codes "UPDATE user SET username = ?, password = ? WHERE userid = ?;"

abbrev pub select_login : Bytes
select_login = codes "SELECT userid, username, password FROM user WHERE username = ?;"

abbrev pub select_channel : Bytes
select_channel = codes "SELECT channelid FROM channel WHERE channelName = ?;"

abbrev pub insert_channel : Bytes
insert_channel = codes "INSERT INTO channel (channelname) VALUES (?);"

abbrev pub update_channel : Bytes
update_channel = codes "UPDATE channel SET channelname = ? WHERE channelid = ?;"

abbrev pub list_channels : Bytes
list_channels = codes "SELECT channelname FROM channel WHERE 1 ORDER BY channelname;"

abbrev pub select_channel_id : Bytes
select_channel_id = codes "SELECT channelid FROM channel WHERE channelname = ?;"

module _ (sql : Sql) where
  open sql use {
    Db, Tx, prepare, query_ids, query_logins, query_names, begin, tx_prepare, tx_query_ids, exec,
    commit, generate_from_password, compare_hash_and_password,
  }

  unfoldable pub user_exists : Db → Bytes → Result Bool
  user_exists db username = do
    check (prepare db select_user)
    rows ← query_ids db select_user (text username ∷ [])
    user_id ← scan_last 0 rows
    ok (not (user_id == 0))

  -- The branch of `createUser` for a name that is new.
  unfoldable pub exec_insert_user : Tx → Bytes → Bytes → Result Tx
  exec_insert_user tx username hash = do
    check (tx_prepare tx insert_user)
    exec tx insert_user (text username ∷ text hash ∷ [])

  -- What a call on the statement that `Prepare` gave comes to where the error is not looked at: the
  -- statement is `nil` if there was an error, and the call panics.
  unfoldable pub on_unchecked : Option Error → Result Tx → Result Tx
  on_unchecked none call = call
  on_unchecked (some e) call = panic

  -- The branch for a name that has a row.
  unfoldable pub exec_update_user : Tx → Bytes → Bytes → Int64 → Result Tx
  unfolding on_unchecked
  exec_update_user tx username hash user_id =
      on_unchecked (tx_prepare tx update_user)
        (exec tx update_user (text username ∷ text hash ∷ int user_id ∷ []))

  unfoldable pub create_user : Db → Bytes → Bytes → Result (Db × Option Error)
  create_user db username password = do
    hash ← generate_from_password password
    tx ← begin db
    check (tx_prepare tx select_user)
    rows ← tx_query_ids tx select_user (text username ∷ [])
    user_id ← scan_last 0 rows
    tx' ←
        if user_id == 0
        then exec_insert_user tx username hash
        else exec_update_user tx username hash user_id
    ok (commit db tx')

  abbrev no_row : Bytes → LoginRow
  no_row username = record { user_id = 0; user_name = username; password_hash = [] }

  -- The name that comes back is the one that the database holds.
  unfoldable pub check_password : LoginRow → Bytes → Int64 × Bytes
  check_password row password =
      if row.user_id == 0
      then (0, [])
      else elim (compare_hash_and_password row.password_hash password) [
        | none ↦ (row.user_id, row.user_name)
        | some e ↦ (0, [])
      ]

  unfoldable pub login : Db → Bytes → Bytes → Result (Int64 × Bytes)
  unfolding check_password
  login db username password = do
    check (prepare db select_login)
    rows ← query_logins db select_login (text username ∷ [])
    row ← scan_last (no_row username) rows
    ok (check_password row password)

  unfoldable pub exec_insert_channel : Tx → Bytes → Result Tx
  exec_insert_channel tx name = do
    check (tx_prepare tx insert_channel)
    exec tx insert_channel (text name ∷ [])

  unfoldable pub exec_update_channel : Tx → Bytes → Int64 → Result Tx
  unfolding on_unchecked
  exec_update_channel tx name channel_id =
      on_unchecked (tx_prepare tx update_channel)
        (exec tx update_channel (text name ∷ int channel_id ∷ []))

  -- The result is the database, whether the channel existed, and the error of `Commit`.
  unfoldable pub create_chatchannel : Db → Bytes → Result (Db × Bool × Option Error)
  create_chatchannel db name = do
    tx ← begin db
    check (tx_prepare tx select_channel)
    rows ← tx_query_ids tx select_channel (text name ∷ [])
    channel_id ← scan_last 0 rows
    let exists = not (channel_id == 0)
    tx' ←
        if channel_id == 0
        then exec_insert_channel tx name
        else exec_update_channel tx name channel_id
    let (db', e) = commit db tx'
    ok (db', exists, e)

  unfoldable pub get_chatchannel_list : Db → Result (List Bytes)
  get_chatchannel_list db = do
    check (prepare db list_channels)
    rows ← query_names db list_channels []
    scan_all rows

  unfoldable pub get_chatchannel_id : Db → Bytes → Result Int64
  get_chatchannel_id db name = do
    check (prepare db select_channel_id)
    rows ← query_ids db select_channel_id (text name ∷ [])
    scan_last 0 rows
