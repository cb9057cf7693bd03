-- ===== src/Database/Accounts.antt =====
-- daemon/doppelganger.go: `createUser` and then `login`, over a database that keeps what is committed.
use wtelnet.Common.{
  ◌≡◌, refl, sym, ap, ◌∙◌, ◌≢◌, none, some, List, [], ◌∷◌, ◌==◌, Bytes, Int64, Result, ok, check,
  bind-ok, panic≢ok, ok_inj, Bool-cases, Option-cases, inl, inr, arith, if◌then◌else◌,
}
use wtelnet.Database.{
  Sql, text, int, LoginRow, scan_last, select_user, insert_user, update_user, select_login,
  exec_insert_user, exec_update_user, create_user, check_password, login,
}

abbrev pub row : Int64 → Bytes → Bytes → LoginRow
row id name hash = record { user_id = id; user_name = name; password_hash = hash }

-- What SQLite and bcrypt are documented to do: a row that was inserted in a transaction is found, alone,
-- once the transaction is committed, under a new id, which is not 0; a row that the transaction found
-- under an id that is not 0, and updated by it, is found, alone and under this id, once the
-- transaction is committed; and a hash agrees with the password that it was made from.
pub record IsStore (sql : Sql) : Type 0 where
  pub inserted :
      (db db' : sql.Db) (tx tx' : sql.Tx) (name hash : Bytes)
      → sql.begin db ≡ ok tx
      → sql.exec tx insert_user (text name ∷ text hash ∷ []) ≡ ok tx'
      → sql.commit db tx' ≡ (db', none)
      → (id : Int64) × (id ≢ 0)
        × (sql.query_logins db' select_login (text name ∷ []) ≡ ok (ok (row id name hash) ∷ []))
  pub updated :
      (db db' : sql.Db) (tx tx' : sql.Tx) (name hash : Bytes) (rows : List (Result Int64))
      (id : Int64)
      → sql.begin db ≡ ok tx
      → sql.tx_query_ids tx select_user (text name ∷ []) ≡ ok rows
      → scan_last 0 rows ≡ ok id
      → id ≢ 0
      → sql.exec tx update_user (text name ∷ text hash ∷ int id ∷ []) ≡ ok tx'
      → sql.commit db tx' ≡ (db', none)
      → sql.query_logins db' select_login (text name ∷ []) ≡ ok (ok (row id name hash) ∷ [])
  pub agrees :
      (password hash : Bytes)
      → sql.generate_from_password password ≡ ok hash
      → sql.compare_hash_and_password hash password ≡ none

module _ (sql : Sql) where
  open sql use {Db, Tx}

  -- A row that is found decides the login, by its hash.
  login-found :
      (db : Db) (id : Int64) (name hash password : Bytes)
      → id ≢ 0
      → sql.prepare db select_login ≡ none
      → sql.query_logins db select_login (text name ∷ []) ≡ ok (ok (row id name hash) ∷ [])
      → login sql db name password ≡ ok (check_password sql (row id name hash) password)
  unfolding login scan_last
  login-found db id name hash password i p q = rw (p, q) refl

  accepted :
      (id : Int64) (name hash password : Bytes)
      → id ≢ 0
      → sql.compare_hash_and_password hash password ≡ none
      → check_password sql (row id name hash) password ≡ (id, name)
  unfolding check_password
  accepted id name hash password i c = ground arith

  rejected :
      (id : Int64) (name hash password e : Bytes)
      → id ≢ 0
      → sql.compare_hash_and_password hash password ≡ some e
      → check_password sql (row id name hash) password ≡ (0, [])
  unfolding check_password
  rejected id name hash password e i c = ground arith

  exec_insert_user-ok :
      (tx tx' : Tx) (name hash : Bytes)
      → exec_insert_user sql tx name hash ≡ ok tx'
      → sql.exec tx insert_user (text name ∷ text hash ∷ []) ≡ ok tx'
  unfolding exec_insert_user
  exec_insert_user-ok tx tx' name hash h = (bind-ok (check (sql.tx_prepare tx insert_user)) _ _ h).2

  exec_update_user-ok :
      (tx tx' : Tx) (name hash : Bytes) (id : Int64)
      → exec_update_user sql tx name hash id ≡ ok tx'
      → sql.exec tx update_user (text name ∷ text hash ∷ int id ∷ []) ≡ ok tx'
  unfolding exec_update_user
  exec_update_user-ok tx tx' name hash id h = elim (Option-cases (sql.tx_prepare tx update_user)) [
    | inl p ↦ rw p at h
    | inr (e, p) ↦ absurd (panic≢ok tx' (rw p at h))
  ]

  stored :
      IsStore sql
      → (db db' : Db) (tx tx' : Tx) (name hash : Bytes) (rows : List (Result Int64)) (id : Int64)
      → sql.begin db ≡ ok tx
      → sql.tx_query_ids tx select_user (text name ∷ []) ≡ ok rows
      → scan_last 0 rows ≡ ok id
      → (if id == 0
          then exec_insert_user sql tx name hash
          else exec_update_user sql tx name hash id)
        ≡ ok tx'
      → sql.commit db tx' ≡ (db', none)
      → (id' : Int64) × (id' ≢ 0)
        × (sql.query_logins db' select_login (text name ∷ []) ≡ ok (ok (row id' name hash) ∷ []))
  stored store db db' tx tx' name hash rows id b q s e c = elim (Bool-cases (id == 0)) [
    | inl z ↦
        store.inserted db db' tx tx' name hash b (exec_insert_user-ok tx tx' name hash (rw z at e))
          c
    | inr z ↦ (
      id,
      ground (arith, z),
      store.updated db db' tx tx' name hash rows id b q s (ground (arith, z))
          (exec_update_user-ok tx tx' name hash id (rw z at e)) c,
    )
  ]

  -- An account that was made, new or over an old one, is in the database with a hash of the password.
  create_user-stored :
      IsStore sql
      → (db db' : Db) (name password : Bytes) → create_user sql db name password ≡ ok (db', none)
      → (id : Int64) × (hash : Bytes) × (id ≢ 0)
        × (sql.generate_from_password password ≡ ok hash)
        × (sql.query_logins db' select_login (text name ∷ []) ≡ ok (ok (row id name hash) ∷ []))
  unfolding create_user
  create_user-stored store db db' name password h =
      let (hash, g, h₁) = bind-ok (sql.generate_from_password password) _ _ h in
      let (tx, b, h₂) = bind-ok (sql.begin db) _ _ h₁ in
      let (_, _, h₃) = bind-ok (check (sql.tx_prepare tx select_user)) _ _ h₂ in
      let (rows, q, h₄) = bind-ok (sql.tx_query_ids tx select_user (text name ∷ [])) _ _ h₃ in
      let (id, s, h₅) = bind-ok (scan_last 0 rows) _ _ h₄ in
      let (tx', e, h₆) =
        bind-ok
          (if id == 0
            then exec_insert_user sql tx name hash
            else exec_update_user sql tx name hash id)
          _ _ h₅ in
      let (id', n, l) = stored store db db' tx tx' name hash rows id b q s e (ok_inj h₆) in
      (id', hash, n, g, l)

  -- On a database that keeps what is committed: after `createUser` for a name and a password has
  -- succeeded, whether or not the name was there before, and while the statement of `login` can be
  -- prepared, `login` with that name and password gives an id that is not 0 and the name; and with a
  -- password that does not agree with the hash that was made it gives the id 0.
  pub create_user-login :
      IsStore sql
      → (db db' : Db) (name password hash other e : Bytes)
      → create_user sql db name password ≡ ok (db', none)
      → sql.prepare db' select_login ≡ none
      → sql.generate_from_password password ≡ ok hash
      → sql.compare_hash_and_password hash other ≡ some e
      → (id : Int64) × (id ≢ 0)
        × (login sql db' name password ≡ ok (id, name))
        × (login sql db' name other ≡ ok (0, []))
  create_user-login store db db' name password hash other e h p g d =
      let (id, hash', n, g', l) = create_user-stored store db db' name password h in
      let same : hash ≡ hash' = ok_inj (sym g ∙ g') in
      let agrees = store.agrees password hash' g' in
      (
        id,
        n,
        login-found db' id name hash' password n p l
            ∙ ap ok (accepted id name hash' password n agrees),
        login-found db' id name hash' other n p l
            ∙ ap ok (
                rejected id name hash' other e n
                  (ap (λ x. sql.compare_hash_and_password x other) (sym same) ∙ d)),
      )
