-- ===== src/Tests/Accounts.antt =====
-- Accounts, on a database that keeps rows in a list.
use wtelnet.Common.{
  suc, ◌≡◌, refl, sym, ap, ◌∙◌, ◌≢◌, Option, none, some, List, [], ◌∷◌, Bytes, Int64, same_text,
  same_text_refl, Result, ok, err, panic, length, arith, if◌then◌else◌, codes,
}
use wtelnet.Database.{
  Sql, Value, text, int, LoginRow, create_user, login, scan_last, exec_insert_user,
}
use wtelnet.Database.Accounts.{row, IsStore, create_user-login}

-- The first row of a name.
unfoldable find : Bytes → List LoginRow → List (Result LoginRow)
find name [] = []
find name (r ∷ rows) = if same_text name r.user_name then ok r ∷ [] else find name rows

abbrev ids : List (Result LoginRow) → List (Result Int64)
ids [] = []
ids (ok r ∷ rows) = ok r.user_id ∷ ids rows
ids (err e ∷ rows) = err e ∷ ids rows
ids (panic ∷ rows) = panic ∷ ids rows

abbrev rows_of : List LoginRow → List Value → List (Result LoginRow)
rows_of db (text name ∷ _) = find name db
rows_of db _ = []

-- A statement with two values is an insert, one with three an update.
abbrev changed : List LoginRow → List Value → Result (List LoginRow)
changed db (text name ∷ text hash ∷ []) = ok (row (suc (length db)) name hash ∷ db)
changed db (text name ∷ text hash ∷ int id ∷ []) = ok (row id name hash ∷ db)
changed db _ = panic

abbrev in_memory : Sql
in_memory = record {
  Db = List LoginRow;
  Tx = List LoginRow;
  prepare = λ db statement. none;
  query_ids = λ db statement values. ok (ids (rows_of db values));
  query_logins = λ db statement values. ok (rows_of db values);
  query_names = λ db statement values. ok [];
  begin = λ db. ok db;
  tx_prepare = λ tx statement. none;
  tx_query_ids = λ tx statement values. ok (ids (rows_of tx values));
  exec = λ tx statement values. changed tx values;
  commit = λ db tx. (tx, none);
  generate_from_password = λ password. ok password;
  compare_hash_and_password =
      λ hash password. if same_text hash password then none else some (codes "mismatch");
}

find-first :
    (id : Int64) (name hash : Bytes) (db tx' db' : List LoginRow)
    → ◌≡◌ {A = Result (List LoginRow)} (ok (row id name hash ∷ db)) (ok tx')
    → ◌≡◌ {A = List LoginRow × Option Bytes} (tx', none) (db', none)
    → ◌≡◌ {A = Result (List (Result LoginRow))}
        (ok (find name db'))
        (ok (ok (row id name hash) ∷ []))
unfolding find
find-first id name hash db tx' db' e c =
    let same : row id name hash ∷ db ≡ db' = cc in
    let first : find name (row id name hash ∷ db) ≡ ok (row id name hash) ∷ [] =
      rw (same_text_refl name) refl in
    ap (λ l. ok (find name l)) (sym same) ∙ ap ok first

plain-agrees :
    (password hash : Bytes)
    → ◌≡◌ {A = Result Bytes} (ok password) (ok hash)
    → in_memory.compare_hash_and_password hash password ≡ none
plain-agrees password hash g = let e : hash ≡ password = cc in rw (e, same_text_refl password) refl

in_memory-IsStore : IsStore in_memory
in_memory-IsStore = record {
  inserted = λ db db' tx tx' name hash b e c. (
    suc (length tx),
    (let n : suc (length tx) ≢ 0 = omega arith in n),
    find-first (suc (length tx)) name hash tx tx' db' e c,
  );
  updated = λ db db' tx tx' name hash rows id b q s n e c. find-first id name hash tx tx' db' e c;
  agrees = λ password hash g. plain-agrees password hash g;
}

create_user-login_example :
    let db' : List LoginRow = row 1 (codes "amy") (codes "tea4") ∷ [] in
    (id : Int64) × (id ≢ 0)
    × (login in_memory db' (codes "amy") (codes "tea4") ≡ ok (id, codes "amy"))
    × (login in_memory db' (codes "amy") (codes "milk") ≡ ok (0, []))
unfolding create_user scan_last exec_insert_user find codes same_text
create_user-login_example =
    create_user-login in_memory in_memory-IsStore [] (row 1 (codes "amy") (codes "tea4") ∷ [])
      (codes "amy") (codes "tea4") (codes "tea4") (codes "milk") (codes "mismatch") refl refl refl
      refl
