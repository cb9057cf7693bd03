-- ===== src/Database/Channels.antt =====
-- daemon/doppelganger.go and daemon/channelmaster.go: `createChatchannel` and `getChatchannelID`, over a
-- database that keeps what is committed.
use mathlib.Core.Path.{subst}
use wtelnet.Common.{
  ◌≡◌, refl, sym, ap, ◌∙◌, ◌≢◌, Bool, true, false, none, List, [], ◌∷◌, ◌==◌, Bytes, Int64, Result,
  ok, check, Option, Error, bind-ok, panic≢ok, ok_inj, Bool-cases, Option-cases, inl, inr, arith,
  if◌then◌else◌, not,
}
use wtelnet.Database.{
  Sql, text, int, scan_last, select_channel, insert_channel, update_channel, select_channel_id,
  exec_insert_channel, exec_update_channel, create_chatchannel, get_chatchannel_id,
}

-- The row of a name.
abbrev pub HasId : (sql : Sql) → sql.Db → Bytes → Int64 → Type 0
HasId sql db name id =
    (id ≢ 0) × (sql.query_ids db select_channel_id (text name ∷ []) ≡ ok (ok id ∷ []))

-- What SQLite is documented to do: a name that was inserted in a transaction has one row once the
-- transaction is committed, under a new id, which is not 0; a name whose row the transaction found
-- under an id that is not 0, and updated by it, has one row, under this id, once the transaction is
-- committed; and a transaction sees, at its begin, what is committed.
pub record IsChannelStore (sql : Sql) : Type 0 where
  pub inserted :
      (db db' : sql.Db) (tx tx' : sql.Tx) (name : Bytes)
      → sql.begin db ≡ ok tx
      → sql.exec tx insert_channel (text name ∷ []) ≡ ok tx'
      → sql.commit db tx' ≡ (db', none)
      → (id : Int64) × HasId sql db' name id
  pub updated :
      (db db' : sql.Db) (tx tx' : sql.Tx) (name : Bytes) (rows : List (Result Int64)) (id : Int64)
      → sql.begin db ≡ ok tx
      → sql.tx_query_ids tx select_channel (text name ∷ []) ≡ ok rows
      → scan_last 0 rows ≡ ok id
      → id ≢ 0
      → sql.exec tx update_channel (text name ∷ int id ∷ []) ≡ ok tx'
      → sql.commit db tx' ≡ (db', none)
      → sql.query_ids db' select_channel_id (text name ∷ []) ≡ ok (ok id ∷ [])
  pub begun :
      (db : sql.Db) (tx : sql.Tx) (name : Bytes)
      → sql.begin db ≡ ok tx
      → sql.tx_query_ids tx select_channel (text name ∷ [])
        ≡ sql.query_ids db select_channel_id (text name ∷ [])

found-ne-zero : (id : Int64) → id == 0 ≡ false → id ≢ 0
found-ne-zero id z = ground (arith, z)

module _ (sql : Sql) where
  open sql use {Db, Tx}

  exec_insert_channel-ok :
      (tx tx' : Tx) (name : Bytes)
      → exec_insert_channel sql tx name ≡ ok tx'
      → sql.exec tx insert_channel (text name ∷ []) ≡ ok tx'
  unfolding exec_insert_channel
  exec_insert_channel-ok tx tx' name h =
      (bind-ok (check (sql.tx_prepare tx insert_channel)) _ _ h).2

  exec_update_channel-ok :
      (tx tx' : Tx) (name : Bytes) (id : Int64)
      → exec_update_channel sql tx name id ≡ ok tx'
      → sql.exec tx update_channel (text name ∷ int id ∷ []) ≡ ok tx'
  unfolding exec_update_channel
  exec_update_channel-ok tx tx' name id h = elim (Option-cases (sql.tx_prepare tx update_channel)) [
    | inl p ↦ rw p at h
    | inr (e, p) ↦ absurd (panic≢ok tx' (rw p at h))
  ]

  -- What a call of `createChatchannel` did that gave a result.
  pub record IsCreated (db db' : Db) (name : Bytes) (existed : Bool) (e : Option Error)
      : Type 0 where
    pub tx : Tx
    pub tx' : Tx
    pub rows : List (Result Int64)
    pub id : Int64
    pub began : sql.begin db ≡ ok tx
    pub asked : sql.tx_query_ids tx select_channel (text name ∷ []) ≡ ok rows
    pub scanned : scan_last 0 rows ≡ ok id
    pub told : not (id == 0) ≡ existed
    pub written :
        (if id == 0 then exec_insert_channel sql tx name else exec_update_channel sql tx name id)
        ≡ ok tx'
    pub committed : sql.commit db tx' ≡ (db', e)

  create_chatchannel-IsCreated :
      (db db' : Db) (name : Bytes) (existed : Bool) (e : Option Error)
      → create_chatchannel sql db name ≡ ok (db', existed, e)
      → IsCreated db db' name existed e
  unfolding create_chatchannel
  create_chatchannel-IsCreated db db' name existed e h =
      let (tx, b, h₁) = bind-ok (sql.begin db) _ _ h in
      let (_, _, h₂) = bind-ok (check (sql.tx_prepare tx select_channel)) _ _ h₁ in
      let (rows, q, h₃) = bind-ok (sql.tx_query_ids tx select_channel (text name ∷ [])) _ _ h₂ in
      let (id, s, h₄) = bind-ok (scan_last 0 rows) _ _ h₃ in
      let (tx', w, h₅) =
        bind-ok
          (if id == 0 then exec_insert_channel sql tx name else exec_update_channel sql tx name id)
          _ _ h₄ in
      let same = ok_inj h₅ in
      record {
        tx = tx;
        tx' = tx';
        rows = rows;
        id = id;
        began = b;
        asked = q;
        scanned = s;
        told = ap (λ r. r.1) same;
        written = w;
        committed = ap (λ r. (r.0, r.2)) same;
      }

  -- A channel that was created, new or again, has its row; and one that has a row keeps its id.
  pub created-HasId :
      IsChannelStore sql
      → (db db' : Db) (name : Bytes) (existed : Bool)
      → create_chatchannel sql db name ≡ ok (db', existed, none)
      → (id : Int64) × HasId sql db' name id
  created-HasId store db db' name existed h =
      let c = create_chatchannel-IsCreated db db' name existed none h in
      elim (Bool-cases (c.id == 0)) [
        | inl z ↦
            store.inserted db db' c.tx c.tx' name c.began
              (exec_insert_channel-ok c.tx c.tx' name (rw z at c.written)) c.committed
        | inr z ↦ (
          c.id,
          (
            found-ne-zero c.id z,
            store.updated db db' c.tx c.tx' name c.rows c.id c.began c.asked c.scanned
                (found-ne-zero c.id z)
                (exec_update_channel-ok c.tx c.tx' name c.id (rw z at c.written)) c.committed,
          ),
        )
      ]

  -- A name that has a row is said to exist, and keeps its id.
  again-HasId :
      IsChannelStore sql
      → (db db' : Db) (name : Bytes) (id : Int64) (existed : Bool) → HasId sql db name id
      → create_chatchannel sql db name ≡ ok (db', existed, none)
      → (existed ≡ true) × HasId sql db' name id
  unfolding scan_last
  again-HasId store db db' name id existed (n, q) h =
      let c = create_chatchannel-IsCreated db db' name existed none h in
      let one : c.rows ≡ ok id ∷ [] = ok_inj (sym c.asked ∙ store.begun db c.tx name c.began ∙ q) in
      let same : c.id ≡ id = ok_inj (sym c.scanned ∙ ap (λ l. scan_last 0 l) one) in
      let set : c.id == 0 ≡ false = ground arith in
      let written : exec_update_channel sql c.tx name c.id ≡ ok c.tx' = rw set at c.written in
      (
        sym c.told ∙ rw set,
        (
          n,
          subst (λ i. sql.query_ids db' select_channel_id (text name ∷ []) ≡ ok (ok i ∷ [])) same
              (store.updated db db' c.tx c.tx' name c.rows c.id c.began c.asked c.scanned
                (found-ne-zero c.id set) (exec_update_channel-ok c.tx c.tx' name c.id written)
                c.committed),
        ),
      )

  pub get_chatchannel_id-HasId :
      (db : Db) (name : Bytes) (id : Int64)
      → sql.prepare db select_channel_id ≡ none
      → HasId sql db name id
      → get_chatchannel_id sql db name ≡ ok id
  unfolding get_chatchannel_id scan_last
  get_chatchannel_id-HasId db name id p (n, q) = rw (p, q) refl

  -- On a database that keeps what is committed: after a name was created, whether or not it was there
  -- before, it has an id that is not 0, which the channel master finds; and when it is created again, its
  -- creator is told that it exists, and its id is the same. The statement that asks for an id is taken to
  -- be prepared.
  pub create_chatchannel-again :
      IsChannelStore sql
      → (db db' db'' : Db) (name : Bytes) (existed existed' : Bool)
      → create_chatchannel sql db name ≡ ok (db', existed, none)
      → create_chatchannel sql db' name ≡ ok (db'', existed', none)
      → sql.prepare db' select_channel_id ≡ none
      → sql.prepare db'' select_channel_id ≡ none
      → (id : Int64) × (id ≢ 0)
        × (get_chatchannel_id sql db' name ≡ ok id)
        × (existed' ≡ true)
        × (get_chatchannel_id sql db'' name ≡ ok id)
  create_chatchannel-again store db db' db'' name existed existed' h h' p p' =
      let (id, i) = created-HasId store db db' name existed h in
      let (told, i') = again-HasId store db' db'' name id existed' i h' in
      (
        id,
        i.0,
        get_chatchannel_id-HasId db' name id p i,
        told,
        get_chatchannel_id-HasId db'' name id p' i',
      )
