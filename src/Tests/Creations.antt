-- ===== src/Tests/Creations.antt =====
-- Channels that are created, on a database that keeps their names in a list.
use wtelnet.Common.{
  suc, ◌≡◌, refl, sym, ap, ◌∙◌, ◌≢◌, true, false, Option, none, some, List, [], ◌∷◌, Bytes, Int64,
  same_text, same_text_refl, Result, ok, panic, length, arith, if◌then◌else◌, codes, inc,
}
use wtelnet.Common.Dict.{Dict, lookup}
use wtelnet.Message.{MasterToChannelOp, UserToMasterOp}
use wtelnet.Database.{
  Sql, Value, text, int, scan_last, create_chatchannel, get_chatchannel_id, exec_insert_channel,
  exec_update_channel,
}
use wtelnet.Database.Channels.{IsChannelStore, create_chatchannel-again}
use wtelnet.Crossings.Created.{created-joins}
use wtelnet.Master.{launch, to_channel, running, join_message}
use wtelnet.Master.Joining.{on_join}
use wtelnet.Master.Loop.{start}
use wtelnet.Tests.{from_cat}

-- The ids of the first channel with a name.
ids_of : Bytes → Dict Bytes → List (Result Int64)
ids_of name [] = []
ids_of name ((id, held) ∷ rest) =
    let later = ids_of name rest in if same_text held name then ok id ∷ [] else later

abbrev asked : Dict Bytes → List Value → List (Result Int64)
asked db (text name ∷ _) = ids_of name db
asked db _ = []

-- A statement with one value is an insert, one with two an update.
abbrev written : Dict Bytes → List Value → Result (Dict Bytes)
written db (text name ∷ []) = ok ((suc (length db), name) ∷ db)
written db (text name ∷ int id ∷ []) = ok ((id, name) ∷ db)
written db _ = panic

abbrev names_in_memory : Sql
names_in_memory = record {
  Db = Dict Bytes;
  Tx = Dict Bytes;
  prepare = λ db statement. none;
  query_ids = λ db statement values. ok (asked db values);
  query_logins = λ db statement values. ok [];
  query_names = λ db statement values. ok [];
  begin = λ db. ok db;
  tx_prepare = λ tx statement. none;
  tx_query_ids = λ tx statement values. ok (asked tx values);
  exec = λ tx statement values. written tx values;
  commit = λ db tx. (tx, none);
  generate_from_password = λ password. ok password;
  compare_hash_and_password = λ hash password. none;
}

ids_of-first :
    (id : Int64) (name : Bytes) (db tx' db' : Dict Bytes)
    → ◌≡◌ {A = Result (Dict Bytes)} (ok ((id, name) ∷ db)) (ok tx')
    → ◌≡◌ {A = Dict Bytes × Option Bytes} (tx', none) (db', none)
    → ◌≡◌ {A = Result (List (Result Int64))} (ok (ids_of name db')) (ok (ok id ∷ []))
unfolding ids_of
ids_of-first id name db tx' db' e c =
    let same : (id, name) ∷ db ≡ db' = cc in
    let first : ids_of name ((id, name) ∷ db) ≡ ok id ∷ [] = rw (same_text_refl name) refl in
    ap (λ l. ok (ids_of name l)) (sym same) ∙ ap ok first

names_in_memory-IsChannelStore : IsChannelStore names_in_memory
names_in_memory-IsChannelStore = record {
  inserted = λ db db' tx tx' name b e c. (
    suc (length tx),
    (
      (let n : suc (length tx) ≢ 0 = omega arith in n),
      ids_of-first (suc (length tx)) name tx tx' db' e c,
    ),
  );
  updated = λ db db' tx tx' name rows id b q s n e c. ids_of-first id name tx tx' db' e c;
  begun = λ db tx name b.
      let same : db ≡ tx = cc b in ap (λ l. ok (asked l (text name ∷ []))) (sym same);
}

abbrev tea_made : Dict Bytes
tea_made = (1, codes "tea") ∷ []

abbrev tea_made_again : Dict Bytes
tea_made_again = (1, codes "tea") ∷ tea_made

create_chatchannel-again_example :
    (id : Int64) × (id ≢ 0)
    × (get_chatchannel_id names_in_memory tea_made (codes "tea") ≡ ok id)
    × (true ≡ true)
    × (get_chatchannel_id names_in_memory tea_made_again (codes "tea") ≡ ok id)
unfolding create_chatchannel scan_last exec_insert_channel exec_update_channel ids_of codes
    same_text
create_chatchannel-again_example =
    create_chatchannel-again names_in_memory names_in_memory-IsChannelStore [] tea_made
      tea_made_again (codes "tea") false true refl refl refl refl

created-joins_example :
    let msg = from_cat UserToMasterOp.join in
    let t = on_join (get_chatchannel_id names_in_memory tea_made) start msg in
    (id : Int64) × (id ≢ 0)
    × (t.status ≡ running)
    × (lookup id t.master.running_map ≡ elim (lookup id start.running_map) [
      | none ↦ some (record { member_count = 1; chat_channel_callback = start.next_chan })
      | some info ↦ some (record info { member_count = inc info.member_count })
    ])
    × (t.effects ≡ elim (lookup id start.running_map) [
      | none ↦
          launch id msg.parameter (join_message msg MasterToChannelOp.join) start.next_chan ∷ []
      | some info ↦
          to_channel info.chat_channel_callback (join_message msg MasterToChannelOp.join) ∷ []
    ])
unfolding create_chatchannel scan_last exec_insert_channel exec_update_channel ids_of codes
    same_text
created-joins_example =
    created-joins names_in_memory names_in_memory-IsChannelStore [] tea_made false
      (from_cat UserToMasterOp.join) 13 refl refl (λ e. cc) refl start
