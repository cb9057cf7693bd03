-- ===== src/Crossings/Created.antt =====
-- daemon/doppelganger.go and daemon/channelmaster.go: a user creates a channel, and a user joins it.
use wtelnet.Common.{◌≡◌, ◌≢◌, Bool, true, none, some, [], ◌∷◌, Int64, inc, ok, ◌==◌, arith}
use wtelnet.Common.Dict.{lookup}
use wtelnet.Message.{Chan, UserToMaster, MasterToChannelOp}
use wtelnet.Database.{Sql, select_channel_id, create_chatchannel, get_chatchannel_id}
use wtelnet.Database.Channels.{IsChannelStore, created-HasId, get_chatchannel_id-HasId}
use wtelnet.Master.{Master, launch, to_channel, running, join_message}
use wtelnet.Master.Joining.{on_join}
use wtelnet.Master.Routing.{on_join-lookup}

-- On a database that keeps what is committed: after a name was created, a join of this name, by a user
-- who says where to reply, is never denied by the channel master, whatever is running. The name has an id
-- that is not 0; if a chat channel runs under it, the join is sent to it and its count grows by one, and
-- otherwise one is launched under it with the join as first message and a count of one. The statement
-- that asks for the id is taken to be prepared, and the name not to be empty.
pub created-joins :
    (sql : Sql)
    → IsChannelStore sql
    → (db db' : sql.Db) (existed : Bool) (msg : UserToMaster) (c : Chan)
    → create_chatchannel sql db msg.parameter ≡ ok (db', existed, none)
    → sql.prepare db' select_channel_id ≡ none
    → msg.parameter ≢ []
    → msg.callback_from_chat_channel ≡ some c
    → (m : Master)
    → let t = on_join (get_chatchannel_id sql db') m msg in
      (id : Int64) × (id ≢ 0)
      × (t.status ≡ running)
      × (lookup id t.master.running_map ≡ elim (lookup id m.running_map) [
        | none ↦ some (record { member_count = 1; chat_channel_callback = m.next_chan })
        | some info ↦ some (record info { member_count = inc info.member_count })
      ])
      × (t.effects ≡ elim (lookup id m.running_map) [
        | none ↦ launch id msg.parameter (join_message msg MasterToChannelOp.join) m.next_chan ∷ []
        | some info ↦
            to_channel info.chat_channel_callback (join_message msg MasterToChannelOp.join) ∷ []
      ])
created-joins sql store db db' existed msg c h p n k m =
    let (id, i) = created-HasId sql store db db' msg.parameter existed h in
    let found = get_chatchannel_id-HasId sql db' msg.parameter id p i in
    let (status, entry, effects) =
      on_join-lookup m msg (get_chatchannel_id sql db') id id c n found i.0 k in
    let same : id == id ≡ true = ground arith in (id, i.0, status, rw same at entry, effects)
