-- ===== src/Crossings/Late.antt =====
-- daemon/doppelganger.go, daemon/channelmaster.go and daemon/chatchannel.go: a user who leaves one channel, joins
-- another and goes away, and whose exit from the first comes back before the join is answered.
use wtelnet.Common.{
  ◌≡◌, ◌≢◌, ◌<◌, refl, ◌∙◌, Bool, true, false, some, List, [], ◌∷◌, Bytes, Int64, minus_one, arith,
  length, Result, ok,
}
use wtelnet.Common.Dict.{Dict, lookup}
use wtelnet.Message.{Chan, MasterToChannel, MasterToChannelOp, ChannelToUser, ChannelToUserOp}
use wtelnet.Database.{Sql}
use wtelnet.Doppelganger
use wtelnet.Doppelganger.{UserInfo, say}
use wtelnet.Doppelganger.Commands
use wtelnet.Doppelganger.Commands.{reply}
use wtelnet.Doppelganger.Loop.{finished, from_channel, prompt, prompt_of, on_event, turn}
use wtelnet.Doppelganger.Mailbox.{by_channel_op, on_channel_message}
use wtelnet.Crossings.{join_request, join-pending}
use wtelnet.Master.{Master, PerChatChan, to_channel, join_message}
use wtelnet.Master.Joining.{on_join}
use wtelnet.Master.Routing.{on_join-lookup}
use wtelnet.ChatChannel.{
  UserEntry, ChatChannel, Effect, Outcome, carry_on, shut_down, panicked, to_user, max_members,
  notice,
}
use wtelnet.ChatChannel.Handlers.{process_message_from_channel_master, dispatch}
use wtelnet.ChatChannel.Joining.{welcome, with_member}
use wtelnet.ChatChannel.Loop.{crashed, handle_from_master, after_outcome}
use wtelnet.ChatChannel.Sends.{hits, before, sends}
use wtelnet.System.Quiet.{on_join-admit, admit-welcome}

module _ (sql : Sql) (fails : List Doppelganger.Effect → Bytes → Bool) where
  -- What the end by an own exit reads is as it was.
  prompt-keeps :
      (u : UserInfo sql.Db)
      → u.telnet_goroutine_has_gone_away ≡ true
      → ((prompt fails u).telnet_goroutine_has_gone_away ≡ true)
        × ((prompt fails u).doppelganger_id ≡ u.doppelganger_id)
  unfolding prompt prompt_of
  prompt-keeps u g = ground arith

  own_exit-ends :
      (u : UserInfo sql.Db) (op : ChannelToUserOp) (bounce : ChannelToUser)
      → op ≡ ChannelToUserOp.text_exit
      → u.telnet_goroutine_has_gone_away ≡ true
      → u.doppelganger_id ≡ bounce.leaving_doppelganger_id
      → (by_channel_op fails op bounce u).0 ≡ true
  unfolding by_channel_op
  own_exit-ends u op bounce e g own = rw e (ground arith)

  bounce-ends :
      (u : UserInfo sql.Db) (bounce : ChannelToUser)
      → u.telnet_goroutine_has_gone_away ≡ true
      → bounce.operation ≡ ChannelToUserOp.text_exit
      → u.doppelganger_id ≡ bounce.leaving_doppelganger_id
      → (turn sql fails u (from_channel (some bounce))).status ≡ finished
  unfolding turn on_event on_channel_message
  bounce-ends u bounce g e own =
      let (kg, ki) = prompt-keeps u g in
      let ends = own_exit-ends (prompt fails u) bounce.operation bounce e kg (ki ∙ own) in
      rw ends refl

module _ (visit : Dict UserEntry → Dict UserEntry) (gone : Chan → Bool) (room : ChatChannel)
    (msg : MasterToChannel) (c : Chan) (closed_by : gone c ≡ true) where
  welcome-hits :
      (s : ChatChannel)
      → let first = to_user c (notice room ChannelToUserOp.joined room.chat_channel_name) ∷ [] in
        let t = welcome visit s msg c first in
        (t.outcome ≢ shut_down) × (hits gone t.effects ≡ true) × (before gone t.effects ≡ [])
  unfolding welcome hits before
  welcome-hits s = ground arith

  hit-crashes :
      (incoming : Chan) (o : Outcome) (s : ChatChannel) (es : List Effect)
      → o ≢ shut_down
      → hits gone es ≡ true
      → before gone es ≡ []
      → let t = sends gone (after_outcome incoming false o s es) in
        (t.status ≡ crashed) × (t.effects ≡ [])
  unfolding sends after_outcome
  hit-crashes incoming carry_on s es o h b = rw h (refl, b)
  hit-crashes incoming shut_down s es o h b = absurd (o refl)
  hit-crashes incoming panicked s es o h b = rw h (refl, b)

  -- A join that would be admitted is answered on a closed Go channel.
  admission-crashes :
      (own incoming : Chan)
      → room.chat_channel_id ≢ 0
      → room.incoming_from_doppelganger ≡ some own
      → length room.member_list < max_members
      → msg.operation ≡ MasterToChannelOp.join
      → msg.doppelganger_callback ≡ some c
      → let t = sends gone (handle_from_master visit incoming false room msg) in
        (t.status ≡ crashed) × (t.effects ≡ [])
  unfolding handle_from_master process_message_from_channel_master dispatch
  admission-crashes own incoming i o lt op k =
      let (n, h, b) = welcome-hits (with_member room msg c) in
      let same = on_join-admit visit room msg lt ∙ admit-welcome visit room msg own c i o k in
      rw (op, same) (hit-crashes incoming _ _ _ n h b)

-- A user who is logged in and on no channel joins a running channel that has room, and then goes away.
-- Whatever else has come to its doppelganger by then: at an exit message of its own, of any channel, the
-- doppelganger returns, though the join is pending. The channel master sends the join to the chat
-- channel all the same; and if the Go channel of the doppelganger is closed when the chat channel takes
-- it, the chat channel panics at the first send, and has told nobody of the join.
pub late_join-crashes :
    (sql : Sql) (fails : List Doppelganger.Effect → Bytes → Bool) (s : UserInfo sql.Db) (c : Chan)
    (operand : Bytes)
    → s.user_id ≢ 0
    → s.chat_channel_id ≡ 0
    → s.master_chan ≡ some c
    → (u : UserInfo sql.Db) (bounce : ChannelToUser) → u.telnet_goroutine_has_gone_away ≡ true
    → bounce.operation ≡ ChannelToUserOp.text_exit
    → u.doppelganger_id ≡ bounce.leaving_doppelganger_id
    → (get : Bytes → Result Int64) (m : Master) (id : Int64) (info : PerChatChan) → operand ≢ []
    → get operand ≡ ok id
    → id ≢ 0
    → lookup id m.running_map ≡ some info
    → (visit : Dict UserEntry → Dict UserEntry) (room : ChatChannel) (own incoming : Chan)
      (gone : Chan → Bool)
    → gone s.incoming_from_chat_channel ≡ true
    → room.chat_channel_id ≢ 0
    → room.incoming_from_doppelganger ≡ some own
    → length room.member_list < max_members
    → let request = join_request s operand in
      let msg = join_message request MasterToChannelOp.join in
      let t = sends gone (handle_from_master visit incoming false room msg) in
      (Commands.on_join fails operand s
        ≡ reply false false (record s {
          chat_channel_id = minus_one;
          trace = Doppelganger.to_master request ∷ s.trace;
        }))
      × ((turn sql fails u (from_channel (some bounce))).status ≡ finished)
      × ((on_join get m request).effects ≡ to_channel info.chat_channel_callback msg ∷ [])
      × (t.status ≡ crashed)
      × (t.effects ≡ [])
late_join-crashes sql fails s c operand u_set z mc u bounce g e mine get m id info p a i f visit
      room own incoming gone closed_by ri ro lt =
    let request = join_request s operand in
    let msg = join_message request MasterToChannelOp.join in
    let reply_on = s.incoming_from_chat_channel in
    let (_, _, sent) = on_join-lookup m request get id id reply_on p a i refl in
    let (crash, silent) =
      admission-crashes visit gone room msg reply_on closed_by own incoming ri ro lt refl refl in
    (
      join-pending fails s c operand u_set z mc,
      bounce-ends sql fails u bounce g e mine,
      sent ∙ rw f refl,
      crash,
      silent,
    )
