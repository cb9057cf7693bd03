-- ===== src/Crossings.antt =====
-- What the goroutines do to one another: messages that daemon/doppelganger.go sends, as
-- daemon/channelmaster.go and daemon/chatchannel.go handle them.
pub mod Bounce
pub mod Conversation
pub mod Created
pub mod Late
pub mod Served
pub mod Twice
use wtelnet.Common.{
  ◌≡◌, refl, ◌≢◌, Bool, true, false, none, some, List, ◌∷◌, Bytes, codes, Int64, minus_one, arith,
  ap, sym, ◌∙◌, Result,
}
use wtelnet.Common.Dict.{lookup}
use wtelnet.Message.{Chan, UserToMaster, UserToMasterOp, ChannelToUser, ChannelToUserOp}
use wtelnet.Doppelganger.{UserInfo, Effect, to_master, exit_request, off_channel, does, long_write}
use wtelnet.Doppelganger.Commands.{reply, on_join, on_exit}
use wtelnet.Doppelganger.Commands.Frame.{state_of}
use wtelnet.Doppelganger.Mailbox.{by_channel_op}
use wtelnet.Master.{Master, returned}
use wtelnet.Master.Loop.{from_user, Event, run}
use wtelnet.Master.Failures.{exit-unknown_channel}

-- The message that `/join` sends.
abbrev pub join_request : {Db : Type 0} → UserInfo Db → Bytes → UserToMaster
join_request s operand = record {
  operation = UserToMasterOp.join;
  user_id = s.user_id;
  user_name = s.user_name;
  doppelganger_id = s.doppelganger_id;
  chat_channel_id = 0;
  parameter = operand;
  callback_from_channel_master = some s.incoming_from_channel_master;
  callback_from_chat_channel = some s.incoming_from_chat_channel;
}

minus_one-not_zero : minus_one ≢ 0
minus_one-not_zero = omega arith

module _ {Db : Type 0} (fails : List Effect → Bytes → Bool) (s : UserInfo Db) where
  -- A join by a user who is logged in and on no channel sends the request, and leaves the id of the
  -- chat channel at -1 until an answer comes.
  pub join-pending :
      (c : Chan) (operand : Bytes)
      → s.user_id ≢ 0
      → s.chat_channel_id ≡ 0
      → s.master_chan ≡ some c
      → on_join fails operand s
        ≡ reply false false (record s {
          chat_channel_id = minus_one;
          trace = to_master (join_request s operand) ∷ s.trace;
        })
  unfolding on_join
  join-pending c operand u i m = ground arith

  -- A denial of the chat channel keeps the user, the id of the channel and the way to the master.
  denied-Keeps :
      (msg : ChannelToUser)
      → let t = (by_channel_op fails ChannelToUserOp.join_denied msg s).1 in
        (t.user_id ≡ s.user_id)
        × (t.chat_channel_id ≡ s.chat_channel_id)
        × (t.master_chan ≡ s.master_chan)
  unfolding by_channel_op
  denied-Keeps msg = ground arith

  exit-pending :
      (c : Chan) (operand : Bytes)
      → s.user_id ≢ 0
      → s.chat_channel_id ≢ 0
      → s.master_chan ≡ some c
      → fails s.trace (codes "\r\n") ≡ false
      → on_exit fails operand s
        ≡ reply true false (
            off_channel
              (does (to_master (exit_request s operand)) (long_write fails (codes "\r\n") s).1))
  unfolding on_exit
  exit-pending c operand u i m f = ground arith

-- The user that `/join` and then a denial of the chat channel leave.
abbrev pub after_denial :
    {Db : Type 0} → (List Effect → Bytes → Bool) → Bytes → ChannelToUser → UserInfo Db → UserInfo Db
after_denial fails operand msg s =
    (by_channel_op fails ChannelToUserOp.join_denied msg (state_of (on_join fails operand s))).1

-- A user who is logged in and on no channel joins a channel, and the chat channel denies the join,
-- as one does that is full. If the user then exits, and the write that this makes does not fail, an
-- exit is sent that names the channel -1, and a channel master that has no such channel returns
-- when it handles it: it handles no later event.
pub denied-exit-stops_master :
    {Db : Type 0} (fails : List Effect → Bytes → Bool) (s : UserInfo Db) (c : Chan)
    (operand parameter : Bytes) (msg : ChannelToUser)
    → s.user_id ≢ 0
    → s.chat_channel_id ≡ 0
    → s.master_chan ≡ some c
    → fails (after_denial fails operand msg s).trace (codes "\r\n") ≡ false
    → (get : Bytes → Result Int64) (m : Master) (es : List Event)
    → lookup minus_one m.running_map ≡ none
    → let t = after_denial fails operand msg s in
      (on_exit fails parameter t
        ≡ reply true false (
            off_channel
              (does (to_master (exit_request t parameter)) (long_write fails (codes "\r\n") t).1)))
      × ((exit_request t parameter).chat_channel_id ≡ minus_one)
      × (run m (from_user get (some (exit_request t parameter)) ∷ es) ≡ (m, returned))
denied-exit-stops_master fails s c operand parameter msg u i k f get m es l =
    let pending = ap state_of (join-pending fails s c operand u i k) in
    let (ku, ki, kc) = denied-Keeps fails (state_of (on_join fails operand s)) msg in
    let t = after_denial fails operand msg s in
    let id : t.chat_channel_id ≡ minus_one = ki ∙ ap (λ x. x.chat_channel_id) pending in
    let id≢0 : t.chat_channel_id ≢ 0 = λ z. minus_one-not_zero (sym id ∙ z) in
    (
      exit-pending fails t c parameter (λ z. u (sym (ku ∙ ap (λ x. x.user_id) pending) ∙ z)) id≢0
          (kc ∙ ap (λ x. x.master_chan) pending ∙ k) f,
      id,
      exit-unknown_channel get m (exit_request t parameter) es refl id≢0
          (ap (λ x. lookup x m.running_map) id ∙ l),
    )
