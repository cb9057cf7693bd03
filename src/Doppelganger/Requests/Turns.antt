-- ===== src/Doppelganger/Requests/Turns.antt =====
-- daemon/doppelganger.go: what a session sends to the channel master, over all turns of its loop.
use wtelnet.Common.{ℕ, Bool, Option, none, some, List, [], ◌∷◌, Bytes, arith, Int64, if_elim}
use wtelnet.Message.{Chan, MasterToUser, MasterToUserOp, ChannelToUser, ChannelToUserOp}
use wtelnet.Database.{Sql}
use wtelnet.Doppelganger.{UserInfo, Effect, backspace_out}
use wtelnet.Doppelganger.Keys.{receive, control_sequence, control_code, echo, edit, key, is_return}
use wtelnet.Doppelganger.Lines.{Handled, handled, crashed, handle_line}
use wtelnet.Doppelganger.Mailbox.{
  generic_text_output, by_master_op, on_master_message, on_joined, on_text_exit, by_channel_op,
  on_channel_message,
}
use wtelnet.Doppelganger.Loop.{
  Progress, Event, from_telnet, from_master, from_channel, ended, after_line, new_user_info,
  doppelganger_start, prompt_of, prompt, finish_turn, on_key, on_event, turn, run,
}
use wtelnet.Doppelganger.Session.Lines.{state_after}
use wtelnet.Doppelganger.Requests.{IsHonest, Requests}
use wtelnet.Doppelganger.Requests.Commands.{exit-IsHonest}
use wtelnet.Doppelganger.Requests.Lines.{handle_line-IsHonest}

module _ (id : Int64) (m c : Chan) where
  module _ {Db : Type 0} (fails : List Effect → Bytes → Bool) where
    -- The stages for a byte.
    receive-IsHonest :
        (input : Option ℕ) (s : UserInfo Db)
        → IsHonest id m c s
        → IsHonest id m c (receive input s).1
    unfolding receive
    receive-IsHonest input s h = ground arith

    control_sequence-IsHonest :
        (b : ℕ) (s : UserInfo Db) → IsHonest id m c s → IsHonest id m c (control_sequence b s).1
    unfolding control_sequence
    control_sequence-IsHonest b s h = ground arith

    control_code-IsHonest :
        (b : ℕ) (s : UserInfo Db) → IsHonest id m c s → IsHonest id m c (control_code b s).1
    unfolding control_code
    control_code-IsHonest b s h = ground arith

    echo-IsHonest : (b : ℕ) (s : UserInfo Db) → IsHonest id m c s → IsHonest id m c (echo fails b s)
    unfolding echo
    echo-IsHonest b s h = ground arith

    edit-IsHonest : (b : ℕ) (s : UserInfo Db) → IsHonest id m c s → IsHonest id m c (edit b s)
    unfolding edit
    edit-IsHonest b s h = ground arith

    key-IsHonest :
        (input : Option ℕ) (s : UserInfo Db)
        → IsHonest id m c s
        → IsHonest id m c (key fails input s).1
    unfolding key
    key-IsHonest input s h =
        let (c₁, s₁) = receive input s in
        let (c₂, s₂) = control_sequence c₁ s₁ in
        let (c₃, s₃) = control_code c₂ s₂ in
        edit-IsHonest c₃ (echo fails c₃ s₃) (
          echo-IsHonest c₃ s₃ (
            control_code-IsHonest c₂ s₂
              (control_sequence-IsHonest c₁ s₁ (receive-IsHonest input s h))))

    pub prompt-IsHonest : (s : UserInfo Db) → IsHonest id m c s → IsHonest id m c (prompt fails s)
    unfolding prompt prompt_of
    prompt-IsHonest s h = ground arith

    finish_turn-IsHonest :
        (s : UserInfo Db) → IsHonest id m c s → IsHonest id m c (finish_turn fails s).state
    unfolding finish_turn
    finish_turn-IsHonest s h = ground (arith, exit-IsHonest id m c fails s h)

    -- The messages of the other goroutines.
    by_master_op-IsHonest :
        (op : MasterToUserOp) (msg : MasterToUser) (s : UserInfo Db)
        → IsHonest id m c s
        → IsHonest id m c (by_master_op fails op msg s)
    unfolding by_master_op
    by_master_op-IsHonest MasterToUserOp.generic_text msg s h = ground arith
    by_master_op-IsHonest MasterToUserOp.join_denied msg s h = ground arith
    by_master_op-IsHonest (MasterToUserOp.other n) msg s h = ground arith

    on_master-IsHonest :
        (msg : MasterToUser) (s : UserInfo Db)
        → IsHonest id m c s
        → IsHonest id m c (on_master_message fails msg s)
    unfolding on_master_message
    on_master-IsHonest msg s h = ground (arith, by_master_op-IsHonest msg.operation msg s h)

    output-IsHonest :
        (msg : ChannelToUser) (s : UserInfo Db)
        → IsHonest id m c s
        → IsHonest id m c (generic_text_output fails s msg).1
    unfolding generic_text_output backspace_out
    output-IsHonest msg s h = ground arith

    on_joined-IsHonest :
        (msg : ChannelToUser) (s : UserInfo Db)
        → IsHonest id m c s
        → IsHonest id m c (on_joined fails msg s)
    unfolding on_joined
    on_joined-IsHonest msg s h = ground arith

    on_text_exit-IsHonest :
        (msg : ChannelToUser) (s : UserInfo Db)
        → IsHonest id m c s
        → IsHonest id m c (on_text_exit fails msg s)
    unfolding on_text_exit generic_text_output backspace_out
    on_text_exit-IsHonest msg s h = ground arith

    by_channel_op-IsHonest :
        (op : ChannelToUserOp) (msg : ChannelToUser) (s : UserInfo Db)
        → IsHonest id m c s
        → IsHonest id m c (by_channel_op fails op msg s).1
    unfolding by_channel_op
    by_channel_op-IsHonest ChannelToUserOp.join_denied msg s h = ground arith
    by_channel_op-IsHonest ChannelToUserOp.joined msg s h = on_joined-IsHonest msg s h
    by_channel_op-IsHonest ChannelToUserOp.text_message msg s h =
        ground (arith, output-IsHonest msg s h)
    by_channel_op-IsHonest ChannelToUserOp.text_exit msg s h =
        ground (arith, on_text_exit-IsHonest msg s h)
    by_channel_op-IsHonest (ChannelToUserOp.other n) msg s h = ground arith

    on_channel-IsHonest :
        (msg : ChannelToUser) (s : UserInfo Db)
        → IsHonest id m c s
        → IsHonest id m c (on_channel_message fails msg s).1
    unfolding on_channel_message
    on_channel-IsHonest msg s h = ground (arith, by_channel_op-IsHonest msg.operation msg s h)

  module _ (sql : Sql) (fails : List Effect → Bytes → Bool) where
    abbrev HonestIn : Progress sql.Db → Type 0
    HonestIn r = IsHonest id m c r.state

    after_line-IsHonest :
        (h : Handled sql.Db) → IsHonest id m c (state_after h) → HonestIn (after_line sql fails h)
    after_line-IsHonest (handled s) p = finish_turn-IsHonest fails s p
    after_line-IsHonest (crashed s) p = p

    on_key-IsHonest :
        (input : Option ℕ) (s : UserInfo sql.Db)
        → IsHonest id m c s
        → HonestIn (on_key sql fails input s)
    unfolding on_key
    on_key-IsHonest input s p =
        let (b, s') = key fails input s in
        let q = key-IsHonest fails input s p in
        if_elim HonestIn (is_return b) {x = after_line sql fails (handle_line sql fails s')}
          {y = finish_turn fails s'}
          (after_line-IsHonest (handle_line sql fails s')
            (handle_line-IsHonest id m c sql fails s' q))
          (finish_turn-IsHonest fails s' q)

    on_event-IsHonest :
        (e : Event) (s : UserInfo sql.Db) → IsHonest id m c s → HonestIn (on_event sql fails e s)
    unfolding on_event
    on_event-IsHonest (from_telnet input) s p = on_key-IsHonest input s p
    on_event-IsHonest (from_master (some msg)) s p =
        finish_turn-IsHonest fails (on_master_message fails msg s)
          (on_master-IsHonest fails msg s p)
    on_event-IsHonest (from_master none) s p = ground arith
    on_event-IsHonest (from_channel (some msg)) s p =
        let (done, s') = on_channel_message fails msg s in
        let q = on_channel-IsHonest fails msg s p in
        if_elim HonestIn done {x = ended s'} {y = finish_turn fails s'} q
          (finish_turn-IsHonest fails s' q)
    on_event-IsHonest (from_channel none) s p = ground arith

    turn-IsHonest :
        (s : UserInfo sql.Db) (e : Event)
        → IsHonest id m c s
        → IsHonest id m c (turn sql fails s e).state
    unfolding turn
    turn-IsHonest s e p = on_event-IsHonest e (prompt fails s) (prompt-IsHonest fails s p)

    run-IsHonest :
        (s : UserInfo sql.Db) (es : List Event)
        → IsHonest id m c s
        → IsHonest id m c (run sql fails s es).state
    unfolding run
    run-IsHonest s [] p = p
    run-IsHonest s (e ∷ es) p = ground (
      arith,
      turn-IsHonest s e p,
      run-IsHonest (turn sql fails s e).state es (turn-IsHonest s e p),
    )

    greeted-IsHonest :
        (s : UserInfo sql.Db)
        → IsHonest id m c s
        → IsHonest id m c (doppelganger_start fails s).state
    unfolding doppelganger_start
    greeted-IsHonest s p = ground arith

    start-IsHonest : (db : sql.Db) (t : Option Chan) → IsHonest id m c (new_user_info db id m c t)
    unfolding new_user_info
    start-IsHonest db t = ground arith

    -- From its start, whatever the database answers, whichever writes fail and whatever arrives, every
    -- message that a doppelganger sends to the channel master carries its own two Go channels for the
    -- replies and one of three operations: a join names no channel and its own id, a request for the
    -- members names a channel that is not 0, and an exit names such a channel and its own id.
    pub run-Requests :
        (db : sql.Db) (t : Option Chan) (es : List Event)
        → Requests id m c
            (run sql fails
              (doppelganger_start fails (new_user_info db id m c t)).state
              es).state.trace
    run-Requests db t es =
        (run-IsHonest _ es
          (greeted-IsHonest (new_user_info db id m c t) (start-IsHonest db t))).sent
