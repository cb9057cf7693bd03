-- ===== src/Doppelganger/Session/Turns.antt =====
-- daemon/doppelganger.go: every turn of the main loop keeps a session sound.
use wtelnet.Common.{
  ℕ, ◌≡◌, Bool, true, false, Option, none, some, List, [], ◌∷◌, Bytes, arith, Int64, if_elim, ◌==◌,
  ◌&&◌, ◌+◌,
}
use wtelnet.Message.{Chan, MasterToUser, MasterToUserOp, ChannelToUser, ChannelToUserOp}
use wtelnet.Database.{Sql}
use wtelnet.Doppelganger.{UserInfo, Effect, backspace_out, blanks}
use wtelnet.Doppelganger.Backspace.{grow-IsBlanks}
use wtelnet.Doppelganger.Frame.{Keeps}
use wtelnet.Doppelganger.Exit.{handle_channel_exit_procedure}
use wtelnet.Doppelganger.Keys.{key, is_return}
use wtelnet.Doppelganger.Lines.{Handled, handled, crashed, handle_line}
use wtelnet.Doppelganger.Mailbox.{
  generic_text_output, by_master_op, on_master_message, on_joined, on_text_exit, by_channel_op,
  on_channel_message,
}
use wtelnet.Doppelganger.Loop.{
  Progress, Event, from_telnet, from_master, from_channel, ended, after_line, new_user_info,
  doppelganger_start, prompt_of, prompt, finish_turn, on_key, on_event, turn, run,
}
use wtelnet.Doppelganger.Session.{
  asks_password, IsSound, IsPrompted, IsPrompted-IsSound, Keeps-IsPrompted, Keeps-IsSound,
}
use wtelnet.Doppelganger.Session.Keys.{key-IsPrompted, key_off, prompt-IsPrompted}
use wtelnet.Doppelganger.Session.Lines.{state_after, handle_line-IsSound}

module _ {Db : Type 0} (fails : List Effect → Bytes → Bool) (s : UserInfo Db) where
  exit-Keeps : Keeps s (handle_channel_exit_procedure s).1
  unfolding handle_channel_exit_procedure
  exit-Keeps = ground arith

  finish_turn-Keeps : Keeps s (finish_turn fails s).state
  unfolding finish_turn
  finish_turn-Keeps = ground (arith, exit-Keeps)

  by_master_op-Keeps :
      (op : MasterToUserOp) (msg : MasterToUser) → Keeps s (by_master_op fails op msg s)
  unfolding by_master_op
  by_master_op-Keeps MasterToUserOp.generic_text msg = ground arith
  by_master_op-Keeps MasterToUserOp.join_denied msg = ground arith
  by_master_op-Keeps (MasterToUserOp.other n) msg = ground arith

  output-Keeps : (msg : ChannelToUser) → Keeps s (generic_text_output fails s msg).1
  unfolding generic_text_output backspace_out
  output-Keeps msg =
      ground (arith, grow-IsBlanks s.backspace_buffer (s.prompt_len + s.cursor_column))

  on_joined-Keeps : (msg : ChannelToUser) → Keeps s (on_joined fails msg s)
  unfolding on_joined
  on_joined-Keeps msg = ground arith

  on_text_exit-Keeps : (msg : ChannelToUser) → Keeps s (on_text_exit fails msg s)
  unfolding on_text_exit generic_text_output backspace_out
  on_text_exit-Keeps msg =
      ground (arith, grow-IsBlanks s.backspace_buffer (s.prompt_len + s.cursor_column))

  by_channel_op-Keeps :
      (op : ChannelToUserOp) (msg : ChannelToUser) → Keeps s (by_channel_op fails op msg s).1
  unfolding by_channel_op
  by_channel_op-Keeps ChannelToUserOp.join_denied msg = ground arith
  by_channel_op-Keeps ChannelToUserOp.joined msg = on_joined-Keeps msg
  by_channel_op-Keeps ChannelToUserOp.text_message msg = ground (arith, output-Keeps msg)
  by_channel_op-Keeps ChannelToUserOp.text_exit msg =
      let gone =
        s.telnet_goroutine_has_gone_away && s.doppelganger_id == msg.leaving_doppelganger_id in
      if_elim (λ (r : Bool × UserInfo Db). Keeps s r.1) gone {x = (true, s)}
        {y = (false, on_text_exit fails msg s)} (ground arith) (on_text_exit-Keeps msg)
  by_channel_op-Keeps (ChannelToUserOp.other n) msg = ground arith

  prompt_same : (finish_turn fails s).state.prompt_needed ≡ s.prompt_needed
  unfolding finish_turn handle_channel_exit_procedure
  prompt_same = ground arith

module _ {Db : Type 0} (fails : List Effect → Bytes → Bool) where
  finish_turn-IsSound : (s : UserInfo Db) → IsSound s → IsSound (finish_turn fails s).state
  finish_turn-IsSound s p = Keeps-IsSound (finish_turn-Keeps fails s) (prompt_same fails s) p

  on_master-IsPrompted :
      (s : UserInfo Db) (msg : MasterToUser)
      → IsPrompted s
      → IsPrompted (on_master_message fails msg s)
  unfolding on_master_message
  on_master-IsPrompted s msg p =
      let t = by_master_op fails msg.operation msg s in
      Keeps-IsPrompted {s = t} (ground arith)
        (Keeps-IsPrompted (by_master_op-Keeps fails s msg.operation msg) p)

  on_channel-IsPrompted :
      (s : UserInfo Db) (msg : ChannelToUser)
      → IsPrompted s
      → IsPrompted (on_channel_message fails msg s).1
  unfolding on_channel_message
  on_channel-IsPrompted s msg p =
      let r = by_channel_op fails msg.operation msg s in
      let q = Keeps-IsPrompted (by_channel_op-Keeps fails s msg.operation msg) p in
      if_elim IsPrompted r.0 {x = r.1} {y = record (r.1) { prompt_needed = true }} q
        (Keeps-IsPrompted {s = r.1} (ground arith) q)

module _ (sql : Sql) (fails : List Effect → Bytes → Bool) where
  abbrev SoundIn : Progress sql.Db → Type 0
  SoundIn r = IsSound r.state

  after_line-IsSound :
      (h : Handled sql.Db) → IsSound (state_after h) → SoundIn (after_line sql fails h)
  after_line-IsSound (handled s) p = finish_turn-IsSound fails s p
  after_line-IsSound (crashed s) p = p

  on_key-IsSound :
      (input : Option ℕ) (s : UserInfo sql.Db) → IsPrompted s → SoundIn (on_key sql fails input s)
  unfolding on_key
  on_key-IsSound input s p =
      let (c, s') = key fails input s in
      let q = key-IsPrompted fails input s p in
      if_elim SoundIn (is_return c) {x = after_line sql fails (handle_line sql fails s')}
        {y = finish_turn fails s'}
        (after_line-IsSound (handle_line sql fails s') (handle_line-IsSound sql fails s' q))
        (finish_turn-IsSound fails s' (IsPrompted-IsSound q))

  on_event-IsSound :
      (e : Event) (s : UserInfo sql.Db) → IsPrompted s → SoundIn (on_event sql fails e s)
  unfolding on_event
  on_event-IsSound (from_telnet input) s p = on_key-IsSound input s p
  on_event-IsSound (from_master (some msg)) s p =
      finish_turn-IsSound fails (on_master_message fails msg s)
        (IsPrompted-IsSound (on_master-IsPrompted fails s msg p))
  on_event-IsSound (from_master none) s p =
      IsPrompted-IsSound (Keeps-IsPrompted {s = s} (ground arith) p)
  on_event-IsSound (from_channel (some msg)) s p =
      let (done, s') = on_channel_message fails msg s in
      let q = IsPrompted-IsSound (on_channel-IsPrompted fails s msg p) in
      if_elim SoundIn done {x = ended s'} {y = finish_turn fails s'} q
        (finish_turn-IsSound fails s' q)
  on_event-IsSound (from_channel none) s p =
      IsPrompted-IsSound (Keeps-IsPrompted {s = s} (ground arith) p)

  -- Whatever arrives, a turn keeps the session sound: no index is out of range, commands are taken
  -- exactly from a user who is logged in, and at a prompt for a password the echo is off.
  pub turn-IsSound :
      (s : UserInfo sql.Db) (e : Event) → IsSound s → IsSound (turn sql fails s e).state
  unfolding turn
  turn-IsSound s e p = on_event-IsSound e (prompt fails s) (prompt-IsPrompted fails s p)

  run-IsSound :
      (s : UserInfo sql.Db) (es : List Event) → IsSound s → IsSound (run sql fails s es).state
  unfolding run
  run-IsSound s [] p = p
  run-IsSound s (e ∷ es) p =
      ground
        (arith, turn-IsSound s e p, run-IsSound (turn sql fails s e).state es (turn-IsSound s e p))

  start-IsSound :
      (db : sql.Db) (id : Int64) (c d : Chan) (m : Option Chan)
      → IsSound (new_user_info db id c d m)
  unfolding new_user_info blanks
  start-IsSound db id c d m = ground arith

  greeted-IsSound : (s : UserInfo sql.Db) → IsSound s → IsSound (doppelganger_start fails s).state
  unfolding doppelganger_start
  greeted-IsSound s p = ground arith

  -- From its start, whatever the database answers, whichever writes fail and whatever arrives, the
  -- session is sound after any events: the cursor is within the line buffer, the position within an
  -- escape sequence, the buffer for backspaces is whole rounds, the mode takes commands exactly if
  -- the user is logged in, and where the mode asks for a password a prompt is due or the echo is off.
  pub run-start-IsSound :
      (db : sql.Db) (id : Int64) (c d : Chan) (m : Option Chan) (es : List Event)
      → IsSound
          (run sql fails (doppelganger_start fails (new_user_info db id c d m)).state es).state
  run-start-IsSound db id c d m es =
      run-IsSound _ es (greeted-IsSound (new_user_info db id c d m) (start-IsSound db id c d m))

module _ {Db : Type 0} (fails : List Effect → Bytes → Bool) where
  prompt-mode : (s : UserInfo Db) → (prompt fails s).mode ≡ s.mode
  unfolding prompt prompt_of
  prompt-mode s = ground arith

  -- In a sound session whose mode asks for a password, a byte that the user types, or the end of the
  -- connection, adds no write to the connection between the prompt and the handling of a line.
  pub password_not_echoed :
      (s : UserInfo Db) (input : Option ℕ)
      → IsSound s
      → asks_password s.mode ≡ true
      → (key fails input (prompt fails s)).1.trace ≡ (prompt fails s).trace
  password_not_echoed s input p h =
      key_off fails input (prompt fails s)
        (ground (arith, (prompt-IsPrompted fails s p).silent, prompt-mode s))
