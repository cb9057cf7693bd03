-- ===== src/Doppelganger/Exit/Gone.antt =====
-- daemon/doppelganger.go: the main loop of a user who is gone. The Go channel from the telnet
-- goroutine is closed, so that the `select` receives from it turn after turn.
use wtelnet.Common.{
  ℕ, zero, suc, ◌+◌, ◌≤◌, ◌<◌, ◌≡◌, refl, ap, ◌∙◌, Bool, true, false, none, some, List, [], ◌∷◌,
  Bytes, arith, if◌then◌else◌, inl, inr, Bool-cases,
}
use wtelnet.Message.{Chan}
use wtelnet.Database.{Sql}
use wtelnet.Doppelganger.{UserInfo, Effect}
use wtelnet.Doppelganger.Keys.{is_return, receive, control_sequence, control_code, echo, edit, key}
use wtelnet.Doppelganger.Exit.{exit_limit, handle_channel_exit_procedure}
use wtelnet.Doppelganger.Exit.Waiting.{waiting-step, exit-first}
use wtelnet.Doppelganger.Loop.{
  Event, from_telnet, Status, Progress, looping, finished, panicked, prompt, prompt_of, finish_turn,
  on_key, on_event, turn, run,
}

-- What the exit procedure reads is as it was, and a user who is gone stays so.
record Waits {Db : Type 0} (s t : UserInfo Db) : Type 0 where
  stays_gone : s.telnet_goroutine_has_gone_away ≡ true → t.telnet_goroutine_has_gone_away ≡ true
  same_user : t.user_id ≡ s.user_id
  same_channel : t.chat_channel_id ≡ s.chat_channel_id
  same_wait : t.cant_exit_before_exit_message ≡ s.cant_exit_before_exit_message
  same_count : t.cant_exit_count ≡ s.cant_exit_count
  same_master : t.master_chan ≡ s.master_chan

Waits-trans : {Db : Type 0} (s t u : UserInfo Db) → Waits s t → Waits t u → Waits s u
Waits-trans s t u p q = ground (arith, p.stays_gone, q.stays_gone)

module _ {Db : Type 0} (fails : List Effect → Bytes → Bool) (s : UserInfo Db) where
  prompt-Waits : Waits s (prompt fails s)
  unfolding prompt prompt_of
  prompt-Waits = ground arith

  receive-Waits : Waits s (receive none s).1
  unfolding receive
  receive-Waits = ground arith

  control_sequence-Waits : (c : ℕ) → Waits s (control_sequence c s).1
  unfolding control_sequence
  control_sequence-Waits c = ground arith

  control_code-Waits : (c : ℕ) → Waits s (control_code c s).1
  unfolding control_code
  control_code-Waits c = ground arith

  echo-Waits : (c : ℕ) → Waits s (echo fails c s)
  unfolding echo
  echo-Waits c = ground arith

  edit-Waits : (c : ℕ) → Waits s (edit c s)
  unfolding edit
  edit-Waits c = ground arith

  no_line : is_return (control_code (control_sequence 0 s).0 (control_sequence 0 s).1).0 ≡ false
  unfolding control_code control_sequence
  no_line = ground arith

module _ {Db : Type 0} (fails : List Effect → Bytes → Bool) where
  key-Waits : (s : UserInfo Db) → Waits s (key fails none s).1
  unfolding key
  key-Waits s =
      let (c₁, s₁) = receive none s in
      let (c₂, s₂) = control_sequence c₁ s₁ in
      let (c₃, s₃) = control_code c₂ s₂ in
      let s₄ = echo fails c₃ s₃ in
      Waits-trans s s₁ (edit c₃ s₄) (receive-Waits fails s) (
        Waits-trans s₁ s₂ (edit c₃ s₄) (control_sequence-Waits fails s₁ c₁) (
          Waits-trans s₂ s₃ (edit c₃ s₄) (control_code-Waits fails s₂ c₂)
            (Waits-trans s₃ s₄ (edit c₃ s₄) (echo-Waits fails s₃ c₃) (edit-Waits fails s₄ c₃))))

  key-no_line : (s : UserInfo Db) → is_return (key fails none s).0 ≡ false
  unfolding key receive
  key-no_line s = no_line fails (receive none s).1

  -- What a turn at the closed Go channel leaves before the exit procedure.
  abbrev at_exit : UserInfo Db → UserInfo Db
  at_exit s = (key fails none (prompt fails s)).1

  at_exit-Waits : (s : UserInfo Db) → Waits s (at_exit s)
  at_exit-Waits s =
      Waits-trans s (prompt fails s) (at_exit s) (prompt-Waits fails s) (key-Waits (prompt fails s))

  exit_keeps_gone :
      (s : UserInfo Db)
      → (handle_channel_exit_procedure s).1.telnet_goroutine_has_gone_away
        ≡ s.telnet_goroutine_has_gone_away
  unfolding handle_channel_exit_procedure
  exit_keeps_gone s = ground arith

  finish-gone :
      (s : UserInfo Db)
      → s.telnet_goroutine_has_gone_away ≡ true
      → let r = handle_channel_exit_procedure s in
        finish_turn fails s ≡ record { state = r.1; status = if r.0 then finished else looping }
  unfolding finish_turn
  finish-gone s g = ground arith

-- Receives from the closed Go channel, one after another.
abbrev pub closed_reads : ℕ → List Event
closed_reads zero = []
closed_reads (suc n) = from_telnet none ∷ closed_reads n

module _ (sql : Sql) (fails : List Effect → Bytes → Bool) where
  turn-closed :
      (s : UserInfo sql.Db)
      → turn sql fails s (from_telnet none) ≡ finish_turn fails (at_exit fails s)
  unfolding turn on_event on_key
  turn-closed s = ground (arith, key-no_line fails (prompt fails s))

  abbrev status_after : Progress sql.Db → List Event → Status
  status_after t es = elim t.status [
    | looping ↦ (run sql fails t.state es).status
    | finished ↦ t.status
    | panicked ↦ t.status
  ]

  run-cons :
      (s : UserInfo sql.Db) (e : Event) (es : List Event)
      → (run sql fails s (e ∷ es)).status ≡ status_after (turn sql fails s e) es
  unfolding run
  run-cons s e es = ground arith

  status_if :
      (ended : Bool) (s : UserInfo sql.Db) (es : List Event)
      → status_after (record { state = s; status = if ended then finished else looping }) es
        ≡ (if ended then finished else (run sql fails s es).status)
  status_if true s es = refl
  status_if false s es = refl

  -- A run that begins with a turn at the closed Go channel of a user who is gone.
  run-closed :
      (s : UserInfo sql.Db) (es : List Event)
      → s.telnet_goroutine_has_gone_away ≡ true
      → let (ended, t) = handle_channel_exit_procedure (at_exit fails s) in
        (run sql fails s (from_telnet none ∷ es)).status
        ≡ (if ended then finished else (run sql fails t es).status)
  run-closed s es g =
      let w = at_exit-Waits fails s in
      let r = handle_channel_exit_procedure (at_exit fails s) in
      let step = turn-closed s ∙ finish-gone fails (at_exit fails s) (w.stays_gone g) in
      run-cons s (from_telnet none) es ∙ ap (λ t. status_after t es) step ∙ status_if r.0 r.1 es

  waits-ends :
      (n : ℕ) (s : UserInfo sql.Db)
      → s.telnet_goroutine_has_gone_away ≡ true
      → s.cant_exit_before_exit_message ≡ true
      → s.cant_exit_count < exit_limit
      → exit_limit ≤ s.cant_exit_count + n
      → (run sql fails s (closed_reads n)).status ≡ finished
  waits-ends zero s g w c h = absurd (omega arith)
  waits-ends (suc n) s g w c h =
      let a = at_exit-Waits fails s in
      let t = (handle_channel_exit_procedure (at_exit fails s)).1 in
      ground (
        arith,
        run-closed s (closed_reads n) g,
        a,
        a.stays_gone g,
        waiting-step (at_exit fails s),
        exit_keeps_gone fails (at_exit fails s),
        waits-ends n t,
      )

  -- Once the telnet goroutine has gone away, while the Go channel to the channel master is set and
  -- fewer than 1000 waits have been counted, 1001 receives from the closed Go channel of the telnet
  -- goroutine are enough to end the doppelganger, though no answer to an exit comes.
  pub gone-ends :
      (n : ℕ) (s : UserInfo sql.Db) (m : Chan)
      → s.telnet_goroutine_has_gone_away ≡ true
      → s.master_chan ≡ some m
      → s.cant_exit_count < exit_limit
      → 1001 ≤ n
      → (run sql fails s (closed_reads n)).status ≡ finished
  gone-ends zero s m g k c h = absurd (omega arith)
  gone-ends (suc n) s m g k c h = elim (Bool-cases s.cant_exit_before_exit_message) [
    | inl w ↦ waits-ends (suc n) s g w c (omega arith)
    | inr w ↦
        let a = at_exit-Waits fails s in
        let t = (handle_channel_exit_procedure (at_exit fails s)).1 in
        ground (
          arith,
          run-closed s (closed_reads n) g,
          a,
          a.stays_gone g,
          exit-first (at_exit fails s) m,
          exit_keeps_gone fails (at_exit fails s),
          waits-ends n t,
        )
  ]
