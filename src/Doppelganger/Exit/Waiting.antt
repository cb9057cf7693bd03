-- ===== src/Doppelganger/Exit/Waiting.antt =====
-- daemon/doppelganger.go: the exit procedure, run again and again by the main loop, asks for the exit
-- once, and ends.
use wtelnet.Common.{
  ℕ, zero, suc, ◌+◌, ◌≤◌, ◌<◌, ◌≡◌, ◌≢◌, Bool, true, false, some, List, [], ◌∷◌, ltb, if◌then◌else◌,
  is_positive, arith, ◌⊎◌, inl, inr, Bool-cases,
}
use wtelnet.Message.{Chan}
use wtelnet.Doppelganger.{
  UserInfo, Effect, wrote, to_master, to_channel, logged, slept, exit_request,
}
use wtelnet.Doppelganger.Exit.{exit_limit, handle_channel_exit_procedure}

-- The messages to the channel master.
abbrev pub requests : List Effect → ℕ
requests [] = 0
requests (to_master msg ∷ es) = suc (requests es)
requests (wrote text e ∷ es) = requests es
requests (to_channel c msg ∷ es) = requests es
requests (logged text ∷ es) = requests es
requests (slept ∷ es) = requests es

module _ {Db : Type 0} where
  -- The procedure run up to `n` times, until it says that the goroutine may end.
  unfoldable pub repeat_exit : ℕ → UserInfo Db → Bool × UserInfo Db
  repeat_exit zero s = (false, s)
  repeat_exit (suc n) s =
      let r = handle_channel_exit_procedure s in
      let rest = repeat_exit n r.1 in if r.0 then (true, r.1) else rest

  -- A user who is logged in and on a channel asks for the exit, and is off the channel.
  pub exit-asks :
      (s : UserInfo Db) (m : Chan)
      → s.cant_exit_before_exit_message ≡ false
      → s.user_id ≢ 0
      → is_positive s.chat_channel_id ≡ true
      → s.master_chan ≡ some m
      → let (ended, t) = handle_channel_exit_procedure s in
        (ended ≡ false)
        × (t.trace ≡ to_master (exit_request s []) ∷ s.trace)
        × (t.cant_exit_before_exit_message ≡ true)
        × (t.chat_channel_id ≡ 0)
        × (t.cant_exit_count ≡ s.cant_exit_count)
  unfolding handle_channel_exit_procedure
  exit-asks s m w u p c = ground arith

  -- While the exit is under way, a run counts, and asks for nothing.
  pub waiting-step :
      (s : UserInfo Db)
      → s.cant_exit_before_exit_message ≡ true
      → s.cant_exit_count < exit_limit
      → let (ended, t) = handle_channel_exit_procedure s in
        (t.cant_exit_count ≡ s.cant_exit_count + 1)
        × (t.cant_exit_before_exit_message ≡ true)
        × (requests t.trace ≡ requests s.trace)
        × (ended ≡ (if ltb (s.cant_exit_count + 1) exit_limit then false else true))
  unfolding handle_channel_exit_procedure
  waiting-step s w c = ground arith

  waiting-ends :
      (n : ℕ) (s : UserInfo Db)
      → s.cant_exit_before_exit_message ≡ true
      → s.cant_exit_count < exit_limit
      → exit_limit ≤ s.cant_exit_count + n
      → ((repeat_exit n s).0 ≡ true) × (requests (repeat_exit n s).1.trace ≡ requests s.trace)
  unfolding repeat_exit
  waiting-ends zero s w c h = absurd (omega arith)
  waiting-ends (suc n) s w c h =
      let t = (handle_channel_exit_procedure s).1 in
      ground (arith, waiting-step s w c, waiting-ends n t)

  pub exit-first :
      (s : UserInfo Db) (m : Chan)
      → s.cant_exit_before_exit_message ≡ false
      → s.master_chan ≡ some m
      → let (ended, t) = handle_channel_exit_procedure s in
        (requests t.trace ≤ requests s.trace + 1)
        × ((ended ≡ true)
            ⊎ ((t.cant_exit_before_exit_message ≡ true) × (t.cant_exit_count ≡ s.cant_exit_count)))
  unfolding handle_channel_exit_procedure
  exit-first s m w c = ground arith

  exit-later :
      (n : ℕ) (s : UserInfo Db) (m : Chan)
      → s.cant_exit_before_exit_message ≡ false
      → s.master_chan ≡ some m
      → s.cant_exit_count < exit_limit
      → exit_limit ≤ n
      → ((repeat_exit (suc n) s).0 ≡ true)
        × (requests (repeat_exit (suc n) s).1.trace ≤ requests s.trace + 1)
  unfolding repeat_exit
  exit-later n s m w c lt h =
      let t = (handle_channel_exit_procedure s).1 in
      ground (arith, exit-first s m w c, waiting-ends n t)

  -- While the Go channel to the channel master is set and fewer than 1000 waits have been counted, the
  -- exit procedure, run again and again, says after at most 1001 runs that the goroutine may end, and
  -- until then asks the channel master for an exit at most once; where an exit is under way already
  -- it does not ask.
  pub exit-ends :
      (n : ℕ) (s : UserInfo Db) (m : Chan)
      → s.master_chan ≡ some m
      → s.cant_exit_count < exit_limit
      → 1001 ≤ n
      → ((repeat_exit n s).0 ≡ true)
        × (requests (repeat_exit n s).1.trace
            ≤ requests s.trace + (if s.cant_exit_before_exit_message then 0 else 1))
  exit-ends zero s m c lt h = absurd (omega arith)
  exit-ends (suc n) s m c lt h = elim (Bool-cases s.cant_exit_before_exit_message) [
    | inl w ↦ ground (arith, waiting-ends (suc n) s w lt)
    | inr w ↦ ground (arith, exit-later n s m w c lt)
  ]
