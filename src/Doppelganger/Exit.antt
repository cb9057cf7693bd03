-- ===== src/Doppelganger/Exit.antt =====
-- daemon/doppelganger.go: `handleChannelExitProcedure`, which runs after every turn of the main loop
-- once the user is gone.
pub mod Waiting
pub mod Gone
use wtelnet.Common.{
  ℕ, Bool, true, false, none, some, [], ◌∷◌, ◌==◌, ◌||◌, if◌then◌else◌, codes, inc, at_least,
  minus_one,
}
use wtelnet.Doppelganger.{
  about, UserInfo, slept, logged, to_master, does, exit_request, off_channel,
}

abbrev pub exit_limit : ℕ
exit_limit = 1000

module _ {Db : Type 0} where
  -- The branch where an exit message is under way.
  unfoldable pub wait_for_exit : UserInfo Db → Bool × UserInfo Db
  wait_for_exit s =
      let s' = record s { cant_exit_count = inc s.cant_exit_count; trace = slept ∷ s.trace } in
      if at_least exit_limit (inc s.cant_exit_count)
      then (
        true,
        does
            (logged (
              about s (
                codes
                  " error: cantExitBeforeExitMessageFromChannel has looped 1000 times, something is wrong.")))
            s',
      )
      else (false, s')

  -- `true` where the goroutine may end.
  unfoldable pub handle_channel_exit_procedure : UserInfo Db → Bool × UserInfo Db
  unfolding wait_for_exit
  handle_channel_exit_procedure s =
      if s.cant_exit_before_exit_message
      then wait_for_exit s
      else if s.user_id == 0 || s.chat_channel_id == 0
      then (true, s)
      else if s.chat_channel_id == minus_one
      then (
        false,
        off_channel (
            does
              (logged (about s (codes ", chatChannelID == -1, skipping sending of exit message.")))
              s),
      )
      else elim s.master_chan [
        | none ↦ (
          false,
          does (logged (about s (codes " error: global.chanMasterFromDoppelgangerGoChan == nil")))
              s,
        )
        | some _ ↦ (false, off_channel (does (to_master (exit_request s [])) s))
      ]
