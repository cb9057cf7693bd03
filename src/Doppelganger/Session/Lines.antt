-- ===== src/Doppelganger/Session/Lines.antt =====
-- daemon/doppelganger.go: the lines of the login modes and the commands keep a session sound.
use wtelnet.Common.{
  ◌≡◌, refl, ◌==◌, inl, inr, Bool, true, false, not, Option, none, some, List, [], Bytes, arith,
  Int64, Result-cases, if_elim, same_text, codes, ◌∷◌,
}
use wtelnet.Database.{Sql, user_exists, create_user, login}
use wtelnet.Doppelganger.{
  UserInfo, Effect, Mode, username, new_user_yn, new_password1, new_password2, regular_password,
  command_mode, typed, long_write, say, does, logged,
}
use wtelnet.Helper.{trim}
use wtelnet.Doppelganger.Frame.{Keeps}
use wtelnet.Doppelganger.Commands.{Reply, reply, panicked, do_command}
use wtelnet.Doppelganger.Commands.Frame.{state_of, do_command-Keeps}
use wtelnet.Doppelganger.Lines.{
  Handled, handled, crashed, command_of, name_known, on_yes_no, on_new_password1, account_made,
  no_match, logged_in, after_reply, reset_cursor, on_username, make_account, on_new_password2,
  on_password, on_command, by_mode, handle_line,
}
use wtelnet.Doppelganger.Session.{
  takes_commands, IsSteady, IsSound, IsPrompted, IsPrompted-IsSound, Keeps-IsPrompted,
}

abbrev pub state_after : {Db : Type 0} → Handled Db → UserInfo Db
state_after (handled s) = s
state_after (crashed s) = s

module _ {Db : Type 0} where
  -- The line and the sequence are as they were, a prompt is due, and the mode fits the user.
  pub record Due (s t : UserInfo Db) : Type 0 where
    pub same_line : t.line_buffer ≡ s.line_buffer
    pub same_cursor : t.cursor_column ≡ s.cursor_column
    pub same_sequence : t.control_sequence ≡ s.control_sequence
    pub same_position : t.ctrl_seq_position ≡ s.ctrl_seq_position
    pub same_prev : t.prev_usr_byte ≡ s.prev_usr_byte
    pub same_blank : t.backspace_buffer ≡ s.backspace_buffer
    pub prompt_due : t.prompt_needed ≡ true
    pub fits : takes_commands t.mode ≡ not (t.user_id == 0)

  Due-IsSound : {s t : UserInfo Db} → Due s t → IsSteady s → IsSound t
  Due-IsSound d p = record {
    steady = record {
      reading = record {
        in_range = record {
          cursor_in_line = ground (arith, p.reading.in_range.cursor_in_line);
          position_in_sequence = ground (arith, p.reading.in_range.position_in_sequence);
          sequence_of_three = ground (arith, p.reading.in_range.sequence_of_three);
        };
        began = ground (arith, p.reading.began);
        no_return_before = ground (arith, p.reading.no_return_before);
      };
      blank = rw d.same_blank p.blank;
      login = d.fits;
    };
    hidden = ground (arith, d.prompt_due);
  }

module _ {Db : Type 0} (fails : List Effect → Bytes → Bool) (s : UserInfo Db)
    (logged_out : false ≡ not (s.user_id == 0)) where
  name_known-Due : (exists : Bool) → Due s (name_known fails exists s)
  unfolding name_known
  name_known-Due true = ground arith
  name_known-Due false = ground arith

  on_yes_no-Due : (command : Bytes) → Due s (on_yes_no fails command s)
  unfolding on_yes_no
  on_yes_no-Due command = ground arith

  on_new_password1-Due :
      (command : Bytes) → s.mode ≡ new_password1 → Due s (on_new_password1 fails command s)
  unfolding on_new_password1
  on_new_password1-Due command m = ground arith

  account_made-Due : (e : Option Bytes) → Due s (account_made fails e s)
  unfolding account_made
  account_made-Due none = ground arith
  account_made-Due (some e) = ground arith

  no_match-Due : Due s (no_match fails s)
  unfolding no_match
  no_match-Due = ground arith

module _ {Db : Type 0} (fails : List Effect → Bytes → Bool) (s : UserInfo Db) where
  -- The mode after a password follows from the id that `login` returned.
  logged_in-Due : (id : Int64) (name : Bytes) → Due s (logged_in fails id name s)
  unfolding logged_in
  logged_in-Due id name = ground arith

  after_reply-Keeps : (r : Reply Db) → Keeps s (state_of r) → Keeps s (state_after (after_reply r))
  after_reply-Keeps (reply prompt e t) k = ground (arith, k.still_blank)
  after_reply-Keeps (panicked t) k = k

  -- A step that the frame covers, and then one after which a prompt is due.
  Keeps-Due-IsSound : {t u : UserInfo Db} → IsPrompted s → Keeps s t → Due t u → IsSound u
  Keeps-Due-IsSound p k d = Due-IsSound d (Keeps-IsPrompted k p).steady

  reset_cursor-IsSound :
      (h : Handled Db) → IsSound (state_after h) → IsSound (state_after (reset_cursor h))
  reset_cursor-IsSound (handled t) p = record {
    steady = record {
      reading = record {
        in_range = record {
          cursor_in_line = omega arith;
          position_in_sequence = p.steady.reading.in_range.position_in_sequence;
          sequence_of_three = p.steady.reading.in_range.sequence_of_three;
        };
        began = p.steady.reading.began;
        no_return_before = p.steady.reading.no_return_before;
      };
      blank = p.steady.blank;
      login = p.steady.login;
    };
    hidden = p.hidden;
  }
  reset_cursor-IsSound (crashed t) p = p

module _ (sql : Sql) (fails : List Effect → Bytes → Bool) (s : UserInfo sql.Db)
    (p : IsPrompted s) where
  logged_out : (m : Mode) → s.mode ≡ m → takes_commands m ≡ false → false ≡ not (s.user_id == 0)
  logged_out m e h = ground (arith, p.steady.login)

  on_username-IsSound :
      (command : Bytes)
      → s.mode ≡ username
      → IsSound (state_after (on_username sql fails command s))
  unfolding on_username
  on_username-IsSound command m =
      let out = logged_out username m refl in
      let named = record s { attempting_user_name = command } in
      elim (Result-cases (user_exists sql s.db command)) [
        | inl (exists, e) ↦
            rw (e, on_username)
              (Keeps-Due-IsSound fails s {t = named} p (ground arith)
                (name_known-Due fails named out exists))
        | inr (inl (x, e)) ↦
            rw (e, on_username)
              (let told =
                  say fails (codes "A database error occurred.\r\n") (does (logged x) named) in
                Keeps-Due-IsSound fails s {t = told} p (ground arith)
                  (name_known-Due fails told out false))
        | inr (inr e) ↦ rw (e, on_username) (IsPrompted-IsSound (Keeps-IsPrompted (ground arith) p))
      ]

  make_account-IsSound : s.mode ≡ new_password2 → IsSound (state_after (make_account sql fails s))
  unfolding make_account
  make_account-IsSound m =
      let out = logged_out new_password2 m refl in
      elim (Result-cases
        (create_user sql s.db s.attempting_user_name s.attempting_user_new_password)) [
          | inl ((db', x), e) ↦
              rw (e, make_account)
                (Keeps-Due-IsSound fails s {t = record s { db = db' }} p (ground arith)
                  (account_made-Due fails (record s { db = db' }) out x))
          | inr (inl (x, e)) ↦
              rw (e, make_account) (Due-IsSound (account_made-Due fails s out (some x)) p.steady)
          | inr (inr e) ↦ rw (e, make_account) (IsPrompted-IsSound p)
        ]

  on_password-IsSound : (command : Bytes) → IsSound (state_after (on_password sql fails command s))
  unfolding on_password
  on_password-IsSound command =
      elim (Result-cases (login sql s.db s.attempting_user_name command)) [
        | inl ((id, name), e) ↦
            rw (e, on_password) (Due-IsSound (logged_in-Due fails s id name) p.steady)
        | inr (inl (x, e)) ↦ rw (e, on_password) (Due-IsSound (logged_in-Due fails s 0 []) p.steady)
        | inr (inr e) ↦ rw (e, on_password) (IsPrompted-IsSound p)
      ]

module _ (sql : Sql) (fails : List Effect → Bytes → Bool) where
  abbrev SoundAfter : Handled sql.Db → Type 0
  SoundAfter h = IsSound (state_after h)

  on_new_password2-IsSound :
      (s : UserInfo sql.Db) (p : IsPrompted s) (command : Bytes)
      → s.mode ≡ new_password2
      → SoundAfter (on_new_password2 sql fails command s)
  unfolding on_new_password2
  on_new_password2-IsSound s p command m =
      let s' = (long_write fails (13 ∷ 10 ∷ []) s).1 in
      let p' : IsPrompted s' = Keeps-IsPrompted (ground arith) p in
      if_elim SoundAfter (same_text command s.attempting_user_new_password)
        (make_account-IsSound sql fails s' p' m)
        (Due-IsSound (no_match-Due fails s' (logged_out sql fails s' p' new_password2 m refl))
          p'.steady)

  on_command-IsSound :
      (s : UserInfo sql.Db) (p : IsPrompted s) (command : Bytes)
      → SoundAfter (on_command sql fails command s)
  unfolding on_command
  on_command-IsSound s p command =
      let r = do_command sql fails s (command_of (trim command)) in
      if_elim SoundAfter (same_text (trim command) []) {x = handled s} {y = after_reply r}
        (IsPrompted-IsSound p)
        (IsPrompted-IsSound (
          Keeps-IsPrompted
            (after_reply-Keeps fails s r (do_command-Keeps sql fails s (command_of (trim command))))
            p))

  by_mode-IsSound :
      (m : Mode) (s : UserInfo sql.Db) (p : IsPrompted s) (command : Bytes)
      → s.mode ≡ m
      → SoundAfter (by_mode sql fails m command s)
  unfolding by_mode
  by_mode-IsSound username s p command e = on_username-IsSound sql fails s p command e
  by_mode-IsSound new_user_yn s p command e =
      Due-IsSound (on_yes_no-Due fails s (logged_out sql fails s p new_user_yn e refl) command)
        p.steady
  by_mode-IsSound new_password1 s p command e =
      Due-IsSound
        (on_new_password1-Due fails s (logged_out sql fails s p new_password1 e refl) command e)
        p.steady
  by_mode-IsSound new_password2 s p command e = on_new_password2-IsSound s p command e
  by_mode-IsSound regular_password s p command e = on_password-IsSound sql fails s p command
  by_mode-IsSound command_mode s p command e = on_command-IsSound s p command

  pub handle_line-IsSound :
      (s : UserInfo sql.Db) → IsPrompted s → IsSound (state_after (handle_line sql fails s))
  unfolding handle_line
  handle_line-IsSound s p =
      let h = by_mode sql fails s.mode (trim (typed s)) s in
      let blank = record s { prompt_needed = false } in
      if_elim SoundAfter (same_text (trim (typed s)) []) {x = handled blank} {y = reset_cursor h}
        (IsPrompted-IsSound (Keeps-IsPrompted {s = s} {t = blank} (ground arith) p))
        (reset_cursor-IsSound fails s h (by_mode-IsSound s.mode s p (trim (typed s)) refl))
