-- ===== src/Doppelganger/Session.antt =====
-- daemon/doppelganger.go: what is true of `userInfo` between two turns of the main loop.
pub mod Keys
pub mod Lines
pub mod Turns
use wtelnet.Common.{◌≡◌, ◌==◌, Bool, true, false, ◌&&◌, not, Bytes, List, arith, length, refl}
use wtelnet.Doppelganger.{
  UserInfo, Effect, Mode, username, new_user_yn, new_password1, new_password2, regular_password,
  command_mode,
}
use wtelnet.Doppelganger.Backspace.{IsBlanks}
use wtelnet.Doppelganger.Frame.{Keeps}
use wtelnet.Doppelganger.Keys.Bounds.{IsInRange}
use wtelnet.Doppelganger.Keys.Typing.{IsReading}

abbrev pub asks_password : Mode → Bool
asks_password username = false
asks_password new_user_yn = false
asks_password new_password1 = true
asks_password new_password2 = true
asks_password regular_password = true
asks_password command_mode = false

abbrev pub takes_commands : Mode → Bool
takes_commands command_mode = true
takes_commands _ = false

module _ {Db : Type 0} (s : UserInfo Db) where
  -- The buffers are sound, and commands are taken exactly from a user who is logged in.
  pub record IsSteady : Type 0 where
    pub reading : IsReading s
    pub blank : IsBlanks s.backspace_buffer
    pub login : takes_commands s.mode ≡ not (s.user_id == 0)

  -- Between turns: where a password is asked for, a prompt is due, which turns the echo off, or the
  -- echo is off.
  pub record IsSound : Type 0 where
    pub steady : IsSteady
    pub hidden : (asks_password s.mode && not s.prompt_needed && s.echo_on) ≡ false

  -- After the prompt: where a password is asked for the echo is off.
  pub record IsPrompted : Type 0 where
    pub steady : IsSteady
    pub silent : (asks_password s.mode && s.echo_on) ≡ false

module _ {Db : Type 0} {s : UserInfo Db} where
  pub IsPrompted-IsSound : IsPrompted s → IsSound s
  IsPrompted-IsSound p = record { steady = p.steady; hidden = ground (arith, p.silent) }

module _ {Db : Type 0} {s t : UserInfo Db} where
  pub Keeps-IsReading : Keeps s t → IsReading s → IsReading t
  Keeps-IsReading k r = record {
    in_range = record {
      cursor_in_line = ground (arith, r.in_range.cursor_in_line);
      position_in_sequence = ground (arith, r.in_range.position_in_sequence);
      sequence_of_three = ground (arith, r.in_range.sequence_of_three);
    };
    began = ground (arith, r.began);
    no_return_before = ground (arith, r.no_return_before);
  }

  pub Keeps-IsSteady : Keeps s t → IsSteady s → IsSteady t
  Keeps-IsSteady k p = record {
    reading = Keeps-IsReading k p.reading;
    blank = k.still_blank p.blank;
    login = ground (arith, p.login);
  }

module _ {Db : Type 0} {s t : UserInfo Db} where
  pub Keeps-IsPrompted : Keeps s t → IsPrompted s → IsPrompted t
  Keeps-IsPrompted k p = record {
    steady = Keeps-IsSteady k p.steady;
    silent = ground (arith, p.silent);
  }

  pub Keeps-IsSound : Keeps s t → t.prompt_needed ≡ s.prompt_needed → IsSound s → IsSound t
  Keeps-IsSound k e p = record {
    steady = Keeps-IsSteady k p.steady;
    hidden = ground (arith, p.hidden);
  }

module _ {Db : Type 0} {s : UserInfo Db} where
  -- The echo is no part of it.
  pub IsSteady-echo : (b : Bool) → IsSteady s → IsSteady (record s { echo_on = b })
  IsSteady-echo b p = record {
    reading = record {
      in_range = record {
        cursor_in_line = p.reading.in_range.cursor_in_line;
        position_in_sequence = p.reading.in_range.position_in_sequence;
        sequence_of_three = p.reading.in_range.sequence_of_three;
      };
      began = p.reading.began;
      no_return_before = p.reading.no_return_before;
    };
    blank = p.blank;
    login = p.login;
  }
