-- ===== src/Doppelganger.antt =====
-- daemon/doppelganger.go: the goroutine that stands for one user, its state `userInfo`, and what
-- its handlers share. `oi.LongWrite` and the network are not in the repository: `fails` says which
-- write has an error, from what was done before it and the bytes.
pub mod Keys
pub mod Backspace
pub mod Frame
pub mod Exit
pub mod Commands
pub mod Lines
pub mod Mailbox
pub mod Loop
pub mod Session
pub mod Requests
pub mod Terminal
use Prim.Native.Nat.{◌/◌}
use mathlib.Core.List.{reverse}
use wtelnet.Common.{
  ℕ, zero, suc, ◌+◌, ◌-◌, ◌*◌, Bool, true, Option, some, List, [], ◌∷◌, ◌++◌, ◌==◌, ltb, ◌||◌,
  if◌then◌else◌, Bytes, codes, Int64, length, take,
}
use wtelnet.Helper.{int64_to_str}
use wtelnet.Message.{Chan, UserToMaster, UserToMasterOp, UserToChannel}

-- Login modes.
pub data Mode : Type 0 where
  username new_user_yn new_password1 new_password2 regular_password command_mode : Mode

-- `wrote` is a call of `oi.LongWrite` with its bytes and whether it had an error.
pub data Effect : Type 0 where
  wrote : Bytes → Bool → Effect
  to_master : UserToMaster → Effect
  to_channel : Chan → UserToChannel → Effect
  logged : Bytes → Effect
  slept : Effect

-- `userInfo`, less the writer, with the database, the global channel to the channel master and what
-- the goroutine has done, the newest first.
pub record UserInfo (Db : Type 0) : Type 0 where
  pub user_id : Int64
  pub user_name : Bytes
  pub doppelganger_id : Int64
  pub chat_channel_id : Int64
  pub chat_channel_name : Bytes
  pub chat_channel_callback : Option Chan
  pub incoming_from_channel_master : Chan
  pub incoming_from_chat_channel : Chan
  pub mode : Mode
  pub prompt_needed : Bool
  pub prompt_len : ℕ
  pub line_buffer : Bytes
  pub backspace_buffer : Bytes
  pub attempting_user_name : Bytes
  pub attempting_user_new_password : Bytes
  pub control_sequence : Bytes
  pub ctrl_seq_position : ℕ
  pub cursor_column : ℕ
  pub prev_usr_byte : ℕ
  pub echo_on : Bool
  pub telnet_goroutine_has_gone_away : Bool
  pub cant_exit_before_exit_message : Bool
  pub cant_exit_count : Int64
  pub db : Db
  pub master_chan : Option Chan
  pub trace : List Effect

abbrev pub no_channel : Bytes
no_channel = codes "(no channel)"

module _ {Db : Type 0} where
  -- A line of the program's log, with the two ids of the user.
  abbrev pub about : UserInfo Db → Bytes → Bytes
  about s text =
      codes "doppelganger ID "
      ++ int64_to_str s.doppelganger_id
      ++ codes " user ID "
      ++ int64_to_str s.user_id
      ++ text

  abbrev pub does : Effect → UserInfo Db → UserInfo Db
  does e s = record s { trace = e ∷ s.trace }

  -- The part of the line that the user sees.
  abbrev pub typed : UserInfo Db → Bytes
  typed s = take s.cursor_column s.line_buffer

-- The loop that fills `additional`, three bytes a round.
unfoldable pub blanks : ℕ → Bytes
blanks zero = []
blanks (suc n) = 8 ∷ 32 ∷ 8 ∷ blanks n

-- `backspaceBuffer` for an amount. Its length is a multiple of three, before and after.
unfoldable pub grow_backspace_buffer : Bytes → ℕ → Bytes
unfolding blanks
grow_backspace_buffer buffer amount =
    if ltb (length buffer) (amount * 3)
    then buffer ++ blanks ((amount * 3 - length buffer + 2) / 3)
    else buffer

module _ {Db : Type 0} (fails : List Effect → Bytes → Bool) where
  abbrev pub long_write : Bytes → UserInfo Db → Bool × UserInfo Db
  long_write text s = let e = fails s.trace text in (e, record s { trace = wrote text e ∷ s.trace })

  -- A write, and after an error the telnet goroutine counts as gone.
  abbrev pub say : Bytes → UserInfo Db → UserInfo Db
  say text s =
      let e = fails s.trace text in
      record s {
        trace = wrote text e ∷ s.trace;
        telnet_goroutine_has_gone_away = if e then true else s.telnet_goroutine_has_gone_away;
      }

  unfoldable pub backspace_out : UserInfo Db → ℕ → Bool × UserInfo Db
  backspace_out s amount =
      let buffer = grow_backspace_buffer s.backspace_buffer amount in
      long_write (take (amount * 3) buffer) (record s { backspace_buffer = buffer })

module _ {Db : Type 0} where
  -- The message to the channel master that `/exit` and the exit procedure share.
  abbrev pub exit_request : UserInfo Db → Bytes → UserToMaster
  exit_request s parameter = record {
    operation = UserToMasterOp.exit;
    user_id = s.user_id;
    user_name = s.user_name;
    doppelganger_id = s.doppelganger_id;
    chat_channel_id = s.chat_channel_id;
    parameter = parameter;
    callback_from_channel_master = some s.incoming_from_channel_master;
    callback_from_chat_channel = some s.incoming_from_chat_channel;
  }

  abbrev pub off_channel : UserInfo Db → UserInfo Db
  off_channel s = record s {
    chat_channel_id = 0;
    chat_channel_name = no_channel;
    cant_exit_before_exit_message = true;
  }
