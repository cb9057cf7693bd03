-- ===== src/Doppelganger/Frame.antt =====
-- daemon/doppelganger.go: what a handler leaves alone.
use wtelnet.Common.{◌≡◌}
use wtelnet.Doppelganger.{UserInfo}
use wtelnet.Doppelganger.Backspace.{IsBlanks}

-- The login, the echo, the line and the escape sequence are as they were, and the buffer for
-- backspaces is sound if it was.
pub record Keeps {Db : Type 0} (s t : UserInfo Db) : Type 0 where
  pub same_mode : t.mode ≡ s.mode
  pub same_user : t.user_id ≡ s.user_id
  pub same_echo : t.echo_on ≡ s.echo_on
  pub same_line : t.line_buffer ≡ s.line_buffer
  pub same_cursor : t.cursor_column ≡ s.cursor_column
  pub same_sequence : t.control_sequence ≡ s.control_sequence
  pub same_position : t.ctrl_seq_position ≡ s.ctrl_seq_position
  pub same_prev : t.prev_usr_byte ≡ s.prev_usr_byte
  pub still_blank : IsBlanks s.backspace_buffer → IsBlanks t.backspace_buffer
