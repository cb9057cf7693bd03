-- ===== src/Telnet.antt =====
-- daemon/servetelnet.go: the goroutine that reads a user's bytes and hands them to the
-- doppelganger. The connection is not in the repository: its answers to `Read` are given as a list.
pub mod Forwarding
use wtelnet.Common.{
  ℕ, Bool, Option, none, some, List, [], ◌∷◌, ◌++◌, ◌==◌, ltb, ◌||◌, if◌then◌else◌, Bytes, codes,
  Error,
}

-- `n`, the error and the byte in the buffer, after a `Read` into a buffer of one byte.
pub record Answer : Type 0 where
  pub num_bytes : ℕ
  pub error : Option Error
  pub byte : ℕ

pub data Effect : Type 0 where
  sent : ℕ → Effect
  closed : Effect
  wrote : Bytes → Effect
  logged : Bytes → Effect

-- The loop is reading still, or has returned.
pub data Status : Type 0 where
  reading returned : Status

abbrev pub ends_session : ℕ → Bool
ends_session c = c == 3 || c == 4

abbrev log_if_many : ℕ → List Effect
log_if_many n =
    if ltb 1 n
    then logged (codes "Telnet goroutine: buffer should hold only 1 byte but n > 1") ∷ []
    else []

unfoldable pub serve_telnet : List Answer → List Effect × Status
serve_telnet [] = ([], reading)
serve_telnet (a ∷ answers) =
    let rest = serve_telnet answers in
    elim a.error [
      | some e ↦ (closed ∷ [], returned)
      | none ↦
          if a.num_bytes == 1
          then if ends_session a.byte
            then (sent a.byte ∷ wrote (codes "\r\n") ∷ [], returned)
            else (sent a.byte ∷ rest.0, rest.1)
          else (log_if_many a.num_bytes ++ rest.0, rest.1)
    ]
