-- ===== src/Telnet/Forwarding.antt =====
-- daemon/servetelnet.go: which bytes reach the doppelganger.
use wtelnet.Common.{ℕ, ◌≡◌, refl, none, some, List, [], ◌∷◌, ◌++◌, ◌==◌, if◌then◌else◌, arith}
use wtelnet.Telnet.{
  Answer, Effect, sent, closed, wrote, logged, ends_session, log_if_many, serve_telnet,
}

-- The bytes that the connection gave before its first error.
abbrev pub received : List Answer → List ℕ
received [] = []
received (a ∷ answers) = elim a.error [
  | some e ↦ []
  | none ↦ if a.num_bytes == 1 then a.byte ∷ received answers else received answers
]

-- The bytes up to the first ^C or ^D, this one included.
abbrev pub until_end : List ℕ → List ℕ
until_end [] = []
until_end (c ∷ cs) = c ∷ (if ends_session c then [] else until_end cs)

abbrev pub sent_bytes : List Effect → List ℕ
sent_bytes [] = []
sent_bytes (sent c ∷ es) = c ∷ sent_bytes es
sent_bytes (closed ∷ es) = sent_bytes es
sent_bytes (wrote text ∷ es) = sent_bytes es
sent_bytes (logged text ∷ es) = sent_bytes es

sent_bytes-log : (n : ℕ) (es : List Effect) → sent_bytes (log_if_many n ++ es) ≡ sent_bytes es
sent_bytes-log n es = ground arith

-- Whatever the connection answers, the bytes sent to the doppelganger are the bytes that were read
-- before the first error, in order, up to and with the first ^C or ^D.
pub serve_telnet-forwards :
    (answers : List Answer) → sent_bytes (serve_telnet answers).0 ≡ until_end (received answers)
unfolding serve_telnet
serve_telnet-forwards [] = refl
serve_telnet-forwards (a ∷ answers) =
    ground
      (arith, serve_telnet-forwards answers, sent_bytes-log a.num_bytes (serve_telnet answers).0)
