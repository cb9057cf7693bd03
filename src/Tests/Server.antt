-- ===== src/Tests/Server.antt =====
-- The start of the server, on small inputs.
use wtelnet.Common.{
  ◌≡◌, refl, sym, ap, ◌<◌, ◌↔◌, Bool, true, false, none, some, [], ◌∷◌, ◌++◌, if◌then◌else◌, Bytes,
  codes, length, Error, ok, same_text, panic, ok_inj,
}
use wtelnet.Server.{
  Disk, not_found, missing_file, file_exists, create_database, exec_statement, open_database,
  returned, listening, main, keeps_going, too_many, index, starts_with,
}
use wtelnet.Server.Files.{IsDisk, missing_file-exactly, open_database_twice}
use wtelnet.Server.Listening.{Rounds, main-Rounds}
use wtelnet.Server.Phrase.{IsBusy, keeps_going-IsBusy}
use wtelnet.ChatChannel.LogFile.{log_path}
use wtelnet.ChatChannel.LogFile.Path.{has_slash, log_path-local}

abbrev no_file : Error
no_file = codes "open waynetelnet.db: no such file or directory"

missing_file-exactly_example :
    ((missing_file no_file ≡ ok false) ↔ ((pre : Bytes) × (pre ++ not_found ≡ no_file)))
    × ((missing_file no_file ≡ panic) ↔ (length no_file < 25))
missing_file-exactly_example = missing_file-exactly no_file

-- A disk that knows only whether the database is there.
abbrev small_disk : Disk
small_disk = record {
  World = Bool;
  Tx = Unit {0};
  open_file = λ there. if there then none else some no_file;
  close_file = λ there. none;
  sql_open = λ there. none;
  begin = λ there. ok tt;
  tx_prepare = λ tx statement. none;
  exec = λ tx statement. ok tx;
  commit = λ there tx. ok true;
}

small_disk-IsDisk : IsDisk small_disk
small_disk-IsDisk = record {
  closes = λ w e. refl;
  commit_opens = λ w w' tx e. ap small_disk.open_file (ok_inj (sym e));
}

first_start : open_database small_disk false ≡ ok true
unfolding open_database file_exists codes same_text create_database exec_statement
first_start = refl

open_database_twice_example : open_database small_disk true ≡ ok true
open_database_twice_example =
    open_database_twice small_disk small_disk-IsDisk false true first_start

abbrev accept_error : Error
accept_error = codes "accept tcp [::]:5555: accept: too many open files"

accept_error-IsBusy : IsBusy accept_error
unfolding codes
accept_error-IsBusy =
    keeps_going-IsBusy accept_error (unfold keeps_going index starts_with codes in refl)

too_many-ne-IsBusy : ¬ IsBusy too_many
unfolding codes
too_many-ne-IsBusy b = b.1 ([], refl)

-- A message that begins with the phrase ends the loop.
main-Rounds_example :
    Rounds 2 1 listening (main {World = Bool} (ok true) (some accept_error ∷ []))
    × Rounds 2 1 returned
        (main {World = Bool} (ok true) (some accept_error ∷ some too_many ∷ none ∷ []))
main-Rounds_example =
    main-Rounds {World = Bool} true (accept_error ∷ []) (some too_many) (none ∷ [])
      (accept_error-IsBusy, tt) too_many-ne-IsBusy

log_path-local_example :
    (has_slash (log_path (codes "a" ++ b'/' ∷ codes "b")) ≡ false)
    × (has_slash (log_path (codes "a" ++ codes "b")) ≡ false)
    × (log_path (codes "a" ++ b'/' ∷ codes "b") ≡ log_path (codes "a" ++ codes "b"))
log_path-local_example = log_path-local (codes "a") (codes "b")
