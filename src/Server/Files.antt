-- ===== src/Server/Files.antt =====
-- daemon/wtelnet.go: `fileExists` and `openDatabase`.
use wtelnet.Common.{
  ◌-◌, ◌≤◌, ◌<◌, ◌≡◌, refl, sym, ap, ◌∙◌, ◌≢◌, ◌↔◌, Bool, true, false, Option, none, some, [], ◌∷◌,
  ◌++◌, ltb, if◌then◌else◌, Bytes, codes, same_text, length, take, drop, take-append-drop,
  length-append, Error, ok, err, panic, check, bind-ok, panic≢ok, ok_inj, arith, Bool-cases,
  Option-cases, inl, inr, same_text-eq, same_text_refl,
}
use wtelnet.Server.{
  Disk, create_user_table, create_user_index, create_channel_table, create_channel_index,
  exec_statement, not_found, missing_file, file_exists, create_database, open_database,
}

drop-append : (pre post : Bytes) → drop (length pre) (pre ++ post) ≡ post
drop-append [] post = refl
drop-append (x ∷ pre) post = drop-append pre post

not_found-length : length not_found ≡ 25
unfolding codes
not_found-length = refl

abbrev ends : Error → Bool
ends e = same_text (drop (length e - 25) e) not_found

ends-split : (e : Error) → ends e ≡ true → (pre : Bytes) × (pre ++ not_found ≡ e)
ends-split e h =
    let n = length e - 25 in
    (
      take n e,
      ap (λ post. take n e ++ post) (sym (same_text-eq (drop n e) not_found h))
          ∙ take-append-drop n e,
    )

ends-append : (pre : Bytes) → ends (pre ++ not_found) ≡ true
ends-append pre =
    let n : length (pre ++ not_found) - 25 ≡ length pre =
      omega (arith, length-append pre not_found, not_found-length) in
    rw (n, drop-append pre not_found) (same_text_refl not_found)

missing_file-short : (e : Error) → length e < 25 → missing_file e ≡ panic
unfolding missing_file
missing_file-short e h = ground arith

missing_file-long :
    (e : Error) → 25 ≤ length e → missing_file e ≡ (if ends e then ok false else err e)
unfolding missing_file
missing_file-long e h = ground arith

-- The error of `os.Open` counts as a missing file exactly if its message ends in "no such file or
-- directory", and the code panics exactly if the message has fewer than 25 bytes.
pub missing_file-exactly :
    (e : Error)
    → ((missing_file e ≡ ok false) ↔ ((pre : Bytes) × (pre ++ not_found ≡ e)))
      × ((missing_file e ≡ panic) ↔ (length e < 25))
missing_file-exactly e = elim (Bool-cases (ltb (length e) 25)) [
  | inl short ↦
      let p = missing_file-short e (ground arith) in
      (
        (
          λ h. absurd (panic≢ok false (sym p ∙ h)),
          λ (pre, q).
              let l : length e ≡ length (pre ++ not_found) = ap length (sym q) in
              absurd (ground (arith, length-append pre not_found, not_found-length)),
        ),
        (λ h. ground arith, λ h. p),
      )
  | inr long ↦
      let p = missing_file-long e (ground arith) in
      (
        (
          λ h. elim (Bool-cases (ends e)) [
            | inl yes' ↦ ends-split e yes'
            | inr no' ↦ absurd (ground arith)
          ],
          λ (pre, q). let found : ends e ≡ true = ap ends (sym q) ∙ ends-append pre in ground arith,
        ),
        (λ h. absurd (ground arith), λ h. absurd (ground arith)),
      )
]

-- What the file system and SQLite are documented to do: a file that can be opened can be closed, and
-- once a transaction is committed there is a file that can be opened.
pub record IsDisk (disk : Disk) : Type 0 where
  pub closes : (w : disk.World) → disk.open_file w ≡ none → disk.close_file w ≡ none
  pub commit_opens :
      (w w' : disk.World) (tx : disk.Tx) → disk.commit w tx ≡ ok w' → disk.open_file w' ≡ none

module _ (disk : Disk) where
  open disk use {World, Tx, open_file, close_file, sql_open, begin, tx_prepare, exec, commit}

  -- A database that was created is the one that a commit left, after the four statements, in this
  -- order, in the transaction that was begun.
  pub create_database-committed :
      (w w' : World)
      → create_database disk w ≡ ok w'
      → (tx tx₁ tx₂ tx₃ tx₄ : Tx) × (begin w ≡ ok tx)
        × (exec tx create_user_table ≡ ok tx₁)
        × (exec tx₁ create_user_index ≡ ok tx₂)
        × (exec tx₂ create_channel_table ≡ ok tx₃)
        × (exec tx₃ create_channel_index ≡ ok tx₄)
        × (commit w tx₄ ≡ ok w')
  unfolding create_database exec_statement
  create_database-committed w w' h =
      let (_, _, h₁) = bind-ok (check (sql_open w)) _ _ h in
      let (tx, b, h₂) = bind-ok (begin w) _ _ h₁ in
      let (tx₁, e₁, h₃) = bind-ok (exec_statement disk tx create_user_table) _ _ h₂ in
      let (tx₂, e₂, h₄) = bind-ok (exec_statement disk tx₁ create_user_index) _ _ h₃ in
      let (tx₃, e₃, h₅) = bind-ok (exec_statement disk tx₂ create_channel_table) _ _ h₄ in
      let (tx₄, e₄, h₆) = bind-ok (exec_statement disk tx₃ create_channel_index) _ _ h₅ in
      let run = λ (t t' : Tx) (cmd : Bytes) (e : exec_statement disk t cmd ≡ ok t').
        (bind-ok (check (tx_prepare t cmd)) _ _ e).2 in
      (
        tx,
        tx₁,
        tx₂,
        tx₃,
        tx₄,
        b,
        run tx tx₁ create_user_table e₁,
        run tx₁ tx₂ create_user_index e₂,
        run tx₂ tx₃ create_channel_table e₃,
        run tx₃ tx₄ create_channel_index e₄,
        h₆,
      )

  check-ok : (o : Option Error) (u : Unit {0}) → check o ≡ ok u → o ≡ none
  check-ok none u h = refl
  check-ok (some e) u h = cc

  file_there : (w : World) → open_file w ≡ none → close_file w ≡ none → file_exists disk w ≡ ok true
  unfolding file_exists
  file_there w o c = ground arith

  missing_file-never : (e : Error) → missing_file e ≢ ok true
  missing_file-never e h = elim (Bool-cases (ltb (length e) 25)) [
    | inl short ↦ absurd (panic≢ok true (sym (missing_file-short e (ground arith)) ∙ h))
    | inr long ↦
        let p = missing_file-long e (ground arith) in
        elim (Bool-cases (ends e)) [ inl a ↦ ground arith | inr a ↦ ground arith ]
  ]

  file_not_there :
      (w : World) (e : Error) → open_file w ≡ some e → file_exists disk w ≡ missing_file e
  unfolding file_exists
  file_not_there w e o = ground arith

  there_file : (w : World) → file_exists disk w ≡ ok true → open_file w ≡ none
  there_file w h = elim (Option-cases (open_file w)) [
    | inl o ↦ o
    | inr (e, o) ↦ absurd (missing_file-never e (sym (file_not_there w e o) ∙ h))
  ]

  open_again :
      IsDisk disk
      → (w : World) → open_file w ≡ none
      → sql_open w ≡ none
      → open_database disk w ≡ ok w
  unfolding open_database
  open_again laws w o s = ground (arith, file_there w o (laws.closes w o))

  opened_file :
      IsDisk disk
      → (w w₁ : World) (found : Bool) → file_exists disk w ≡ ok found
      → (if found then ok w else create_database disk w) ≡ ok w₁
      → open_file w₁ ≡ none
  opened_file laws w w₁ true f h = ap open_file (ok_inj (sym h)) ∙ there_file w f
  opened_file laws w w₁ false f h =
      let (tx, tx₁, tx₂, tx₃, tx₄, _, _, _, _, _, c) = create_database-committed w w₁ h in
      laws.commit_opens w w₁ tx₄ c

  -- Once `openDatabase` has succeeded, the next start finds the database as it was left: it executes
  -- no statement and changes nothing.
  pub open_database_twice :
      IsDisk disk → (w w' : World) → open_database disk w ≡ ok w' → open_database disk w' ≡ ok w'
  unfolding open_database
  open_database_twice laws w w' h =
      let (found, f, h₁) = bind-ok (file_exists disk w) _ _ h in
      let (w₁, b, h₂) =
        bind-ok {B = World} (if found then ok w else create_database disk w) _ _ h₁ in
      let (u, s, h₃) = bind-ok (check (sql_open w₁)) _ _ h₂ in
      let same : w₁ ≡ w' = ok_inj h₃ in
      open_again laws w' (ap open_file (sym same) ∙ opened_file laws w w₁ found f b)
        (ap sql_open (sym same) ∙ check-ok (sql_open w₁) u s)
