-- ===== src/ChatChannel/LogFile/Path.antt =====
-- daemon/chatchannel.go and daemon/helper.go: the file that a conversation is logged to.
use wtelnet.Common.{
  ◌≡◌, refl, sym, ap, ◌∙◌, Bool, false, [], ◌∷◌, ◌++◌, ◌==◌, ◌||◌, Bytes, codes, arith,
}
use wtelnet.ChatChannel.LogFile.{log_path}
use wtelnet.Helper.{deslash}

abbrev pub has_slash : Bytes → Bool
has_slash [] = false
has_slash (c ∷ cs) = c == b'/' || has_slash cs

has_slash-append : (xs ys : Bytes) → has_slash (xs ++ ys) ≡ (has_slash xs || has_slash ys)
has_slash-append [] ys = refl
has_slash-append (x ∷ xs) ys = ground (arith, has_slash-append xs ys)

deslash-no_slash : (name : Bytes) → has_slash (deslash name) ≡ false
unfolding deslash
deslash-no_slash [] = refl
deslash-no_slash (c ∷ cs) = ground (arith, deslash-no_slash cs)

deslash-append : (xs ys : Bytes) → deslash (xs ++ ys) ≡ deslash xs ++ deslash ys
unfolding deslash
deslash-append [] ys = refl
deslash-append (x ∷ xs) ys = ground (arith, deslash-append xs ys)

log_path-no_slash : (name : Bytes) → has_slash (log_path name) ≡ false
unfolding log_path codes
log_path-no_slash name =
    has_slash-append (deslash name) (codes ".channel.log")
    ∙ ap (λ b. b || has_slash (codes ".channel.log")) (deslash-no_slash name)

-- A slash in the name does not show in the path.
log_path-drops : (xs ys : Bytes) → log_path (xs ++ b'/' ∷ ys) ≡ log_path (xs ++ ys)
unfolding log_path
log_path-drops xs ys =
    let left : deslash (b'/' ∷ ys) ≡ deslash ys = unfold deslash in refl in
    ap (λ l. l ++ codes ".channel.log")
      (deslash-append xs (b'/' ∷ ys) ∙ ap (λ l. deslash xs ++ l) left ∙ sym (deslash-append xs ys))

-- Whatever a channel is called, the path of its log has no slash, so that the file stands in the
-- current directory; and two channels whose names differ in one slash only have one log.
pub log_path-local :
    (xs ys : Bytes)
    → (has_slash (log_path (xs ++ b'/' ∷ ys)) ≡ false)
      × (has_slash (log_path (xs ++ ys)) ≡ false)
      × (log_path (xs ++ b'/' ∷ ys) ≡ log_path (xs ++ ys))
log_path-local xs ys =
    (log_path-no_slash (xs ++ b'/' ∷ ys), log_path-no_slash (xs ++ ys), log_path-drops xs ys)
