-- ===== src/System/Requests.antt =====
-- daemon/channelmaster.go with daemon/chatchannel.go: a request of a user keeps the count.
use mathlib.Core.Path.{subst}
use wtelnet.Common.{
  ℕ, ◌<◌, ◌≡◌, refl, ap, ◌∙◌, inl, inr, [], ◌∷◌, Bytes, Int64, dec, sign_bit, arith, Result, ok,
}
use wtelnet.Common.Dict.{Dict}
use wtelnet.Message.{Chan, MasterToChannelOp, UserToMaster, UserToMasterOp}
use wtelnet.Master.{join_message}
use wtelnet.Master.Joining.{on_join, who_is_on_chat_channel}
use wtelnet.Master.Leaving.{on_exit}
use wtelnet.Master.Loop.{on_user_message}
use wtelnet.ChatChannel.{UserEntry}
use wtelnet.System.{System, IsProper}
use wtelnet.System.Routes.{IsRoute, IsJoined}
use wtelnet.System.Routes.Joins.{on_join-way}
use wtelnet.System.Routes.Others.{who-way, on_exit-way}
use wtelnet.System.Invariant.{
  tally, IsOpen-snoc, IsLine, IsCounted, IsForgotten, IsSound, push-IsLine,
}
use wtelnet.System.Steps.{
  after, quiet-counted, quiet-forgotten, joined-counted, asked_who-sound, left-sound,
}

module _ (visit : Dict UserEntry → Dict UserEntry) (k : Int64) (own : Chan) (s : System)
    (l : IsLine visit k s.room s.queue s.denials) where
  abbrev n : ℕ
  n = tally visit s.room s.queue s.denials

  -- A request, while the channel is counted.
  pub counted-sound :
      (op : UserToMasterOp) (get : Bytes → Result Int64) (msg : UserToMaster)
      → IsProper visit k op get s msg
      → n < sign_bit
      → IsCounted visit k own s.master s.queue n
      → IsSound visit k own (after visit k own s (on_user_message get op s.master msg))
  unfolding on_user_message
  counted-sound UserToMasterOp.join get msg p lt c =
      let t = on_join get s.master msg in
      let (o, w) = on_join-way own (λ j. j ≡ k) k s.master c.owner get msg in
      elim w [
        | inl q ↦ quiet-counted visit k own s l t c o q
        | inr (id, g, j) ↦
            joined-counted visit k own s l t msg c o
              (subst
                (λ i.
                  IsJoined (λ j. j ≡ k) own s.master i (join_message msg MasterToChannelOp.join) t)
                j.owns j)
              (p (g ∙ ap ok j.owns)) lt
      ]
  counted-sound UserToMasterOp.who get msg p lt c =
      let t = who_is_on_chat_channel s.master msg in
      let (e, w) = who-way own (λ j. j ≡ k) k s.master c.owner msg in
      elim w [
        | inl q ↦
            quiet-counted visit k own s l t c (rw e c.owner)
              (record { silent = q; kept = λ info f u. rw e f })
        | inr (i, q) ↦ asked_who-sound visit k own s l t msg e q c (p i)
      ]
  counted-sound UserToMasterOp.exit get msg p lt c =
      let t = on_exit s.master msg in
      let exit = join_message msg MasterToChannelOp.exit in
      let last = join_message msg MasterToChannelOp.shutdown in
      let (o, w) = on_exit-way own (λ j. j ≡ k) k s.master c.owner msg in
      elim w [
        | inl q ↦ quiet-counted visit k own s l t c o q
        | inr r ↦
            let (l', sums) =
              push-IsLine visit k s.room s.queue s.denials exit l c.open_queue (p r.owns) in
            left-sound visit k own s.master s.room n t s.queue (exit ∷ []) last s.denials refl
              (IsOpen-snoc s.queue exit c.open_queue (λ e. cc)) l' (omega (arith, sums)) c o
              (subst (λ i. IsRoute (λ j. j ≡ k) own s.master i dec (exit ∷ []) (last ∷ []) t) r.owns
                r)
      ]
  counted-sound (UserToMasterOp.other x) get msg p lt c =
      quiet-counted visit k own s l (on_user_message get (UserToMasterOp.other x) s.master msg) c
        c.owner (record { silent = refl; kept = λ info f u. f })

  -- A request, once the channel is forgotten.
  pub forgotten-sound :
      (op : UserToMasterOp) (get : Bytes → Result Int64) (msg : UserToMaster)
      → IsForgotten visit own s.master n
      → IsSound visit k own (after visit k own s (on_user_message get op s.master msg))
  unfolding on_user_message
  forgotten-sound UserToMasterOp.join get msg c =
      let t = on_join get s.master msg in
      let (o, w) = on_join-way own (λ j. ⊥) k s.master c.owner get msg in
      elim w [
        | inl q ↦ quiet-forgotten visit k own s l t c o q.silent
        | inr (id, g, j) ↦ absurd j.owns
      ]
  forgotten-sound UserToMasterOp.who get msg c =
      let t = who_is_on_chat_channel s.master msg in
      let (e, w) = who-way own (λ j. ⊥) k s.master c.owner msg in
      elim w [
        | inl q ↦ quiet-forgotten visit k own s l t c (rw e c.owner) q
        | inr (i, q) ↦ absurd i
      ]
  forgotten-sound UserToMasterOp.exit get msg c =
      let t = on_exit s.master msg in
      let (o, w) = on_exit-way own (λ j. ⊥) k s.master c.owner msg in
      elim w [ inl q ↦ quiet-forgotten visit k own s l t c o q.silent | inr r ↦ absurd r.owns ]
  forgotten-sound (UserToMasterOp.other x) get msg c =
      quiet-forgotten visit k own s l (on_user_message get (UserToMasterOp.other x) s.master msg) c
        c.owner refl
