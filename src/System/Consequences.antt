-- ===== src/System/Consequences.antt =====
-- daemon/channelmaster.go with daemon/chatchannel.go: what follows where the count is right.
use mathlib.Core.Path.{subst}
use wtelnet.Common.{
  ◌+◌, ◌≤◌, ◌≡◌, refl, sym, ap, ◌∙◌, ◌≢◌, inl, inr, none, some, List, [], ◌∷◌, ◌++◌, Bytes, Int64,
  arith, Result, length, length-append,
}
use wtelnet.Common.Dict.{Dict, lookup}
use wtelnet.Message.{
  Chan, MasterToChannel, MasterToChannelOp, UserToMaster, UserToMasterOp, ChannelToMaster,
}
use wtelnet.Master.{PerChatChan, running}
use wtelnet.Master.Leaving.{member_left, on_exit, on_join_denied}
use wtelnet.Master.Loop.{
  Event, from_user, from_channel, heartbeat, turn, on_user_message, on_channel_message,
}
use wtelnet.ChatChannel.{UserEntry}
use wtelnet.System.{System, sent_to, settle, settled, on_the_way, IsMember}
use wtelnet.System.Rooms.{IsFrom}
use wtelnet.System.Routes.{IsOwner}
use wtelnet.System.Routes.Joins.{on_join-way}
use wtelnet.System.Routes.Others.{who-way, on_exit-way, on_channel-way}
use wtelnet.System.Handling.{length_held}
use wtelnet.System.Invariant.{tally, IsOpen, IsCounted, IsForgotten, IsSound}
use wtelnet.System.Steps.{length-zero}

IsOpen-shutdown :
    (queue : List MasterToChannel) (last : MasterToChannel)
    → IsOpen (queue ++ last ∷ [])
    → last.operation ≢ MasterToChannelOp.shutdown
IsOpen-shutdown [] last (n, _) = n
IsOpen-shutdown (x ∷ queue) last (_, o) = IsOpen-shutdown queue last o

module _ (visit : Dict UserEntry → Dict UserEntry) (k : Int64) (own : Chan) (s : System)
    (v : IsSound visit k own s) where
  pub counted_lem :
      (info : PerChatChan)
      → lookup k s.master.running_map ≡ some info
      → info.chat_channel_callback ≡ own
      → (info.member_count ≡ length (settled visit s).member_list + length (on_the_way visit s))
        × (1 ≤ info.member_count)
  counted_lem info f u = elim v.phase [
    | inl c ↦
        let e : info ≡ c.info = cc (f, c.found) in
        let same = ap (λ x. x.member_count) e ∙ c.counted in
        (same, omega (arith, same, c.some_left))
    | inr c ↦ absurd (c.owner.1 k info f u)
  ]

  held-IsCounted :
      1 ≤ tally visit s.room s.queue s.denials
      → IsCounted visit k own s.master s.queue (tally visit s.room s.queue s.denials)
  held-IsCounted h = elim v.phase [ inl c ↦ c | inr c ↦ absurd (omega (arith, c.none_left)) ]

  pub exit-running_lem :
      (msg : UserToMaster)
      → k ≢ 0
      → msg.chat_channel_id ≡ k
      → IsMember visit s msg.doppelganger_id
      → (on_exit s.master msg).status ≡ running
  unfolding on_exit member_left
  exit-running_lem msg z e (entry, l) =
      let c =
        held-IsCounted
          (omega (arith, length_held msg.doppelganger_id entry (settled visit s).member_list l)) in
      let f : lookup msg.chat_channel_id s.master.running_map ≡ some c.info =
        subst (λ i. lookup i s.master.running_map ≡ some c.info) (sym e) c.found in
      ground arith

  pub denial-running_lem :
      (msg : ChannelToMaster) (denials : List ChannelToMaster)
      → s.denials ≡ msg ∷ denials
      → (turn s.master (from_channel (some msg))).status ≡ running
  unfolding turn on_channel_message on_join_denied member_left
  denial-running_lem msg denials e =
      let c =
        held-IsCounted
          (omega (arith, ap length e, length-append s.denials (settle visit s.room s.queue).1)) in
      let (op, id, rest) = subst (λ d. IsFrom k d) e v.line.named in
      let f : lookup msg.chat_channel_id s.master.running_map ≡ some c.info =
        subst (λ i. lookup i s.master.running_map ≡ some c.info) (sym id) c.found in
      rw op (ground arith)

  pub closing-IsForgotten :
      (queue : List MasterToChannel) (last : MasterToChannel)
      → s.queue ≡ queue ++ last ∷ []
      → last.operation ≡ MasterToChannelOp.shutdown
      → IsForgotten visit own s.master (tally visit s.room s.queue s.denials)
  closing-IsForgotten queue last e op = elim v.phase [
    | inl c ↦ absurd (IsOpen-shutdown queue last (subst (λ q. IsOpen q) e c.open_queue) op)
    | inr c ↦ c
  ]

  pub forgotten-denials :
      IsForgotten visit own s.master (tally visit s.room s.queue s.denials) → s.denials ≡ []
  forgotten-denials f =
      length-zero s.denials
        (omega (arith, f.none_left, length-append s.denials (settle visit s.room s.queue).1))

  silent_user :
      (op : UserToMasterOp) (get : Bytes → Result Int64) (msg : UserToMaster)
      → IsOwner own (λ j. ⊥) s.master
      → sent_to own (on_user_message get op s.master msg).effects ≡ []
  unfolding on_user_message
  silent_user UserToMasterOp.join get msg o =
      elim (on_join-way own (λ j. ⊥) k s.master o get msg).1 [
        | inl q ↦ q.silent
        | inr (id, g, j) ↦ absurd j.owns
      ]
  silent_user UserToMasterOp.who get msg o = elim (who-way own (λ j. ⊥) k s.master o msg).1 [
    | inl q ↦ q
    | inr (i, q) ↦ absurd i
  ]
  silent_user UserToMasterOp.exit get msg o = elim (on_exit-way own (λ j. ⊥) k s.master o msg).1 [
    | inl q ↦ q.silent
    | inr r ↦ absurd r.owns
  ]
  silent_user (UserToMasterOp.other x) get msg o = refl

  pub silent_lem :
      (e : Event) → IsOwner own (λ j. ⊥) s.master → sent_to own (turn s.master e).effects ≡ []
  unfolding turn
  silent_lem (from_user get none) o = refl
  silent_lem (from_user get (some msg)) o = silent_user msg.operation get msg o
  silent_lem (from_channel none) o = refl
  silent_lem (from_channel (some msg)) o =
      elim (on_channel-way own (λ j. ⊥) k s.master o msg.operation msg).1 [
        | inl q ↦ q.silent
        | inr x ↦ absurd x
      ]
  silent_lem (heartbeat none) o = refl
  silent_lem (heartbeat (some _)) o = refl
