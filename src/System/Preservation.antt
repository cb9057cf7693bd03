-- ===== src/System/Preservation.antt =====
-- daemon/channelmaster.go with daemon/chatchannel.go: what holds of the two in every reachable state.
use mathlib.Core.List.{append-nil}
use mathlib.Core.Path.{subst}
use wtelnet.Common.{
  ℕ, ◌≡◌, refl, sym, ap, ◌∙◌, ◌⊎◌, inl, inr, some, List, [], ◌∷◌, ◌++◌, Int64, dec, arith,
}
use wtelnet.Common.Dict.{Dict, lookup}
use wtelnet.Message.{Chan, MasterToChannel, ChannelToMaster, ChannelToMasterOp}
use wtelnet.Master.{Master}
use wtelnet.Master.Leaving.{shutdown_for, on_join_denied}
use wtelnet.Master.Loop.{heartbeat, turn, on_channel_message}
use wtelnet.ChatChannel.{UserEntry, ChatChannel}
use wtelnet.ChatChannel.Handlers.{process_message_from_channel_master}
use wtelnet.System.{
  System, sent_to, denials_of, Step, asked, beat, denied, elsewhere, handled, Reach, now, later,
}
use wtelnet.System.Routes.{IsRoute}
use wtelnet.System.Routes.Others.{on_join_denied-way, on_channel-way}
use wtelnet.System.Invariant.{tally, IsOpen, IsLine, IsCounted, IsForgotten, IsSound, pop-IsLine}
use wtelnet.System.Steps.{quiet-counted, quiet-forgotten, left-sound}
use wtelnet.System.Requests.{counted-sound, forgotten-sound}

-- What is left of the system when the channel master handles a denial.
abbrev denial_done :
    Chan
    → ChannelToMasterOp
    → Master
    → ChatChannel
    → List MasterToChannel
    → ChannelToMaster
    → List ChannelToMaster
    → System
denial_done own op m room queue msg denials = record {
  master = (on_channel_message op m msg).master;
  room = room;
  queue = queue ++ sent_to own (on_channel_message op m msg).effects;
  denials = denials;
}

module _ (visit : Dict UserEntry → Dict UserEntry) (k : Int64) (own : Chan) where
  denied-sound :
      (m : Master) (room : ChatChannel) (queue : List MasterToChannel) (msg : ChannelToMaster)
      (denials : List ChannelToMaster)
      → IsLine visit k room queue (msg ∷ denials)
      → IsCounted visit k own m queue (tally visit room queue (msg ∷ denials))
        ⊎ IsForgotten visit own m (tally visit room queue (msg ∷ denials))
      → IsSound visit k own (denial_done own msg.operation m room queue msg denials)
  unfolding on_channel_message
  denied-sound m room queue msg denials l (inr c) = absurd (omega (arith, c.none_left))
  denied-sound m room queue msg denials l (inl c) =
      let (op, id, rest) = l.named in
      let n : ℕ = tally visit room queue (msg ∷ denials) in
      let found : lookup msg.chat_channel_id m.running_map ≡ some c.info =
        subst (λ i. lookup i m.running_map ≡ some c.info) (sym id) c.found in
      let (o, r) = on_join_denied-way own (λ j. j ≡ k) k m c.owner msg c.info found c.uses in
      let l' : IsLine visit k room queue denials = record {
        sound = l.sound;
        fits = l.fits;
        last = l.last;
        named = rest;
      } in
      let same = sym (append-nil queue) in
      subst (λ o. IsSound visit k own (denial_done own o m room queue msg denials)) (sym op)
        (left-sound visit k own m room (tally visit room queue (msg ∷ denials))
          (on_join_denied m msg) queue [] (shutdown_for msg) denials refl
          (subst (λ q. IsOpen q) same c.open_queue)
          (subst (λ q. IsLine visit k room q denials) same l')
          (omega (arith, ap (λ q. tally visit room q denials) same)) c o
          (subst
            (λ i.
              IsRoute (λ j. j ≡ k) own m i dec [] (shutdown_for msg ∷ []) (on_join_denied m msg))
            id r))

  popped :
      (m : Master) (msg : MasterToChannel) (queue : List MasterToChannel) (n n' : ℕ)
      → n ≡ n'
      → IsCounted visit k own m (msg ∷ queue) n ⊎ IsForgotten visit own m n
      → IsCounted visit k own m queue n' ⊎ IsForgotten visit own m n'
  popped m msg queue n n' e (inl c) = inl (record {
    owner = c.owner;
    info = c.info;
    found = c.found;
    uses = c.uses;
    counted = c.counted ∙ e;
    some_left = omega (arith, c.some_left);
    in_range = omega (arith, c.in_range);
    open_queue = c.open_queue.1;
  })
  popped m msg queue n n' e (inr c) =
      inr (record { owner = c.owner; none_left = omega (arith, c.none_left) })

  -- Every step keeps the count.
  pub Step-IsSound :
      {s t : System} → Step visit k own s t → IsSound visit k own s → IsSound visit k own t
  unfolding turn
  Step-IsSound {s} (asked get msg p lt r) i = elim i.phase [
    | inl c ↦ counted-sound visit k own s i.line msg.operation get msg p (omega (arith, lt)) c
    | inr c ↦ forgotten-sound visit k own s i.line msg.operation get msg c
  ]
  Step-IsSound {s} beat i = elim i.phase [
    | inl c ↦
        quiet-counted visit k own s i.line (turn s.master (heartbeat (some tt))) c c.owner
          (record { silent = refl; kept = λ info f u. f })
    | inr c ↦
        quiet-forgotten visit k own s i.line (turn s.master (heartbeat (some tt))) c c.owner refl
  ]
  Step-IsSound {s} (denied msg denials e) i =
      denied-sound s.master s.room s.queue msg denials
        (subst (λ d. IsLine visit k s.room s.queue d) e i.line)
        (subst
          (λ d.
            IsCounted visit k own s.master s.queue (tally visit s.room s.queue d)
            ⊎ IsForgotten visit own s.master (tally visit s.room s.queue d))
          e i.phase)
  Step-IsSound {s} (elsewhere msg other r) i =
      let t = on_channel_message msg.operation s.master msg in
      elim i.phase [
        | inl c ↦
            let (o, w) = on_channel-way own (λ j. j ≡ k) k s.master c.owner msg.operation msg in
            elim w [
              | inl q ↦ quiet-counted visit k own s i.line t c o q
              | inr same ↦ absurd (other same)
            ]
        | inr c ↦
            let (o, w) = on_channel-way own (λ j. ⊥) k s.master c.owner msg.operation msg in
            elim w [
              | inl q ↦ quiet-forgotten visit k own s i.line t c o q.silent
              | inr none_owns ↦ absurd none_owns
            ]
      ]
  Step-IsSound {s} (handled msg queue e o) i =
      let t = process_message_from_channel_master visit s.room msg in
      let (l, same) =
        pop-IsLine visit k s.room queue s.denials msg
          (subst (λ q. IsLine visit k s.room q s.denials) e i.line) in
      record {
        line = l;
        phase =
            popped s.master msg queue (tally visit s.room s.queue s.denials)
              (tally visit t.channel queue (s.denials ++ denials_of t.effects))
              (ap (λ q. tally visit s.room q s.denials) e ∙ sym same)
              (subst
                (λ q.
                  IsCounted visit k own s.master q (tally visit s.room s.queue s.denials)
                  ⊎ IsForgotten visit own s.master (tally visit s.room s.queue s.denials))
                e i.phase);
      }

  pub Reach-IsSound :
      {s t : System} → Reach visit k own s t → IsSound visit k own s → IsSound visit k own t
  Reach-IsSound now i = i
  Reach-IsSound (later r st) i = Step-IsSound st (Reach-IsSound r i)
