-- ===== src/System/Steps.antt =====
-- daemon/channelmaster.go with daemon/chatchannel.go: every step keeps the count.
use mathlib.Core.List.{append_assoc, append-nil}
use mathlib.Core.Path.{subst}
use wtelnet.Common.{
  ℕ, ◌+◌, ◌<◌, ◌≡◌, refl, sym, ap, ◌∙◌, ◌≢◌, ◌⊎◌, inl, inr, none, some, List, [], ◌∷◌, ◌++◌, ◌==◌,
  Int64, inc, dec, sign_bit, length, arith, Bool-cases,
}
use wtelnet.Common.Dict.{Dict, lookup}
use wtelnet.Message.{Chan, MasterToChannel, MasterToChannelOp, UserToMaster, ChannelToMaster}
use wtelnet.Master.{PerChatChan, Master, Turn, join_message}
use wtelnet.ChatChannel.{UserEntry, ChatChannel}
use wtelnet.System.{System, sent_to, settle, settled}
use wtelnet.System.Rooms.{IsFitting, more, less}
use wtelnet.System.Routes.{IsOwner, IsQuiet, IsRoute, IsJoined}
use wtelnet.System.Invariant.{
  tally, IsOpen, IsOpen-snoc, IsLine, IsCounted, IsForgotten, IsSound, push-IsLine,
}

module _ (visit : Dict UserEntry → Dict UserEntry) (k : Int64) (own : Chan) (s : System) where
  abbrev pub IsPhase : Master → List MasterToChannel → Type 0
  IsPhase m queue =
      IsCounted visit k own m queue (tally visit s.room queue s.denials)
      ⊎ IsForgotten visit own m (tally visit s.room queue s.denials)

  -- The system after a turn of the channel master.
  abbrev pub after : Turn → System
  after t = record s { master = t.master; queue = s.queue ++ sent_to own t.effects }

  arrive :
      (t : Turn) (queue : List MasterToChannel)
      → s.queue ++ sent_to own t.effects ≡ queue
      → IsLine visit k s.room queue s.denials
      → IsPhase t.master queue
      → IsSound visit k own (after t)
  arrive t queue e l p = record { line = rw e l; phase = rw e p }

  silent-queue :
      (t : Turn) → sent_to own t.effects ≡ [] → s.queue ++ sent_to own t.effects ≡ s.queue
  silent-queue t e = ap (λ l. s.queue ++ l) e ∙ append-nil s.queue

  module _ (l : IsLine visit k s.room s.queue s.denials) where
    abbrev n : ℕ
    n = tally visit s.room s.queue s.denials

    pub quiet-counted :
        (t : Turn)
        → IsCounted visit k own s.master s.queue n
        → IsOwner own (λ j. j ≡ k) t.master
        → IsQuiet k own s.master t
        → IsSound visit k own (after t)
    quiet-counted t c o q = arrive t s.queue (silent-queue t q.silent) l (
        inl (record {
          owner = o;
          info = c.info;
          found = q.kept c.info c.found c.uses;
          uses = c.uses;
          counted = c.counted;
          some_left = c.some_left;
          in_range = c.in_range;
          open_queue = c.open_queue;
        }))

    pub quiet-forgotten :
        (t : Turn)
        → IsForgotten visit own s.master n
        → IsOwner own (λ j. ⊥) t.master
        → sent_to own t.effects ≡ []
        → IsSound visit k own (after t)
    quiet-forgotten t c o q =
        arrive t s.queue (silent-queue t q) l (inr (record { owner = o; none_left = c.none_left }))

    -- The entry is the one that counts.
    same_count :
        (info : PerChatChan)
        → IsCounted visit k own s.master s.queue n
        → lookup k s.master.running_map ≡ some info
        → info.member_count ≡ n
    same_count info c f =
        let e : info ≡ c.info = cc (f, c.found) in ap (λ x. x.member_count) e ∙ c.counted

    pub joined-counted :
        (t : Turn) (msg : UserToMaster)
        → IsCounted visit k own s.master s.queue n
        → IsOwner own (λ j. j ≡ k) t.master
        → IsJoined (λ j. j ≡ k) own s.master k (join_message msg MasterToChannelOp.join) t
        → IsFitting MasterToChannelOp.join
            (settled visit s)
            (join_message msg MasterToChannelOp.join)
        → n < sign_bit
        → IsSound visit k own (after t)
    joined-counted t msg c o j f lt =
        let join = join_message msg MasterToChannelOp.join in
        let (l', sums) = push-IsLine visit k s.room s.queue s.denials join l c.open_queue f in
        let one : tally visit s.room (s.queue ++ join ∷ []) s.denials ≡ n + 1 =
          omega (arith, sums) in
        let same = same_count j.info c j.found in
        arrive t (s.queue ++ join ∷ []) (ap (λ q. s.queue ++ q) j.sent) l' (
          inl (record {
            owner = o;
            info = record (j.info) { member_count = inc j.info.member_count };
            found = j.entry;
            uses = j.uses;
            counted = omega (arith, one, same, lt);
            some_left = omega (arith, one);
            in_range = omega (arith, one, lt);
            open_queue = IsOpen-snoc s.queue join c.open_queue (λ e. cc);
          }))

    pub asked_who-sound :
        (t : Turn) (msg : UserToMaster)
        → t.master ≡ s.master
        → sent_to own t.effects ≡ join_message msg MasterToChannelOp.who ∷ []
        → IsCounted visit k own s.master s.queue n
        → (settled visit s).member_list ≢ []
        → IsSound visit k own (after t)
    asked_who-sound t msg e q c f =
        let who = join_message msg MasterToChannelOp.who in
        let (l', sums) = push-IsLine visit k s.room s.queue s.denials who l c.open_queue f in
        let same : n ≡ tally visit s.room (s.queue ++ who ∷ []) s.denials = omega (arith, sums) in
        arrive t (s.queue ++ who ∷ []) (ap (λ r. s.queue ++ r) q) l' (
          rw (e) (
            inl (record {
              owner = c.owner;
              info = c.info;
              found = c.found;
              uses = c.uses;
              counted = c.counted ∙ same;
              some_left = omega (arith, same, c.some_left);
              in_range = omega (arith, same, c.in_range);
              open_queue = IsOpen-snoc s.queue who c.open_queue (λ e. cc);
            })))

pub length-zero : {A : Type 0} (xs : List A) → length xs ≡ 0 → xs ≡ []
length-zero [] h = refl
length-zero (x ∷ xs) h = absurd (omega (arith, h))

module _ (visit : Dict UserEntry → Dict UserEntry) (k : Int64) (own : Chan) (m : Master)
    (room : ChatChannel) where
  -- Where the entry is gone no entry uses the Go channel.
  forgotten-IsOwner :
      (t : Master)
      → IsOwner own (λ j. j ≡ k) t
      → lookup k t.running_map ≡ none
      → IsOwner own (λ j. ⊥) t
  forgotten-IsOwner t o e = (
    o.0,
    λ j info f u.
        let same = o.1 j info f u in
        let f' : lookup k t.running_map ≡ some info =
          subst (λ i. lookup i t.running_map ≡ some info) same f in
        cc (e, f'),
  )

  -- A member is counted no more, after the messages `msgs`; the last one is followed by a shutdown.
  pub left-sound :
      (n : ℕ) (t : Turn) (queue : List MasterToChannel) (msgs : List MasterToChannel)
      (last : MasterToChannel) (denials : List ChannelToMaster)
      → last.operation ≡ MasterToChannelOp.shutdown
      → IsOpen (queue ++ msgs)
      → IsLine visit k room (queue ++ msgs) denials
      → tally visit room (queue ++ msgs) denials + 1 ≡ n
      → IsCounted visit k own m queue n
      → IsOwner own (λ j. j ≡ k) t.master
      → IsRoute (λ j. j ≡ k) own m k dec msgs (last ∷ []) t
      → IsSound visit k own (record {
        master = t.master;
        room = room;
        queue = queue ++ sent_to own t.effects;
        denials = denials;
      })
  left-sound n t queue msgs last denials op opened l sums c o r =
      let e : r.info ≡ c.info = cc (r.found, c.found) in
      let same : r.info.member_count ≡ n = ap (λ x. x.member_count) e ∙ c.counted in
      let one : dec r.info.member_count ≡ tally visit room (queue ++ msgs) denials =
        omega (arith, same, sums, c.in_range) in
      elim (Bool-cases (dec r.info.member_count == 0)) [
        | inl z ↦
            let none_left : tally visit room (queue ++ msgs) denials ≡ 0 = ground arith in
            let empty : (settle visit room (queue ++ msgs)).0.member_list ≡ [] =
              length-zero _ (omega (arith, none_left)) in
            let (l', sums') = push-IsLine visit k room (queue ++ msgs) denials last l opened (
              subst (λ o. IsFitting o (settle visit room (queue ++ msgs)).0 last) (sym op) empty) in
            let q : sent_to own t.effects ≡ msgs ++ last ∷ [] = rw z at r.sent in
            let gone : lookup k t.master.running_map ≡ none = rw z at r.entry in
            let all : queue ++ sent_to own t.effects ≡ queue ++ msgs ++ last ∷ [] =
              ap (λ x. queue ++ x) q ∙ sym (append_assoc queue msgs (last ∷ [])) in
            let zero_left : tally visit room (queue ++ msgs ++ last ∷ []) denials ≡ 0 =
              omega (arith, sums', none_left, ap less op, ap more op) in
            record {
              line = rw all l';
              phase = rw all (
                  inr
                    (record { owner = forgotten-IsOwner t.master o gone; none_left = zero_left }));
            }
        | inr z ↦
            let q : sent_to own t.effects ≡ msgs = rw z at r.sent in
            let left = record (r.info) { member_count = dec r.info.member_count } in
            let kept : lookup k t.master.running_map ≡ some left = rw z at r.entry in
            let all : queue ++ sent_to own t.effects ≡ queue ++ msgs = ap (λ x. queue ++ x) q in
            record {
              line = rw all l;
              phase = rw all (
                  inl (record {
                    owner = o;
                    info = left;
                    found = kept;
                    uses = r.uses;
                    counted = one;
                    some_left = ground arith;
                    in_range = omega (arith, sums, c.in_range);
                    open_queue = opened;
                  }));
            }
      ]
