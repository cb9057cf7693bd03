-- ===== src/ChatChannel/Sends.antt =====
-- daemon/chatchannel.go: its sends to doppelgangers. In Go a send on a closed Go channel panics; `gone`
-- says which Go channels the doppelgangers have closed.
use mathlib.Core.List.{Permᴰ}
use mathlib.Core.Logic.{∥∥₁_elim}
use mathlib.Core.Path.{ap₂}
use mathlib.Core.Bool.{Bool-set}
use wtelnet.Common.{
  ◌≡◌, refl, ap, ◌∙◌, Bool, false, Option, none, some, List, [], ◌∷◌, ◌++◌, ◌||◌, arith, inl, inr,
  Option-cases, Bool-cases, codes, if◌then◌else◌, Int64,
}
use wtelnet.Common.Dict.{Dict, insert}
use wtelnet.Message.{Chan, MasterToChannel, MasterToChannelOp, ChannelToUserOp}
use wtelnet.ChatChannel.{
  UserEntry, ChatChannel, Effect, to_user, to_master, conversation, logged, closed, notice,
}
use wtelnet.ChatChannel.Joining.{
  entry, with_member, tell_who_is_on_channel, announce_join, refuse, welcome, admit, on_join,
}
use wtelnet.ChatChannel.Handlers.{
  announce_exit, on_exit, on_who, dispatch, process_message_from_channel_master,
}
use wtelnet.ChatChannel.Loop.{Progress, crashed, handle_from_master, after_outcome}
use wtelnet.ChatChannel.Notices.{IsRound}

abbrev join_line : ChatChannel → MasterToChannel → Effect
join_line s msg =
    conversation
      (codes " <" ++ msg.user_name ++ codes " has JOINED #" ++ s.chat_channel_name ++ codes ">\n")

module _ (gone : Chan → Bool) where
  -- Whether one of the sends is on a Go channel that is closed.
  unfoldable pub hits : List Effect → Bool
  hits [] = false
  hits (to_user c msg ∷ es) = gone c || hits es
  hits (to_master msg ∷ es) = hits es
  hits (conversation text ∷ es) = hits es
  hits (logged text ∷ es) = hits es
  hits (closed c ∷ es) = hits es

  -- What is done before the first such send.
  unfoldable pub before : List Effect → List Effect
  before [] = []
  before (to_user c msg ∷ es) = if gone c then [] else to_user c msg ∷ before es
  before (to_master msg ∷ es) = to_master msg ∷ before es
  before (conversation text ∷ es) = conversation text ∷ before es
  before (logged text ∷ es) = logged text ∷ before es
  before (closed c ∷ es) = closed c ∷ before es

  -- A turn of the goroutine while these Go channels are closed: it panics at the first such send.
  unfoldable pub sends : Progress → Progress
  unfolding hits before
  sends t = if hits t.effects then record t { status = crashed; effects = before t.effects } else t

  abbrev missing : Int64 × UserEntry → Bool
  missing e = gone e.1.doppelganger_callback

  -- Whether the Go channel of a member is closed.
  abbrev pub misses : Dict UserEntry → Bool
  misses [] = false
  misses (e ∷ rest) = missing e || misses rest

  -- The Go channels of the members are open, and so is the one that comes with the message.
  pub record IsOpen (s : ChatChannel) (msg : MasterToChannel) : Type 0 where
    pub members : misses s.member_list ≡ false
    pub sender : (c : Chan) → msg.doppelganger_callback ≡ some c → gone c ≡ false

  hits-append : (es fs : List Effect) → hits (es ++ fs) ≡ hits es || hits fs
  unfolding hits
  hits-append [] fs = refl
  hits-append (to_user c msg ∷ es) fs = ground (arith, hits-append es fs)
  hits-append (to_master msg ∷ es) fs = hits-append es fs
  hits-append (conversation text ∷ es) fs = hits-append es fs
  hits-append (logged text ∷ es) fs = hits-append es fs
  hits-append (closed c ∷ es) fs = hits-append es fs

  clean-append : (es fs : List Effect) → hits es ≡ false → hits fs ≡ false → hits (es ++ fs) ≡ false
  clean-append es fs h k = ground (arith, hits-append es fs)

  misses-insert :
      (k : Int64) (e : UserEntry) (m : Dict UserEntry)
      → misses m ≡ false
      → gone e.doppelganger_callback ≡ false
      → misses (insert k e m) ≡ false
  unfolding insert
  misses-insert k e [] h g = ground arith
  misses-insert k e (x ∷ m) h g = ground (arith, misses-insert k e m)

  missed_twice : (a b a' b' n : Bool) → a ≡ b' → b ≡ a' → a || (b || n) ≡ a' || (b' || n)
  missed_twice a b a' b' n e f = ground arith

  Permᴰ-misses : {m m' : Dict UserEntry} → Permᴰ m m' → misses m ≡ misses m'
  Permᴰ-misses Permᴰ.nil = refl
  Permᴰ-misses (Permᴰ.cons e p) = ap₂ ◌||◌ (ap missing e) (Permᴰ-misses p)
  Permᴰ-misses (Permᴰ.swap {a} {b} {a'} {b'} {l} e f) =
      missed_twice (missing a) (missing b) (missing a') (missing b') (misses l) (ap missing e)
        (ap missing f)
  Permᴰ-misses (Permᴰ.trans p q) = Permᴰ-misses p ∙ Permᴰ-misses q

  misses-visit :
      (visit : Dict UserEntry → Dict UserEntry)
      → IsRound visit
      → (m : Dict UserEntry) → misses m ≡ false
      → misses (visit m) ≡ false
  misses-visit visit round m h = ∥∥₁_elim (round m) (Bool-set _ _) Permᴰ-misses ∙ h

  announce_exit-open :
      (s : ChatChannel) (msg : MasterToChannel) (m : Dict UserEntry)
      → misses m ≡ false
      → hits (announce_exit s msg m).0 ≡ false
  unfolding announce_exit hits
  announce_exit-open s msg [] h = refl
  announce_exit-open s msg (e ∷ m) h = ground (arith, announce_exit-open s msg m)

  announce_join-open :
      (s : ChatChannel) (msg : MasterToChannel) (m : Dict UserEntry)
      → misses m ≡ false
      → hits (announce_join s msg m) ≡ false
  unfolding announce_join hits
  announce_join-open s msg [] h = refl
  announce_join-open s msg (e ∷ m) h = ground (arith, announce_join-open s msg m)

  tell_who-open :
      (visit : Dict UserEntry → Dict UserEntry) (s : ChatChannel) (callback : Option Chan)
      → ((c : Chan) → callback ≡ some c → gone c ≡ false)
      → hits (tell_who_is_on_channel visit s callback).0 ≡ false
  unfolding tell_who_is_on_channel hits
  tell_who-open visit s none h = ground arith
  tell_who-open visit s (some c) h = ground (arith, h c refl)

  module _ (visit : Dict UserEntry → Dict UserEntry) (round : IsRound visit) (s : ChatChannel)
      (msg : MasterToChannel) (open_all : IsOpen s msg) where
    exit-open : hits (on_exit visit s msg).effects ≡ false
    unfolding on_exit hits
    exit-open =
        let told =
          announce_exit-open s msg (visit s.member_list)
            (misses-visit visit round s.member_list open_all.members) in
        elim (Bool-cases (announce_exit s msg (visit s.member_list)).1) [
          | inl e ↦ rw e (clean-append (announce_exit s msg (visit s.member_list)).0 _ told refl)
          | inr e ↦ rw e told
        ]

    who-open : hits (on_who visit s msg).effects ≡ false
    unfolding on_who
    who-open = tell_who-open visit s msg.doppelganger_callback open_all.sender

    refuse-open : hits (refuse s msg).effects ≡ false
    unfolding refuse hits
    refuse-open = elim (Option-cases msg.doppelganger_callback) [
      | inl e ↦ ground arith
      | inr (c, e) ↦ ground (arith, open_all.sender c e)
    ]

    admitted-open : (c : Chan) → gone c ≡ false → misses (with_member s msg c).member_list ≡ false
    admitted-open c g =
        misses-insert msg.doppelganger_id (entry msg c) s.member_list open_all.members g

    welcome-open :
        (s' : ChatChannel) (c : Chan) (es : List Effect)
        → misses s'.member_list ≡ false
        → gone c ≡ false
        → hits es ≡ false
        → hits (welcome visit s' msg c es).effects ≡ false
    unfolding welcome hits
    welcome-open s' c es m g h =
        let who = tell_who-open visit s' (some c) (λ d e. ground (arith, g)) in
        let told =
          announce_join-open s' msg (visit s'.member_list)
            (misses-visit visit round s'.member_list m) in
        elim (Bool-cases (tell_who_is_on_channel visit s' (some c)).1) [
          | inl e ↦ rw e (
              clean-append
                ((es ++ (tell_who_is_on_channel visit s' (some c)).0)
                  ++ announce_join s' msg (visit s'.member_list))
                (join_line s' msg ∷ [])
                (clean-append (es ++ (tell_who_is_on_channel visit s' (some c)).0)
                  (announce_join s' msg (visit s'.member_list))
                  (clean-append es (tell_who_is_on_channel visit s' (some c)).0 h who) told)
                refl)
          | inr e ↦ rw e h
        ]

    admit-open : hits (admit visit s msg).effects ≡ false
    unfolding admit hits
    admit-open = elim (Option-cases msg.doppelganger_callback) [
      | inl e ↦ ground arith
      | inr (c, e) ↦
          let g = open_all.sender c e in
          let first = to_user c (notice s ChannelToUserOp.joined s.chat_channel_name) ∷ [] in
          ground (arith, welcome-open (with_member s msg c) c first (admitted-open c g) g)
    ]

    join-open : hits (on_join visit s msg).effects ≡ false
    unfolding on_join
    join-open = ground (arith, admit-open, refuse-open)

    dispatch-open : (op : MasterToChannelOp) → hits (dispatch visit op s msg).effects ≡ false
    unfolding dispatch hits
    dispatch-open MasterToChannelOp.join = join-open
    dispatch-open MasterToChannelOp.who = who-open
    dispatch-open MasterToChannelOp.exit = exit-open
    dispatch-open MasterToChannelOp.shutdown = refl
    dispatch-open (MasterToChannelOp.other n) = refl

    -- Where these Go channels are open, no send panics.
    pub sends-open :
        (incoming : Chan)
        → sends (handle_from_master visit incoming false s msg)
          ≡ handle_from_master visit incoming false s msg
    unfolding sends handle_from_master process_message_from_channel_master after_outcome hits
    sends-open incoming =
        let t = dispatch visit msg.operation s msg in
        ground (arith, dispatch-open msg.operation, hits-append t.effects)
