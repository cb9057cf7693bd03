-- ===== src/Crossings/Conversation.antt =====
-- daemon/doppelganger.go with daemon/chatchannel.go: what a user says, on its way to the terminals of the
-- members.
pub mod Heard
use mathlib.Core.List.{Perm, Permᴰ, append-nil}
use mathlib.Core.Logic.{∥∥₁_elim}
use mathlib.Core.Path.{ap₂}
use native.Mathlib.Nat.{ℕ_set}
use wtelnet.Common.{
  ℕ, zero, suc, ◌+◌, ◌≡◌, refl, sym, ap, ◌∙◌, Bool, true, false, some, List, [], ◌∷◌, ◌++◌, ◌==◌,
  Bytes, Int64, arith, map, if◌then◌else◌, inl, inr, Bool-cases,
}
use wtelnet.Common.Dict.{Dict}
use wtelnet.Message.{Chan, UserToChannel, UserToChannelOp, ChannelToUser}
use wtelnet.ChatChannel.{
  UserEntry, ChatChannel, Effect, to_user, to_master, conversation, logged, closed,
}
use wtelnet.ChatChannel.Handlers.{text_copy, distribute_message}
use wtelnet.ChatChannel.Loop.{Event, from_user, handle_from_user, loop_turn, loop}
use wtelnet.ChatChannel.Notices.{IsRound}

-- What a chat channel sends to one Go channel.
abbrev pub mail : Chan → List Effect → List ChannelToUser
mail c [] = []
mail c (to_user d msg ∷ es) = if d == c then msg ∷ mail c es else mail c es
mail c (to_master msg ∷ es) = mail c es
mail c (conversation text ∷ es) = mail c es
mail c (logged text ∷ es) = mail c es
mail c (closed d ∷ es) = mail c es

-- How many members have this Go channel.
abbrev pub holders : Chan → Dict UserEntry → ℕ
holders c [] = 0
holders c (e ∷ m) = if e.1.doppelganger_callback == c then suc (holders c m) else holders c m

abbrev has : Chan → Int64 × UserEntry → Bool
has c e = e.1.doppelganger_callback == c

counted_twice :
    (a b a' b' : Bool) (n : ℕ)
    → a ≡ b'
    → b ≡ a'
    → (if a then suc (if b then suc n else n) else if b then suc n else n)
      ≡ (if a' then suc (if b' then suc n else n) else if b' then suc n else n)
counted_twice a b a' b' n e f = ground arith

Permᴰ-holders : (c : Chan) {a b : Dict UserEntry} → Permᴰ a b → holders c a ≡ holders c b
Permᴰ-holders c Permᴰ.nil = refl
Permᴰ-holders c (Permᴰ.cons e p) =
    ap₂ (λ h n. if h then suc n else n) (ap (has c) e) (Permᴰ-holders c p)
Permᴰ-holders c (Permᴰ.swap {a} {b} {a'} {b'} {l} e f) =
    counted_twice (has c a) (has c b) (has c a') (has c b') (holders c l) (ap (has c) e)
      (ap (has c) f)
Permᴰ-holders c (Permᴰ.trans p q) = Permᴰ-holders c p ∙ Permᴰ-holders c q

Perm-holders : (c : Chan) {a b : Dict UserEntry} → Perm a b → holders c a ≡ holders c b
Perm-holders c p = ∥∥₁_elim p (ℕ_set _ _) (Permᴰ-holders c)

mail-append : (c : Chan) (es fs : List Effect) → mail c (es ++ fs) ≡ mail c es ++ mail c fs
mail-append c [] fs = refl
mail-append c (to_user d msg ∷ es) fs = elim (Bool-cases (d == c)) [
  | inl e ↦ rw e (ap (◌∷◌ msg) (mail-append c es fs))
  | inr e ↦ rw e (mail-append c es fs)
]
mail-append c (to_master msg ∷ es) fs = mail-append c es fs
mail-append c (conversation text ∷ es) fs = mail-append c es fs
mail-append c (logged text ∷ es) fs = mail-append c es fs
mail-append c (closed d ∷ es) fs = mail-append c es fs

abbrev copies : ℕ → ChannelToUser → List ChannelToUser
copies zero msg = []
copies (suc n) msg = msg ∷ copies n msg

distribute-copies :
    (c : Chan) (s : ChatChannel) (msg : UserToChannel) (m : Dict UserEntry)
    → mail c (distribute_message s msg m) ≡ copies (holders c m) (text_copy s msg)
unfolding distribute_message
distribute-copies c s msg [] = refl
distribute-copies c s msg (e ∷ m) = elim (Bool-cases (e.1.doppelganger_callback == c)) [
  | inl h ↦ rw h (ap (◌∷◌ (text_copy s msg)) (distribute-copies c s msg m))
  | inr h ↦ rw h (distribute-copies c s msg m)
]

-- The channel's events for messages that its members send.
abbrev pub talked : List UserToChannel → List Event
talked msgs = map (λ msg. from_user (some msg)) msgs

abbrev pub AreTexts : List UserToChannel → Type 0
AreTexts [] = Unit {0}
AreTexts (msg ∷ msgs) = (msg.operation ≡ UserToChannelOp.text_message) × AreTexts msgs

module _ (visit : Dict UserEntry → Dict UserEntry) (round : IsRound visit) (incoming : Chan) where
  text-mail :
      (c : Chan) (s : ChatChannel) (msg : UserToChannel)
      → holders c s.member_list ≡ 1
      → mail c (handle_from_user visit incoming UserToChannelOp.text_message s msg)
        ≡ text_copy s msg ∷ []
  unfolding handle_from_user
  text-mail c s msg one =
      mail-append c (distribute_message s msg (visit s.member_list)) _
      ∙ append-nil (mail c (distribute_message s msg (visit s.member_list)))
      ∙ distribute-copies c s msg (visit s.member_list)
      ∙ ap (λ n. copies n (text_copy s msg)) (Perm-holders c (round s.member_list) ∙ one)

  -- A member whose Go channel no other member has gets every text once, in the order in which the
  -- chat channel received them.
  pub loop-mail :
      (c : Chan) (s : ChatChannel) (msgs : List UserToChannel)
      → holders c s.member_list ≡ 1
      → AreTexts msgs
      → mail c (loop visit incoming s (talked msgs)).effects ≡ map (text_copy s) msgs
  unfolding loop loop_turn
  loop-mail c s [] one t = refl
  loop-mail c s (msg ∷ msgs) one t =
      mail-append c (handle_from_user visit incoming msg.operation s msg)
        (loop visit incoming s (talked msgs)).effects
      ∙ ap₂ (λ xs ys. xs ++ ys)
          (ap (λ op. mail c (handle_from_user visit incoming op s msg)) t.0 ∙ text-mail c s msg one)
          (loop-mail c s msgs one t.1)
