-- ===== src/System/Handling.antt =====
-- daemon/chatchannel.go: how the goroutine of a chat channel takes a message that fits.
use mathlib.Core.Path.{subst}
use wtelnet.Common.{ℕ, ◌≤◌, ◌≡◌, refl, sym, ◌≢◌, ◌⊎◌, inl, inr, false, some, [], ◌∷◌, arith, length}
use wtelnet.Common.Dict.{Dict, lookup}
use wtelnet.Message.{Chan, MasterToChannel, MasterToChannelOp}
use wtelnet.ChatChannel.{UserEntry, ChatChannel, carry_on, panicked}
use wtelnet.ChatChannel.Handlers.{on_exit, on_who, dispatch, process_message_from_channel_master}
use wtelnet.ChatChannel.Loop.{handle_from_master, closing, looping, finished, after_outcome}
use wtelnet.ChatChannel.Notices.{IsRound, on_who-panics, on_join-carries_on}
use wtelnet.System.Rooms.{IsFitting}

pub length_held : {V : Type 0} (j : ℕ) (e : V) (m : Dict V) → lookup j m ≡ some e → 1 ≤ length m
unfolding lookup
length_held j e [] f = cc
length_held j e (x ∷ m) f = omega arith

module _ (visit : Dict UserEntry → Dict UserEntry) (round : IsRound visit) (s : ChatChannel)
    (msg : MasterToChannel) where
  on_exit-carries_on : (on_exit visit s msg).outcome ≡ carry_on
  unfolding on_exit
  on_exit-carries_on = ground arith

  on_who_cases :
      ((on_who visit s msg).outcome ≡ carry_on) ⊎ ((on_who visit s msg).outcome ≡ panicked)
  unfolding on_who
  on_who_cases = ground arith

  who-carries_on :
      s.chat_channel_id ≢ 0 → s.member_list ≢ [] → (on_who visit s msg).outcome ≡ carry_on
  who-carries_on set f = elim on_who_cases [
    | inl c ↦ c
    | inr p ↦ absurd (f ((on_who-panics visit round s msg set).0 p))
  ]

  fitting_cases :
      (op : MasterToChannelOp)
      → s.chat_channel_id ≢ 0
      → IsFitting op s msg
      → ((dispatch visit op s msg).outcome ≡ carry_on)
        ⊎ ((op ≡ MasterToChannelOp.shutdown) × (s.member_list ≡ []))
  unfolding dispatch
  fitting_cases MasterToChannelOp.join set f = inl (on_join-carries_on visit round s msg)
  fitting_cases MasterToChannelOp.who set f = inl (who-carries_on set f)
  fitting_cases MasterToChannelOp.exit set f = inl on_exit-carries_on
  fitting_cases MasterToChannelOp.shutdown set f = inr (refl, f)
  fitting_cases (MasterToChannelOp.other n) set f = inl refl

  -- It loops on, or it finishes with its two Go channels closed and nothing logged.
  pub fitting-handled :
      (incoming : Chan)
      → s.chat_channel_id ≢ 0
      → IsFitting msg.operation s msg
      → let t = handle_from_master visit incoming false s msg in
        (t.status ≡ looping)
        ⊎ ((msg.operation ≡ MasterToChannelOp.shutdown)
            × (t.status ≡ finished)
            × (t.effects ≡ closing incoming s))
  unfolding handle_from_master process_message_from_channel_master after_outcome dispatch
  fitting-handled incoming set f = elim (fitting_cases msg.operation set f) [
    | inl c ↦ inl (rw c)
    | inr (op, e) ↦ inr (
        subst
          (λ o.
            let t = dispatch visit o s msg in
            let p = after_outcome incoming false t.outcome t.channel t.effects in
            (o ≡ MasterToChannelOp.shutdown)
            × (p.status ≡ finished)
            × (p.effects ≡ closing incoming s))
          (sym op) (refl, refl, ground arith))
  ]
