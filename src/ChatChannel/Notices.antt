-- ===== src/ChatChannel/Notices.antt =====
-- daemon/chatchannel.go: who is told what. A round over a map visits every member once, in an order
-- that Go leaves open: the hypothesis on `visit`.
use mathlib.Core.List.{Perm}
use mathlib.Core.List.Perm
use mathlib.Core.Path.{subst}
use wtelnet.Common.{
  ◌≡◌, refl, ap, sym, ◌≢◌, true, false, Option, some, List, [], ◌∷◌, ◌++◌, map, ltb, Bytes, codes,
  Int64, arith, length, Option-cases, List-cases, inl, inr, ◌↔◌,
}
use wtelnet.Common.Dict.{Dict, insert, delete}
use wtelnet.Message.{Chan, MasterToChannel, UserToChannel, UserToChannelOp, ChannelToUserOp}
use wtelnet.ChatChannel.{
  UserEntry, ChatChannel, Effect, to_user, conversation, carry_on, panicked, notice,
}
use wtelnet.ChatChannel.Joining.{
  entry, with_member, member_str, tell_who_is_on_channel, welcome, admit, on_join,
}
use wtelnet.ChatChannel.Handlers.{
  exit_notice, text_copy, on_who, on_exit, announce_exit, distribute_message,
}
use wtelnet.ChatChannel.Loop.{handle_from_user}

abbrev pub IsRound : (Dict UserEntry → Dict UserEntry) → Type 0
IsRound visit = (m : Dict UserEntry) → Perm (visit m) m

abbrev pub exit_effect : ChatChannel → MasterToChannel → Int64 × UserEntry → Effect
exit_effect s msg (_, member) = to_user member.doppelganger_callback (exit_notice s msg member)

abbrev pub text_effect : ChatChannel → UserToChannel → Int64 × UserEntry → Effect
text_effect s msg (_, member) = to_user member.doppelganger_callback (text_copy s msg)

abbrev pub exit_line : ChatChannel → MasterToChannel → Bytes
exit_line s msg =
    codes " <" ++ msg.user_name ++ codes " has EXITED #" ++ s.chat_channel_name ++ codes ">\n"

announce_exit-map :
    (s : ChatChannel) (msg : MasterToChannel) (own : Chan) (m : Dict UserEntry)
    → s.chat_channel_id ≢ 0
    → s.incoming_from_doppelganger ≡ some own
    → announce_exit s msg m ≡ (map (exit_effect s msg) m, true)
unfolding announce_exit
announce_exit-map s msg own [] i o = refl
announce_exit-map s msg own (e ∷ m) i o = ground (arith, announce_exit-map s msg own m i o)

distribute-map :
    (s : ChatChannel) (msg : UserToChannel) (m : Dict UserEntry)
    → distribute_message s msg m ≡ map (text_effect s msg) m
unfolding distribute_message
distribute-map s msg [] = refl
distribute-map s msg (e ∷ m) = ap (◌∷◌ (text_effect s msg e)) (distribute-map s msg m)

module _ (visit : Dict UserEntry → Dict UserEntry) (round : IsRound visit) where
  -- If a round over the map visits each entry once, an exit on a channel whose id and Go channel are
  -- set tells every member once, the leaving one included, that this doppelganger leaves, writes one line to the log of the conversation, and
  -- deletes the doppelganger, and nothing else, from the members.
  pub on_exit-tells :
      (s : ChatChannel) (msg : MasterToChannel) (own : Chan)
      → s.chat_channel_id ≢ 0
      → s.incoming_from_doppelganger ≡ some own
      → Perm
          (on_exit visit s msg).effects
          (map (exit_effect s msg) s.member_list ++ conversation (exit_line s msg) ∷ [])
        × ((on_exit visit s msg).outcome ≡ carry_on)
        × ((on_exit visit s msg).channel
            ≡ record s { member_list = delete msg.doppelganger_id s.member_list })
  unfolding on_exit
  on_exit-tells s msg own i o =
      let told = announce_exit-map s msg own (visit s.member_list) i o in
      rw told (
        Perm.append_right (conversation (exit_line s msg) ∷ [])
            (Perm.map (exit_effect s msg) (round s.member_list)),
        refl,
        refl,
      )

  -- If a round over the map visits each entry once, a text message is sent once to every member, with
  -- its sender as originator, and is written to the log of the conversation; nothing else is sent.
  pub text-reaches_all :
      (incoming : Chan) (s : ChatChannel) (msg : UserToChannel)
      → Perm (handle_from_user visit incoming UserToChannelOp.text_message s msg) (
          map (text_effect s msg) s.member_list
          ++ conversation (codes " " ++ msg.parameter ++ codes "\n") ∷ [])
  unfolding handle_from_user
  text-reaches_all incoming s msg = rw distribute-map (
      Perm.append_right (conversation (codes " " ++ msg.parameter ++ codes "\n") ∷ [])
        (Perm.map (text_effect s msg) (round s.member_list)))

  member_str-long :
      (e : Int64 × UserEntry) (m : Dict UserEntry) → ltb (length (member_str (e ∷ m))) 2 ≡ false
  unfolding member_str codes
  member_str-long e m = ground arith

  visit-cons :
      (m : Dict UserEntry)
      → m ≢ []
      → (e : Int64 × UserEntry) × (r : Dict UserEntry) × (visit m ≡ e ∷ r)
  visit-cons m h = go (visit m) refl
    where
      go :
          (v : Dict UserEntry)
          → visit m ≡ v
          → (e : Int64 × UserEntry) × (r : Dict UserEntry) × (visit m ≡ e ∷ r)
      go [] e = absurd (h (sym (Perm.nil-eq (rw e at (round m)))))
      go (x ∷ r) e = (x, r, e)

  insert-cons : (k : Int64) (v : UserEntry) (m : Dict UserEntry) → insert k v m ≢ []
  unfolding insert
  insert-cons k v [] e = cc
  insert-cons k v (x ∷ m) e = ground arith

  tell_who-ok :
      (s : ChatChannel) (callback : Option Chan)
      → s.member_list ≢ []
      → (tell_who_is_on_channel visit s callback).1 ≡ true
  unfolding tell_who_is_on_channel
  tell_who-ok s callback h =
      let (e, r, eq) = visit-cons s.member_list h in
      let long = member_str-long e r in
      let long' : ltb (length (member_str (visit s.member_list))) 2 ≡ false = rw eq long in
      ground arith

  welcome-carries_on :
      (s : ChatChannel) (msg : MasterToChannel) (c : Chan) (es : List Effect)
      → s.member_list ≢ []
      → (welcome visit s msg c es).outcome ≡ carry_on
  unfolding welcome
  welcome-carries_on s msg c es h = ground (arith, tell_who-ok s (some c) h)

  admit-carries_on :
      (s : ChatChannel) (msg : MasterToChannel) → (admit visit s msg).outcome ≡ carry_on
  unfolding admit
  admit-carries_on s msg = elim (Option-cases msg.doppelganger_callback) [
    | inl e ↦ ground arith
    | inr (c, e) ↦ ground (
      arith,
      welcome-carries_on (with_member s msg c) msg c
          (to_user c (notice s ChannelToUserOp.joined s.chat_channel_name) ∷ [])
          (insert-cons msg.doppelganger_id (entry msg c) s.member_list),
    )
  ]

  tell_who-empty :
      (s : ChatChannel) (callback : Option Chan)
      → s.chat_channel_id ≢ 0
      → s.member_list ≡ []
      → (tell_who_is_on_channel visit s callback).1 ≡ false
  unfolding tell_who_is_on_channel member_str
  tell_who-empty s callback i h =
      let v : visit s.member_list ≡ [] =
        Perm.eq-nil (subst (λ l. Perm (visit s.member_list) l) h (round s.member_list)) in
      ground arith

  -- If a round over the map visits each entry once, no join panics, whatever the state of the channel:
  -- the slice of the list of names is in range, since the new member is in it.
  pub on_join-carries_on :
      (s : ChatChannel) (msg : MasterToChannel) → (on_join visit s msg).outcome ≡ carry_on
  unfolding on_join
  on_join-carries_on s msg = ground (arith, admit-carries_on s msg)

  -- If a round over the map visits each entry once, a request for the members of a channel whose id is
  -- set panics exactly if there is no member.
  pub on_who-panics :
      (s : ChatChannel) (msg : MasterToChannel)
      → s.chat_channel_id ≢ 0
      → ((on_who visit s msg).outcome ≡ panicked) ↔ (s.member_list ≡ [])
  unfolding on_who
  on_who-panics s msg i = (
    λ h. elim (List-cases s.member_list) [
      | inl e ↦ e
      | inr (x, r, e) ↦ let ok = tell_who-ok s msg.doppelganger_callback (λ n. cc) in ground arith
    ],
    λ e. rw (tell_who-empty s msg.doppelganger_callback i e),
  )
