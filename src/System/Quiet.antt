-- ===== src/System/Quiet.antt =====
-- daemon/chatchannel.go: turns in which no denial is sent.
use wtelnet.Common.{
  ◌<◌, ◌≡◌, refl, ap, ◌∙◌, ◌≢◌, true, false, Option, some, List, [], ◌∷◌, ◌++◌, length, arith, leb,
  codes, if_elim,
}
use wtelnet.Common.Dict.{Dict}
use wtelnet.Message.{Chan, MasterToChannel, ChannelToUserOp}
use wtelnet.ChatChannel.{
  UserEntry, ChatChannel, Effect, to_user, to_master, conversation, logged, closed, Turn, notice,
  max_members,
}
use wtelnet.ChatChannel.Joining.{
  on_join, admit, welcome, announce_join, tell_who_is_on_channel, with_member,
}
use wtelnet.ChatChannel.Handlers.{announce_exit}
use wtelnet.System.{denials_of}

denials_of-append : (xs ys : List Effect) → denials_of (xs ++ ys) ≡ denials_of xs ++ denials_of ys
denials_of-append [] ys = refl
denials_of-append (to_master m ∷ xs) ys = ap (λ l. m ∷ l) (denials_of-append xs ys)
denials_of-append (to_user c m ∷ xs) ys = denials_of-append xs ys
denials_of-append (conversation t ∷ xs) ys = denials_of-append xs ys
denials_of-append (logged t ∷ xs) ys = denials_of-append xs ys
denials_of-append (closed c ∷ xs) ys = denials_of-append xs ys

pub quiet-append :
    (xs ys : List Effect) → denials_of xs ≡ [] → denials_of ys ≡ [] → denials_of (xs ++ ys) ≡ []
quiet-append xs ys p q = denials_of-append xs ys ∙ ap (λ l. l ++ denials_of ys) p ∙ q

announce_join-quiet :
    (s : ChatChannel) (msg : MasterToChannel) (m : Dict UserEntry)
    → denials_of (announce_join s msg m) ≡ []
unfolding announce_join
announce_join-quiet s msg [] = refl
announce_join-quiet s msg (e ∷ m) = ground (arith, announce_join-quiet s msg m)

pub announce_exit-quiet :
    (s : ChatChannel) (msg : MasterToChannel) (m : Dict UserEntry)
    → denials_of (announce_exit s msg m).0 ≡ []
unfolding announce_exit
announce_exit-quiet s msg [] = refl
announce_exit-quiet s msg (e ∷ m) = ground (arith, announce_exit-quiet s msg m)

pub announce_exit-all :
    (s : ChatChannel) (msg : MasterToChannel) (c : Chan) (m : Dict UserEntry)
    → s.chat_channel_id ≢ 0
    → s.incoming_from_doppelganger ≡ some c
    → (announce_exit s msg m).1 ≡ true
unfolding announce_exit
announce_exit-all s msg c [] i o = refl
announce_exit-all s msg c (e ∷ m) i o = ground (arith, announce_exit-all s msg c m i o)

module _ (visit : Dict UserEntry → Dict UserEntry) where
  pub who-quiet :
      (s : ChatChannel) (c : Option Chan) → denials_of (tell_who_is_on_channel visit s c).0 ≡ []
  unfolding tell_who_is_on_channel
  who-quiet s c = ground arith

  pub welcome-quiet :
      (s : ChatChannel) (msg : MasterToChannel) (c : Chan) (es : List Effect)
      → denials_of es ≡ []
      → (denials_of (welcome visit s msg c es).effects ≡ [])
        × ((welcome visit s msg c es).channel ≡ s)
  unfolding welcome
  welcome-quiet s msg c es q =
      let who = tell_who_is_on_channel visit s (some c) in
      let announced = announce_join s msg (visit s.member_list) in
      let line =
        conversation (
          codes " <"
          ++ msg.user_name
          ++ codes " has JOINED #"
          ++ s.chat_channel_name
          ++ codes ">\n")
        ∷ [] in
      if_elim (λ (t : Turn). (denials_of t.effects ≡ []) × (t.channel ≡ s)) who.1
        (
          quiet-append (es ++ who.0 ++ announced) line
              (quiet-append (es ++ who.0) announced (quiet-append es who.0 q (who-quiet s (some c)))
                (announce_join-quiet s msg (visit s.member_list)))
              refl,
          refl,
        )
        (q, refl)

  pub admit-welcome :
      (s : ChatChannel) (msg : MasterToChannel) (own c : Chan)
      → s.chat_channel_id ≢ 0
      → s.incoming_from_doppelganger ≡ some own
      → msg.doppelganger_callback ≡ some c
      → admit visit s msg
        ≡ welcome visit
            (with_member s msg c)
            msg
            c
            (to_user c (notice s ChannelToUserOp.joined s.chat_channel_name) ∷ [])
  unfolding admit
  admit-welcome s msg own c i o e = ground arith

  pub on_join-admit :
      (s : ChatChannel) (msg : MasterToChannel)
      → length s.member_list < max_members
      → on_join visit s msg ≡ admit visit s msg
  unfolding on_join
  on_join-admit s msg lt =
      let room : leb max_members (length s.member_list) ≡ false = ground arith in rw room

  -- A join of a channel with room is admitted, also that of a member.
  pub on_join-admits :
      (s : ChatChannel) (msg : MasterToChannel) (own c : Chan)
      → s.chat_channel_id ≢ 0
      → s.incoming_from_doppelganger ≡ some own
      → length s.member_list < max_members
      → msg.doppelganger_callback ≡ some c
      → let t = on_join visit s msg in
        (t.channel ≡ with_member s msg c) × (denials_of t.effects ≡ [])
  on_join-admits s msg own c i o lt e =
      let t = with_member s msg c in
      let w =
        welcome-quiet t msg c (to_user c (notice s ChannelToUserOp.joined s.chat_channel_name) ∷ [])
          refl in
      rw (on_join-admit s msg lt ∙ admit-welcome s msg own c i o e) (w.1, w.0)
