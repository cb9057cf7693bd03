-- ===== src/System/Rooms.antt =====
-- daemon/chatchannel.go: what the messages of the channel master do to the number of members and of
-- denials.
use wtelnet.Common.{
  ℕ, ◌+◌, ◌≡◌, refl, sym, ◌∙◌, ◌≢◌, none, some, List, [], ◌∷◌, ◌++◌, Int64, length, arith,
  Option-cases, inl, inr, leb, codes, if_elim,
}
use wtelnet.Common.Dict.{Dict, lookup, delete}
use wtelnet.Common.Dict.Size.{
  IsUnique, length-insert_new, insert-IsUnique, delete-IsUnique, length-delete_held,
}
use wtelnet.Message.{
  Chan, MasterToChannel, MasterToChannelOp, ChannelToMaster, ChannelToMasterOp, ChannelToUserOp,
}
use wtelnet.ChatChannel.{
  UserEntry, ChatChannel, to_user, conversation, Turn, carries_on, notice, max_members,
}
use wtelnet.ChatChannel.Joining.{on_join, refuse, admit, welcome, with_member, entry}
use wtelnet.ChatChannel.Handlers.{
  on_exit, on_who, announce_exit, dispatch, process_message_from_channel_master,
}
use wtelnet.System.{denials_of}
use wtelnet.System.Quiet.{
  quiet-append, announce_exit-quiet, announce_exit-all, who-quiet, welcome-quiet, admit-welcome,
}

-- The chat channel of the id `k`: its id and its Go channels are set, as at its launch, and no
-- doppelganger is in its members twice.
pub record IsRoom (k : Int64) (s : ChatChannel) : Type 0 where
  pub same_id : s.chat_channel_id ≡ k
  pub id_set : k ≢ 0
  pub own_set : (c : Chan) × (s.incoming_from_doppelganger ≡ some c)
  pub master_set : (c : Chan) × (s.master_chan ≡ some c)
  pub unique : IsUnique s.member_list

-- The denials name the channel.
abbrev pub IsFrom : Int64 → List ChannelToMaster → Type 0
IsFrom k [] = Unit {0}
IsFrom k (msg ∷ msgs) =
    (msg.operation ≡ ChannelToMasterOp.join_denied) × (msg.chat_channel_id ≡ k) × IsFrom k msgs

module _ (visit : Dict UserEntry → Dict UserEntry) (k : Int64) (s : ChatChannel)
    (msg : MasterToChannel) where
  -- How a message changes the members and what denials it brings: `more` and `less` members.
  pub record IsChange (more less : ℕ) (t : Turn) : Type 0 where
    pub room : IsRoom k t.channel
    pub sums :
        length t.channel.member_list + length (denials_of t.effects) + less
        ≡ length s.member_list + more
    pub named : IsFrom k (denials_of t.effects)

  quiet-IsChange :
      (more less : ℕ) (t : Turn) (s' : ChatChannel)
      → t.channel ≡ s'
      → denials_of t.effects ≡ []
      → IsRoom k s'
      → length s'.member_list + less ≡ length s.member_list + more
      → IsChange more less t
  quiet-IsChange more less t s' e d r l = record {
    room = rw e r;
    sums = rw (e, d) (omega (arith, l));
    named = rw d tt;
  }

  same-IsRoom :
      (m : Dict UserEntry) → IsRoom k s → IsUnique m → IsRoom k (record s { member_list = m })
  same-IsRoom m r u = record {
    same_id = r.same_id;
    id_set = r.id_set;
    own_set = r.own_set;
    master_set = r.master_set;
    unique = u;
  }

  refuse-IsChange : IsRoom k s → IsChange 1 0 (refuse s msg)
  unfolding refuse
  refuse-IsChange r =
      let (m, e) = r.master_set in
      elim (Option-cases msg.doppelganger_callback) [
        | inl n ↦
            rw (e, n, refuse)
              (record { room = r; sums = omega arith; named = (refl, r.same_id, tt) })
        | inr (c, n) ↦
            rw (e, n, refuse)
              (record { room = r; sums = omega arith; named = (refl, r.same_id, tt) })
      ]

  admit-IsChange :
      IsRoom k s
      → lookup msg.doppelganger_id s.member_list ≡ none
      → (c : Chan) → msg.doppelganger_callback ≡ some c
      → IsChange 1 0 (admit visit s msg)
  admit-IsChange r n c e =
      let (o, own) = r.own_set in
      let id_set : s.chat_channel_id ≢ 0 = λ z. r.id_set (sym r.same_id ∙ z) in
      let t = with_member s msg c in
      let joined = to_user c (notice s ChannelToUserOp.joined s.chat_channel_name) ∷ [] in
      let w = welcome-quiet visit t msg c joined refl in
      let new = entry msg c in
      rw (admit-welcome visit s msg o c id_set own e) (
        quiet-IsChange 1 0 (welcome visit t msg c joined) t w.1 w.0
          (same-IsRoom t.member_list r
            (insert-IsUnique msg.doppelganger_id new s.member_list r.unique))
          (omega (arith, length-insert_new msg.doppelganger_id new s.member_list n)))

  on_exit-IsChange :
      IsRoom k s
      → (e : UserEntry) → lookup msg.doppelganger_id s.member_list ≡ some e
      → IsChange 0 1 (on_exit visit s msg)
  unfolding on_exit
  on_exit-IsChange r e l =
      let (o, own) = r.own_set in
      let id_set : s.chat_channel_id ≢ 0 = λ z. r.id_set (sym r.same_id ∙ z) in
      let all = announce_exit-all s msg o (visit s.member_list) id_set own in
      let left = delete msg.doppelganger_id s.member_list in
      let told = announce_exit s msg (visit s.member_list) in
      let line =
        conversation (
          codes " <"
          ++ msg.user_name
          ++ codes " has EXITED #"
          ++ s.chat_channel_name
          ++ codes ">\n")
        ∷ [] in
      let t = carries_on (record s { member_list = left }) (told.0 ++ line) in
      rw all (
        quiet-IsChange 0 1 t (record s { member_list = left }) refl
          (quiet-append told.0 line (announce_exit-quiet s msg (visit s.member_list)) refl)
          (same-IsRoom left r (delete-IsUnique msg.doppelganger_id s.member_list r.unique))
          (omega (arith, length-delete_held msg.doppelganger_id e s.member_list r.unique l)))

  on_who-IsChange : IsRoom k s → IsChange 0 0 (on_who visit s msg)
  unfolding on_who
  on_who-IsChange r = record {
    room = r;
    sums = rw (who-quiet visit s msg.doppelganger_callback) (omega arith);
    named = rw (who-quiet visit s msg.doppelganger_callback) tt;
  }

-- What the theorems ask of a message, at the state of the chat channel when it is handled.
abbrev pub IsFitting : MasterToChannelOp → ChatChannel → MasterToChannel → Type 0
IsFitting MasterToChannelOp.join s msg =
    (lookup msg.doppelganger_id s.member_list ≡ none)
    × ((c : Chan) × (msg.doppelganger_callback ≡ some c))
IsFitting MasterToChannelOp.who s msg = s.member_list ≢ []
IsFitting MasterToChannelOp.exit s msg =
    (e : UserEntry) × (lookup msg.doppelganger_id s.member_list ≡ some e)
IsFitting MasterToChannelOp.shutdown s msg = s.member_list ≡ []
IsFitting (MasterToChannelOp.other n) s msg = Unit {0}

-- How many members and denials more, and how many members less, there are for a message.
abbrev pub more : MasterToChannelOp → ℕ
more MasterToChannelOp.join = 1
more _ = 0

abbrev pub less : MasterToChannelOp → ℕ
less MasterToChannelOp.exit = 1
less _ = 0

module _ (visit : Dict UserEntry → Dict UserEntry) where
  -- Every message of a queue fits when its turn comes.
  abbrev pub Fits : ChatChannel → List MasterToChannel → Type 0
  Fits s [] = Unit {0}
  Fits s (msg ∷ queue) =
      IsFitting msg.operation s msg
      × Fits (process_message_from_channel_master visit s msg).channel queue

module _ (visit : Dict UserEntry → Dict UserEntry) (k : Int64) where
  on_join-IsChange :
      (s : ChatChannel) (msg : MasterToChannel)
      → IsRoom k s
      → lookup msg.doppelganger_id s.member_list ≡ none
      → (c : Chan) → msg.doppelganger_callback ≡ some c
      → IsChange visit k s msg 1 0 (on_join visit s msg)
  unfolding on_join
  on_join-IsChange s msg r n c e =
      if_elim (IsChange visit k s msg 1 0) (leb max_members (length s.member_list))
        (refuse-IsChange visit k s msg r) (admit-IsChange visit k s msg r n c e)

  dispatch-IsChange :
      (op : MasterToChannelOp) (s : ChatChannel) (msg : MasterToChannel)
      → IsRoom k s
      → IsFitting op s msg
      → IsChange visit k s msg (more op) (less op) (dispatch visit op s msg)
  unfolding dispatch
  dispatch-IsChange MasterToChannelOp.join s msg r (n, (c, e)) = on_join-IsChange s msg r n c e
  dispatch-IsChange MasterToChannelOp.who s msg r f = on_who-IsChange visit k s msg r
  dispatch-IsChange MasterToChannelOp.exit s msg r (e, l) = on_exit-IsChange visit k s msg r e l
  dispatch-IsChange MasterToChannelOp.shutdown s msg r f =
      quiet-IsChange visit k s msg 0 0 _ s refl refl r (omega arith)
  dispatch-IsChange (MasterToChannelOp.other n) s msg r f =
      quiet-IsChange visit k s msg 0 0 _ s refl refl r (omega arith)

  pub process-IsChange :
      (s : ChatChannel) (msg : MasterToChannel)
      → IsRoom k s
      → IsFitting msg.operation s msg
      → IsChange visit k s msg
          (more msg.operation)
          (less msg.operation)
          (process_message_from_channel_master visit s msg)
  unfolding process_message_from_channel_master
  process-IsChange s msg r f = dispatch-IsChange msg.operation s msg r f
