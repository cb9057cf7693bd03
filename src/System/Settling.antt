-- ===== src/System/Settling.antt =====
-- daemon/chatchannel.go: a queue of messages of the channel master, handled to its end.
use mathlib.Core.List.{append_assoc, append-nil}
use wtelnet.Common.{◌≡◌, refl, sym, ap, ◌∙◌, List, [], ◌∷◌, ◌++◌, Int64}
use wtelnet.Common.Dict.{Dict}
use wtelnet.Message.{MasterToChannel, ChannelToMaster}
use wtelnet.ChatChannel.{UserEntry, ChatChannel}
use wtelnet.ChatChannel.Handlers.{process_message_from_channel_master}
use wtelnet.System.{denials_of, settle}
use wtelnet.System.Rooms.{IsRoom, IsFrom, Fits, process-IsChange}

pub IsFrom-append :
    (k : Int64) (xs ys : List ChannelToMaster) → IsFrom k xs → IsFrom k ys → IsFrom k (xs ++ ys)
IsFrom-append k [] ys p q = q
IsFrom-append k (x ∷ xs) ys (o, i, p) q = (o, i, IsFrom-append k xs ys p q)

module _ (visit : Dict UserEntry → Dict UserEntry) where
  pub settle-append :
      (s : ChatChannel) (q r : List MasterToChannel)
      → settle visit s (q ++ r) ≡ (
        (settle visit (settle visit s q).0 r).0,
        (settle visit s q).1 ++ (settle visit (settle visit s q).0 r).1,
      )
  unfolding settle
  settle-append s [] r = refl
  settle-append s (msg ∷ q) r =
      let t = process_message_from_channel_master visit s msg in
      let ih = settle-append t.channel q r in
      let (s', ds) = settle visit t.channel q in
      ap (λ p. (p.0, denials_of t.effects ++ p.1)) ih
      ∙ ap (λ l. ((settle visit s' r).0, l))
          (sym (append_assoc (denials_of t.effects) ds (settle visit s' r).1))

  pub Fits-append :
      (s : ChatChannel) (q r : List MasterToChannel)
      → Fits visit s q
      → Fits visit (settle visit s q).0 r
      → Fits visit s (q ++ r)
  unfolding settle
  Fits-append s [] r f g = g
  Fits-append s (msg ∷ q) r (f, fs) g =
      (f, Fits-append (process_message_from_channel_master visit s msg).channel q r fs g)

  pub settle-IsRoom :
      (k : Int64) (s : ChatChannel) (q : List MasterToChannel)
      → IsRoom k s
      → Fits visit s q
      → IsRoom k (settle visit s q).0 × IsFrom k (settle visit s q).1
  unfolding settle
  settle-IsRoom k s [] r f = (r, tt)
  settle-IsRoom k s (msg ∷ q) r (f, fs) =
      let c = process-IsChange visit k s msg r f in
      let t = process_message_from_channel_master visit s msg in
      let (r', d) = settle-IsRoom k t.channel q c.room fs in
      (r', IsFrom-append k (denials_of t.effects) (settle visit t.channel q).1 c.named d)

  -- One message more at the end of the queue.
  pub settle-snoc :
      (s : ChatChannel) (q : List MasterToChannel) (msg : MasterToChannel)
      → let t = process_message_from_channel_master visit (settle visit s q).0 msg in
        settle visit s (q ++ msg ∷ []) ≡ (t.channel, (settle visit s q).1 ++ denials_of t.effects)
  unfolding settle
  settle-snoc s q msg =
      let t = process_message_from_channel_master visit (settle visit s q).0 msg in
      settle-append s q (msg ∷ [])
      ∙ ap (λ l. (t.channel, (settle visit s q).1 ++ l)) (append-nil (denials_of t.effects))
