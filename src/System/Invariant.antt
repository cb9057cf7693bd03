-- ===== src/System/Invariant.antt =====
-- daemon/channelmaster.go with daemon/chatchannel.go: the count of the channel master is the number of
-- members once the queue is handled, and of the denials that are on their way.
use mathlib.Core.List.{append_assoc}
use wtelnet.Common.{
  ℕ, ◌+◌, ◌≤◌, ◌<◌, ◌≡◌, refl, ap, ◌≢◌, ◌⊎◌, some, List, [], ◌∷◌, ◌++◌, Int64, modulus, length,
  length-append, arith,
}
use wtelnet.Common.Dict.{Dict, lookup}
use wtelnet.Message.{Chan, MasterToChannel, MasterToChannelOp, ChannelToMaster}
use wtelnet.Master.{PerChatChan, Master}
use wtelnet.ChatChannel.{UserEntry, ChatChannel}
use wtelnet.ChatChannel.Handlers.{process_message_from_channel_master}
use wtelnet.System.{System, denials_of, settle}
use wtelnet.System.Rooms.{IsRoom, IsFrom, IsFitting, Fits, more, less, process-IsChange}
use wtelnet.System.Settling.{IsFrom-append, Fits-append, settle-IsRoom, settle-snoc}
use wtelnet.System.Routes.{IsOwner}

-- No message shuts the chat channel down.
abbrev pub IsOpen : List MasterToChannel → Type 0
IsOpen [] = Unit {0}
IsOpen (msg ∷ queue) = (msg.operation ≢ MasterToChannelOp.shutdown) × IsOpen queue

-- None but the last message shuts it down.
abbrev pub IsLast : List MasterToChannel → Type 0
IsLast [] = Unit {0}
IsLast (msg ∷ queue) = (msg.operation ≡ MasterToChannelOp.shutdown → queue ≡ []) × IsLast queue

pub IsOpen-snoc :
    (queue : List MasterToChannel) (msg : MasterToChannel)
    → IsOpen queue
    → msg.operation ≢ MasterToChannelOp.shutdown
    → IsOpen (queue ++ msg ∷ [])
IsOpen-snoc [] msg o n = (n, tt)
IsOpen-snoc (x ∷ queue) msg (p, o) n = (p, IsOpen-snoc queue msg o n)

IsLast-snoc :
    (queue : List MasterToChannel) (msg : MasterToChannel)
    → IsOpen queue
    → IsLast (queue ++ msg ∷ [])
IsLast-snoc [] msg o = (λ e. refl, tt)
IsLast-snoc (x ∷ queue) msg (p, o) = (λ e. absurd (p e), IsLast-snoc queue msg o)

module _ (visit : Dict UserEntry → Dict UserEntry) where
  -- The members once the queue is handled, and the denials that are on their way then.
  abbrev pub tally : ChatChannel → List MasterToChannel → List ChannelToMaster → ℕ
  tally room queue denials =
      length (settle visit room queue).0.member_list
      + length (denials ++ (settle visit room queue).1)

  -- The chat channel is sound, its messages fit, none but the last one shuts it down, and the denials
  -- name it.
  pub record IsLine (k : Int64) (room : ChatChannel) (queue : List MasterToChannel)
      (denials : List ChannelToMaster) : Type 0 where
    pub sound : IsRoom k room
    pub fits : Fits visit room queue
    pub last : IsLast queue
    pub named : IsFrom k denials

  -- The channel master counts the channel.
  pub record IsCounted (k : Int64) (own : Chan) (m : Master) (queue : List MasterToChannel) (n : ℕ)
      : Type 0 where
    pub owner : IsOwner own (λ j. j ≡ k) m
    pub info : PerChatChan
    pub found : lookup k m.running_map ≡ some info
    pub uses : info.chat_channel_callback ≡ own
    pub counted : info.member_count ≡ n
    pub some_left : 1 ≤ n
    pub in_range : n < modulus
    pub open_queue : IsOpen queue

  -- Or it has forgotten the channel, of which nothing is left.
  pub record IsForgotten (own : Chan) (m : Master) (n : ℕ) : Type 0 where
    pub owner : IsOwner own (λ j. ⊥) m
    pub none_left : n ≡ 0

  pub record IsSound (k : Int64) (own : Chan) (s : System) : Type 0 where
    pub line : IsLine k s.room s.queue s.denials
    pub phase :
        IsCounted k own s.master s.queue (tally s.room s.queue s.denials)
        ⊎ IsForgotten own s.master (tally s.room s.queue s.denials)

  -- A message that fits is sent.
  pub push-IsLine :
      (k : Int64) (room : ChatChannel) (queue : List MasterToChannel)
      (denials : List ChannelToMaster) (msg : MasterToChannel)
      → IsLine k room queue denials
      → IsOpen queue
      → IsFitting msg.operation (settle visit room queue).0 msg
      → IsLine k room (queue ++ msg ∷ []) denials
        × (tally room (queue ++ msg ∷ []) denials + less msg.operation
            ≡ tally room queue denials + more msg.operation)
  push-IsLine k room queue denials msg l o f =
      let (r, d) = settle-IsRoom visit k room queue l.sound l.fits in
      let (s', ds) = settle visit room queue in
      let t = process_message_from_channel_master visit s' msg in
      let c = process-IsChange visit k s' msg r f in
      (
        record {
          sound = l.sound;
          fits = Fits-append visit room queue (msg ∷ []) l.fits (f, tt);
          last = IsLast-snoc queue msg o;
          named = l.named;
        },
        rw (settle-snoc visit room queue msg) (
            omega (
              arith,
              c.sums,
              length-append denials (ds ++ denials_of t.effects),
              length-append ds (denials_of t.effects),
              length-append denials ds,
            )),
      )

  -- A message is handled.
  pub pop-IsLine :
      (k : Int64) (room : ChatChannel) (queue : List MasterToChannel)
      (denials : List ChannelToMaster) (msg : MasterToChannel)
      → IsLine k room (msg ∷ queue) denials
      → let t = process_message_from_channel_master visit room msg in
        IsLine k t.channel queue (denials ++ denials_of t.effects)
        × (tally t.channel queue (denials ++ denials_of t.effects)
            ≡ tally room (msg ∷ queue) denials)
  unfolding settle
  pop-IsLine k room queue denials msg l =
      let t = process_message_from_channel_master visit room msg in
      let c = process-IsChange visit k room msg l.sound l.fits.0 in
      (
        record {
          sound = c.room;
          fits = l.fits.1;
          last = l.last.1;
          named = IsFrom-append k denials (denials_of t.effects) l.named c.named;
        },
        ap (λ l. length (settle visit t.channel queue).0.member_list + length l)
            (append_assoc denials (denials_of t.effects) (settle visit t.channel queue).1),
      )
