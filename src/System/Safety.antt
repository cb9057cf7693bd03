-- ===== src/System/Safety.antt =====
-- daemon/channelmaster.go with daemon/chatchannel.go: a chat channel from its launch on, while users ask
-- as intended.
use mathlib.Core.Path.{subst}
use wtelnet.Common.{
  ◌+◌, ◌≤◌, ◌≡◌, sym, ap, ◌∙◌, ◌≢◌, ◌⊎◌, inl, inr, Bool, false, some, List, [], ◌∷◌, ◌++◌, Bytes,
  Int64, length,
}
use wtelnet.Common.Dict.{Dict, lookup}
use wtelnet.Message.{Chan, MasterToChannel, MasterToChannelOp, UserToMaster, ChannelToMaster}
use wtelnet.Master.{PerChatChan, running}
use wtelnet.Master.Leaving.{on_exit}
use wtelnet.Master.Loop.{Event, from_channel, start, run, turn}
use wtelnet.Master.Ownership.{run-IsApart}
use wtelnet.ChatChannel.{UserEntry}
use wtelnet.ChatChannel.Loop.{handle_from_master, closing, looping, finished}
use wtelnet.ChatChannel.Notices.{IsRound}
use wtelnet.ChatChannel.Sends.{IsOpen, sends, sends-open}
use wtelnet.System.{System, sent_to, settled, on_the_way, IsMember, Reach}
use wtelnet.System.Handling.{fitting-handled}
use wtelnet.System.Invariant.{IsLine, IsSound}
use wtelnet.System.Launch.{launched, launched-IsSound}
use wtelnet.System.Preservation.{Reach-IsSound}
use wtelnet.System.Consequences.{
  counted_lem, exit-running_lem, denial-running_lem, closing-IsForgotten, forgotten-denials,
  silent_lem,
}

module _ (visit : Dict UserEntry → Dict UserEntry) (events : List Event) (msg : UserToMaster)
    (id : Int64) (name : Bytes) (room_chan master_chan c : Chan) (set : id ≢ 0)
    (reply_on : msg.callback_from_chat_channel ≡ some c) {s : System}
    (reached : Reach visit id
      (run start events).0.next_chan
      (launched (run start events).0 msg id name room_chan master_chan)
      s) where
  abbrev own : Chan
  own = (run start events).0.next_chan

  sound : IsSound visit id own s
  sound = Reach-IsSound visit id own reached (
      launched-IsSound visit (run start events).0 msg id name room_chan master_chan
        (run-IsApart events) set c reply_on)

  -- A chat channel whose id is not 0 is launched for a join that says where to reply, by a channel
  -- master that has received any events before. In every state that steps of the two goroutines lead
  -- to from there, with proper requests only: if the entry for the id holds the Go channel of this
  -- launch, its count is the number of members that the chat channel has once it has handled its
  -- queue, and of the denials that are on their way to the channel master then; and it is at least
  -- one.
  pub member_count-settled :
      (info : PerChatChan)
      → lookup id s.master.running_map ≡ some info
      → info.chat_channel_callback ≡ own
      → (info.member_count ≡ length (settled visit s).member_list + length (on_the_way visit s))
        × (1 ≤ info.member_count)
  member_count-settled info f u = counted_lem visit id own s sound info f u

  -- A chat channel whose id is not 0 is launched for a join that says where to reply, by a channel
  -- master that has received any events before. In every state that steps of the two goroutines lead
  -- to from there, with proper requests only, if a round over a map visits each entry once, and if no
  -- Go channel of a member, nor the one that comes with the first message of the queue, has been
  -- closed by its doppelganger: the chat channel takes this message without a panic, that of a send
  -- on a closed Go channel included, and either it loops on, or it returns, with nothing logged and
  -- its two Go channels closed, while its queue has no other message and no denial of it is on its
  -- way.
  pub chat_channel-ends_empty :
      (gone : Chan → Bool) (incoming : Chan) (first : MasterToChannel)
      (queue : List MasterToChannel)
      → IsRound visit
      → s.queue ≡ first ∷ queue
      → IsOpen gone s.room first
      → let t = sends gone (handle_from_master visit incoming false s.room first) in
        (t.status ≡ looping)
        ⊎ ((t.status ≡ finished)
            × (t.effects ≡ closing incoming s.room)
            × (queue ≡ [])
            × (s.denials ≡ []))
  chat_channel-ends_empty gone incoming first queue round e open_all =
      let l = subst (λ q. IsLine visit id s.room q s.denials) e sound.line in
      rw (sends-open gone visit round s.room first open_all incoming)
        (elim (fitting-handled visit round s.room first incoming
          (λ z. set (sym l.sound.same_id ∙ z)) l.fits.0) [
            | inl t ↦ inl t
            | inr (op, f, es) ↦ inr (
              f,
              es,
              l.last.0 op,
              forgotten-denials visit id own s sound (
                  closing-IsForgotten visit id own s sound [] first
                    (e ∙ ap (λ q. first ∷ q) (l.last.0 op)) op),
            )
          ])

  -- A chat channel whose id is not 0 is launched for a join that says where to reply, by a channel
  -- master that has received any events before. In every state that steps of the two goroutines lead
  -- to from there, with proper requests only: if the last message of the queue is a shutdown, the
  -- channel master sends nothing more to the Go channel of this launch, whatever it receives next.
  pub shut_down-silent :
      (queue : List MasterToChannel) (last : MasterToChannel) (e : Event)
      → s.queue ≡ queue ++ last ∷ []
      → last.operation ≡ MasterToChannelOp.shutdown
      → sent_to own (turn s.master e).effects ≡ []
  shut_down-silent queue last e q op =
      silent_lem visit id own s sound e
        (closing-IsForgotten visit id own s sound queue last q op).owner

  -- A chat channel whose id is not 0 is launched for a join that says where to reply, by a channel
  -- master that has received any events before. In every state that steps of the two goroutines lead
  -- to from there, with proper requests only: the channel master goes on after an exit from the
  -- channel, of a doppelganger that is a member once the queue is handled.
  pub exit-keeps_running :
      (leaving : UserToMaster)
      → leaving.chat_channel_id ≡ id
      → IsMember visit s leaving.doppelganger_id
      → (on_exit s.master leaving).status ≡ running
  exit-keeps_running leaving e h = exit-running_lem visit id own s sound leaving set e h

  -- A chat channel whose id is not 0 is launched for a join that says where to reply, by a channel
  -- master that has received any events before. In every state that steps of the two goroutines lead
  -- to from there, with proper requests only: the channel master goes on after the next denial of
  -- the chat channel.
  pub denial-keeps_running :
      (denial : ChannelToMaster) (denials : List ChannelToMaster)
      → s.denials ≡ denial ∷ denials
      → (turn s.master (from_channel (some denial))).status ≡ running
  denial-keeps_running denial denials e = denial-running_lem visit id own s sound denial denials e
