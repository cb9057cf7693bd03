-- ===== src/Master/Sends.antt =====
-- daemon/channelmaster.go: its replies to doppelgangers. In Go a send on a closed Go channel panics; `gone`
-- says which Go channels the doppelgangers have closed.
use wtelnet.Common.{Bool, false, List, [], ◌∷◌, ◌||◌, if◌then◌else◌}
use wtelnet.Message.{Chan}
use wtelnet.Master.{Effect, to_user, to_channel, launch, logged, printed, Turn, panicked}

module _ (gone : Chan → Bool) where
  -- Whether one of the replies is on a Go channel that is closed.
  unfoldable pub hits : List Effect → Bool
  hits [] = false
  hits (to_user c msg ∷ es) = gone c || hits es
  hits (to_channel c msg ∷ es) = hits es
  hits (launch id name msg c ∷ es) = hits es
  hits (logged text ∷ es) = hits es
  hits (printed n ∷ es) = hits es

  -- What is done before the first such reply.
  unfoldable pub before : List Effect → List Effect
  before [] = []
  before (to_user c msg ∷ es) = if gone c then [] else to_user c msg ∷ before es
  before (to_channel c msg ∷ es) = to_channel c msg ∷ before es
  before (launch id name msg c ∷ es) = launch id name msg c ∷ before es
  before (logged text ∷ es) = logged text ∷ before es
  before (printed n ∷ es) = printed n ∷ before es

  -- A turn of the channel master while these Go channels are closed: it panics at the first such reply.
  unfoldable pub sends : Turn → Turn
  unfolding hits before
  sends t = if hits t.effects then record t { status = panicked; effects = before t.effects } else t
