-- ===== src/Master/Failures.antt =====
-- daemon/channelmaster.go: an exit that names a channel which is not running.
use wtelnet.Common.{◌≡◌, ◌≢◌, none, some, List, ◌∷◌, Bytes, Int64, arith, Result}
use wtelnet.Common.Dict.{lookup}
use wtelnet.Message.{UserToMaster, UserToMasterOp}
use wtelnet.Master.{Master, returned}
use wtelnet.Master.Loop.{from_user, Event, turn, run}
use wtelnet.Master.Counts.{run-cons}

-- An exit that names a channel which is not running ends the goroutine of the channel master: it
-- returns, with its table as it was, and no later event is handled.
pub exit-unknown_channel :
    (get : Bytes → Result Int64) (m : Master) (msg : UserToMaster) (es : List Event)
    → msg.operation ≡ UserToMasterOp.exit
    → msg.chat_channel_id ≢ 0
    → lookup msg.chat_channel_id m.running_map ≡ none
    → run m (from_user get (some msg) ∷ es) ≡ (m, returned)
unfolding turn
exit-unknown_channel get m msg es o i e =
    rw (run-cons m (from_user get (some msg)) es) (ground arith)
