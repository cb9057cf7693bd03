-- ===== src/Crossings/Served.antt =====
-- daemon/doppelganger.go with daemon/channelmaster.go: what the channel master does with the messages that a
-- doppelganger really sends.
use mathlib.Core.List.{Memᴰ}
use mathlib.Core.List.Memᴰ.{head, tail}
use mathlib.Core.Path.{subst}
use wtelnet.Common.{
  sym, ◌≡◌, ◌≢◌, refl, Bool, true, false, Option, none, some, List, [], ◌∷◌, ◌==◌, if◌then◌else◌,
  Bytes, arith, Int64, Result, ok, err, panic, Option-cases, inl, inr, Bool-cases, ap, ◌∙◌, ◌&&◌,
}
use wtelnet.Common.Dict.{lookup}
use wtelnet.Message.{Chan, UserToMaster, UserToMasterOp}
use wtelnet.Database.{Sql}
use wtelnet.Doppelganger
use wtelnet.Doppelganger.{to_master}
use wtelnet.Doppelganger.Loop
use wtelnet.Doppelganger.Loop.{Event, new_user_info, doppelganger_start}
use wtelnet.Doppelganger.Requests.{IsRequest, Requests}
use wtelnet.Doppelganger.Requests.Turns.{run-Requests}
use wtelnet.Master.{
  Effect, to_user, to_channel, launch, logged, printed, Master, Turn, running, returned,
  PerChatChan, panicked,
}
use wtelnet.Master.Joining.{
  join_chat_channel, who_is_on_chat_channel, join_found, join_answer, join_named, on_join,
}
use wtelnet.Master.Sends.{hits, sends}
use wtelnet.Master.Leaving.{on_exit}
use wtelnet.Master.Loop.{on_user_message, turn, from_user}

module _ (m c : Chan) where
  -- Every reply goes to the Go channel `m`, and every message for a chat channel carries the Go channel `c`.
  abbrev pub Addressed : List Effect → Type 0
  Addressed [] = Unit {0}
  Addressed (to_user d msg ∷ es) = (d ≡ m) × Addressed es
  Addressed (to_channel d msg ∷ es) = (msg.doppelganger_callback ≡ some c) × Addressed es
  Addressed (launch id name msg d ∷ es) = (msg.doppelganger_callback ≡ some c) × Addressed es
  Addressed (logged text ∷ es) = Addressed es
  Addressed (printed n ∷ es) = Addressed es

-- Whether the turn replies.
abbrev replies : List Effect → Bool
replies [] = false
replies (to_user d msg ∷ es) = true
replies (to_channel d msg ∷ es) = replies es
replies (launch id name msg d ∷ es) = replies es
replies (logged text ∷ es) = replies es
replies (printed n ∷ es) = replies es

-- An exit from a channel that is not running.
abbrev pub exits_unknown : UserToMasterOp → Option PerChatChan → Bool
exits_unknown UserToMasterOp.exit none = true
exits_unknown UserToMasterOp.exit (some info) = false
exits_unknown UserToMasterOp.join entry = false
exits_unknown UserToMasterOp.who entry = false
exits_unknown (UserToMasterOp.other n) entry = false

-- A join that is denied: of no name, of a name that the database does not have, or after an error of it.
abbrev pub joins_nothing : UserToMasterOp → Bytes → Result Int64 → Bool
joins_nothing UserToMasterOp.join [] answer = true
joins_nothing UserToMasterOp.join (b ∷ name) (ok id) = id == 0
joins_nothing UserToMasterOp.join (b ∷ name) (err e) = true
joins_nothing UserToMasterOp.join (b ∷ name) panic = false
joins_nothing UserToMasterOp.who name answer = false
joins_nothing UserToMasterOp.exit name answer = false
joins_nothing (UserToMasterOp.other n) name answer = false

-- The turn answers to the sender only. While the Go channels `gone` are closed it panics exactly if it
-- denies a join to a doppelganger that has closed its own; else its goroutine returns exactly at an
-- exit from an unknown channel.
pub record IsServed (gone : Chan → Bool) (m c : Chan) (denies unknown : Bool) (t : Turn)
    : Type 0 where
  pub addressed : Addressed m c t.effects
  pub status :
      (sends gone t).status
      ≡ (if denies && gone m then panicked else if unknown then returned else running)

-- The same before the sends.
record IsAnswered (m c : Chan) (denies unknown : Bool) (t : Turn) : Type 0 where
  addressed : Addressed m c t.effects
  replied : replies t.effects ≡ denies
  status : t.status ≡ (if unknown then returned else running)

Addressed-hits :
    (gone : Chan → Bool) (m c : Chan) (es : List Effect)
    → Addressed m c es
    → hits gone es ≡ replies es && gone m
unfolding hits
Addressed-hits gone m c [] a = refl
Addressed-hits gone m c (to_user d msg ∷ es) a =
    let rest = Addressed-hits gone m c es a.1 in
    let same : gone d ≡ gone m = ap gone a.0 in
    elim (Bool-cases (gone m)) [ inl e ↦ ground arith | inr e ↦ ground arith ]
Addressed-hits gone m c (to_channel d msg ∷ es) a = Addressed-hits gone m c es a.1
Addressed-hits gone m c (launch id name msg d ∷ es) a = Addressed-hits gone m c es a.1
Addressed-hits gone m c (logged text ∷ es) a = Addressed-hits gone m c es a
Addressed-hits gone m c (printed n ∷ es) a = Addressed-hits gone m c es a

answered-IsServed :
    (gone : Chan → Bool) (m c : Chan) (denies unknown : Bool) (t : Turn)
    → IsAnswered m c denies unknown t
    → IsServed gone m c denies unknown t
unfolding sends
answered-IsServed gone m c denies unknown t a =
    let h : hits gone t.effects ≡ denies && gone m =
      Addressed-hits gone m c t.effects a.addressed ∙ ap (λ r. r && gone m) a.replied in
    record { addressed = a.addressed; status = ground arith }

module _ (id : Int64) (m c : Chan) (k : Master) (msg : UserToMaster)
    (r : IsRequest id m c msg) where
  join_chat_channel-IsAnswered :
      (i : Int64) (name : Bytes) → IsAnswered m c false false (join_chat_channel k msg i name)
  unfolding join_chat_channel
  join_chat_channel-IsAnswered i name = elim (Option-cases (lookup i k.running_map)) [
    | inl e ↦ ground arith
    | inr (info, e) ↦ ground arith
  ]

  who-IsAnswered : IsAnswered m c false false (who_is_on_chat_channel k msg)
  unfolding who_is_on_chat_channel
  who-IsAnswered = ground arith

  join_found-IsAnswered : (i : Int64) → IsAnswered m c (i == 0) false (join_found k msg i [])
  unfolding join_found
  join_found-IsAnswered i =
      let t = join_chat_channel-IsAnswered i msg.parameter in
      elim (Bool-cases (i == 0)) [
        | inl e ↦
            rw (e, r.master_reply)
              (record { addressed = (refl, tt); replied = refl; status = refl })
        | inr e ↦ rw e t
      ]

  join_named-IsAnswered :
      (get : Bytes → Result Int64) (name : Bytes) (answer : Result Int64)
      → get name ≡ answer
      → answer ≢ panic
      → IsAnswered m c
          (joins_nothing UserToMasterOp.join name answer)
          false
          (join_named get k msg name)
  unfolding join_named join_answer
  join_named-IsAnswered get [] answer e p = ground arith
  join_named-IsAnswered get (b ∷ name) (ok i) e p = rw e (join_found-IsAnswered i)
  join_named-IsAnswered get (b ∷ name) (err x) e p = ground arith
  join_named-IsAnswered get (b ∷ name) panic e p = absurd (p refl)

  exit-IsAnswered :
      msg.operation ≡ UserToMasterOp.exit
      → IsAnswered m c false
          (exits_unknown UserToMasterOp.exit (lookup msg.chat_channel_id k.running_map))
          (on_exit k msg)
  unfolding on_exit
  exit-IsAnswered o = ground arith

  op-IsAnswered :
      (op : UserToMasterOp) (get : Bytes → Result Int64)
      → msg.operation ≡ op
      → get msg.parameter ≢ panic
      → IsAnswered m c
          (joins_nothing op msg.parameter (get msg.parameter))
          (exits_unknown op (lookup msg.chat_channel_id k.running_map))
          (on_user_message get op k msg)
  unfolding on_user_message on_join
  op-IsAnswered UserToMasterOp.join get e p =
      join_named-IsAnswered get msg.parameter (get msg.parameter) refl p
  op-IsAnswered UserToMasterOp.who get e p = who-IsAnswered
  op-IsAnswered UserToMasterOp.exit get e p = exit-IsAnswered e
  op-IsAnswered (UserToMasterOp.other n) get e p = ground arith

Requests-rest :
    (id : Int64) (m c : Chan) (e : Doppelganger.Effect) (trace : List Doppelganger.Effect)
    → Requests id m c (e ∷ trace)
    → Requests id m c trace
Requests-rest id m c (Doppelganger.wrote text b) trace r = r
Requests-rest id m c (to_master msg) trace r = r.1
Requests-rest id m c (Doppelganger.to_channel d msg) trace r = r
Requests-rest id m c (Doppelganger.logged text) trace r = r
Requests-rest id m c Doppelganger.slept trace r = r

Requests-IsRequest :
    (id : Int64) (m c : Chan) (trace : List Doppelganger.Effect) (msg : UserToMaster)
    → Requests id m c trace
    → Memᴰ (to_master msg) trace
    → IsRequest id m c msg
Requests-IsRequest id m c [] msg r h = elim h [ ]
Requests-IsRequest id m c (e ∷ trace) msg r (head q) =
    let r' : Requests id m c (to_master msg ∷ trace) =
      subst (λ x. Requests id m c (x ∷ trace)) (sym q) r in
    r'.0
Requests-IsRequest id m c (e ∷ trace) msg r (tail h) =
    Requests-IsRequest id m c trace msg (Requests-rest id m c e trace r) h

-- A message that a doppelganger has sent to the channel master, from its start and over any events, where
-- the database's answer does not panic: the channel master's turn for it answers to the Go channel of
-- the sender and to no other, and gives to chat channels the Go channel of the sender only. Whichever
-- Go channels doppelgangers have closed by then, the turn panics exactly if the message is a join that
-- is denied, for want of a name, of a channel or by an error of the database, and the sender's Go
-- channel for the reply is one of these; else the goroutine returns exactly if the message is an exit
-- from a channel that is not running.
pub run-IsServed :
    (sql : Sql) (fails : List Doppelganger.Effect → Bytes → Bool) (db : sql.Db) (id : Int64)
    (m c : Chan) (t : Option Chan) (es : List Event) (msg : UserToMaster)
    (get : Bytes → Result Int64) (k : Master) (gone : Chan → Bool)
    → Memᴰ
        (to_master msg)
        (Loop.run sql fails
          (doppelganger_start fails (new_user_info db id m c t)).state
          es).state.trace
    → get msg.parameter ≢ panic
    → IsServed gone m c
        (joins_nothing msg.operation msg.parameter (get msg.parameter))
        (exits_unknown msg.operation (lookup msg.chat_channel_id k.running_map))
        (turn k (from_user get (some msg)))
unfolding turn
run-IsServed sql fails db id m c t es msg get k gone h p =
    let r = Requests-IsRequest id m c _ msg (run-Requests id m c sql fails db t es) h in
    answered-IsServed gone m c _ _ _ (op-IsAnswered id m c k msg r msg.operation get refl p)
