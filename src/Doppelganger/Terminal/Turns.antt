-- ===== src/Doppelganger/Terminal/Turns.antt =====
-- daemon/doppelganger.go: the page of a user's terminal over the turns of the main loop, while the user and
-- others talk.
use mathlib.Core.List.{foldl-append}
use mathlib.Core.Path.{subst, ap₂}
use wtelnet.Common.{
  ◌≡◌, refl, sym, ap, ◌∙◌, Bool, false, none, some, List, [], ◌∷◌, ◌++◌, Bytes, arith, Int64,
  if◌then◌else◌,
}
use wtelnet.Message.{Chan, UserToChannel, ChannelToUser}
use wtelnet.Database.{Sql}
use wtelnet.Doppelganger.{UserInfo, Effect}
use wtelnet.Doppelganger.Keys.Typing.{view}
use wtelnet.Doppelganger.Commands.Speech.{says, text_message}
use wtelnet.Doppelganger.Mailbox.{on_channel_message}
use wtelnet.Doppelganger.Loop.{
  Event, from_telnet, from_master, from_channel, Progress, looping, finished, panicked, in_loop,
  ended, prompt_of, prompt, finish_turn, on_event, turn, run,
}
use wtelnet.Doppelganger.Terminal.{page, said, IsPrintable}
use wtelnet.Doppelganger.Terminal.Messages.{Undisturbed, IsAtPrompt}
use wtelnet.Doppelganger.Terminal.Redraw.{redrawn}
use wtelnet.Doppelganger.Terminal.Saying.{IsTalking}
use wtelnet.Doppelganger.Terminal.Talk.{talk, talks, speech, speeches, IsCalm, AreCalm, Rows}
use wtelnet.Doppelganger.Terminal.Returns.{sends, Stays, finish_turn-stays, on_key-Stays}

Undisturbed-IsTalking :
    {Db : Type 0} {uid : Int64} {name : Bytes} {ch : Chan} {s t : UserInfo Db}
    → Undisturbed s t
    → IsTalking uid name ch s
    → IsTalking uid name ch t
Undisturbed-IsTalking d t = record {
  is_user = d.same_user_id ∙ t.is_user;
  known = t.known;
  is_named = d.same_user ∙ t.is_named;
  on_channel = λ z. t.on_channel (sym d.same_channel_id ∙ z);
  reached = d.same_callback ∙ t.reached;
}

module _ (sql : Sql) (fails : List Effect → Bytes → Bool) (p : Bytes) (uid : Int64) (name : Bytes)
    (ch : Chan) where
  -- How a run leaves a user who talks: in the loop, and after the prompt, where one is due, at the
  -- prompt with the line that the editor makes of the bytes, the messages above, and what was said
  -- sent to the chat channel.
  pub record IsShown (es : List Event) (s : UserInfo sql.Db) (r : Progress sql.Db) : Type 0 where
    pub goes_on : r.status ≡ looping
    pub at_prompt : IsAtPrompt p (prompt fails r.state)
    pub talking : IsTalking uid name ch (prompt fails r.state)
    pub edited : view (prompt fails r.state) ≡ talks (view (prompt fails s)) es
    pub above : Rows es (page (prompt fails s).trace).0 (page (prompt fails r.state).trace).0
    pub sent :
        said (prompt fails r.state).trace
        ≡ sends ch uid name (said (prompt fails s).trace) (speeches (view (prompt fails s)) es)

module _ (sql : Sql) (fails : List Effect → Bytes → Bool)
    (works : (trace : List Effect) (text : Bytes) → fails trace text ≡ false) (p : Bytes)
    (uid : Int64) (name : Bytes) (ch : Chan) where
  on_message-Stays :
      (msg : ChannelToUser) (s : UserInfo sql.Db)
      → IsPrintable p
      → IsCalm s.doppelganger_id (view s) (from_channel (some msg))
      → IsAtPrompt p s
      → IsTalking uid name ch s
      → let t = (on_channel_message fails msg s).1 in
        (on_event sql fails (from_channel (some msg)) s ≡ in_loop t)
        × Stays sql fails p uid name ch (from_channel (some msg)) s t
  unfolding on_event
  on_message-Stays msg s pp h a k =
      let (done, t) = on_channel_message fails msg s in
      let (r, d, all, at, v, same_said, row) = redrawn fails works p msg s h.0 pp h.1 a in
      (
        ap (λ x. if x then ended t else finish_turn fails t) r
            ∙ finish_turn-stays sql fails works p uid name ch t (d.same_presence ∙ a.still_there),
        record {
          same_id = d.same_id;
          at_prompt = at;
          talking = Undisturbed-IsTalking all k;
          edited = v;
          above = row;
          sent = same_said;
        },
      )

  on_event-Stays :
      (e : Event) (s : UserInfo sql.Db)
      → IsPrintable p
      → IsCalm s.doppelganger_id (view s) e
      → IsAtPrompt p s
      → IsTalking uid name ch s
      → (t : UserInfo sql.Db) × (on_event sql fails e s ≡ in_loop t)
        × Stays sql fails p uid name ch e s t
  unfolding on_event
  on_event-Stays (from_telnet none) s pp h a k = absurd h
  on_event-Stays (from_telnet (some c)) s pp h a k =
      on_key-Stays sql fails works p uid name ch c s h a k
  on_event-Stays (from_master m) s pp h a k = absurd h
  on_event-Stays (from_channel none) s pp h a k = absurd h
  on_event-Stays (from_channel (some msg)) s pp h a k =
      let (q, w) = on_message-Stays msg s pp h a k in (_, q, w)

  run-goes_on :
      (s t : UserInfo sql.Db) (e : Event) (es : List Event)
      → turn sql fails s e ≡ in_loop t
      → run sql fails s (e ∷ es) ≡ run sql fails t es
  unfolding run
  run-goes_on s t e es q =
      ap (λ r. elim r.status [ looping ↦ run sql fails r.state es | finished ↦ r | panicked ↦ r ]) q

  prompt-id : (s : UserInfo sql.Db) → (prompt fails s).doppelganger_id ≡ s.doppelganger_id
  unfolding prompt prompt_of
  prompt-id s = ground arith

  -- What is said by an event and then by others.
  sends-append :
      (log : List (Chan × UserToChannel)) (xs ys : List Bytes)
      → sends ch uid name log (xs ++ ys) ≡ sends ch uid name (sends ch uid name log xs) ys
  sends-append log xs ys =
      foldl-append (λ log line. (ch, text_message uid (says name line)) ∷ log) log xs ys

  -- A user on a channel whose terminal shows the prompt of a command, once a prompt is written where
  -- one is due, types any bytes but ^C and ^D and hands over no line that begins with a slash, a quote
  -- or a semicolon; printable messages of the channel come in between, in any order; no write fails.
  -- Then the goroutine is in its loop, and once a prompt is written where one is due: the terminal
  -- shows the prompt and behind it the line that the abstract editor makes of the bytes, in which a
  -- line that is handed over and not blank is gone; above it each message stands in a line of its own
  -- with nothing but blanks behind it, in the order of arrival, and no other line was added; and each
  -- line that was handed over and not blank was sent to the chat channel once, trimmed and quoted, in
  -- the order of typing, and nothing else was.
  pub run-IsShown :
      (es : List Event) (s : UserInfo sql.Db)
      → IsPrintable p
      → AreCalm s.doppelganger_id (view (prompt fails s)) es
      → IsAtPrompt p (prompt fails s)
      → IsTalking uid name ch (prompt fails s)
      → IsShown sql fails p uid name ch es s (run sql fails s es)
  unfolding run turn
  run-IsShown [] s pp h a k = record {
    goes_on = refl;
    at_prompt = a;
    talking = k;
    edited = refl;
    above = refl;
    sent = refl;
  }
  run-IsShown (e ∷ es) s pp h a k =
      let s' = prompt fails s in
      let (t, q, w) =
        on_event-Stays e s' pp (subst (λ id. IsCalm id (view s') e) (sym (prompt-id s)) h.0) a k in
      let calm =
        subst (λ v. AreCalm t.doppelganger_id v es) (sym w.edited)
          (subst (λ id. AreCalm id (talk (view s') e) es) (sym (w.same_id ∙ prompt-id s)) h.1) in
      let ih = run-IsShown es t pp calm w.at_prompt w.talking in
      subst (IsShown sql fails p uid name ch (e ∷ es) s) (sym (run-goes_on s t e es q)) (record {
        goes_on = ih.goes_on;
        at_prompt = ih.at_prompt;
        talking = ih.talking;
        edited = ih.edited ∙ ap (λ v. talks v es) w.edited;
        above = (_, w.above, ih.above);
        sent =
            ih.sent
            ∙ ap₂ (λ log v. sends ch uid name log (speeches v es)) w.sent w.edited
            ∙ sym (
                sends-append (said s'.trace) (speech (view s') e) (speeches (talk (view s') e) es));
      })
