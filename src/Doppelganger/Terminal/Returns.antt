-- ===== src/Doppelganger/Terminal/Returns.antt =====
-- daemon/doppelganger.go: a turn of the main loop for a byte of a user who talks.
use mathlib.Core.Path.{subst}
use wtelnet.Common.{
  ℕ, ◌≡◌, refl, sym, ap, ◌∙◌, Bool, true, false, some, List, [], ◌∷◌, Bytes, arith, Int64,
  if◌then◌else◌, same_text, inl, inr, Bool-cases,
}
use mathlib.Core.List.{foldl}
use mathlib.Core.Path.{ap₂}
use wtelnet.Message.{Chan, UserToChannel}
use wtelnet.Helper.{trim}
use wtelnet.Database.{Sql}
use wtelnet.Doppelganger.{UserInfo, Effect, typed}
use wtelnet.Doppelganger.Keys.{is_return, key}
use wtelnet.Doppelganger.Keys.Typing.{input_byte, interpret, typed_after, type_byte, view, escape}
use wtelnet.Doppelganger.Commands.Speech.{says, text_message}
use wtelnet.Doppelganger.Lines.{handled, handle_line, by_mode, reset_cursor}
use wtelnet.Doppelganger.Loop.{
  Event, Progress, from_telnet, in_loop, after_line, prompt, finish_turn, on_key,
}
use wtelnet.Doppelganger.Terminal.{page, said}
use wtelnet.Doppelganger.Terminal.Messages.{IsAtPrompt}
use wtelnet.Doppelganger.Terminal.Typing.{ends, Aside, typed-on}
use wtelnet.Doppelganger.Terminal.Saying.{IsPlain, IsTalking, after_saying, handle_line-says}
use wtelnet.Doppelganger.Terminal.Saying.Cleared.{after_saying-Said}
use wtelnet.Doppelganger.Terminal.Talk.{hands_over, talk, speech, IsCalm, Row}

-- The messages that carry what is said, added to those that have been sent.
abbrev pub sends :
    Chan → Int64 → Bytes → List (Chan × UserToChannel) → List Bytes → List (Chan × UserToChannel)
sends ch uid name = foldl (λ log line. (ch, text_message uid (says name line)) ∷ log)

module _ (sql : Sql) (fails : List Effect → Bytes → Bool) (p : Bytes) (uid : Int64) (name : Bytes)
    (ch : Chan) where
  -- What a turn does for a user who talks and is at the prompt.
  pub record Stays (e : Event) (s t : UserInfo sql.Db) : Type 0 where
    pub same_id : t.doppelganger_id ≡ s.doppelganger_id
    pub at_prompt : IsAtPrompt p (prompt fails t)
    pub talking : IsTalking uid name ch (prompt fails t)
    pub edited : view (prompt fails t) ≡ talk (view s) e
    pub above : Row e (page s.trace).0 (page (prompt fails t).trace).0
    pub sent : said (prompt fails t).trace ≡ sends ch uid name (said s.trace) (speech (view s) e)

Aside-IsTalking :
    {Db : Type 0} {uid : Int64} {name : Bytes} {ch : Chan} {s t : UserInfo Db}
    → Aside s t
    → IsTalking uid name ch s
    → IsTalking uid name ch t
Aside-IsTalking k t = record {
  is_user = k.same_user_id ∙ t.is_user;
  known = t.known;
  is_named = k.same_user ∙ t.is_named;
  on_channel = λ z. t.on_channel (sym k.same_channel_id ∙ z);
  reached = k.same_callback ∙ t.reached;
}

typed_after-return : (b : ℕ) (line : Bytes) → is_return b ≡ true → typed_after b line ≡ line
typed_after-return b line h = ground arith

module _ (sql : Sql) (fails : List Effect → Bytes → Bool)
    (works : (trace : List Effect) (text : Bytes) → fails trace text ≡ false) (p : Bytes)
    (uid : Int64) (name : Bytes) (ch : Chan) where
  pub finish_turn-stays :
      (s : UserInfo sql.Db)
      → s.telnet_goroutine_has_gone_away ≡ false
      → finish_turn fails s ≡ in_loop s
  unfolding finish_turn
  finish_turn-stays s here = ground arith

  prompt-not_due : (s : UserInfo sql.Db) → s.prompt_needed ≡ false → prompt fails s ≡ s
  unfolding prompt
  prompt-not_due s d = ground arith

  -- A blank line is dropped.
  handle_line-blank :
      (s : UserInfo sql.Db)
      → same_text (trim (typed s)) [] ≡ true
      → s.prompt_needed ≡ false
      → handle_line sql fails s ≡ handled s
  unfolding handle_line
  handle_line-blank s h d =
      ap
        (λ b.
          if b
          then handled (record s { prompt_needed = false })
          else reset_cursor (by_mode sql fails s.mode (trim (typed s)) s))
        h
      ∙ ap (λ b. handled (record s { prompt_needed = b })) (sym d)

  -- After a byte that hands over nothing.
  key-Stays :
      (c : ℕ) (s : UserInfo sql.Db)
      → ends c ≡ false
      → IsAtPrompt p s
      → IsTalking uid name ch s
      → hands_over (view s) (input_byte (some c)) ≡ false
      → Stays sql fails p uid name ch (from_telnet (some c)) s (key fails (some c) s).1
  key-Stays c s h a k n =
      let t = (key fails (some c) s).1 in
      let (b, due, aside, at, v, above, same_said) = typed-on fails works p c s h a in
      let same = prompt-not_due t due in
      record {
        same_id = aside.same_id;
        at_prompt = subst (IsAtPrompt p) (sym same) at;
        talking = subst (IsTalking uid name ch) (sym same) (Aside-IsTalking aside k);
        edited = ap view same ∙ v ∙ rw n refl;
        above = ap (λ x. (page x.trace).0) same ∙ above;
        sent = ap (λ x. said x.trace) same ∙ same_said ∙ rw n refl;
      }

  -- A return hands over the line as it was typed.
  returned-line :
      (c : ℕ) (s t : UserInfo sql.Db)
      → view t ≡ type_byte (view s) (input_byte (some c))
      → is_return (interpret (escape s) (input_byte (some c))).0 ≡ true
      → typed t ≡ typed s
  returned-line c s t v r =
      ap (λ x. x.0) v
      ∙ typed_after-return (interpret (escape s) (input_byte (some c))).0 (typed s) r

  -- After a return that hands over a line.
  said-Stays :
      (c : ℕ) (s : UserInfo sql.Db)
      → ends c ≡ false
      → IsAtPrompt p s
      → IsTalking uid name ch s
      → hands_over (view s) (input_byte (some c)) ≡ true
      → let t = (key fails (some c) s).1 in
        let u = after_saying sql fails works ch (trim (typed t)) t in
        Stays sql fails p uid name ch (from_telnet (some c)) s u
  said-Stays c s h a k n =
      let t = (key fails (some c) s).1 in
      let (b, due, aside, at, v, above, same_said) = typed-on fails works p c s h a in
      let line = returned-line c s t v (ground (arith, n)) in
      let u = after_saying sql fails works ch (trim (typed t)) t in
      let w = after_saying-Said sql fails works p name uid ch t at (Aside-IsTalking aside k) in
      let same = prompt-not_due u w.not_due in
      record {
        same_id = w.same_id ∙ aside.same_id;
        at_prompt = subst (IsAtPrompt p) (sym same) w.at_prompt;
        talking = subst (IsTalking uid name ch) (sym same) w.talking;
        edited = ap view same ∙ w.nothing_typed ∙ ap (λ x. ([], x.1)) v ∙ rw n refl;
        above = ap (λ x. (page x.trace).0) same ∙ w.above ∙ above;
        sent =
            ap (λ x. said x.trace) same
            ∙ w.sent
            ∙ ap₂ (λ l log. (ch, text_message uid (says name (trim l))) ∷ log) line same_said
            ∙ rw n refl;
      }

  pub on_key-Stays :
      (c : ℕ) (s : UserInfo sql.Db)
      → IsCalm s.doppelganger_id (view s) (from_telnet (some c))
      → IsAtPrompt p s
      → IsTalking uid name ch s
      → (t : UserInfo sql.Db) × (on_key sql fails (some c) s ≡ in_loop t)
        × Stays sql fails p uid name ch (from_telnet (some c)) s t
  unfolding on_key
  on_key-Stays c s h a k =
      let t = (key fails (some c) s).1 in
      let (b, due, aside, at, v, above, same_said) = typed-on fails works p c s h.0 a in
      let i = input_byte (some c) in
      let turn : Bool → Progress sql.Db =
        λ x. if x then after_line sql fails (handle_line sql fails t) else finish_turn fails t in
      let stays = finish_turn-stays t at.still_there in
      elim (Bool-cases (hands_over (view s) i)) [
        | inl n ↦
            let r : is_return (interpret (escape s) i).0 ≡ true = ground (arith, n) in
            let line = returned-line c s t v r in
            let u = after_saying sql fails works ch (trim (typed t)) t in
            let w = said-Stays c s h.0 a k n in
            let there =
              (after_saying-Said sql fails works p name uid ch t at
                (Aside-IsTalking aside k)).at_prompt.still_there in
            let plain = subst (λ x. IsPlain (trim x)) (sym line) (h.1 n) in
            let q =
              handle_line-says sql fails works ch name uid t at.in_command_mode
                (Aside-IsTalking aside k) at.blank plain in
            (
              u,
              ap turn (ap is_return b ∙ r)
                  ∙ ap (after_line sql fails) q
                  ∙ finish_turn-stays u there,
              w,
            )
        | inr n ↦ elim (Bool-cases (is_return (interpret (escape s) i).0)) [
          | inl r ↦
              let line = returned-line c s t v r in
              let empty : same_text (trim (typed t)) [] ≡ true =
                ap (λ x. same_text (trim x) []) line ∙ ground (arith, n, r) in
              (
                t,
                ap turn (ap is_return b ∙ r)
                    ∙ ap (after_line sql fails) (handle_line-blank t empty due)
                    ∙ stays,
                key-Stays c s h.0 a k n,
              )
          | inr r ↦ (t, ap turn (ap is_return b ∙ r) ∙ stays, key-Stays c s h.0 a k n)
        ]
      ]
