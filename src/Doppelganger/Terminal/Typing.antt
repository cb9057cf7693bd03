-- ===== src/Doppelganger/Terminal/Typing.antt =====
-- daemon/doppelganger.go: the page of a user's terminal after a byte that the user types.
use mathlib.Core.Path.{subst, ap₂}
use wtelnet.Common.{
  ℕ, ◌≡◌, sym, ap, ◌∙◌, Bool, false, Option, some, List, [], ◌∷◌, ◌++◌, ◌==◌, ◌||◌, leb, Bytes,
  arith, inl, inr, Bool-cases, codes,
}
use wtelnet.Doppelganger.{UserInfo, Effect, typed}
use wtelnet.Doppelganger.Backspace.{IsBlanks}
use wtelnet.Doppelganger.Keys.{receive, control_sequence, control_code, echo, edit, key}
use wtelnet.Doppelganger.Keys.Typing.{
  input_byte, interpret, drop_last, typed_after, type_byte, view, escape,
}
use wtelnet.Doppelganger.Keys.Refinement.{key-IsReading, key-refines}
use wtelnet.Doppelganger.Keys.Screen.{onto}
use wtelnet.Doppelganger.Keys.Screen.Echo.{key-Shows}
use wtelnet.Doppelganger.Terminal.{said, page, IsPrintable}
use wtelnet.Doppelganger.Terminal.Messages.{IsAtPrompt}
use wtelnet.Doppelganger.Terminal.Redraw.{IsPrintable-append}

-- A byte that ends the session.
abbrev pub ends : ℕ → Bool
ends c = c == 3 || c == 4

drop_last-IsPrintable : (line : Bytes) → IsPrintable line → IsPrintable (drop_last line)
drop_last-IsPrintable [] p = tt
drop_last-IsPrintable (x ∷ []) p = tt
drop_last-IsPrintable (x ∷ y ∷ xs) p = (p.0, drop_last-IsPrintable (y ∷ xs) p.1)

typed_after-IsPrintable :
    (c : ℕ) (line : Bytes) → IsPrintable line → IsPrintable (typed_after c line)
typed_after-IsPrintable c line p = elim (Bool-cases (c == 8)) [
  | inl e ↦ rw e (drop_last-IsPrintable line p)
  | inr e ↦ elim (Bool-cases (leb 32 c)) [
    | inl l ↦ rw (e, l) (IsPrintable-append line (c ∷ []) p (l, tt))
    | inr l ↦ rw (e, l) p
  ]
]

module _ {Db : Type 0} where
  -- What a byte that goes on leaves alone, and that no prompt is due after it.
  pub record Aside (s t : UserInfo Db) : Type 0 where
    pub same_id : t.doppelganger_id ≡ s.doppelganger_id
    pub same_mode : t.mode ≡ s.mode
    pub same_user : t.user_name ≡ s.user_name
    pub same_channel : t.chat_channel_name ≡ s.chat_channel_name
    pub same_user_id : t.user_id ≡ s.user_id
    pub same_channel_id : t.chat_channel_id ≡ s.chat_channel_id
    pub same_callback : t.chat_channel_callback ≡ s.chat_channel_callback
    pub same_len : t.prompt_len ≡ s.prompt_len
    pub same_blank : t.backspace_buffer ≡ s.backspace_buffer
    pub still_there :
        s.telnet_goroutine_has_gone_away ≡ false → t.telnet_goroutine_has_gone_away ≡ false
    pub not_due : s.prompt_needed ≡ false → t.prompt_needed ≡ false

  Aside-trans : {s t u : UserInfo Db} → Aside s t → Aside t u → Aside s u
  Aside-trans a b = ground arith

  receive-Aside :
      (c : ℕ) (s : UserInfo Db)
      → ends c ≡ false
      → let t = (receive (some c) s).1 in Aside s t × (t.prompt_needed ≡ false)
  unfolding receive
  receive-Aside c s h = ground arith

  stages-Aside :
      (c : ℕ) (s : UserInfo Db)
      → Aside s (control_sequence c s).1 × Aside s (control_code c s).1 × Aside s (edit c s)
  unfolding control_sequence control_code edit
  stages-Aside c s = ground arith

module _ {Db : Type 0} (fails : List Effect → Bytes → Bool)
    (works : (trace : List Effect) (text : Bytes) → fails trace text ≡ false) where
  echo-Aside : (c : ℕ) (s : UserInfo Db) → Aside s (echo fails c s)
  unfolding echo
  echo-Aside c s = ground (arith, works s.trace (8 ∷ 32 ∷ 8 ∷ []), works s.trace (c ∷ []))

  key-Aside :
      (c : ℕ) (s : UserInfo Db)
      → ends c ≡ false
      → let t = (key fails (some c) s).1 in Aside s t × (t.prompt_needed ≡ false)
  unfolding key
  key-Aside c s h =
      let (c₁, s₁) = receive (some c) s in
      let (c₂, s₂) = control_sequence c₁ s₁ in
      let (c₃, s₃) = control_code c₂ s₂ in
      let (a, due) = receive-Aside c s h in
      let after = Aside-trans (stages-Aside c₁ s₁).0 (
        Aside-trans (stages-Aside c₂ s₂).1
          (Aside-trans (echo-Aside c₃ s₃) (stages-Aside c₃ (echo fails c₃ s₃)).2)) in
      (Aside-trans a after, after.not_due due)

  -- The echo of a byte opens no line.
  echo-above : (c : ℕ) (s : UserInfo Db) → (page (echo fails c s).trace).0 ≡ (page s.trace).0
  unfolding echo
  echo-above c s = ground (arith, works s.trace (8 ∷ 32 ∷ 8 ∷ []), works s.trace (c ∷ []))

  quiet-traces :
      (c : ℕ) (input : Option ℕ) (s : UserInfo Db)
      → ((receive input s).1.trace ≡ s.trace)
        × ((control_sequence c s).1.trace ≡ s.trace)
        × ((control_code c s).1.trace ≡ s.trace)
        × ((edit c s).trace ≡ s.trace)
  unfolding receive control_sequence control_code edit
  quiet-traces c input s = ground arith

  key-above :
      (input : Option ℕ) (s : UserInfo Db) → (page (key fails input s).1.trace).0 ≡ (page s.trace).0
  unfolding key
  key-above input s =
      let (c₁, s₁) = receive input s in
      let (c₂, s₂) = control_sequence c₁ s₁ in
      let (c₃, s₃) = control_code c₂ s₂ in
      ap (λ x. (page x).0) (quiet-traces c₃ input (echo fails c₃ s₃)).3
      ∙ echo-above c₃ s₃
      ∙ ap (λ x. (page x).0)
          ((quiet-traces c₂ input s₂).2 ∙ (quiet-traces c₁ input s₁).1 ∙ (quiet-traces 0 input s).0)

  echo-said : (c : ℕ) (s : UserInfo Db) → said (echo fails c s).trace ≡ said s.trace
  unfolding echo
  echo-said c s = ground arith

  key-said : (input : Option ℕ) (s : UserInfo Db) → said (key fails input s).1.trace ≡ said s.trace
  unfolding key
  key-said input s =
      let (c₁, s₁) = receive input s in
      let (c₂, s₂) = control_sequence c₁ s₁ in
      let (c₃, s₃) = control_code c₂ s₂ in
      ap said (quiet-traces c₃ input (echo fails c₃ s₃)).3
      ∙ echo-said c₃ s₃
      ∙ ap said
          ((quiet-traces c₂ input s₂).2 ∙ (quiet-traces c₁ input s₁).1 ∙ (quiet-traces 0 input s).0)

  -- Up to the handling of a line, the user is still at the prompt after a byte that does not end the
  -- session.
  pub typed-on :
      (p : Bytes) (c : ℕ) (s : UserInfo Db)
      → ends c ≡ false
      → IsAtPrompt p s
      → let (b, t) = key fails (some c) s in
        (b ≡ (interpret (escape s) (input_byte (some c))).0)
        × (t.prompt_needed ≡ false)
        × Aside s t
        × IsAtPrompt p t
        × (view t ≡ type_byte (view s) (input_byte (some c)))
        × ((page t.trace).0 ≡ (page s.trace).0)
        × (said t.trace ≡ said s.trace)
  typed-on p c s h a =
      let t = (key fails (some c) s).1 in
      let (k, due) = key-Aside c s h in
      let (b, v) = key-refines fails (some c) s a.reading in
      let (shown, on) = key-Shows fails works (onto [] p) (some c) s a.reading a.echoed a.shows in
      let byte = (interpret (escape s) (input_byte (some c))).0 in
      (
        b,
        due,
        k,
        record {
          in_command_mode = k.same_mode ∙ a.in_command_mode;
          still_there = k.still_there a.still_there;
          echoed = on;
          reading = key-IsReading fails (some c) s a.reading;
          blank = subst IsBlanks (sym k.same_blank) a.blank;
          prompt_is =
              ap₂ (λ name channel. name ++ codes " #" ++ channel ++ codes "> ") k.same_user
                k.same_channel
              ∙ a.prompt_is;
          prompt_len_is = k.same_len ∙ a.prompt_len_is;
          printable =
              subst IsPrintable (sym (ap (λ x. x.0) v))
                (typed_after-IsPrintable byte (typed s) a.printable);
          shows = shown;
        },
        v,
        key-above (some c) s,
        key-said (some c) s,
      )
