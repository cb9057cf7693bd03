-- ===== src/Doppelganger/Terminal/Messages.antt =====
-- daemon/doppelganger.go: a message of another user, between the lines of the one who reads it: the line
-- is cleared, the message is written, and the prompt and the line are written again.
use mathlib.Core.List.{append-nil}
use mathlib.Core.Path.{subst, ap₂}
use wtelnet.Common.{
  ◌+◌, ◌≡◌, refl, sym, ap, ◌∙◌, Bool, true, false, List, [], ◌∷◌, ◌++◌, ◌==◌, Bytes, codes, arith,
  length, inl, inr, Bool-cases, ltb, take, if◌then◌else◌,
}
use wtelnet.Message.{ChannelToUser, ChannelToUserOp}
use wtelnet.Doppelganger.{UserInfo, Effect, wrote, command_mode, typed, blanks, backspace_out}
use wtelnet.Doppelganger.Backspace.{IsBlanks, backspace_out-rounds}
use wtelnet.Doppelganger.Keys.Typing.{IsReading}
use wtelnet.Doppelganger.Keys.Screen.{onto, Shows}
use wtelnet.Doppelganger.Mailbox.{generic_text_output, on_text_exit, by_channel_op}
use wtelnet.Doppelganger.Loop.{command_prompt, prompt_of, prompt}
use wtelnet.Doppelganger.Terminal.{IsPrintable}

-- A text message, or the exit of somebody else.
abbrev pub IsNotice : Bool → ChannelToUserOp → Type 0
IsNotice own ChannelToUserOp.text_message = Unit {0}
IsNotice own ChannelToUserOp.text_exit = own ≡ false
IsNotice own ChannelToUserOp.joined = ⊥
IsNotice own ChannelToUserOp.join_denied = ⊥
IsNotice own (ChannelToUserOp.other n) = ⊥

module _ {Db : Type 0} where
  -- What the prompt and the line depend on.
  pub record Undisturbed (s t : UserInfo Db) : Type 0 where
    pub same_id : t.doppelganger_id ≡ s.doppelganger_id
    pub same_mode : t.mode ≡ s.mode
    pub same_presence : t.telnet_goroutine_has_gone_away ≡ s.telnet_goroutine_has_gone_away
    pub same_echo : t.echo_on ≡ s.echo_on
    pub same_line : t.line_buffer ≡ s.line_buffer
    pub same_cursor : t.cursor_column ≡ s.cursor_column
    pub same_sequence : t.control_sequence ≡ s.control_sequence
    pub same_position : t.ctrl_seq_position ≡ s.ctrl_seq_position
    pub same_prev : t.prev_usr_byte ≡ s.prev_usr_byte
    pub same_user : t.user_name ≡ s.user_name
    pub same_channel : t.chat_channel_name ≡ s.chat_channel_name
    pub same_user_id : t.user_id ≡ s.user_id
    pub same_channel_id : t.chat_channel_id ≡ s.chat_channel_id
    pub same_callback : t.chat_channel_callback ≡ s.chat_channel_callback

  -- A user who is logged in, on a terminal that shows the prompt and the typed part of the line.
  pub record IsAtPrompt (p : Bytes) (s : UserInfo Db) : Type 0 where
    pub in_command_mode : s.mode ≡ command_mode
    pub still_there : s.telnet_goroutine_has_gone_away ≡ false
    pub echoed : s.echo_on ≡ true
    pub reading : IsReading s
    pub blank : IsBlanks s.backspace_buffer
    pub prompt_is : command_prompt s ≡ p
    pub prompt_len_is : s.prompt_len ≡ length p
    pub printable : IsPrintable (typed s)
    pub shows : Shows (onto [] p) s

abbrev pub crlf : Bytes
crlf = 13 ∷ 10 ∷ []

module _ {Db : Type 0} (fails : List Effect → Bytes → Bool)
    (works : (trace : List Effect) (text : Bytes) → fails trace text ≡ false) where
  output-Undisturbed :
      (msg : ChannelToUser) (s : UserInfo Db) → Undisturbed s (generic_text_output fails s msg).1
  unfolding generic_text_output backspace_out
  output-Undisturbed msg s = ground arith

  -- Two writes: the rounds that clear the line, and the text.
  output-trace :
      (msg : ChannelToUser) (s : UserInfo Db)
      → IsBlanks s.backspace_buffer
      → let (e, t) = generic_text_output fails s msg in
        (e ≡ false)
        × (t.trace
            ≡ wrote (msg.parameter ++ crlf) false
              ∷ wrote (blanks (s.prompt_len + s.cursor_column)) false
              ∷ s.trace)
        × IsBlanks t.backspace_buffer
  unfolding generic_text_output codes
  output-trace msg s b =
      let (e, t, k) = backspace_out-rounds fails s (s.prompt_len + s.cursor_column) b in
      let w = (backspace_out fails s (s.prompt_len + s.cursor_column)) in
      ground (
        arith,
        e,
        t,
        k,
        works s.trace (blanks (s.prompt_len + s.cursor_column)),
        works w.1.trace (msg.parameter ++ crlf),
      )

  -- A message that was written over the line.
  pub record Told (msg : ChannelToUser) (s : UserInfo Db) (r : Bool × UserInfo Db) : Type 0 where
    pub goes_on : r.0 ≡ false
    pub undisturbed : Undisturbed s r.1
    pub told :
        r.1.trace
        ≡ wrote (msg.parameter ++ crlf) false
          ∷ wrote (blanks (s.prompt_len + s.cursor_column)) false
          ∷ s.trace
    pub still_blank : IsBlanks r.1.backspace_buffer

  pub text_exit-Told :
      (msg : ChannelToUser) (s : UserInfo Db)
      → (s.doppelganger_id == msg.leaving_doppelganger_id) ≡ false
      → s.telnet_goroutine_has_gone_away ≡ false
      → IsBlanks s.backspace_buffer
      → Told msg s (by_channel_op fails ChannelToUserOp.text_exit msg s)
  unfolding by_channel_op on_text_exit
  text_exit-Told msg s own here b =
      let (e, t, k) = output-trace msg s b in
      let u = output-Undisturbed msg s in ground (arith, e, t, k, u)

  pub text_message-Told :
      (msg : ChannelToUser) (s : UserInfo Db)
      → IsBlanks s.backspace_buffer
      → Told msg s (by_channel_op fails ChannelToUserOp.text_message msg s)
  unfolding by_channel_op
  text_message-Told msg s b =
      let (e, t, k) = output-trace msg s b in
      let u = output-Undisturbed msg s in ground (arith, e, t, k, u)

  prompt_text :
      (p : Bytes) (s : UserInfo Db)
      → (if ltb 0 s.cursor_column then p ++ typed s else p) ≡ p ++ typed s
  prompt_text p s = elim (Bool-cases (ltb 0 s.cursor_column)) [
    | inl e ↦ rw e refl
    | inr e ↦
        let z : s.cursor_column ≡ 0 = ground arith in
        rw e (sym (ap (λ n. p ++ take n s.line_buffer) z ∙ append-nil p))
  ]

  -- The prompt and the typed part of the line, in one write.
  abbrev pub Prompts : UserInfo Db → UserInfo Db → Type 0
  Prompts t u =
      (u.trace ≡ wrote (command_prompt t ++ typed t) false ∷ t.trace)
      × (u.prompt_len ≡ length (command_prompt t))
      × Undisturbed t u
      × (u.backspace_buffer ≡ t.backspace_buffer)

  prompt_of-Prompts : (t : UserInfo Db) → Prompts t (prompt_of fails command_mode t)
  unfolding prompt_of
  prompt_of-Prompts t =
      let text = if ltb 0 t.cursor_column then command_prompt t ++ typed t else command_prompt t in
      (
        ap₂ (λ x e. wrote x e ∷ t.trace) (prompt_text (command_prompt t) t) (works t.trace text),
        refl,
        ground (arith, works t.trace text),
        refl,
      )

  pub prompt-Prompts :
      (t : UserInfo Db)
      → t.mode ≡ command_mode
      → t.prompt_needed ≡ true
      → Prompts t (prompt fails t)
  unfolding prompt
  prompt-Prompts t m d =
      let e = ap₂ (λ due mode. if due then prompt_of fails mode t else t) d m in
      subst (Prompts t) (sym e) (prompt_of-Prompts t)
