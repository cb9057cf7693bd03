-- ===== src/Doppelganger/Terminal/Redraw.antt =====
-- daemon/doppelganger.go: the page of a user's terminal after a message of somebody else.
use mathlib.Core.List.{foldl}
use mathlib.Core.Path.{subst, ap₂}
use wtelnet.Common.{
  ◌+◌, ◌≡◌, sym, ap, ◌∙◌, Bool, true, false, List, [], ◌∷◌, ◌++◌, ◌==◌, Bytes, codes, arith, length,
  length-take, take,
}
use wtelnet.Message.{ChannelToUser, ChannelToUserOp}
use wtelnet.Doppelganger.{UserInfo, Effect, typed, blanks}
use wtelnet.Doppelganger.Backspace.{IsBlanks}
use wtelnet.Doppelganger.Keys.Typing.{IsReading, view}
use wtelnet.Doppelganger.Keys.Screen.{onto, IsBlank, screen}
use wtelnet.Doppelganger.Mailbox.{by_channel_op, on_channel_message}
use wtelnet.Doppelganger.Loop.{command_prompt, prompt}
use wtelnet.Doppelganger.Terminal.{
  said, page, page-screen, feed, IsPrintable, length-onto, onto-append, feeds-message, feeds-prompt,
}
use wtelnet.Doppelganger.Terminal.Messages.{
  IsNotice, Undisturbed, IsAtPrompt, crlf, Told, text_exit-Told, text_message-Told, Prompts,
  prompt-Prompts,
}

pub IsPrintable-append : (xs ys : Bytes) → IsPrintable xs → IsPrintable ys → IsPrintable (xs ++ ys)
IsPrintable-append [] ys p q = q
IsPrintable-append (x ∷ xs) ys p q = (p.0, IsPrintable-append xs ys p.1 q)

module _ {Db : Type 0} where
  Undisturbed-typed : {s t : UserInfo Db} → Undisturbed s t → typed t ≡ typed s
  Undisturbed-typed d = ap₂ take d.same_cursor d.same_line

  pub Undisturbed-escape : {s t : UserInfo Db} → Undisturbed s t → view t ≡ view s
  Undisturbed-escape d = ground arith

  pub Undisturbed-prompt :
      {s t : UserInfo Db} → Undisturbed s t → command_prompt t ≡ command_prompt s
  Undisturbed-prompt d =
      ap₂ (λ name channel. name ++ codes " #" ++ channel ++ codes "> ") d.same_user d.same_channel

  Undisturbed-trans : {s t u : UserInfo Db} → Undisturbed s t → Undisturbed t u → Undisturbed s u
  Undisturbed-trans d e = ground arith

  pub Undisturbed-IsReading : {s t : UserInfo Db} → Undisturbed s t → IsReading s → IsReading t
  Undisturbed-IsReading d r = record {
    in_range = record {
      cursor_in_line = ground (arith, r.in_range.cursor_in_line);
      position_in_sequence = ground (arith, r.in_range.position_in_sequence);
      sequence_of_three = ground (arith, r.in_range.sequence_of_three);
    };
    began = ground (arith, r.began);
    no_return_before = ground (arith, r.no_return_before);
  }

  -- The line that the terminal shows is as long as the rounds that clear it.
  width :
      (p : Bytes) (s : UserInfo Db)
      → IsAtPrompt p s
      → s.prompt_len + s.cursor_column ≡ length (page s.trace).1.0
  width p s a =
      let shown = ap (λ x. length x.0) (page-screen s.trace) ∙ ap length a.shows.line in
      omega (
        arith,
        a.prompt_len_is,
        shown,
        length-onto (onto [] p) (typed s),
        length-onto [] p,
        length-take s.cursor_column s.line_buffer a.reading.in_range.cursor_in_line,
      )

module _ {Db : Type 0} (fails : List Effect → Bytes → Bool)
    (works : (trace : List Effect) (text : Bytes) → fails trace text ≡ false) where
  -- The page after the two writes of a message.
  Told-page :
      (p : Bytes) (msg : ChannelToUser) (s : UserInfo Db) (r : Bool × UserInfo Db)
      → IsPrintable msg.parameter
      → IsAtPrompt p s
      → Told fails works msg s r
      → (w : Bytes) × IsBlank w
        × (page r.1.trace ≡ ((msg.parameter ++ w) ∷ (page s.trace).0, ([], [])))
  Told-page p msg s r pm a told =
      let blank : IsBlank (page s.trace).1.1 =
        subst (λ x. IsBlank x.1) (sym (page-screen s.trace)) a.shows.blank in
      let (w, b, e) = feeds-message (page s.trace) msg.parameter blank pm in
      (
        w,
        b,
        ap page told.told
            ∙ ap (λ n. foldl feed (foldl feed (page s.trace) (blanks n)) (msg.parameter ++ crlf))
                (width p s a)
            ∙ e,
      )

  -- The page after the prompt, on an empty line.
  Prompts-page :
      (p : Bytes) (above : List Bytes) (t u : UserInfo Db)
      → IsPrintable p
      → IsPrintable (typed t)
      → command_prompt t ≡ p
      → page t.trace ≡ (above, ([], []))
      → Prompts fails works t u
      → page u.trace ≡ (above, (onto (onto [] p) (typed t), []))
  Prompts-page p above t u pp pt c e q =
      ap page q.0
      ∙ ap₂ (λ x y. foldl feed x (y ++ typed t)) e c
      ∙ feeds-prompt above (p ++ typed t) (IsPrintable-append p (typed t) pp pt)
      ∙ ap (λ x. (above, (x, []))) (onto-append [] p (typed t))

  by_channel_op-Told :
      (op : ChannelToUserOp) (msg : ChannelToUser) (s : UserInfo Db)
      → IsNotice (s.doppelganger_id == msg.leaving_doppelganger_id) op
      → s.telnet_goroutine_has_gone_away ≡ false
      → IsBlanks s.backspace_buffer
      → Told fails works msg s (by_channel_op fails op msg s)
  by_channel_op-Told ChannelToUserOp.text_message msg s n here b =
      text_message-Told fails works msg s b
  by_channel_op-Told ChannelToUserOp.text_exit msg s n here b =
      text_exit-Told fails works msg s n here b
  by_channel_op-Told ChannelToUserOp.joined msg s n here b = absurd n
  by_channel_op-Told ChannelToUserOp.join_denied msg s n here b = absurd n
  by_channel_op-Told (ChannelToUserOp.other k) msg s n here b = absurd n

  -- A message goes through the mailbox, and a prompt is due.
  on_channel-Told :
      (msg : ChannelToUser) (s : UserInfo Db)
      → IsNotice (s.doppelganger_id == msg.leaving_doppelganger_id) msg.operation
      → s.telnet_goroutine_has_gone_away ≡ false
      → IsBlanks s.backspace_buffer
      → let r = on_channel_message fails msg s in
        Told fails works msg s r × (r.1.prompt_needed ≡ true)
  unfolding on_channel_message
  on_channel-Told msg s n here b =
      let q = by_channel_op-Told msg.operation msg s n here b in ground (arith, q)

  -- After the message and the prompt the user is at the prompt again.
  pub redrawn :
      (p : Bytes) (msg : ChannelToUser) (s : UserInfo Db)
      → IsNotice (s.doppelganger_id == msg.leaving_doppelganger_id) msg.operation
      → IsPrintable p
      → IsPrintable msg.parameter
      → IsAtPrompt p s
      → let r = on_channel_message fails msg s in
        let u = prompt fails r.1 in
        (r.0 ≡ false)
        × Undisturbed s r.1
        × Undisturbed s u
        × IsAtPrompt p u
        × (view u ≡ view s)
        × (said u.trace ≡ said s.trace)
        × ((w : Bytes) × IsBlank w × ((page u.trace).0 ≡ (msg.parameter ++ w) ∷ (page s.trace).0))
  redrawn p msg s n pp pm a =
      let r = on_channel_message fails msg s in
      let (told, due) = on_channel-Told msg s n a.still_there a.blank in
      let d = told.undisturbed in
      let t = r.1 in
      let u = prompt fails t in
      let q = prompt-Prompts fails works t (d.same_mode ∙ a.in_command_mode) due in
      let all = Undisturbed-trans {s = s} {t = t} {u = u} d q.2 in
      let (w, b, e) = Told-page p msg s r pm a told in
      let line = Undisturbed-typed d in
      let pt = subst IsPrintable (sym line) a.printable in
      let c = Undisturbed-prompt d ∙ a.prompt_is in
      let f = Prompts-page p ((msg.parameter ++ w) ∷ (page s.trace).0) t u pp pt c e q in
      let scr : screen u.trace ≡ (onto (onto [] p) (typed t), []) =
        sym (page-screen u.trace) ∙ ap (λ x. x.1) f in
      (
        told.goes_on,
        d,
        all,
        record {
          in_command_mode = all.same_mode ∙ a.in_command_mode;
          still_there = all.same_presence ∙ a.still_there;
          echoed = all.same_echo ∙ a.echoed;
          reading = Undisturbed-IsReading all a.reading;
          blank = subst IsBlanks (sym q.3) told.still_blank;
          prompt_is = Undisturbed-prompt all ∙ a.prompt_is;
          prompt_len_is = q.1 ∙ ap length c;
          printable = subst IsPrintable (sym (Undisturbed-typed all)) a.printable;
          shows = record {
            line = ap (λ x. x.0) scr ∙ ap (onto (onto [] p)) (sym (Undisturbed-typed q.2));
            blank = subst (λ x. IsBlank x.1) (sym scr) tt;
          };
        },
        Undisturbed-escape all,
        ap said q.0 ∙ ap said told.told,
        (w, b, ap (λ x. x.0) f),
      )
