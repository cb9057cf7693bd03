-- ===== src/Doppelganger/Terminal/Saying/Cleared.antt =====
-- daemon/doppelganger.go: what a line that is said leaves on the terminal: the prompt, and nothing typed.
use mathlib.Core.List.{foldl}
use mathlib.Core.Path.{subst, ap₂}
use wtelnet.Common.{
  ◌≡◌, refl, sym, ap, ◌∙◌, Bool, false, List, [], ◌∷◌, Bytes, arith, length-take, Int64,
}
use wtelnet.Message.{Chan}
use wtelnet.Database.{Sql}
use wtelnet.Helper.{trim}
use wtelnet.Doppelganger.{UserInfo, Effect, wrote, typed, blanks, backspace_out}
use wtelnet.Doppelganger.Backspace.{IsBlanks, backspace_out-rounds}
use wtelnet.Doppelganger.Keys.Typing.{escape, view}
use wtelnet.Doppelganger.Keys.Screen.{onto, IsBlank, screen}
use wtelnet.Doppelganger.Commands.Speech.{says, text_message}
use wtelnet.Doppelganger.Terminal.{page, page-screen, feed, said, feeds-wipe}
use wtelnet.Doppelganger.Terminal.Redraw.{
  Undisturbed-prompt, Undisturbed-escape, Undisturbed-IsReading,
}
use wtelnet.Doppelganger.Terminal.Messages.{IsAtPrompt}
use wtelnet.Doppelganger.Terminal.Saying.{IsTalking, after_saying, backspace-Undisturbed}

module _ (sql : Sql) (fails : List Effect → Bytes → Bool)
    (works : (trace : List Effect) (text : Bytes) → fails trace text ≡ false) where
  wipe-trace :
      (s : UserInfo sql.Db)
      → IsBlanks s.backspace_buffer
      → let w = (backspace_out fails s s.cursor_column).1 in
        (w.trace ≡ wrote (blanks s.cursor_column) false ∷ s.trace)
        × IsBlanks w.backspace_buffer
        × (w.prompt_len ≡ s.prompt_len)
  unfolding backspace_out
  wipe-trace s b =
      let (e, tr, k) = backspace_out-rounds fails s s.cursor_column b in
      (
        tr
            ∙ ap (λ x. wrote (blanks s.cursor_column) x ∷ s.trace)
                (works s.trace (blanks s.cursor_column)),
        k,
        refl,
      )

  -- The typed part of the line is wiped out, and the prompt stays.
  wipe-page :
      (p : Bytes) (s : UserInfo sql.Db)
      → IsAtPrompt p s
      → (w : Bytes) × IsBlank w
        × (foldl feed (page s.trace) (blanks s.cursor_column) ≡ ((page s.trace).0, (onto [] p, w)))
  wipe-page p s a =
      let same = page-screen s.trace in
      let line : (page s.trace).1.0 ≡ onto (onto [] p) (typed s) =
        ap (λ x. x.0) same ∙ a.shows.line in
      let blank : IsBlank (page s.trace).1.1 = subst (λ x. IsBlank x.1) (sym same) a.shows.blank in
      let (w, b, e) = feeds-wipe (page s.trace).0 (onto [] p) (typed s) (page s.trace).1.1 blank in
      let n = length-take s.cursor_column s.line_buffer a.reading.in_range.cursor_in_line in
      (
        w,
        b,
        ap₂ (λ k l. foldl feed ((page s.trace).0, (l, (page s.trace).1.1)) (blanks k)) (sym n) line
            ∙ e,
      )

  -- After a line that is said the user is at the prompt, with nothing typed.
  pub record Said (p : Bytes) (uid : Int64) (name : Bytes) (ch : Chan) (s t : UserInfo sql.Db)
      : Type 0 where
    pub same_id : t.doppelganger_id ≡ s.doppelganger_id
    pub not_due : t.prompt_needed ≡ false
    pub at_prompt : IsAtPrompt p t
    pub talking : IsTalking uid name ch t
    pub nothing_typed : view t ≡ ([], escape s)
    pub above : (page t.trace).0 ≡ (page s.trace).0
    pub sent : said t.trace ≡ (ch, text_message uid (says name (trim (typed s)))) ∷ said s.trace

  pub after_saying-Said :
      (p name : Bytes) (uid : Int64) (ch : Chan) (s : UserInfo sql.Db)
      → IsAtPrompt p s
      → IsTalking uid name ch s
      → Said p uid name ch s (after_saying sql fails works ch (trim (typed s)) s)
  after_saying-Said p name uid ch s a t =
      let u = (backspace_out fails s s.cursor_column).1 in
      let d = backspace-Undisturbed sql fails works s s.cursor_column in
      let r = Undisturbed-IsReading d a.reading in
      let (tr, b, n) = wipe-trace s a.blank in
      let (w, bw, e) = wipe-page p s a in
      let shown : page u.trace ≡ ((page s.trace).0, (onto [] p, w)) = ap page tr ∙ e in
      let scr : screen u.trace ≡ (onto [] p, w) = sym (page-screen u.trace) ∙ ap (λ x. x.1) shown in
      record {
        same_id = d.same_id;
        not_due = refl;
        at_prompt = record {
          in_command_mode = d.same_mode ∙ a.in_command_mode;
          still_there = d.same_presence ∙ a.still_there;
          echoed = d.same_echo ∙ a.echoed;
          reading = record {
            in_range = record {
              cursor_in_line = omega arith;
              position_in_sequence = r.in_range.position_in_sequence;
              sequence_of_three = r.in_range.sequence_of_three;
            };
            began = r.began;
            no_return_before = r.no_return_before;
          };
          blank = b;
          prompt_is = Undisturbed-prompt d ∙ a.prompt_is;
          prompt_len_is = n ∙ a.prompt_len_is;
          printable = tt;
          shows = record {
            line = ap (λ x. x.0) scr;
            blank = subst (λ x. IsBlank x.1) (sym scr) bw;
          };
        };
        talking = record {
          is_user = d.same_user_id ∙ t.is_user;
          known = t.known;
          is_named = d.same_user ∙ t.is_named;
          on_channel = λ z. t.on_channel (sym d.same_channel_id ∙ z);
          reached = d.same_callback ∙ t.reached;
        };
        nothing_typed = ap (λ v. ([], v.1)) (Undisturbed-escape d);
        above = ap (λ x. x.0) shown;
        sent =
            ap₂ (λ i x. (ch, text_message i (says x (trim (typed s)))) ∷ said u.trace)
              (d.same_user_id ∙ t.is_user) t.is_named
            ∙ ap (λ x. (ch, text_message uid (says name (trim (typed s)))) ∷ said x) tr;
      }
