-- ===== src/Doppelganger/Terminal.antt =====
-- daemon/doppelganger.go: a terminal that shows what the goroutine writes, and the texts that it writes
-- between the lines of its user.
pub mod Messages
pub mod Redraw
pub mod Saying
pub mod Typing
pub mod Talk
pub mod Returns
pub mod Turns
use mathlib.Core.List.{foldl, foldl-append}
use mathlib.Core.Path.{ap₂}
use wtelnet.Common.{
  suc, sym, ℕ, ◌+◌, ◌≡◌, refl, ap, ◌∙◌, List, [], ◌∷◌, ◌++◌, ◌==◌, leb, false, true, if◌then◌else◌,
  Bytes, arith, length,
}
use wtelnet.Message.{Chan, UserToChannel}
use wtelnet.Doppelganger.{to_channel, Effect, wrote, blanks}
use wtelnet.Doppelganger.Backspace.{blanks-append}
use wtelnet.Doppelganger.Keys.Screen.{
  Screen, onto, rest, put, screen, IsBlank, rest-IsBlank, put-printable,
}

-- The lines above the one of the cursor, the nearest first, and that one. A line has no right margin.
abbrev pub Page : Type 0
Page = List Bytes × Screen

abbrev pub feed : Page → ℕ → Page
feed (above, scr) c = (if c == 10 then onto scr.1 scr.0 ∷ above else above, put scr c)

-- The page after a trace, the newest write first; of a write with an error nothing arrives.
abbrev pub page : List Effect → Page
page [] = ([], ([], []))
page (wrote text e ∷ trace) = if e then page trace else foldl feed (page trace) text
page (_ ∷ trace) = page trace

-- What has been sent to chat channels, the newest first.
abbrev pub said : List Effect → List (Chan × UserToChannel)
said [] = []
said (to_channel c msg ∷ trace) = (c, msg) ∷ said trace
said (_ ∷ trace) = said trace

abbrev pub IsPrintable : Bytes → Type 0
IsPrintable [] = Unit {0}
IsPrintable (c ∷ cs) = (leb 32 c ≡ true) × IsPrintable cs

abbrev after : Bytes → Bytes → Bytes
after [] right = right
after (c ∷ cs) right = after cs (rest right)

after-IsBlank : (text right : Bytes) → IsBlank right → IsBlank (after text right)
after-IsBlank [] right b = b
after-IsBlank (c ∷ cs) right b = after-IsBlank cs (rest right) (rest-IsBlank right b)

after-nil : (text : Bytes) → after text [] ≡ []
after-nil [] = refl
after-nil (c ∷ cs) = after-nil cs

pub length-onto : (left cs : Bytes) → length (onto left cs) ≡ length left + length cs
length-onto left [] = omega arith
length-onto left (c ∷ cs) = omega (arith, length-onto (c ∷ left) cs)

pub onto-append : (left xs ys : Bytes) → onto left (xs ++ ys) ≡ onto (onto left xs) ys
onto-append left [] ys = refl
onto-append left (x ∷ xs) ys = onto-append (x ∷ left) xs ys

onto-onto : (left text right : Bytes) → onto right (onto left text) ≡ onto (text ++ right) left
onto-onto left [] right = refl
onto-onto left (c ∷ cs) right = onto-onto (c ∷ left) cs right

-- A page is a screen with lines above it.
feeds-screen : (p : Page) (text : Bytes) → (foldl feed p text).1 ≡ foldl put p.1 text
feeds-screen p [] = refl
feeds-screen p (c ∷ cs) = feeds-screen (feed p c) cs

pub page-screen : (trace : List Effect) → (page trace).1 ≡ screen trace
page-screen [] = refl
page-screen (wrote text true ∷ trace) = page-screen trace
page-screen (wrote text false ∷ trace) =
    feeds-screen (page trace) text ∙ ap (λ scr. foldl put scr text) (page-screen trace)
page-screen (_ ∷ trace) = page-screen trace

feed-printable :
    (above : List Bytes) (scr : Screen) (c : ℕ)
    → leb 32 c ≡ true
    → feed (above, scr) c ≡ (above, (c ∷ scr.0, rest scr.1))
feed-printable above scr c l =
    let n : c == 10 ≡ false = ground arith in
    ap₂ (λ lines line. (lines, line)) (rw n refl) (put-printable scr c l)

-- A text that is printed.
pub feeds-text :
    (above : List Bytes) (text left right : Bytes)
    → IsPrintable text
    → foldl feed (above, (left, right)) text ≡ (above, (onto left text, after text right))
feeds-text above [] left right p = refl
feeds-text above (c ∷ cs) left right p =
    ap (λ q. foldl feed q cs) (feed-printable above (left, right) c p.0)
    ∙ feeds-text above cs (c ∷ left) (rest right) p.1

-- As many rounds as the line is long clear it.
feeds-blanks :
    (above : List Bytes) (left right : Bytes)
    → IsBlank right
    → (w : Bytes) × IsBlank w
      × (foldl feed (above, (left, right)) (blanks (length left)) ≡ (above, ([], w)))
unfolding blanks
feeds-blanks above [] right b = (right, b, refl)
feeds-blanks above (c ∷ left) right b = feeds-blanks above left (32 ∷ right) (refl, b)

no_rounds : (p : Page) → foldl feed p (blanks 0) ≡ p
unfolding blanks
no_rounds p = refl

one_round :
    (above : List Bytes) (c : ℕ) (left right : Bytes)
    → foldl feed (above, (c ∷ left, right)) (blanks 1) ≡ (above, (left, 32 ∷ right))
unfolding blanks
one_round above c left right = refl

-- Fewer rounds clear the end of the line.
pub feeds-wipe :
    (above : List Bytes) (left cs right : Bytes)
    → IsBlank right
    → (w : Bytes) × IsBlank w
      × (foldl feed (above, (onto left cs, right)) (blanks (length cs)) ≡ (above, (left, w)))
feeds-wipe above left [] right b = (right, b, no_rounds (above, (left, right)))
feeds-wipe above left (c ∷ cs) right b =
    let (w, bw, e) = feeds-wipe above (c ∷ left) cs right b in
    let split : blanks (suc (length cs)) ≡ blanks (length cs) ++ blanks 1 =
      ap blanks (omega arith) ∙ sym (blanks-append (length cs) 1) in
    (
      32 ∷ w,
      (refl, bw),
      ap (λ x. foldl feed (above, (onto (c ∷ left) cs, right)) x) split
          ∙ foldl-append feed (above, (onto (c ∷ left) cs, right)) (blanks (length cs)) (blanks 1)
          ∙ ap (λ p. foldl feed p (blanks 1)) e
          ∙ one_round above c left w,
    )

-- The line is cleared, and a text is printed in its place and stands in a line of its own.
pub feeds-message :
    (p : Page) (text : Bytes)
    → IsBlank p.1.1
    → IsPrintable text
    → (w : Bytes) × IsBlank w
      × (foldl feed (foldl feed p (blanks (length p.1.0))) (text ++ 13 ∷ 10 ∷ [])
          ≡ ((text ++ w) ∷ p.0, ([], [])))
feeds-message (above, (left, right)) text b t =
    let (w, bw, e) = feeds-blanks above left right b in
    (
      after text w,
      after-IsBlank text w bw,
      ap (λ q. foldl feed q (text ++ 13 ∷ 10 ∷ [])) e
          ∙ foldl-append feed (above, ([], w)) text (13 ∷ 10 ∷ [])
          ∙ ap (λ q. foldl feed q (13 ∷ 10 ∷ [])) (feeds-text above text [] w t)
          ∙ ap (λ l. (l ∷ above, ([], []))) (onto-onto [] text (after text w)),
    )

-- A text on a line that is empty.
pub feeds-prompt :
    (above : List Bytes) (text : Bytes)
    → IsPrintable text
    → foldl feed (above, ([], [])) text ≡ (above, (onto [] text, []))
feeds-prompt above text t =
    feeds-text above text [] [] t ∙ ap (λ r. (above, (onto [] text, r))) (after-nil text)
