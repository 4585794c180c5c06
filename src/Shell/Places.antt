-- ===== src/Shell/Places.antt =====
-- Every command of the shell (sh.c) is parsed from its text.
use ducko_unix.Prelude.{
  ℕ, zero, suc, ◌+◌, ◌*◌, ◌<◌, ◌≤◌, ◌≡◌, refl, false, List, [], ◌∷◌, length, All, if◌then◌else◌,
  Option, some, Outcome, done, arith, ap, ◌∙◌,
}
use ducko_unix.Shell.{
  contains, skip, gettoken, head_in, peek, Redir, Cmd, Cmd.pipe, Cmd.list, Cmd.back, wrap,
  back_loop, on, Rule, Rule.pipeline, parse,
}
use ducko_unix.Shell.Tokens.{IsClear, bar-is_symbol, and-is_symbol, semicolon-is_symbol}
use ducko_unix.Shell.Print.{
  IsRedir, print_redirs, Place, Place.whole, Place.left, Place.part, print,
}
use ducko_unix.Shell.Words.{Follows, after_simple, Follows-IsClear, skip_clear, peek_clear}
use ducko_unix.Shell.Simple.{parse-skip, symbol-seen, symbol-rest, block-print}

-- `n` times '&', and `n` times in the background.
abbrev ands : ℕ → List ℕ → List ℕ
ands zero tail = tail
ands (suc n) tail = 38 ∷ ands n tail

abbrev backs : ℕ → Cmd → Cmd
backs zero c = c
backs (suc n) c = backs n (back c)

abbrev pub after_part : List ℕ
after_part = 41 ∷ 38 ∷ 59 ∷ []

abbrev after_left : List ℕ
after_left = 41 ∷ 59 ∷ []

abbrev pub after_line : List ℕ
after_line = 41 ∷ []

part→simple : (s : List ℕ) → Follows after_part s → Follows after_simple s
unfolding contains
part→simple [] h = tt
part→simple (c ∷ s) h = ground (arith, h)

left→part : (s : List ℕ) → Follows after_left s → Follows after_part s
unfolding contains
left→part [] h = tt
left→part (c ∷ s) h = ground (arith, h)

line→left : (s : List ℕ) → Follows after_line s → Follows after_left s
unfolding contains
line→left [] h = tt
line→left (c ∷ s) h = ground (arith, h)

-- The end of `parseline`.
pub finish : ℕ → Cmd → List ℕ → Outcome (Option (Cmd × List ℕ))
finish fuel c s =
    if peek (59 ∷ []) s
    then on (parse Rule.line fuel (gettoken (skip s)).rest) (λ q. done (some (list c q.0, q.1)))
    else done (some (c, skip s))

-- A command is parsed in a place from the text that it has there.
unfoldable pub AsSimple : Cmd → Type 0
AsSimple c =
    (rs : List Redir) (tail : List ℕ) (fuel : ℕ)
    → All IsRedir rs
    → Follows after_simple tail
    → 3 * length (print Place.simple c (print_redirs rs tail)) + 1 ≤ fuel
    → parse Rule.simple fuel (print Place.simple c (print_redirs rs tail))
      ≡ done (some (wrap c rs, tail))

unfoldable pub AsPart : Cmd → Type 0
AsPart c =
    (tail : List ℕ) (fuel : ℕ)
    → Follows after_part tail
    → 3 * length (print part c tail) + 2 ≤ fuel
    → parse pipeline fuel (print part c tail) ≡ done (some (c, tail))

unfoldable pub AsLeft : Cmd → Type 0
AsLeft c =
    (n : ℕ) (tail : List ℕ) (fuel : ℕ)
    → Follows after_left tail
    → 3 * length (print left c (ands n tail)) + 2 ≤ fuel
    → parse Rule.line (suc fuel) (print left c (ands n tail)) ≡ finish fuel (backs n c) tail

unfoldable pub AsWhole : Cmd → Type 0
AsWhole c =
    (tail : List ℕ) (fuel : ℕ)
    → Follows after_line tail
    → 3 * length (print whole c tail) + 3 ≤ fuel
    → parse Rule.line fuel (print whole c tail) ≡ done (some (c, tail))

pub record Parses (c : Cmd) : Type 0 where
  pub as_simple : AsSimple c
  pub as_part : AsPart c
  pub as_left : AsLeft c
  pub as_whole : AsWhole c

part-IsClear : (s : List ℕ) → Follows after_part s → IsClear s
part-IsClear s h = Follows-IsClear s (part→simple s h)

no_bar : (s : List ℕ) → Follows after_part s → head_in (124 ∷ []) s ≡ false
unfolding head_in contains
no_bar [] h = refl
no_bar (c ∷ s) h = ground (arith, h)

no_and : (s : List ℕ) → Follows after_left s → head_in (38 ∷ []) s ≡ false
unfolding head_in contains
no_and [] h = refl
no_and (c ∷ s) h = ground (arith, h)

no_semicolon : (s : List ℕ) → Follows after_line s → head_in (59 ∷ []) s ≡ false
unfolding head_in contains
no_semicolon [] h = refl
no_semicolon (c ∷ s) h = ground (arith, h)

part_of_simple :
    (c : Cmd) (tail : List ℕ) (fuel : ℕ) (text : List ℕ)
    → Follows after_part tail
    → parse Rule.simple fuel text ≡ done (some (c, tail))
    → parse pipeline (suc fuel) text ≡ done (some (c, tail))
unfolding parse
part_of_simple c tail fuel text follows eq =
    let clear = part-IsClear tail follows in
    rw (eq, peek_clear (124 ∷ []) tail clear, no_bar tail follows, skip_clear tail clear) refl

ands-Follows : (n : ℕ) (tail : List ℕ) → Follows after_left tail → Follows after_part (ands n tail)
unfolding contains
ands-Follows zero tail h = left→part tail h
ands-Follows (suc n) tail h = refl

back_loop-print :
    (fuel n : ℕ) (c : Cmd) (tail : List ℕ)
    → Follows after_left tail
    → length (ands n tail) < fuel
    → back_loop fuel c (ands n tail) ≡ some (backs n c, tail)
unfolding back_loop
back_loop-print zero n c tail h lt = absurd (omega arith)
back_loop-print (suc fuel) zero c tail h lt =
    let clear = part-IsClear tail (left→part tail h) in
    rw (peek_clear (38 ∷ []) tail clear, no_and tail h, skip_clear tail clear) refl
back_loop-print (suc fuel) (suc n) c tail h lt =
    let x = ands n tail in
    let rest : (gettoken (skip (38 ∷ x))).rest ≡ x =
      symbol-rest 38 x and-is_symbol (λ z. absurd (omega (arith, z)))
      ∙ skip_clear x (part-IsClear x (ands-Follows n tail h)) in
    rw (symbol-seen 38 x and-is_symbol, rest)
      (back_loop-print fuel n (back c) tail h (omega (arith, lt)))

left_of_part :
    (c : Cmd) (n : ℕ) (tail : List ℕ) (fuel : ℕ) (text : List ℕ)
    → Follows after_left tail
    → parse pipeline fuel text ≡ done (some (c, ands n tail))
    → parse Rule.line (suc fuel) text ≡ finish fuel (backs n c) tail
unfolding parse finish
left_of_part c n tail fuel text h eq =
    rw (eq, back_loop-print (suc (length (ands n tail))) n c tail h (omega arith)) refl

whole_of_left :
    (c : Cmd) (tail : List ℕ) (fuel : ℕ)
    → Follows after_line tail
    → finish fuel c tail ≡ done (some (c, tail))
unfolding finish
whole_of_left c tail fuel h =
    let clear = part-IsClear tail (left→part tail (line→left tail h)) in
    rw (peek_clear (59 ∷ []) tail clear, no_semicolon tail h, skip_clear tail clear) refl

-- After ';' comes the rest of the line.
pub finish-list :
    (c d : Cmd) (tail : List ℕ) (fuel : ℕ) (text : List ℕ)
    → parse Rule.line fuel text ≡ done (some (d, tail))
    → finish fuel c (59 ∷ text) ≡ done (some (list c d, tail))
unfolding finish
finish-list c d tail fuel text eq =
    let rest : parse Rule.line fuel (gettoken (skip (59 ∷ text))).rest ≡ done (some (d, tail)) =
      ap (λ s. parse Rule.line fuel s)
        (symbol-rest 59 text semicolon-is_symbol (λ z. absurd (omega (arith, z))))
      ∙ parse-skip Rule.line fuel text
      ∙ eq in
    rw (symbol-seen 59 text semicolon-is_symbol, rest) refl

-- After '|' comes the rest of the pipeline.
pub pipe-part :
    (c d : Cmd) (tail : List ℕ) (fuel : ℕ) (text more : List ℕ)
    → parse Rule.simple fuel text ≡ done (some (c, 124 ∷ more))
    → parse pipeline fuel more ≡ done (some (d, tail))
    → parse pipeline (suc fuel) text ≡ done (some (pipe c d, tail))
unfolding parse
pipe-part c d tail fuel text more eq eq' =
    let rest : parse pipeline fuel (gettoken (skip (124 ∷ more))).rest ≡ done (some (d, tail)) =
      ap (λ s. parse pipeline fuel s)
        (symbol-rest 124 more bar-is_symbol (λ z. absurd (omega (arith, z))))
      ∙ parse-skip pipeline fuel more
      ∙ eq' in
    rw (eq, symbol-seen 124 more bar-is_symbol, rest) refl

-- From one place to the next, where the text is the same in both.
module _ (c : Cmd) where
  pub simple→part : ((t : List ℕ) → print part c t ≡ print Place.simple c t) → AsSimple c → AsPart c
  unfolding AsSimple AsPart
  simple→part same p tail zero h enough = absurd (omega arith)
  simple→part same p tail (suc fuel) h enough =
      let len = ap (λ s. length s) (same tail) in
      part_of_simple c tail fuel (print part c tail) h (
        ap (λ s. parse Rule.simple fuel s) (same tail)
        ∙ p [] tail fuel tt (part→simple tail h) (omega (arith, enough, len)))

  pub part→left : ((t : List ℕ) → print left c t ≡ print part c t) → AsPart c → AsLeft c
  unfolding AsPart AsLeft
  part→left same p n tail fuel h enough =
      let x = ands n tail in
      let len = ap (λ s. length s) (same x) in
      left_of_part c n tail fuel (print left c x) h (
        ap (λ s. parse pipeline fuel s) (same x)
        ∙ p x fuel (ands-Follows n tail h) (omega (arith, enough, len)))

  pub left→whole : ((t : List ℕ) → print whole c t ≡ print left c t) → AsLeft c → AsWhole c
  unfolding AsLeft AsWhole
  left→whole same p tail zero h enough = absurd (omega arith)
  left→whole same p tail (suc fuel) h enough =
      let len = ap (λ s. length s) (same tail) in
      ap (λ s. parse Rule.line (suc fuel) s) (same tail)
      ∙ p 0 tail fuel (line→left tail h) (omega (arith, enough, len))
      ∙ whole_of_left c tail fuel h

  pub whole→simple :
      ((t : List ℕ) → print Place.simple c t ≡ 40 ∷ print whole c (41 ∷ t)) → AsWhole c → AsSimple c
  unfolding AsWhole AsSimple contains
  whole→simple same p rs tail zero redirs h enough = absurd (omega arith)
  whole→simple same p rs tail (suc fuel) redirs h enough =
      let x = print_redirs rs tail in
      let len = ap (λ s. length s) (same x) in
      ap (λ s. parse Rule.simple (suc fuel) s) (same x)
      ∙ block-print fuel (print whole c (41 ∷ x)) c rs tail redirs h
          (p (41 ∷ x) fuel refl (omega (arith, enough, len)))
