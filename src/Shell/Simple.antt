-- ===== src/Shell/Simple.antt =====
-- Simple commands and blocks of the shell (sh.c), printed and parsed again.
use ducko_unix.Prelude.{
  ℕ, zero, suc, ◌+◌, ◌*◌, ◌<◌, ◌≤◌, ◌≡◌, ◌≢◌, refl, true, false, List, [], ◌∷◌, length, All, some,
  done, arith, ap, ◌∙◌, subst, inl, inr, ne→==_false, ==_refl,
}
use ducko_unix.Shell.{
  max_args, contains, is_symbol, is_space, skip, gettoken, head_in, peek, Redir, Cmd, Cmd.exec,
  wrap, Rule, Rule.line, Rule.pipeline, Rule.simple, parse,
}
use ducko_unix.Shell.Tokens.{
  skip_twice, token_at-symbol, symbol-nonzero, left-is_symbol, right-is_symbol,
}
use ducko_unix.Shell.Lengths.{Within}
use ducko_unix.Shell.Ends.{calls, parse-Within}
use ducko_unix.Shell.Print.{IsWord, IsRedir, sign, print_word, print_words, print_redirs}
use ducko_unix.Shell.Words.{
  Follows, after_simple, Follows-IsClear, skip_clear, head_in-word, no_symbols, redirs-IsClear,
  word-IsClear, sign_clear, peek_clear, sign-cases,
}
use ducko_unix.Shell.Arguments.{
  parseredirs-print, parseredirs-none, args_loop-print, args_loop-end, word-no_redir,
}

-- Space before a command does not matter.
pub parse-skip :
    (rule : Rule) (fuel : ℕ) (s : List ℕ) → parse rule fuel (skip s) ≡ parse rule fuel s
unfolding parse peek
parse-skip rule zero s = refl
parse-skip line (suc fuel) s = rw (parse-skip pipeline fuel s) refl
parse-skip pipeline (suc fuel) s = rw (parse-skip simple fuel s) refl
parse-skip simple (suc fuel) s = rw (skip_twice s) refl

-- What a parse leaves is no longer than the text.
pub rest_bound :
    (rule : Rule) (fuel : ℕ) (s t : List ℕ) (c : Cmd)
    → 3 * length s + calls rule ≤ fuel
    → parse rule fuel s ≡ done (some (c, t))
    → length t ≤ length s
rest_bound rule fuel s t c enough eq =
    subst (λ m. Within (length s) m) eq (parse-Within rule fuel (length s) s (omega arith) enough)

pub symbol_clear : (c : ℕ) → is_symbol c ≡ true → is_space c ≡ false
unfolding is_symbol is_space contains
symbol_clear c sy = ground (arith, sy)

-- A symbol that stands at the head of the text.
pub symbol-seen : (c : ℕ) (s : List ℕ) → is_symbol c ≡ true → peek (c ∷ []) (c ∷ s) ≡ true
unfolding head_in contains
symbol-seen c s sy =
    peek_clear (c ∷ []) (c ∷ s) (symbol_clear c sy)
    ∙ rw (ne→==_false c 0 (symbol-nonzero c sy), ==_refl c) refl

pub symbol-rest :
    (c : ℕ) (s : List ℕ) → is_symbol c ≡ true → c ≢ 62 → (gettoken (skip (c ∷ s))).rest ≡ skip s
unfolding gettoken
symbol-rest c s sy ne =
    rw (skip_twice (c ∷ s), skip_clear (c ∷ s) (symbol_clear c sy), token_at-symbol c s sy ne) refl

word-no_left : (c : ℕ) → contains (40 ∷ []) c ≡ true → is_symbol c ≡ true
unfolding is_symbol contains
word-no_left c h = ground (arith, h)

sign-no_left : (r : Redir) (s : List ℕ) → head_in (40 ∷ []) (sign r ∷ s) ≡ false
unfolding head_in contains
sign-no_left r s = elim (sign-cases r) [ inl e ↦ rw e refl | inr e ↦ rw e refl ]

Follows-no_left : (s : List ℕ) → Follows after_simple s → head_in (40 ∷ []) s ≡ false
unfolding head_in contains
Follows-no_left [] h = refl
Follows-no_left (c ∷ s) h = ground (arith, h)

no_block :
    (argv : List (List ℕ)) (rs : List Redir) (tail : List ℕ)
    → All IsWord argv
    → Follows after_simple tail
    → peek (40 ∷ []) (print_words argv (print_redirs rs tail)) ≡ false
no_block [] [] tail words follows =
    peek_clear (40 ∷ []) tail (Follows-IsClear tail follows) ∙ Follows-no_left tail follows
no_block [] (r ∷ rs) tail words follows =
    let x = print_word r.file (print_redirs rs tail) in
    peek_clear (40 ∷ []) (sign r ∷ x) (sign_clear r) ∙ sign-no_left r x
no_block (w ∷ ws) rs tail (word, words) follows =
    let x = print_words ws (print_redirs rs tail) in
    peek_clear (40 ∷ []) (print_word w x) (word-IsClear w x word)
    ∙ head_in-word (40 ∷ []) w x (no_symbols (40 ∷ []) word-no_left) word

pub exec-print :
    (fuel : ℕ) (argv : List (List ℕ)) (rs : List Redir) (tail : List ℕ)
    → All IsWord argv
    → length argv < max_args
    → All IsRedir rs
    → Follows after_simple tail
    → parse simple (suc fuel) (print_words argv (print_redirs rs tail))
      ≡ done (some (wrap (exec argv) rs, tail))
unfolding parse
exec-print fuel [] rs tail words room redirs follows =
    let x = print_redirs rs tail in
    rw
      (
        no_block [] rs tail tt follows,
        skip_clear x (redirs-IsClear rs tail (Follows-IsClear tail follows)),
        parseredirs-print rs tail redirs follows,
        args_loop-end max_args [] rs tail (omega arith) follows,
      )
      refl
exec-print fuel (w ∷ ws) rs tail (word, words) room redirs follows =
    let x = print_words ws (print_redirs rs tail) in
    let s = print_word w x in
    let none_here : head_in (60 ∷ 62 ∷ []) s ≡ false =
      head_in-word (60 ∷ 62 ∷ []) w x (no_symbols (60 ∷ 62 ∷ []) word-no_redir) word in
    rw
      (
        no_block (w ∷ ws) rs tail (word, words) follows,
        skip_clear s (word-IsClear w x word),
        parseredirs-none s (word-IsClear w x word) none_here,
        args_loop-print max_args [] w ws rs tail word words redirs follows (omega (arith, room))
            (omega (arith, room)),
      )
      refl

-- A line in parentheses, with its redirections.
pub block-print :
    (fuel : ℕ) (s : List ℕ) (c : Cmd) (rs : List Redir) (tail : List ℕ)
    → All IsRedir rs
    → Follows after_simple tail
    → parse line fuel s ≡ done (some (c, 41 ∷ print_redirs rs tail))
    → parse simple (suc fuel) (40 ∷ s) ≡ done (some (wrap c rs, tail))
unfolding parse
block-print fuel s c rs tail redirs follows inner =
    let x = print_redirs rs tail in
    let clear = redirs-IsClear rs tail (Follows-IsClear tail follows) in
    let inside : parse line fuel (gettoken (skip (40 ∷ s))).rest ≡ done (some (c, 41 ∷ x)) =
      ap (λ s. parse line fuel s) (symbol-rest 40 s left-is_symbol (λ z. absurd (omega (arith, z))))
      ∙ parse-skip line fuel s
      ∙ inner in
    let after : (gettoken (skip (41 ∷ x))).rest ≡ x =
      symbol-rest 41 x right-is_symbol (λ z. absurd (omega (arith, z))) ∙ skip_clear x clear in
    rw
      (
        symbol-seen 40 s left-is_symbol,
        inside,
        symbol-seen 41 x right-is_symbol,
        after,
        parseredirs-print rs tail redirs follows,
      )
      refl
