-- ===== src/Shell/Arguments.antt =====
-- Redirections and arguments of the shell (sh.c), printed and read again.
use mathlib.Core.List.{append-nil, append_assoc}
use ducko_unix.Prelude.{
  some, ℕ, zero, suc, ◌+◌, ◌<◌, ◌≤◌, leb, ◌==◌, ◌≡◌, refl, true, false, List, [], ◌∷◌, ◌++◌, length,
  length-append, All, done, arith, ap, ◌∙◌,
}
use ducko_unix.Shell.{
  max_args, contains, is_symbol, skip, word, token_at, gettoken, head_in, peek, Redir, redir_loop,
  parseredirs, args_loop,
}
use ducko_unix.Shell.Tokens.{IsClear}
use ducko_unix.Shell.Print.{IsWord, sign, IsRedir, print_word, print_words, print_redirs}
use ducko_unix.Shell.Words.{
  skip_clear, gettoken-word, Follows, after_simple, Follows-IsClear, Follows-no_redir, head_in-word,
  no_symbols, sign_clear, redirs-IsClear, word-IsClear, sign-token, sign-peek, peek_clear,
}

more_text : (rs : List Redir) (tail : List ℕ) → length rs ≤ length (print_redirs rs tail)
more_text [] tail = omega arith
more_text (r ∷ rs) tail =
    omega (arith, more_text rs tail, length-append r.file (32 ∷ print_redirs rs tail))

redir_loop-print :
    (fuel : ℕ) (acc rs : List Redir) (tail : List ℕ)
    → All IsRedir rs
    → IsClear tail
    → head_in (60 ∷ 62 ∷ []) tail ≡ false
    → length rs < fuel
    → redir_loop fuel acc (print_redirs rs tail) ≡ done (some (acc ++ rs, tail))
unfolding redir_loop
redir_loop-print zero acc rs tail all clear stop lt = absurd (omega arith)
redir_loop-print (suc fuel) acc [] tail all clear stop lt =
    rw (peek_clear (60 ∷ 62 ∷ []) tail clear, stop, skip_clear tail clear, append-nil acc) refl
redir_loop-print (suc fuel) acc (r ∷ rs) tail ((word, is), all) clear stop lt =
    let x = print_redirs rs tail in
    let s = sign r ∷ print_word r.file x in
    let same : skip s ≡ s = skip_clear s (sign_clear r) in
    rw
      (
        sign-peek r (print_word r.file x),
        same,
        sign-token r r.file x word,
        gettoken-word r.file x word,
        skip_clear x (redirs-IsClear rs tail clear),
        is,
      )
      (redir_loop-print fuel (acc ++ r ∷ []) rs tail all clear stop (omega arith)
        ∙ ap (λ l. done (some (l, tail))) (append_assoc acc (r ∷ []) rs))

pub parseredirs-print :
    (rs : List Redir) (tail : List ℕ)
    → All IsRedir rs
    → Follows after_simple tail
    → parseredirs [] (print_redirs rs tail) ≡ done (some (rs, tail))
unfolding parseredirs
parseredirs-print rs tail all follows =
    redir_loop-print (suc (length (print_redirs rs tail))) [] rs tail all
      (Follows-IsClear tail follows) (Follows-no_redir tail follows)
      (omega (arith, more_text rs tail))

pub parseredirs-none :
    (s : List ℕ)
    → IsClear s
    → head_in (60 ∷ 62 ∷ []) s ≡ false
    → parseredirs [] s ≡ done (some ([], s))
unfolding parseredirs
parseredirs-none s clear stop =
    redir_loop-print (suc (length s)) [] [] s tt clear stop (omega arith)

end-token : gettoken (skip []) ≡ record { tok = 0; text = []; rest = [] }
unfolding gettoken token_at skip
end-token = refl

pub follows-nonzero : (c : ℕ) → contains after_simple c ≡ true → (c == 0) ≡ false
unfolding contains
follows-nonzero c h = ground (arith, h)

pub args_loop-end :
    (left : ℕ) (argv : List (List ℕ)) (rs : List Redir) (tail : List ℕ)
    → 0 < left
    → Follows after_simple tail
    → args_loop left argv rs tail ≡ done (some (record { argv = argv; redirs = rs; rest = tail }))
unfolding args_loop head_in
args_loop-end zero argv rs tail pos h = absurd (omega arith)
args_loop-end (suc left) argv rs [] pos h = rw (peek_clear after_simple [] tt, end-token) refl
args_loop-end (suc left) argv rs (c ∷ tail) pos h =
    let clear = Follows-IsClear (c ∷ tail) h in
    let seen : peek after_simple (c ∷ tail) ≡ true =
      peek_clear after_simple (c ∷ tail) clear ∙ rw (follows-nonzero c h, h) refl in
    rw (seen, skip_clear (c ∷ tail) clear) refl

pub word-no_redir : (c : ℕ) → contains (60 ∷ 62 ∷ []) c ≡ true → is_symbol c ≡ true
unfolding is_symbol contains
word-no_redir c h = ground (arith, h)

pub word-no_end : (c : ℕ) → contains after_simple c ≡ true → is_symbol c ≡ true
unfolding is_symbol contains
word-no_end c h = ground (arith, h)

pub args_loop-print :
    (left : ℕ) (argv : List (List ℕ)) (w : List ℕ) (ws : List (List ℕ)) (rs : List Redir)
    (tail : List ℕ)
    → IsWord w
    → All IsWord ws
    → All IsRedir rs
    → Follows after_simple tail
    → length argv + length ws + 1 < max_args
    → length ws + 1 < left
    → args_loop left argv [] (print_words (w ∷ ws) (print_redirs rs tail))
      ≡ done (some (record { argv = argv ++ w ∷ ws; redirs = rs; rest = tail }))
unfolding args_loop
args_loop-print zero argv w ws rs tail word all redirs follows room lt = absurd (omega arith)
args_loop-print (suc left) argv w [] rs tail word all redirs follows room lt =
    let x = print_redirs rs tail in
    let s = print_word w x in
    let clear = redirs-IsClear rs tail (Follows-IsClear tail follows) in
    let full : leb max_args (length argv + 1) ≡ false = ground (arith, room) in
    let stop : peek after_simple s ≡ false =
      peek_clear after_simple s (word-IsClear w x word)
      ∙ head_in-word after_simple w x (no_symbols after_simple word-no_end) word in
    rw
      (
        stop,
        skip_clear s (word-IsClear w x word),
        gettoken-word w x word,
        full,
        skip_clear x clear,
        parseredirs-print rs tail redirs follows,
      )
      (args_loop-end left (argv ++ w ∷ []) rs tail (omega arith) follows)
args_loop-print (suc left) argv w (v ∷ ws) rs tail word (word', all) redirs follows room lt =
    let x = print_words (v ∷ ws) (print_redirs rs tail) in
    let s = print_word w x in
    let clear = word-IsClear v (print_words ws (print_redirs rs tail)) word' in
    let full : leb max_args (length argv + 1) ≡ false = ground (arith, room) in
    let stop : peek after_simple s ≡ false =
      peek_clear after_simple s (word-IsClear w x word)
      ∙ head_in-word after_simple w x (no_symbols after_simple word-no_end) word in
    let none_here : head_in (60 ∷ 62 ∷ []) x ≡ false =
      head_in-word (60 ∷ 62 ∷ []) v (print_words ws (print_redirs rs tail))
        (no_symbols (60 ∷ 62 ∷ []) word-no_redir) word' in
    rw
      (
        stop,
        skip_clear s (word-IsClear w x word),
        gettoken-word w x word,
        full,
        skip_clear x clear,
        parseredirs-none x clear none_here,
      )
      (args_loop-print left (argv ++ w ∷ []) v ws rs tail word' all redirs follows
          (omega (arith, room, length-append argv (w ∷ []))) (omega arith)
        ∙ ap (λ l. done (some (record { argv = l; redirs = rs; rest = tail })))
            (append_assoc argv (w ∷ []) (v ∷ ws)))
