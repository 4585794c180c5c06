-- ===== src/Shell/Words.antt =====
-- Words and redirections of the shell (sh.c), printed and read again.
use ducko_unix.Prelude.{
  ℕ, ◌==◌, ◌≡◌, refl, true, false, List, [], ◌∷◌, ◌++◌, All, arith, ap, ◌∙◌, subst, Bool-cases, inl,
  inr, ◌⊎◌,
}
use ducko_unix.Shell.{
  contains, is_space, is_symbol, skip, word, gt_token, word_token, token_at, gettoken, head_in,
  peek, Redir,
}
use ducko_unix.Shell.Tokens.{IsClear}
use ducko_unix.Shell.Print.{is_char, IsWord, sign, print_word, print_words, print_redirs}

pub skip_clear : (s : List ℕ) → IsClear s → skip s ≡ s
unfolding skip
skip_clear [] h = refl
skip_clear (c ∷ s) h = rw h refl

char_clear : (c : ℕ) → is_char c ≡ true → is_space c ≡ false
char_clear c h = ground (arith, h)

char-no_symbol : (c : ℕ) → is_char c ≡ true → is_symbol c ≡ false
char-no_symbol c h = ground (arith, h)

gt-is_symbol : is_symbol 62 ≡ true
unfolding is_symbol
gt-is_symbol = refl

word-append : (w x : List ℕ) → All (λ c. is_char c ≡ true) w → word (w ++ 32 ∷ x) ≡ (w, 32 ∷ x)
unfolding word is_space
word-append [] x h = refl
word-append (c ∷ w) x (h, hs) = rw (char_clear c h, char-no_symbol c h, word-append w x hs) refl

skip-space : (x : List ℕ) → skip (32 ∷ x) ≡ skip x
unfolding skip is_space contains
skip-space x = refl

char-nonzero : (c : ℕ) → is_char c ≡ true → (c == 0) ≡ false
char-nonzero c h = ground (arith, h)

char-no_gt : (c : ℕ) → is_char c ≡ true → (c == 62) ≡ false
char-no_gt c h = elim (Bool-cases (c == 62)) [
  | inr e ↦ e
  | inl e ↦
      let at : 62 ≡ c = ground (arith, e) in
      let sy : is_symbol c ≡ true = subst (λ c. is_symbol c ≡ true) at gt-is_symbol in
      absurd (ground (arith, sy, char-no_symbol c h))
]

-- A word is read back, and the space after it is skipped.
pub gettoken-word :
    (w x : List ℕ)
    → IsWord w
    → gettoken (print_word w x) ≡ record { tok = 97; text = w; rest = skip x }
unfolding gettoken token_at word_token
gettoken-word [] x h = absurd (omega arith)
gettoken-word (c ∷ w) x (h, hs) =
    rw
      (
        skip_clear (c ∷ (w ++ 32 ∷ x)) (char_clear c h),
        char-nonzero c h,
        char-no_gt c h,
        char-no_symbol c h,
        word-append (c ∷ w) x (h, hs),
        skip-space x,
      )
      refl

-- The text after a command: nothing, or one of some symbols.
abbrev pub Follows : List ℕ → List ℕ → Type 0
Follows toks [] = Unit
Follows toks (c ∷ s) = contains toks c ≡ true

abbrev pub after_simple : List ℕ
after_simple = 124 ∷ 41 ∷ 38 ∷ 59 ∷ []

pub Follows-IsClear : (s : List ℕ) → Follows after_simple s → IsClear s
unfolding is_space contains
Follows-IsClear [] h = tt
Follows-IsClear (c ∷ s) h = ground (arith, h)

pub Follows-no_redir : (s : List ℕ) → Follows after_simple s → head_in (60 ∷ 62 ∷ []) s ≡ false
unfolding head_in contains
Follows-no_redir [] h = refl
Follows-no_redir (c ∷ s) h = ground (arith, h)

pub head_in-word :
    (toks w x : List ℕ)
    → ((c : ℕ) → is_char c ≡ true → contains toks c ≡ false)
    → IsWord w
    → head_in toks (print_word w x) ≡ false
unfolding head_in
head_in-word toks [] x h word = absurd (omega arith)
head_in-word toks (c ∷ w) x h (ch, _) = rw (char-nonzero c ch, h c ch) refl

-- A character of a word is none of the symbols.
pub no_symbols :
    (toks : List ℕ)
    → ((c : ℕ) → contains toks c ≡ true → is_symbol c ≡ true)
    → (c : ℕ) → is_char c ≡ true
    → contains toks c ≡ false
no_symbols toks all c h = elim (Bool-cases (contains toks c)) [
  | inr e ↦ e
  | inl e ↦ absurd (ground (arith, all c e, char-no_symbol c h))
]

pub sign-cases : (r : Redir) → (sign r ≡ 60) ⊎ (sign r ≡ 62)
sign-cases r = elim (Bool-cases (r.fd == 0)) [ inl e ↦ inl (rw e refl) | inr e ↦ inr (rw e refl) ]

pub sign_clear : (r : Redir) → is_space (sign r) ≡ false
unfolding is_space contains
sign_clear r = elim (sign-cases r) [
  | inl e ↦ ap (λ c. is_space c) e
  | inr e ↦ ap (λ c. is_space c) e
]

pub redirs-IsClear : (rs : List Redir) (s : List ℕ) → IsClear s → IsClear (print_redirs rs s)
redirs-IsClear [] s h = h
redirs-IsClear (r ∷ rs) s h = sign_clear r

pub word-IsClear : (w x : List ℕ) → IsWord w → IsClear (print_word w x)
word-IsClear [] x h = absurd (omega arith)
word-IsClear (c ∷ w) x (h, _) = char_clear c h

pub words-IsClear :
    (ws : List (List ℕ)) (s : List ℕ) → All IsWord ws → IsClear s → IsClear (print_words ws s)
words-IsClear [] s all h = h
words-IsClear (w ∷ ws) s (h, _) _ = word-IsClear w (print_words ws s) h

less-token : (s : List ℕ) → IsClear s → token_at (60 ∷ s) ≡ record { tok = 60; text = []; rest = s }
unfolding token_at is_symbol contains
less-token s h = ap (λ s. record { tok = 60; text = []; rest = s }) (skip_clear s h)

gt_token-word :
    (w x : List ℕ)
    → IsWord w
    → gt_token (print_word w x) ≡ record { tok = 62; text = []; rest = print_word w x }
unfolding gt_token
gt_token-word [] x h = absurd (omega arith)
gt_token-word (c ∷ w) x (h, _) = rw (char-no_gt c h) (
    ap (λ s. record { tok = 62; text = []; rest = s })
      (skip_clear (c ∷ (w ++ 32 ∷ x)) (char_clear c h)))

gt-token :
    (w x : List ℕ)
    → IsWord w
    → token_at (62 ∷ print_word w x) ≡ record { tok = 62; text = []; rest = print_word w x }
unfolding token_at
gt-token w x h = gt_token-word w x h

pub sign-token :
    (r : Redir) (w x : List ℕ)
    → IsWord w
    → gettoken (sign r ∷ print_word w x) ≡ record { tok = sign r; text = []; rest = print_word w x }
unfolding gettoken
sign-token r w x h =
    ap (λ s. token_at s) (skip_clear (sign r ∷ print_word w x) (sign_clear r))
    ∙ elim (sign-cases r) [
      | inl e ↦ rw e (less-token (print_word w x) (word-IsClear w x h))
      | inr e ↦ rw e (gt-token w x h)
    ]

pub sign-peek : (r : Redir) (s : List ℕ) → peek (60 ∷ 62 ∷ []) (sign r ∷ s) ≡ true
unfolding peek head_in contains
sign-peek r s =
    rw (skip_clear (sign r ∷ s) (sign_clear r))
      (elim (sign-cases r) [ inl e ↦ rw e refl | inr e ↦ rw e refl ])

pub peek_clear : (toks s : List ℕ) → IsClear s → peek toks s ≡ head_in toks s
unfolding peek
peek_clear toks s h = ap (λ s. head_in toks s) (skip_clear s h)
