-- ===== src/Shell/Tokens.antt =====
-- What the tokens of the shell's parser (sh.c) take from the text.
use ducko_unix.Prelude.{
  ℕ, ◌+◌, ◌≤◌, ◌==◌, ◌≡◌, ◌≢◌, refl, true, false, ◌||◌, List, [], ◌∷◌, length, arith, ap,
  Bool-cases, inl, inr, ne→==_false,
}
use ducko_unix.Shell.{
  contains, is_space, is_symbol, skip, word, gt_token, word_token, token_at, gettoken, head_in,
  peek,
}

pub length-skip : (s : List ℕ) → length (skip s) ≤ length s
unfolding skip
length-skip [] = omega arith
length-skip (c ∷ s) = elim (Bool-cases (is_space c)) [
  | inl e ↦ rw e (omega (arith, length-skip s))
  | inr e ↦ rw e (omega arith)
]

pub skip_twice : (s : List ℕ) → skip (skip s) ≡ skip s
unfolding skip
skip_twice [] = refl
skip_twice (c ∷ s) = elim (Bool-cases (is_space c)) [
  | inl e ↦ rw e (skip_twice s)
  | inr e ↦ rw (e, e) refl
]

length-word : (s : List ℕ) → length (word s).1 ≤ length s
unfolding word
length-word [] = omega arith
length-word (c ∷ s) = elim (Bool-cases (is_space c || is_symbol c)) [
  | inl e ↦ rw e (omega arith)
  | inr e ↦ rw e (omega (arith, length-word s))
]

length-gt_token : (s : List ℕ) → length (gt_token s).rest ≤ length s
unfolding gt_token
length-gt_token [] = omega arith
length-gt_token (d ∷ s) = elim (Bool-cases (d == 62)) [
  | inl e ↦ rw e (omega (arith, length-skip s))
  | inr e ↦ rw e (length-skip (d ∷ s))
]

length-token_at : (s : List ℕ) → length (token_at s).rest ≤ length s
unfolding token_at word_token
length-token_at [] = omega arith
length-token_at (c ∷ s) = elim (Bool-cases (c == 0)) [
  | inl e ↦ rw e (length-skip (c ∷ s))
  | inr e ↦ rw e (elim (Bool-cases (c == 62)) [
    | inl e ↦ rw e (omega (arith, length-gt_token s))
    | inr e ↦ rw e (elim (Bool-cases (is_symbol c)) [
      | inl e ↦ rw e (omega (arith, length-skip s))
      | inr e ↦ rw e (omega (arith, length-skip (word (c ∷ s)).1, length-word (c ∷ s)))
    ])
  ])
]

pub length-gettoken : (s : List ℕ) → length (gettoken s).rest ≤ length s
unfolding gettoken
length-gettoken s = omega (arith, length-skip s, length-token_at (skip s))

pub symbol-nonzero : (c : ℕ) → is_symbol c ≡ true → c ≢ 0
unfolding is_symbol
symbol-nonzero c sy z =
    let no : is_symbol c ≡ false = ap is_symbol z in absurd (ground (arith, sy, no))

-- A symbol other than '>' is a token by itself.
pub token_at-symbol :
    (c : ℕ) (s : List ℕ)
    → is_symbol c ≡ true
    → c ≢ 62
    → token_at (c ∷ s) ≡ record { tok = c; text = []; rest = skip s }
unfolding token_at
token_at-symbol c s sy ne = rw (ne→==_false c 0 (symbol-nonzero c sy), ne→==_false c 62 ne, sy) refl

pub peek-head : (d : ℕ) (s : List ℕ) → peek (d ∷ []) s ≡ true → (t : List ℕ) × (skip s ≡ d ∷ t)
unfolding peek head_in contains
peek-head d s h = head_of (skip s) h
  where
    head_of : (s : List ℕ) → head_in (d ∷ []) s ≡ true → (t : List ℕ) × (s ≡ d ∷ t)
    head_of [] h = cc h
    head_of (c ∷ s) h = let e : c ≡ d = ground (arith, h) in (s, ap (λ c. c ∷ s) e)

-- The symbols that the parser looks for.
pub bar-is_symbol : is_symbol 124 ≡ true
unfolding is_symbol
bar-is_symbol = refl

pub and-is_symbol : is_symbol 38 ≡ true
unfolding is_symbol
and-is_symbol = refl

pub semicolon-is_symbol : is_symbol 59 ≡ true
unfolding is_symbol
semicolon-is_symbol = refl

pub left-is_symbol : is_symbol 40 ≡ true
unfolding is_symbol
left-is_symbol = refl

pub right-is_symbol : is_symbol 41 ≡ true
unfolding is_symbol
right-is_symbol = refl

abbrev pub IsClear : List ℕ → Type 0
IsClear [] = Unit
IsClear (c ∷ s) = is_space c ≡ false

pub skip-IsClear : (s : List ℕ) → IsClear (skip s)
unfolding skip
skip-IsClear [] = tt
skip-IsClear (c ∷ s) = elim (Bool-cases (is_space c)) [
  | inl e ↦ rw e (skip-IsClear s)
  | inr e ↦ rw e e
]

length-word_clear :
    (c : ℕ) (s : List ℕ)
    → is_space c ≡ false
    → is_symbol c ≡ false
    → length (word (c ∷ s)).1 ≤ length s
unfolding word
length-word_clear c s sp sy = rw (sp, sy) (length-word s)

token_at-takes :
    (toks s : List ℕ) → IsClear s → head_in toks s ≡ true → length (token_at s).rest + 1 ≤ length s
unfolding token_at word_token head_in
token_at-takes toks [] clear h = cc h
token_at-takes toks (c ∷ s) clear h = elim (Bool-cases (c == 0)) [
  | inl e ↦ absurd (ground (arith, e, h))
  | inr e ↦ rw e (elim (Bool-cases (c == 62)) [
    | inl e ↦ rw e (omega (arith, length-gt_token s))
    | inr e ↦ rw e (elim (Bool-cases (is_symbol c)) [
      | inl e ↦ rw e (omega (arith, length-skip s))
      | inr e ↦ rw e (omega (arith, length-skip (word (c ∷ s)).1, length-word_clear c s clear e))
    ])
  ])
]

-- Whatever is seen is taken.
pub gettoken-peek :
    (toks s : List ℕ) → peek toks s ≡ true → length (gettoken (skip s)).rest + 1 ≤ length s
unfolding peek gettoken
gettoken-peek toks s h =
    rw (skip_twice s)
      (omega (arith, token_at-takes toks (skip s) (skip-IsClear s) h, length-skip s))
