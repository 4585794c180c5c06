-- ===== src/User/Grep/Regex.antt =====
-- What the expressions of grep.c mean, and that the matcher decides it.
use ducko_unix.Prelude.{
  ℕ, ◌==◌, ◌≡◌, ◌≢◌, refl, ap, subst, ◌⊎◌, sym, ◌↔◌, inl, inr, Bool, true, ◌||◌, List, [], ◌∷◌,
  ◌++◌, arith, Bool-cases, All,
}
use ducko_unix.User.Grep.{
  caret, dot, dollar, star, matchstar, match_one, matchhere, match_from, match,
}

-- A literal stands for itself, and a dot for any byte.
abbrev pub Fits : ℕ → ℕ → Type 0
Fits c x = (x == c || c == dot) ≡ true

-- The expression describes a prefix of the text.
pub data Here : List ℕ → List ℕ → Type 0 where
  ended : (text : List ℕ) → Here [] text
  line_end : Here (dollar ∷ []) []
  last : (c x : ℕ) (text : List ℕ) → c ≢ dollar → Fits c x → Here (c ∷ []) (x ∷ text)
  next :
      (c d x : ℕ) (re text : List ℕ)
      → d ≢ star
      → Fits c x
      → Here (d ∷ re) text
      → Here (c ∷ d ∷ re) (x ∷ text)
  repeat :
      (c : ℕ) (re us vs : List ℕ)
      → All (Fits c) us
      → Here re vs
      → (text : List ℕ) → text ≡ us ++ vs
      → Here (c ∷ star ∷ re) text

-- The text from some byte on is described by the expression.
abbrev pub Somewhere : List ℕ → List ℕ → Type 0
Somewhere re text = (us : List ℕ) × (vs : List ℕ) × (text ≡ us ++ vs) × Here re vs

-- A run of bytes that fit, and then what the rest of the expression accepts.
abbrev Repeats : ℕ → (List ℕ → Bool) → List ℕ → Type 0
Repeats c here text =
    (us : List ℕ) × (vs : List ℕ) × (text ≡ us ++ vs) × All (Fits c) us × (here vs ≡ true)

matchstar-Repeats :
    (c : ℕ) (here : List ℕ → Bool) (text : List ℕ)
    → matchstar c here text ≡ true
    → Repeats c here text
unfolding matchstar
matchstar-Repeats c here [] e = ([], [], refl, tt, e)
matchstar-Repeats c here (x ∷ text) e = elim (Bool-cases (here (x ∷ text))) [
  | inl now ↦ ([], x ∷ text, refl, tt, now)
  | inr later ↦ elim (Bool-cases (x == c || c == dot)) [
    | inl fits ↦
        let (us, vs, split, all, e') = matchstar-Repeats c here text (ground arith) in
        (x ∷ us, vs, ap (λ t. x ∷ t) split, (fits, all), e')
    | inr differs ↦ ground arith
  ]
]

matchstar_here :
    (c : ℕ) (here : List ℕ → Bool) (text : List ℕ) → here text ≡ true → matchstar c here text ≡ true
unfolding matchstar
matchstar_here c here [] e = e
matchstar_here c here (x ∷ text) e = ground arith

Repeats-matchstar :
    (c : ℕ) (here : List ℕ → Bool) (us vs : List ℕ)
    → All (Fits c) us
    → here vs ≡ true
    → matchstar c here (us ++ vs) ≡ true
unfolding matchstar
Repeats-matchstar c here [] vs all e = matchstar_here c here vs e
Repeats-matchstar c here (x ∷ us) vs (fits, all) e =
    ground (arith, Repeats-matchstar c here us vs all e)

match_one-Fits :
    (c : ℕ) (here : List ℕ → Bool) (text : List ℕ)
    → match_one c here text ≡ true
    → (x : ℕ) × (rest : List ℕ) × (text ≡ x ∷ rest) × Fits c x × (here rest ≡ true)
unfolding match_one
match_one-Fits c here [] e = cc
match_one-Fits c here (x ∷ text) e = (x, text, refl, ground arith, ground arith)

matchhere-Here : (re text : List ℕ) → matchhere re text ≡ true → Here re text
unfolding matchhere match_one
matchhere-Here [] text e = ended text
matchhere-Here (c ∷ []) [] e =
    let at : dollar ≡ c = ground (arith, e) in subst (λ c. Here (c ∷ []) []) at line_end
matchhere-Here (c ∷ []) (x ∷ text) e = last c x text (ground arith) (ground arith)
matchhere-Here (c ∷ d ∷ re) text e = elim (Bool-cases (d == star)) [
  | inl starred ↦
      let (us, vs, split, all, e') =
        matchstar-Repeats c (λ t. matchhere re t) text (ground (arith, starred)) in
      let at : star ≡ d = ground (arith, starred) in
      subst (λ d. Here (c ∷ d ∷ re) text) at
        (repeat c re us vs all (matchhere-Here re vs e') text split)
  | inr plain ↦
      let (x, rest, split, fits, e') =
        match_one-Fits c (λ t. matchhere (d ∷ re) t) text (ground (arith, plain)) in
      subst (λ t. Here (c ∷ d ∷ re) t) (sym split)
        (next c d x re rest (ground (arith, plain)) fits (matchhere-Here (d ∷ re) rest e'))
]

Here-matchhere : (re text : List ℕ) → Here re text → matchhere re text ≡ true
unfolding matchhere match_one
Here-matchhere _ _ (ended text) = refl
Here-matchhere _ _ line_end = refl
Here-matchhere _ _ (last c x text h fits) = ground arith
Here-matchhere _ _ (next c d x re text h fits rest) =
    ground (arith, Here-matchhere (d ∷ re) text rest)
Here-matchhere _ _ (repeat c re us vs all rest text split) =
    rw split (Repeats-matchstar c (λ t. matchhere re t) us vs all (Here-matchhere re vs rest))

match_from-Somewhere : (re text : List ℕ) → match_from re text ≡ true → Somewhere re text
unfolding match_from
match_from-Somewhere re [] e = ([], [], refl, matchhere-Here re [] e)
match_from-Somewhere re (x ∷ text) e = elim (Bool-cases (matchhere re (x ∷ text))) [
  | inl now ↦ ([], x ∷ text, refl, matchhere-Here re (x ∷ text) now)
  | inr later ↦
      let (us, vs, split, here) = match_from-Somewhere re text (ground (arith, later)) in
      (x ∷ us, vs, ap (λ t. x ∷ t) split, here)
]

match_from-Here : (re text : List ℕ) → Here re text → match_from re text ≡ true
unfolding match_from
match_from-Here re [] h = Here-matchhere re [] h
match_from-Here re (x ∷ text) h = ground (arith, Here-matchhere re (x ∷ text) h)

match_from_there : (re us vs : List ℕ) → Here re vs → match_from re (us ++ vs) ≡ true
unfolding match_from
match_from_there re [] vs h = match_from-Here re vs h
match_from_there re (x ∷ us) vs h = ground (arith, match_from_there re us vs h)

-- `match` accepts a text just where the expression describes it: at its start when the expression
-- begins with a caret, and from any byte on when it does not.
pub match_lem :
    (re text : List ℕ)
    → (match re text ≡ true) ↔ (
        ((rest : List ℕ) × (re ≡ caret ∷ rest) × Here rest text)
        ⊎ (((rest : List ℕ) → re ≢ caret ∷ rest) × Somewhere re text))
unfolding match
match_lem [] text = (
  λ e. inr (λ rest eq. cc, match_from-Somewhere [] text e),
  λ h. elim h [
    | inl (rest, eq, here) ↦ cc
    | inr (plain, (us, vs, split, here)) ↦ rw split (match_from_there [] us vs here)
  ],
)
match_lem (c ∷ re) text = elim (Bool-cases (c == caret)) [
  | inl anchored ↦
      let at : c ≡ caret = ground (arith, anchored) in
      (
        λ e. inl (re, ap (λ c. c ∷ re) at, matchhere-Here re text (ground (arith, anchored))),
        λ h. elim h [
          | inl (rest, eq, here) ↦ ground (arith, Here-matchhere rest text here)
          | inr (plain, found) ↦ absurd (plain re (ap (λ c. c ∷ re) at))
        ],
      )
  | inr plain ↦ (
    λ e. inr (
      λ rest eq. ground (arith, plain, eq),
      match_from-Somewhere (c ∷ re) text (ground (arith, plain)),
    ),
    λ h. elim h [
      | inl (rest, eq, here) ↦ ground (arith, plain, eq)
      | inr (plain', (us, vs, split, here)) ↦
          let there : match_from (c ∷ re) text ≡ true =
            rw split (match_from_there (c ∷ re) us vs here) in
          ground (arith, plain, there)
    ],
  )
]
