-- ===== src/Fs/Namex/Elements.antt =====
-- The elements of a path, and what `skipelem` (fs.c) takes of them.
use mathlib.Core.List.{append-nil, append_assoc}
use ducko_unix.Prelude.{
  ℕ, ◌<◌, ◌≤◌, ◌==◌, ◌≡◌, refl, ap, sym, subst, ◌∙◌, Bool, true, false, List, [], ◌∷◌, ◌++◌, none,
  some, if◌then◌else◌, take, length, arith, Bool-cases, inl, inr, ◌⊎◌,
}
use ducko_unix.Fs.Namex.{dir_siz, slash, skip_slashes, split_elem, skipelem, is_empty}

-- The elements of a path: the runs between slashes, each cut to DIRSIZ bytes. `run` is what the
-- current element has so far.
abbrev pub elements_from : List ℕ → List ℕ → List (List ℕ)
elements_from run [] = if is_empty run then [] else take dir_siz run ∷ []
elements_from run (c ∷ path) =
    let next = elements_from [] path in
    let more = elements_from (run ++ c ∷ []) path in
    if c == slash then (if is_empty run then next else take dir_siz run ∷ next) else more

abbrev pub elements : List ℕ → List (List ℕ)
elements path = elements_from [] path

skip_slashes-elements : (path : List ℕ) → elements (skip_slashes path) ≡ elements path
unfolding skip_slashes
skip_slashes-elements [] = refl
skip_slashes-elements (c ∷ path) = elim (Bool-cases (c == slash)) [
  | inl s ↦ rw s (skip_slashes-elements path)
  | inr other ↦ let same : skip_slashes (c ∷ path) ≡ c ∷ path = rw other refl in ap elements same
]

slash-elements : (c : ℕ) (path : List ℕ) → (c == slash) ≡ true → elements (c ∷ path) ≡ elements path
slash-elements c path s = rw s refl

split_elem-elements :
    (run path : List ℕ)
    → is_empty (run ++ (split_elem path).0) ≡ false
    → elements_from run path
      ≡ take dir_siz (run ++ (split_elem path).0) ∷ elements (split_elem path).1
unfolding split_elem
split_elem-elements run [] full =
    let at = append-nil run in
    let long : is_empty run ≡ false = subst (λ r. is_empty r ≡ false) at full in rw (long, at) refl
split_elem-elements run (c ∷ path) full = elim (Bool-cases (c == slash)) [
  | inl s ↦
      let parts : split_elem (c ∷ path) ≡ ([], c ∷ path) = rw s refl in
      let at : run ++ (split_elem (c ∷ path)).0 ≡ run =
        ap (λ p. run ++ p.0) parts ∙ append-nil run in
      let long : is_empty run ≡ false = subst (λ r. is_empty r ≡ false) at full in
      let here : elements_from run (c ∷ path) ≡ take dir_siz run ∷ elements path =
        rw (s, long) refl in
      let next : elements (split_elem (c ∷ path)).1 ≡ elements path =
        ap (λ p. elements p.1) parts ∙ slash-elements c path s in
      rw (at, next) here
  | inr other ↦
      let parts : split_elem (c ∷ path) ≡ (c ∷ (split_elem path).0, (split_elem path).1) =
        rw other refl in
      let at : (run ++ c ∷ []) ++ (split_elem path).0 ≡ run ++ (split_elem (c ∷ path)).0 =
        append_assoc run (c ∷ []) (split_elem path).0 ∙ ap (λ p. run ++ p.0) (sym parts) in
      let here : elements_from run (c ∷ path) ≡ elements_from (run ++ c ∷ []) path =
        rw other refl in
      let rest =
        split_elem-elements (run ++ c ∷ []) path (subst (λ r. is_empty r ≡ false) (sym at) full) in
      here
      ∙ rest
      ∙ ap (λ r. take dir_siz r ∷ elements (split_elem path).1) at
      ∙ ap (λ p. take dir_siz (run ++ (split_elem (c ∷ path)).0) ∷ elements p.1) (sym parts)
]

length-skip_slashes : (path : List ℕ) → length (skip_slashes path) ≤ length path
unfolding skip_slashes
length-skip_slashes [] = omega arith
length-skip_slashes (c ∷ path) = ground (arith, length-skip_slashes path)

length-split_elem : (path : List ℕ) → length (split_elem path).1 ≤ length path
unfolding split_elem
length-split_elem [] = omega arith
length-split_elem (c ∷ path) = ground (arith, length-split_elem path)

skip_cases : (path : List ℕ) → (path ≡ []) ⊎ ((c : ℕ) × (s : List ℕ) × (path ≡ c ∷ s))
skip_cases [] = inl refl
skip_cases (c ∷ s) = inr (c, s, refl)

skip_slashes-head :
    (path : List ℕ) (c : ℕ) (s : List ℕ) → skip_slashes path ≡ c ∷ s → (c == slash) ≡ false
unfolding skip_slashes
skip_slashes-head [] c s e = cc
skip_slashes-head (d ∷ path) c s e = elim (Bool-cases (d == slash)) [
  | inl sl ↦ skip_slashes-head path c s (ground (arith, sl, e))
  | inr other ↦ ground (arith, other, e)
]

-- A path that starts with no slash has a first element.
first_element :
    (c : ℕ) (s : List ℕ)
    → (c == slash) ≡ false
    → elements (c ∷ s) ≡ take dir_siz (split_elem (c ∷ s)).0 ∷ elements (split_elem (c ∷ s)).1
unfolding split_elem
first_element c s other = split_elem-elements [] (c ∷ s) (rw other refl)

abbrev pub is_last : List (List ℕ) → Bool
is_last [] = true
is_last (n ∷ ns) = false

is_last-elements :
    (path : List ℕ) → is_last (elements (skip_slashes path)) ≡ is_empty (skip_slashes path)
is_last-elements path = elim (skip_cases (skip_slashes path)) [
  | inl e ↦ rw e refl
  | inr (c, s, e) ↦ rw e (ap is_last (first_element c s (skip_slashes-head path c s e)))
]

shorter :
    (path : List ℕ) (c : ℕ) (s : List ℕ)
    → skip_slashes path ≡ c ∷ s
    → length (skip_slashes (split_elem (c ∷ s)).1) < length path
unfolding split_elem
shorter path c s e =
    let behind : (split_elem (c ∷ s)).1 ≡ (split_elem s).1 =
      rw (skip_slashes-head path c s e) refl in
    let left : length (c ∷ s) ≤ length path =
      subst (λ p. length p ≤ length path) e (length-skip_slashes path) in
    rw behind (omega (arith, left, length-split_elem s, length-skip_slashes (split_elem s).1))

-- `skipelem` returns the null pointer just when the path has no element left, and otherwise its
-- first element, with a shorter path behind it.
pub skipelem_lem :
    (path : List ℕ)
    → ((skipelem path ≡ none) × (elements path ≡ []))
      ⊎ ((name : List ℕ) × (rest : List ℕ) × (skipelem path ≡ some (name, rest))
          × (elements path ≡ name ∷ elements rest)
          × (length rest < length path)
          × (is_last (elements rest) ≡ is_empty rest))
unfolding skipelem
skipelem_lem path = elim (skip_cases (skip_slashes path)) [
  | inl e ↦ inl (rw (e, skipelem) refl, sym (skip_slashes-elements path) ∙ ap elements e)
  | inr (c, s, e) ↦
      let parts = split_elem (c ∷ s) in
      inr (
        take dir_siz parts.0,
        skip_slashes parts.1,
        rw (e, skipelem) refl,
        sym (skip_slashes-elements path)
            ∙ ap elements e
            ∙ first_element c s (skip_slashes-head path c s e)
            ∙ ap (λ es. take dir_siz parts.0 ∷ es) (sym (skip_slashes-elements parts.1)),
        shorter path c s e,
        is_last-elements parts.1,
      )
]
