-- ===== src/User/Grep/Tests.antt =====
-- Runs of the matcher of grep.c.
use ducko_unix.Prelude.{◌≡◌, ◌≢◌, refl, ◌↔◌, ◌⊎◌, List, [], ◌∷◌, true, false, ℕ}
use ducko_unix.User.Grep.{match, caret}
use ducko_unix.User.Grep.Regex.{match_lem, Here, Somewhere}

-- "b.*d$" is found in "abccd", and not at its start.
abbrev re : List ℕ
re = 98 ∷ 46 ∷ 42 ∷ 100 ∷ 36 ∷ []

abbrev text : List ℕ
text = 97 ∷ 98 ∷ 99 ∷ 99 ∷ 100 ∷ []

found : match re text ≡ true
unfolding match
found = refl

anchored : match (caret ∷ re) text ≡ false
unfolding match
anchored = refl

match_lem_example : (match re text ≡ true) ↔ (
    ((rest : List ℕ) × (re ≡ caret ∷ rest) × Here rest text)
    ⊎ (((rest : List ℕ) → re ≢ caret ∷ rest) × Somewhere re text))
match_lem_example = match_lem re text
