-- ===== src/User/Grep.antt =====
-- grep.c: the matcher. A C text is the list of its bytes before the NUL, none of which is zero.
pub mod Regex
mod Tests
use ducko_unix.Prelude.{ℕ, ◌==◌, Bool, true, false, ◌&&◌, ◌||◌, List, [], ◌∷◌, if◌then◌else◌}

-- '^', '.', '$' and '*'.
abbrev pub caret : ℕ
caret = 94

abbrev pub dot : ℕ
dot = 46

abbrev pub dollar : ℕ
dollar = 36

abbrev pub star : ℕ
star = 42

-- The loop of `matchstar`; `here` is `matchhere` on the expression that follows the star.
unfoldable pub matchstar : ℕ → (List ℕ → Bool) → List ℕ → Bool
matchstar c here [] = here []
matchstar c here (x ∷ text) =
    let more = matchstar c here text in
    if here (x ∷ text) then true else (if x == c || c == dot then more else false)

-- The last test of `matchhere`, with the call on the rest as `here`.
unfoldable pub match_one : ℕ → (List ℕ → Bool) → List ℕ → Bool
match_one c here [] = false
match_one c here (x ∷ text) = if c == dot || c == x then here text else false

unfoldable pub matchhere : List ℕ → List ℕ → Bool
unfolding matchstar match_one
matchhere [] text = true
matchhere (c ∷ []) text =
    if c == dollar
    then (elim text [ [] ↦ true | x ∷ xs ↦ false ])
    else match_one c (λ t. matchhere [] t) text
matchhere (c ∷ d ∷ re) text =
    if d == star
    then matchstar c (λ t. matchhere re t) text
    else match_one c (λ t. matchhere (d ∷ re) t) text

-- The loop of `match`.
unfoldable pub match_from : List ℕ → List ℕ → Bool
unfolding matchhere
match_from re [] = matchhere re []
match_from re (x ∷ text) =
    let more = match_from re text in if matchhere re (x ∷ text) then true else more

unfoldable pub match : List ℕ → List ℕ → Bool
unfolding match_from
match [] text = match_from [] text
match (c ∷ re) text = if c == caret then matchhere re text else match_from (c ∷ re) text
