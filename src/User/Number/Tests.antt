-- ===== src/User/Number/Tests.antt =====
-- Runs of the number routines of the user programs.
use ducko_unix.Prelude.{◌≡◌, refl, [], ◌∷◌, true}
use ducko_unix.User.Number.{printint, atoi}

minus : printint 4294967254 10 true ≡ 45 ∷ 52 ∷ 50 ∷ []
unfolding printint
minus = refl

stops : atoi (49 ∷ 50 ∷ 32 ∷ 51 ∷ []) ≡ 12
unfolding atoi
stops = refl
