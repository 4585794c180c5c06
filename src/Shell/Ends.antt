-- ===== src/Shell/Ends.antt =====
-- The parser of the shell (sh.c) ends: `parsecmd` always has the fuel it needs.
use ducko_unix.Prelude.{
  ℕ, zero, suc, ◌+◌, ◌-◌, ◌*◌, ◌<◌, ◌≤◌, ◌≢◌, List, [], ◌∷◌, length, Option, none, some, Outcome,
  done, panic, arith, Bool-cases, inl, inr,
}
use ducko_unix.Shell.{
  max_args, skip, gettoken, peek, Cmd, parseredirs, args_loop, back_loop, on, Rule, Rule.line,
  Rule.pipeline, Rule.simple, parse, parsecmd,
}
use ducko_unix.Shell.Tokens.{length-skip, length-gettoken, gettoken-peek}
use ducko_unix.Shell.Lengths.{
  Within, args-Within, on-Within, parseredirs-Within, args_loop-ArgsWithin, back_loop-Within,
}

-- The calls that a rule makes before it takes a character.
abbrev pub calls : Rule → ℕ
calls line = 3
calls pipeline = 2
calls simple = 1

calls-pos : (rule : Rule) → 0 < calls rule
calls-pos line = omega arith
calls-pos pipeline = omega arith
calls-pos simple = omega arith

pub parse-Within :
    (rule : Rule) (fuel n : ℕ) (s : List ℕ)
    → length s ≤ n
    → 3 * n + calls rule ≤ fuel
    → Within n (parse rule fuel s)
unfolding parse
parse-Within rule zero n s le enough = absurd (omega (arith, enough, calls-pos rule))
parse-Within line (suc fuel) n s le enough =
    on-Within n n (parse pipeline fuel s) _ (parse-Within pipeline fuel n s le (omega arith))
      (λ r le'.
        on-Within n n (done (back_loop (suc (length r.1)) r.0 r.1)) _
          (back_loop-Within (suc (length r.1)) n r.0 r.1 (omega arith) le')
          (λ b shorter. elim (Bool-cases (peek (59 ∷ []) b.1)) [
            | inr e ↦ rw e (omega (arith, length-skip b.1, shorter))
            | inl e ↦
                let taken = gettoken-peek (59 ∷ []) b.1 e in
                rw e (
                  on-Within (n - 1) n (parse line fuel (gettoken (skip b.1)).rest) _
                    (parse-Within line fuel (n - 1) (gettoken (skip b.1)).rest
                      (omega (arith, taken, shorter)) (omega (arith, taken, shorter, enough)))
                    (λ q le''. omega (arith, le'')))
          ]))
parse-Within pipeline (suc fuel) n s le enough =
    on-Within n n (parse simple fuel s) _ (parse-Within simple fuel n s le (omega arith)) (λ r le'.
      elim (Bool-cases (peek (124 ∷ []) r.1)) [
        | inr e ↦ rw e (omega (arith, length-skip r.1, le'))
        | inl e ↦
            let taken = gettoken-peek (124 ∷ []) r.1 e in
            rw e (
              on-Within (n - 1) n (parse pipeline fuel (gettoken (skip r.1)).rest) _
                (parse-Within pipeline fuel (n - 1) (gettoken (skip r.1)).rest
                  (omega (arith, taken, le')) (omega (arith, taken, le', enough)))
                (λ q le''. omega (arith, le'')))
      ])
parse-Within simple (suc fuel) n s le enough = elim (Bool-cases (peek (40 ∷ []) s)) [
  | inr e ↦ rw e (
      on-Within n n (parseredirs [] (skip s)) _
        (parseredirs-Within n [] (skip s) (omega (arith, le, length-skip s)))
        (λ q le'.
          args-Within n (args_loop max_args [] q.0 q.1)
            (args_loop-ArgsWithin max_args n [] q.0 q.1 le' (omega arith) (omega arith))))
  | inl e ↦
      let taken = gettoken-peek (40 ∷ []) s e in
      rw e (
        on-Within (n - 1) n (parse line fuel (gettoken (skip s)).rest) _
          (parse-Within line fuel (n - 1) (gettoken (skip s)).rest (omega (arith, taken, le))
            (omega (arith, taken, le, enough)))
          (λ r le'. elim (Bool-cases (peek (41 ∷ []) r.1)) [
            | inr e ↦ rw e tt
            | inl e ↦ rw e (
                on-Within (n - 1) n (parseredirs [] (gettoken (skip r.1)).rest) _
                  (parseredirs-Within (n - 1) [] (gettoken (skip r.1)).rest
                    (omega (arith, le', length-skip r.1, length-gettoken (skip r.1))))
                  (λ q le''. omega (arith, le'')))
          ]))
]

-- The last test of `parsecmd`.
settled :
    (n : ℕ) (m : Outcome (Option (Cmd × List ℕ)))
    → Within n m
    → on m (λ r. elim (skip r.1) [ [] ↦ done (some r.0) | c ∷ t ↦ panic ]) ≢ done none
settled n panic w h = cc h
settled n (done none) w h = absurd (omega arith)
settled n (done (some r)) w h = no_fuel (skip r.1) h
  where
    no_fuel :
        (l : List ℕ)
        → elim l as (λ l. Outcome (Option Cmd)) [ [] ↦ done (some r.0) | c ∷ t ↦ panic ] ≢ done none
    no_fuel [] h = cc h
    no_fuel (c ∷ t) h = cc h

-- `parsecmd` ends for every text: it gives a command or panics.
pub parsecmd_ends : (s : List ℕ) → parsecmd s ≢ done none
unfolding parsecmd
parsecmd_ends s =
    settled (length s) (parse line (3 * length s + 3) s)
      (parse-Within line (3 * length s + 3) (length s) s (omega arith) (omega arith))
