-- ===== src/Shell/Lengths.antt =====
-- The parser of the shell (sh.c) ends: `parsecmd` always has the fuel it needs.
use ducko_unix.Prelude.{
  ℕ, zero, suc, ◌+◌, ◌<◌, ◌≤◌, leb, ◌==◌, ◌≡◌, List, [], ◌∷◌, ◌++◌, length, length-append, Option,
  none, some, Outcome, done, panic, arith, Bool-cases, inl, inr,
}
use ducko_unix.Shell.{
  max_args, skip, gettoken, peek, Redir, Cmd, Cmd.exec, Cmd.back, wrap, redir_of, redir_loop,
  parseredirs, Args, args_loop, back_loop, on,
}
use ducko_unix.Shell.Tokens.{length-skip, length-gettoken, gettoken-peek}

-- What is left has at most `n` characters, and the fuel has not run out.
abbrev pub ArgsWithin : ℕ → Outcome (Option Args) → Type 0
ArgsWithin n panic = Unit
ArgsWithin n (done none) = 1 ≤ 0
ArgsWithin n (done (some a)) = length a.rest ≤ n

abbrev pub Within {ℓ} : {A : Type ℓ} → ℕ → Outcome (Option (A × List ℕ)) → Type 0
Within n panic = Unit
Within n (done none) = 1 ≤ 0
Within n (done (some r)) = length r.1 ≤ n

-- What follows a call.
on-ArgsWithin :
    (n : ℕ) (m : Outcome (Option (List Redir × List ℕ)))
    (f : List Redir × List ℕ → Outcome (Option Args))
    → Within n m
    → ((r : List Redir × List ℕ) → length r.1 ≤ n → ArgsWithin n (f r))
    → ArgsWithin n (on m f)
on-ArgsWithin n panic f h k = tt
on-ArgsWithin n (done none) f h k = h
on-ArgsWithin n (done (some r)) f h k = k r h

pub args-Within :
    (n : ℕ) (m : Outcome (Option Args))
    → ArgsWithin n m
    → Within n (on m (λ a. done (some (wrap (exec a.argv) a.redirs, a.rest))))
args-Within n panic h = tt
args-Within n (done none) h = h
args-Within n (done (some a)) h = h

pub on-Within {ℓ κ} :
    {A : Type ℓ} {B : Type κ} (n k : ℕ) (m : Outcome (Option (A × List ℕ)))
    (f : A × List ℕ → Outcome (Option (B × List ℕ)))
    → Within n m
    → ((r : A × List ℕ) → length r.1 ≤ n → Within k (f r))
    → Within k (on m f)
on-Within n k panic f h g = tt
on-Within n k (done none) f h g = absurd (omega arith)
on-Within n k (done (some r)) f h g = g r h

redir_loop-Within :
    (fuel n : ℕ) (rs : List Redir) (s : List ℕ)
    → length s < fuel
    → length s ≤ n
    → Within n (redir_loop fuel rs s)
unfolding redir_loop
redir_loop-Within zero n rs s lt le = absurd (omega (arith, lt))
redir_loop-Within (suc fuel) n rs s lt le = elim (Bool-cases (peek (60 ∷ 62 ∷ []) s)) [
  | inr e ↦ rw e (omega (arith, le, length-skip s))
  | inl e ↦
      let t = gettoken (skip s) in
      let w = gettoken t.rest in
      let shorter = gettoken-peek (60 ∷ 62 ∷ []) s e in
      rw e (elim (Bool-cases (w.tok == 97)) [
        | inr e ↦ rw e tt
        | inl e ↦ rw e (
            redir_loop-Within fuel n (rs ++ redir_of t.tok w.text ∷ []) w.rest
              (omega (arith, shorter, length-gettoken t.rest, lt))
              (omega (arith, shorter, length-gettoken t.rest, le)))
      ])
]

pub parseredirs-Within :
    (n : ℕ) (rs : List Redir) (s : List ℕ) → length s ≤ n → Within n (parseredirs rs s)
unfolding parseredirs
parseredirs-Within n rs s le = redir_loop-Within (suc (length s)) n rs s (omega arith) le

pub args_loop-ArgsWithin :
    (left n : ℕ) (argv : List (List ℕ)) (rs : List Redir) (s : List ℕ)
    → length s ≤ n
    → max_args ≤ left + length argv
    → 0 < left
    → ArgsWithin n (args_loop left argv rs s)
unfolding args_loop
args_loop-ArgsWithin zero n argv rs s le room pos = absurd (omega (arith, pos))
args_loop-ArgsWithin (suc left) n argv rs s le room pos =
    elim (Bool-cases (peek (124 ∷ 41 ∷ 38 ∷ 59 ∷ []) s)) [
      | inl e ↦ rw e (omega (arith, le, length-skip s))
      | inr e ↦
          let t = gettoken (skip s) in
          let shorter = length-gettoken (skip s) in
          rw e (elim (Bool-cases (t.tok == 0)) [
            | inl e ↦ rw e (omega (arith, le, shorter, length-skip s))
            | inr e ↦ rw e (elim (Bool-cases (t.tok == 97)) [
              | inr e ↦ rw e tt
              | inl e ↦ rw e (elim (Bool-cases (leb max_args (length argv + 1))) [
                | inl e ↦ rw e tt
                | inr e ↦
                    let few : length argv + 1 < max_args = ground (arith, e) in
                    let one_more : length (argv ++ t.text ∷ []) ≡ length argv + 1 =
                      length-append argv (t.text ∷ []) in
                    rw e (
                      on-ArgsWithin n (parseredirs rs t.rest)
                        (λ r. args_loop left (argv ++ t.text ∷ []) r.0 r.1)
                        (parseredirs-Within n rs t.rest (omega (arith, le, shorter, length-skip s)))
                        (λ r le'.
                          args_loop-ArgsWithin left n (argv ++ t.text ∷ []) r.0 r.1 le'
                            (omega (arith, room, one_more)) (omega (arith, room, few))))
              ])
            ])
          ])
    ]

pub back_loop-Within :
    (fuel n : ℕ) (c : Cmd) (s : List ℕ)
    → length s < fuel
    → length s ≤ n
    → Within n (done (back_loop fuel c s))
unfolding back_loop
back_loop-Within zero n c s lt le = absurd (omega (arith, lt))
back_loop-Within (suc fuel) n c s lt le = elim (Bool-cases (peek (38 ∷ []) s)) [
  | inr e ↦ rw e (omega (arith, le, length-skip s))
  | inl e ↦
      let shorter = gettoken-peek (38 ∷ []) s e in
      rw e (
        back_loop-Within fuel n (back c) (gettoken (skip s)).rest (omega (arith, shorter, lt))
          (omega (arith, shorter, le)))
]
