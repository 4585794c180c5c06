-- ===== src/Shell/Tests.antt =====
-- The shell's parser (sh.c) on a line.
use ducko_unix.Prelude.{◌≡◌, ◌≢◌, refl, [], ◌∷◌, ℕ, some, none, true, done, arith}
use ducko_unix.Shell.{
  Cmd, Cmd.exec, Cmd.redir, Cmd.pipe, Cmd.list, Cmd.back, parsecmd, is_space, is_symbol, contains,
}
use ducko_unix.Shell.Ends.{parsecmd_ends}
use ducko_unix.Shell.Print.{IsCmd, IsWord, is_char, Place.whole, print}
use ducko_unix.Shell.RoundTrip.{parsecmd-print}

-- (a b|c)>d &;e
abbrev command : Cmd
command =
    list
      (back (
        redir (pipe (exec ((97 ∷ []) ∷ (98 ∷ []) ∷ [])) (exec ((99 ∷ []) ∷ [])))
          (record { file = 100 ∷ []; mode = 513; fd = 1 })))
      (exec ((101 ∷ []) ∷ []))

command-IsCmd : IsCmd command
unfolding is_space is_symbol contains
command-IsCmd =
    let word : (c : ℕ) → is_char c ≡ true → IsWord (c ∷ []) = λ c h. (h, tt) in
    let piped : IsCmd (pipe (exec ((97 ∷ []) ∷ (98 ∷ []) ∷ [])) (exec ((99 ∷ []) ∷ []))) =
      (((word 97 refl, (word 98 refl, tt)), omega arith), ((word 99 refl, tt), omega arith)) in
    ((piped, (word 100 refl, refl)), ((word 101 refl, tt), omega arith))

parsecmd-print_example : parsecmd (print whole command []) ≡ done (some command)
parsecmd-print_example = parsecmd-print command command-IsCmd

-- "a >"
parsecmd_ends_example : parsecmd (97 ∷ 32 ∷ 62 ∷ []) ≢ done none
parsecmd_ends_example = parsecmd_ends (97 ∷ 32 ∷ 62 ∷ [])
