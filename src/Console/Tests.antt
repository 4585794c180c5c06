-- ===== src/Console/Tests.antt =====
-- Runs of the console line editor and its reader.
use ducko_unix.Prelude.{ℕ, ◌≡◌, refl, List, [], ◌∷◌, true, false, arith}
use ducko_unix.Console.{Input, key, consoleintr, consoleread}
use ducko_unix.Console.Edit.{IsInput, IsEdited, used, at, stored}
use ducko_unix.Console.Key.{key_lem, consoleintr-IsInput, used_after, ready_after, writes}
use ducko_unix.Console.Read.{consoleread_lem, take_line, unread}

-- Empty, just before the indices wrap round.
abbrev empty : Input
empty = record { buf = λ i. 0; r = 4294967295; w = 4294967295; e = 4294967295 }

empty-IsInput : IsInput empty
empty-IsInput = record {
  r_word = omega arith;
  w_word = omega arith;
  e_word = omega arith;
  order = omega arith;
  room = omega arith;
  no_newline = λ k lo hi. absurd (omega arith);
}

-- "ax", a backspace, "b" and the return key.
typed : unread (consoleintr empty (97 ∷ 120 ∷ 8 ∷ 98 ∷ 13 ∷ [])) ≡ 97 ∷ 98 ∷ 10 ∷ []
unfolding consoleintr
typed = refl

key_lem_example :
    IsEdited empty (key empty 97) (used_after empty 97) (ready_after empty 97)
    × (writes empty 97 ≡ true → at (key empty 97) (used empty) ≡ stored 97)
key_lem_example = key_lem empty 97 empty-IsInput

abbrev line : List ℕ
line = 97 ∷ 21 ∷ 98 ∷ 4 ∷ []

typed_line : IsInput (consoleintr empty line)
typed_line = consoleintr-IsInput line empty empty-IsInput

abbrev two : Input
two = record { buf = λ i. 98; r = 4294967295; w = 1; e = 1 }

consoleread_lem_example :
    (let t = consoleread 5 5 false [] two in
      take_line 5 5 false [] (unread two) ≡ (t.bytes, unread t.input, t.status))
consoleread_lem_example = consoleread_lem 5 5 false [] two (omega arith) (omega arith)
