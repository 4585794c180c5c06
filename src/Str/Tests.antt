-- ===== src/Str/Tests.antt =====
-- Runs of the routines of string.c on small texts and blocks.
use ducko_unix.Prelude.{
  ℕ, ◌+◌, ◌<◌, ◌≤◌, ◌≡◌, ◌≢◌, refl, List, [], ◌∷◌, get_or, ◌↔◌, ◌⊎◌, true, some, arith,
}
use ducko_unix.Prelude.Int.{pos, negsuc, sub_ℕ}
use ducko_unix.Str.{memmove, memcmp, strncmp, strncpy, strlen}
use ducko_unix.Str.Move.{memmove_lem}
use ducko_unix.Str.Text.{strncmp_lem, memcmp_lem, strncpy_lem, strlen_lem, agree}

-- Reads zeros after the listed bytes.
abbrev text : List ℕ → ℕ → ℕ
text bytes i = get_or bytes i 0

abbrev abc : ℕ → ℕ
abc = text (97 ∷ 98 ∷ 99 ∷ [])

abbrev abd : ℕ → ℕ
abd = text (97 ∷ 98 ∷ 100 ∷ [])

abbrev blank : ℕ → ℕ
blank i = 7

strncmp-differ : strncmp abc abd 14 0 ≡ negsuc 0
unfolding strncmp
strncmp-differ = refl

memmove_lem_example : memmove 1 0 3 abc 3 ≡ 99
memmove_lem_example = memmove_lem 1 0 3 abc 3

strncmp_prefix : (strncmp abc abd 2 0 ≡ pos 0) ↔ (agree abc abd 2 0 ≡ true)
strncmp_prefix = strncmp_lem abc abd 2 0

memcmp-abc :
    ((memcmp abc abd 4 0 ≡ pos 0) × ((j : ℕ) → 0 ≤ j → j < 0 + 4 → abc j ≡ abd j))
    ⊎ ((j : ℕ) × (0 ≤ j)
        × (j < 0 + 4)
        × (abc j ≢ abd j)
        × ((k : ℕ) → 0 ≤ k → k < j → abc k ≡ abd k)
        × (memcmp abc abd 4 0 ≡ sub_ℕ (abc j) (abd j)))
memcmp-abc = memcmp_lem abc abd 4 0

strncpy-abc : strncpy blank abc 14 0 9 ≡ 0
strncpy-abc = strncpy_lem blank abc 14 0 9

strlen-abc : strlen abc 0 4 ≡ some 3
strlen-abc = strlen_lem abc 3 0 4 refl refl (omega arith)
