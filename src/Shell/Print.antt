-- ===== src/Shell/Print.antt =====
-- Commands as text: an inverse of the shell's parser (sh.c).
use ducko_unix.Prelude.{
  ℕ, ◌<◌, ◌==◌, ◌≡◌, Bool, true, ◌&&◌, not, List, [], ◌∷◌, ◌++◌, length, All, if◌then◌else◌,
}
use ducko_unix.Shell.{
  max_args, is_space, is_symbol, Redir, Cmd, Cmd.exec, Cmd.redir, Cmd.pipe, Cmd.list, Cmd.back,
  redir_of,
}

-- The characters of words.
abbrev pub is_char : ℕ → Bool
is_char c = not (c == 0) && not (is_space c) && not (is_symbol c)

abbrev pub IsWord : List ℕ → Type 0
IsWord [] = 1 < 0
IsWord (c ∷ cs) = (is_char c ≡ true) × All (λ c. is_char c ≡ true) cs

-- '<' or '>'.
abbrev pub sign : Redir → ℕ
sign r = if r.fd == 0 then 60 else 62

abbrev pub IsRedir : Redir → Type 0
IsRedir r = IsWord r.file × (redir_of (sign r) r.file ≡ r)

-- A command of words, with fewer arguments than the shell has room for and the two kinds of
-- redirection that it makes.
abbrev pub IsCmd : Cmd → Type 0
IsCmd (exec argv) = All IsWord argv × (length argv < max_args)
IsCmd (redir c r) = IsCmd c × IsRedir r
IsCmd (pipe l r) = IsCmd l × IsCmd r
IsCmd (list l r) = IsCmd l × IsCmd r
IsCmd (back c) = IsCmd c

-- The text of a word, of words, and of redirections, before the text `tail`.
abbrev pub print_word : List ℕ → List ℕ → List ℕ
print_word w tail = w ++ 32 ∷ tail

abbrev pub print_words : List (List ℕ) → List ℕ → List ℕ
print_words [] tail = tail
print_words (w ∷ ws) tail = print_word w (print_words ws tail)

abbrev pub print_redirs : List Redir → List ℕ → List ℕ
print_redirs [] tail = tail
print_redirs (r ∷ rs) tail = sign r ∷ print_word r.file (print_redirs rs tail)

-- Where a command stands: a line, a line before ';' or '&', a part of a pipeline, or a place for a
-- simple command, where the others are put in parentheses.
pub data Place : Type 0 where
  whole left part simple : Place

unfoldable pub print : Place → Cmd → List ℕ → List ℕ
print p (exec argv) tail = print_words argv tail
print p (redir c r) tail = print simple c (sign r ∷ print_word r.file tail)
print simple (pipe l r) tail = 40 ∷ print simple l (124 ∷ print part r (41 ∷ tail))
print whole (pipe l r) tail = print simple l (124 ∷ print part r tail)
print left (pipe l r) tail = print simple l (124 ∷ print part r tail)
print part (pipe l r) tail = print simple l (124 ∷ print part r tail)
print whole (list l r) tail = print left l (59 ∷ print whole r tail)
print left (list l r) tail = 40 ∷ print left l (59 ∷ print whole r (41 ∷ tail))
print part (list l r) tail = 40 ∷ print left l (59 ∷ print whole r (41 ∷ tail))
print simple (list l r) tail = 40 ∷ print left l (59 ∷ print whole r (41 ∷ tail))
print whole (back c) tail = print left c (38 ∷ tail)
print left (back c) tail = print left c (38 ∷ tail)
print part (back c) tail = 40 ∷ print left c (38 ∷ 41 ∷ tail)
print simple (back c) tail = 40 ∷ print left c (38 ∷ 41 ∷ tail)
