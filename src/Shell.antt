-- ===== src/Shell.antt =====
-- The parser of the shell (sh.c). The text from `*ps` to `es` is a list of characters, at the end
-- of which the code reads 0. `panic` prints a message and ends the child that parses. The words of
-- a command are cut out where the code keeps their two ends for `nulterminate`.
pub mod Tokens
pub mod Lengths
pub mod Ends
pub mod Print
pub mod Words
pub mod Arguments
pub mod Simple
pub mod Places
pub mod RoundTrip
mod Tests
use ducko_unix.Prelude.{
  ℕ, zero, suc, ◌+◌, ◌*◌, ltb, leb, ◌==◌, Bool, true, false, ◌&&◌, ◌||◌, not, List, [], ◌∷◌, ◌++◌,
  length, if◌then◌else◌, Option, none, some, Outcome, done, panic, ◌>>=◌,
}

abbrev pub max_args : ℕ
max_args = 10

-- `strchr(chars, c) != 0`.
unfoldable pub contains : List ℕ → ℕ → Bool
contains [] c = false
contains (d ∷ ds) c = c == d || contains ds c

-- " \t\r\n\v" and "<|>&;()".
abbrev pub whitespace : List ℕ
whitespace = 32 ∷ 9 ∷ 13 ∷ 10 ∷ 11 ∷ []

abbrev pub symbols : List ℕ
symbols = 60 ∷ 124 ∷ 62 ∷ 38 ∷ 59 ∷ 40 ∷ 41 ∷ []

unfoldable pub is_space : ℕ → Bool
unfolding contains
is_space c = contains whitespace c

unfoldable pub is_symbol : ℕ → Bool
unfolding contains
is_symbol c = contains symbols c

unfoldable pub skip : List ℕ → List ℕ
skip [] = []
skip (c ∷ s) = let rest = skip s in if is_space c then rest else c ∷ s

-- The characters of a word, and what comes after it.
unfoldable pub word : List ℕ → List ℕ × List ℕ
word [] = ([], [])
word (c ∷ s) =
    let rest = word s in if is_space c || is_symbol c then ([], c ∷ s) else (c ∷ rest.0, rest.1)

pub record Token : Type 0 where
  pub tok : ℕ
  pub text : List ℕ
  pub rest : List ℕ

-- The token after '>'; 43 is '+' for ">>".
unfoldable pub gt_token : List ℕ → Token
gt_token [] = record { tok = 62; text = []; rest = [] }
gt_token (d ∷ t) =
    if d == 62
    then record { tok = 43; text = []; rest = skip t }
    else record { tok = 62; text = []; rest = skip (d ∷ t) }

-- 97 is 'a'.
unfoldable pub word_token : List ℕ → Token
word_token s = let w = word s in record { tok = 97; text = w.0; rest = skip w.1 }

unfoldable pub token_at : List ℕ → Token
token_at [] = record { tok = 0; text = []; rest = [] }
token_at (c ∷ s) =
    if c == 0
    then record { tok = 0; text = []; rest = skip (c ∷ s) }
    else if c == 62
    then gt_token s
    else if is_symbol c
    then record { tok = c; text = []; rest = skip s }
    else word_token (c ∷ s)

unfoldable pub gettoken : List ℕ → Token
gettoken s = token_at (skip s)

unfoldable pub head_in : List ℕ → List ℕ → Bool
head_in toks [] = false
head_in toks (c ∷ s) = not (c == 0) && contains toks c

-- `peek` also moves on to `skip s`.
unfoldable pub peek : List ℕ → List ℕ → Bool
peek toks s = head_in toks (skip s)

-- The file, the mode and the descriptor of a redirection.
pub record Redir : Type 0 where
  pub file : List ℕ
  pub mode : ℕ
  pub fd : ℕ

-- `struct cmd` with its five types.
pub data Cmd : Type 0 where
  exec : List (List ℕ) → Cmd
  redir : Cmd → Redir → Cmd
  pipe : Cmd → Cmd → Cmd
  list : Cmd → Cmd → Cmd
  back : Cmd → Cmd

-- The redirections of `rs` around a command, the first innermost.
abbrev pub wrap : Cmd → List Redir → Cmd
wrap c [] = c
wrap c (r ∷ rs) = wrap (redir c r) rs

-- O_RDONLY for '<', O_WRONLY|O_CREATE for '>' and '+'.
abbrev pub redir_of : ℕ → List ℕ → Redir
redir_of tok file =
    if tok == 60
    then record { file = file; mode = 0; fd = 0 }
    else record { file = file; mode = 513; fd = 1 }

-- `none` is what a loop or a parse comes to that has no fuel left.
abbrev pub on {ℓ κ} :
    {A : Type ℓ} {B : Type κ} → Outcome (Option A) → (A → Outcome (Option B)) → Outcome (Option B)
on panic f = panic
on (done none) f = done none
on (done (some a)) f = f a

-- `parseredirs`; the redirections are listed and not yet put around the command, since `parseexec`
-- goes on to fill in the arguments of the command inside. Each turn moves on, so that one turn more
-- than there are characters is enough.
unfoldable pub redir_loop : ℕ → List Redir → List ℕ → Outcome (Option (List Redir × List ℕ))
redir_loop zero rs s = done none
redir_loop (suc fuel) rs s =
    if peek (60 ∷ 62 ∷ []) s
    then (let t = gettoken (skip s) in
        let w = gettoken t.rest in
        if w.tok == 97 then redir_loop fuel (rs ++ redir_of t.tok w.text ∷ []) w.rest else panic)
    else done (some (rs, skip s))

unfoldable pub parseredirs : List Redir → List ℕ → Outcome (Option (List Redir × List ℕ))
parseredirs rs s = redir_loop (suc (length s)) rs s

pub record Args : Type 0 where
  pub argv : List (List ℕ)
  pub redirs : List Redir
  pub rest : List ℕ

-- The loop of `parseexec`; the arguments are fewer than `max_args`, so that as many turns are
-- enough.
unfoldable pub args_loop : ℕ → List (List ℕ) → List Redir → List ℕ → Outcome (Option Args)
args_loop zero argv rs s = done none
args_loop (suc left) argv rs s =
    if peek (124 ∷ 41 ∷ 38 ∷ 59 ∷ []) s
    then done (some (record { argv = argv; redirs = rs; rest = skip s }))
    else (let t = gettoken (skip s) in
        if t.tok == 0
        then done (some (record { argv = argv; redirs = rs; rest = t.rest }))
        else if not (t.tok == 97)
        then panic
        else if leb max_args (length argv + 1)
        then panic
        else on (parseredirs rs t.rest) (λ r. args_loop left (argv ++ t.text ∷ []) r.0 r.1))

-- The loop of `parseline` over '&'.
unfoldable pub back_loop : ℕ → Cmd → List ℕ → Option (Cmd × List ℕ)
back_loop zero c s = none
back_loop (suc fuel) c s =
    if peek (38 ∷ []) s then back_loop fuel (back c) (gettoken (skip s)).rest else some (c, skip s)

pub data Rule : Type 0 where
  line pipeline simple : Rule

-- `parseline`, `parsepipe` and `parseexec` with `parseblock`.
unfoldable pub parse : Rule → ℕ → List ℕ → Outcome (Option (Cmd × List ℕ))
parse rule zero s = done none
parse line (suc fuel) s = on (parse pipeline fuel s) (λ r.
    on (done (back_loop (suc (length r.1)) r.0 r.1)) (λ b.
      if peek (59 ∷ []) b.1
      then on (parse line fuel (gettoken (skip b.1)).rest) (λ q. done (some (list b.0 q.0, q.1)))
      else done (some (b.0, skip b.1))))
parse pipeline (suc fuel) s = on (parse simple fuel s) (λ r.
    if peek (124 ∷ []) r.1
    then on (parse pipeline fuel (gettoken (skip r.1)).rest) (λ q. done (some (pipe r.0 q.0, q.1)))
    else done (some (r.0, skip r.1)))
parse simple (suc fuel) s =
    if peek (40 ∷ []) s
    then on (parse line fuel (gettoken (skip s)).rest) (λ r.
      if peek (41 ∷ []) r.1
      then on (parseredirs [] (gettoken (skip r.1)).rest) (λ q. done (some (wrap r.0 q.0, q.1)))
      else panic)
    else on (parseredirs [] (skip s)) (λ q.
      on (args_loop max_args [] q.0 q.1) (λ a. done (some (wrap (exec a.argv) a.redirs, a.rest))))

-- Three calls for each character, and three more.
unfoldable pub parsecmd : List ℕ → Outcome (Option Cmd)
parsecmd s =
    on (parse line (3 * length s + 3) s)
      (λ r. elim (skip r.1) [ [] ↦ done (some r.0) | c ∷ t ↦ panic ])
