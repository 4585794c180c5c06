-- ===== src/File/Tests.antt =====
-- Runs of the file table with three files.
use ducko_unix.Prelude.{
  Bool, not, suc, ℕ, ◌+◌, ◌≡◌, refl, List, [], ◌∷◌, true, false, arith, Option, some, none, done,
  ℕ-cases,
}
use ducko_unix.File.{ref_of, File, fd_none, fd_pipe, fd_inode, Files, sys_pipe}
use ducko_unix.File.Refs.{one_at}
use ducko_unix.File.Calls.{holds, Balanced}
use ducko_unix.File.PipeCalls.{sys_pipe_lem, Opened}

abbrev free : File
free = record {
  kind = fd_none;
  ref = 0;
  readable = false;
  writable = false;
  pipe = 0;
  ip = 0;
  off = 0;
}

abbrev inode_file : File
inode_file = record {
  kind = fd_inode;
  ref = 2;
  readable = true;
  writable = true;
  pipe = 0;
  ip = 1;
  off = 0;
}

abbrev table : List File
table = inode_file ∷ free ∷ free ∷ []

abbrev pipe_end : Bool → File
pipe_end writes = record {
  kind = fd_pipe;
  ref = 1;
  readable = not writes;
  writable = writes;
  pipe = 4096;
  ip = 0;
  off = 0;
}

-- One reference here, and one elsewhere.
abbrev files : Files
files = record { ofile = none ∷ some 0 ∷ none ∷ []; table = table }

abbrev others : ℕ → ℕ
others i = one_at 0 i

-- What is to hold at each file.
abbrev Here : ℕ → Type 0
Here i = ref_of table i ≡ holds files.ofile i + others i

balanced : Balanced files others
balanced =
    ℕ-cases Here refl (
      ℕ-cases (λ i. Here (suc i)) refl (ℕ-cases (λ i. Here (suc (suc i))) refl (λ i. ground arith)))

sys_pipe_lem_example :
    (r : Option (ℕ × ℕ)) × (t : Files) × (sys_pipe (some 4096) files ≡ done (r, t))
    × Balanced t others
    × Opened files.ofile r t.ofile
sys_pipe_lem_example = sys_pipe_lem (some 4096) files others balanced

-- It does open descriptors here.
pipe_opens :
    sys_pipe (some 4096) files
    ≡ done (
      some (0, 2),
      record {
        ofile = some 1 ∷ some 0 ∷ some 2 ∷ [];
        table = inode_file ∷ pipe_end false ∷ pipe_end true ∷ [];
      },
    )
unfolding sys_pipe
pipe_opens = refl
