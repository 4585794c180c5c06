-- ===== src/File.antt =====
-- file.c, the pipe's files in pipe.c, and the descriptor calls of sysfile.c. A pointer to a file is
-- its place in `ftable.file`; a pointer to an inode or to a pipe is its address. A call runs whole:
-- what other processes do between its steps keeps the counts, as the theorems show.
pub mod Refs
pub mod Calls
pub mod PipeCalls
mod Tests
use ducko_unix.Prelude.{
  modify, ℕ, zero, suc, ◌+◌, ◌-◌, ltb, leb, ◌==◌, Bool, true, false, ◌&&◌, ◌||◌, not, List, [], ◌∷◌,
  ◌++◌, Option, none, some, if◌then◌else◌, length, get_elem?, set, Outcome, done, panic, ◌>>=◌,
}

-- The type of a file.
pub data Kind : Type 0 where
  fd_none fd_pipe fd_inode : Kind

-- `struct file`.
pub record File : Type 0 where
  pub kind : Kind
  pub ref : ℕ
  pub readable : Bool
  pub writable : Bool
  pub pipe : ℕ
  pub ip : ℕ
  pub off : ℕ

abbrev pub ref_of : List File → ℕ → ℕ
ref_of fs i = elim (get_elem? fs i) [ none ↦ 0 | some f ↦ f.ref ]

unfoldable pub find_free : List File → Option ℕ
find_free [] = none
find_free (f ∷ fs) =
    let rest = find_free fs in
    if f.ref == 0 then some 0 else elim rest [ none ↦ none | some i ↦ some (suc i) ]

unfoldable pub filealloc : List File → Option (ℕ × List File)
unfolding find_free
filealloc fs = elim (find_free fs) [
  | none ↦ none
  | some i ↦ some (i, modify fs i (λ f. record f { ref = 1 }))
]

unfoldable pub filedup : ℕ → List File → Outcome (List File)
filedup i fs =
    if ltb (ref_of fs i) 1 then panic else done (modify fs i (λ f. record f { ref = f.ref + 1 }))

-- The files after the call, and the file whose pipe or inode is let go, at its last reference.
unfoldable pub fileclose : ℕ → List File → Outcome (List File × Option File)
fileclose i fs =
    if ltb (ref_of fs i) 1
    then panic
    else if ltb 0 (ref_of fs i - 1)
    then done (modify fs i (λ f. record f { ref = f.ref - 1 }), none)
    else done (modify fs i (λ f. record f { ref = 0; kind = fd_none }), get_elem? fs i)

-- `curproc->ofile`; a null pointer is `none`.
abbrev pub Ofile : Type 0
Ofile = List (Option ℕ)

-- `argfd` on the value of the argument, negative ones left out.
abbrev pub argfd : Ofile → ℕ → Option ℕ
argfd ofile fd = elim (get_elem? ofile fd) [ none ↦ none | some f ↦ f ]

unfoldable pub fdalloc : Ofile → ℕ → Option (ℕ × Ofile)
fdalloc [] f = none
fdalloc (some g ∷ ofile) f = elim (fdalloc ofile f) [
  | none ↦ none
  | some r ↦ some (suc r.0, some g ∷ r.1)
]
fdalloc (none ∷ ofile) f = some (0, some f ∷ ofile)

-- What a process has, and the table.
pub record Files : Type 0 where
  pub ofile : Ofile
  pub table : List File

-- The result is -1 as `none`, or the descriptor.
unfoldable pub sys_dup : ℕ → Files → Outcome (Option ℕ × Files)
unfolding fdalloc filedup
sys_dup arg s = elim (argfd s.ofile arg) [
  | none ↦ done (none, s)
  | some f ↦ elim (fdalloc s.ofile f) [
    | none ↦ done (none, s)
    | some r ↦ filedup f s.table >>= λ table. done (some r.0, record { ofile = r.1; table = table })
  ]
]

unfoldable pub sys_close : ℕ → Files → Outcome (Option (Option File) × Files)
unfolding fileclose
sys_close arg s = elim (argfd s.ofile arg) [
  | none ↦ done (none, s)
  | some f ↦ fileclose f s.table >>= λ r.
      done (some r.1, record { ofile = set s.ofile arg none; table = r.0 })
]

-- The loop of `fork` over the descriptors: the child's, and the table.
unfoldable pub dup_all : Ofile → List File → Outcome (Ofile × List File)
unfolding filedup
dup_all [] fs = done ([], fs)
dup_all (none ∷ ofile) fs = dup_all ofile fs >>= λ r. done (none ∷ r.0, r.1)
dup_all (some f ∷ ofile) fs =
    filedup f fs >>= λ fs. dup_all ofile fs >>= λ r. done (some f ∷ r.0, r.1)

-- The loop of `exit`: the files that are let go, in order, and the table.
unfoldable pub close_all : Ofile → List File → Outcome (List File × Ofile × List File)
unfolding fileclose
close_all [] fs = done ([], [], fs)
close_all (none ∷ ofile) fs = close_all ofile fs >>= λ r. done (r.0, none ∷ r.1, r.2)
close_all (some f ∷ ofile) fs = fileclose f fs >>= λ c.
    close_all ofile c.0 >>= λ r. done (elim c.1 [ none ↦ r.0 | some g ↦ g ∷ r.0 ], none ∷ r.1, r.2)

abbrev pub open_end : ℕ → Bool → File → File
open_end page writes f = record f {
  kind = fd_pipe;
  readable = not writes;
  writable = writes;
  pipe = page;
}

-- `pipealloc`, given what `kalloc` returns if it is called.
unfoldable pub pipealloc : Option ℕ → List File → Outcome (Option (ℕ × ℕ) × List File)
unfolding filealloc fileclose
pipealloc page fs = elim (filealloc fs) [
  | none ↦ done (none, fs)
  | some a ↦ elim (filealloc a.1) [
    | none ↦ fileclose a.0 a.1 >>= λ c. done (none, c.0)
    | some b ↦ elim page [
      | none ↦ fileclose a.0 b.1 >>= λ c. fileclose b.0 c.0 >>= λ d. done (none, d.0)
      | some p ↦
          done (some (a.0, b.0), modify (modify b.1 a.0 (open_end p false)) b.0 (open_end p true))
    ]
  ]
]

-- `sys_pipe` after `pipealloc`, with what that returned.
unfoldable pub pipe_fds : Files → Option (ℕ × ℕ) → List File → Outcome (Option (ℕ × ℕ) × Files)
unfolding fdalloc fileclose
pipe_fds s none table = done (none, record s { table = table })
pipe_fds s (some ends) table = elim (fdalloc s.ofile ends.0) [
  | none ↦ fileclose ends.0 table >>= λ c.
      fileclose ends.1 c.0 >>= λ d. done (none, record s { table = d.0 })
  | some r ↦ elim (fdalloc r.1 ends.1) [
    | none ↦ fileclose ends.0 table >>= λ c.
        fileclose ends.1 c.0 >>= λ d. done (none, record { ofile = set r.1 r.0 none; table = d.0 })
    | some q ↦ done (some (r.0, q.0), record { ofile = q.1; table = table })
  ]
]

-- `sys_pipe`: the two descriptors, or -1.
unfoldable pub sys_pipe : Option ℕ → Files → Outcome (Option (ℕ × ℕ) × Files)
unfolding pipealloc pipe_fds
sys_pipe page s = pipealloc page s.table >>= λ p. pipe_fds s p.0 p.1
