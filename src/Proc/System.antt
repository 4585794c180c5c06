-- ===== src/Proc/System.antt =====
-- The process table under any interleaving (proc.c): a step is one critical section on
-- `ptable.lock`, or what `allocproc` and `fork` store into a new slot without it.
use ducko_unix.Prelude.{ℕ, ◌+◌, ◌≡◌, Option, none, some, get_elem?, done}
use ducko_unix.Proc.{
  Proc, Table, embryo, running, take_slot, give_stack, abandon, link_child, start_child, exit, wait,
  reaped, wakeup, sleep, yield, resume, schedule, kill,
}

-- The process in slot `i` runs in this step.
pub record Runs (t : Table) (i : ℕ) (p : Proc) : Type 0 where
  pub here : get_elem? t.procs i ≡ some p
  pub state : p.state ≡ running

-- A slot that a `fork` in progress has, before it has stored its parent.
pub record IsNew (t : Table) (i : ℕ) (p : Proc) : Type 0 where
  pub here : get_elem? t.procs i ≡ some p
  pub state : p.state ≡ embryo
  pub orphan : p.parent ≡ none

-- The same after that, for the `fork` of the process in slot `cur`.
pub record IsLinked (t : Table) (i cur : ℕ) (p : Proc) : Type 0 where
  pub here : get_elem? t.procs i ≡ some p
  pub state : p.state ≡ embryo
  pub parent : p.parent ≡ some cur

pub data Step (t : Table) : Table → Type 0 where
  takes : Step t (take_slot t).1
  stacks : (i : ℕ) (p : Proc) (stack : Option ℕ) → IsNew t i p → Step t (give_stack i stack t).1
  abandons : (i : ℕ) (p : Proc) → IsNew t i p → Step t (abandon i t)
  links :
      (i cur d : ℕ) (p me : Proc) → IsNew t i p → Runs t cur me → Step t (link_child i cur me d t)
  starts : (i cur : ℕ) (p me : Proc) → IsLinked t i cur p → Runs t cur me → Step t (start_child i t)
  exits : (cur : ℕ) (me : Proc) (t' : Table) → Runs t cur me → exit cur me t ≡ done t' → Step t t'
  waits :
      (cur pid : ℕ) (me : Proc) (t' : Table)
      → Runs t cur me
      → wait cur me.killed t ≡ reaped pid t'
      → Step t t'
  sleeps : (cur chan : ℕ) (me : Proc) → Runs t cur me → Step t (sleep cur chan t)
  yields : (cur : ℕ) (me : Proc) → Runs t cur me → Step t (yield cur t)
  resumes : (cur : ℕ) (me : Proc) → Runs t cur me → Step t (resume cur t)
  wakes : (chan : ℕ) → Step t (record t { procs = wakeup chan t.procs })
  schedules : (i : ℕ) → Step t (schedule i t).1
  kills : (pid : ℕ) → Step t (kill pid t).1

pub data Reach (s : Table) : Table → Type 0 where
  here : Reach s s
  next : {t u : Table} → Reach s t → Step t u → Reach s u

-- How many slots a run takes.
abbrev pub takes_of : {t u : Table} → Step t u → ℕ
takes_of takes = 1
takes_of _ = 0

abbrev pub taken : {s t : Table} → Reach s t → ℕ
taken here = 0
taken (next r st) = taken r + takes_of st
