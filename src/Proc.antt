-- ===== src/Proc.antt =====
-- proc.c: the process table. A pointer to a process is its slot in `ptable.proc`, and each function
-- here is what runs with `ptable.lock` held; what the function does before and after, on its own
-- process, is in the arguments (a page from `kalloc`, a page table from `copyuvm`). Closing files
-- and directories in `exit` and sharing them in `fork` is not part of the table (module File).
pub mod Slots
pub mod System
pub mod Exit
pub mod Pids
pub mod Family
pub mod Adopt
pub mod Alive
pub mod Wait
pub mod Kill
mod Tests
use ducko_unix.Prelude.{
  ℕ, ◌%◌, zero, suc, ◌+◌, ◌-◌, ltb, leb, ◌==◌, Bool, true, false, ◌&&◌, ◌||◌, not, List, [], ◌∷◌,
  ◌++◌, map, Option, none, some, if◌then◌else◌, length, get_elem?, drop, Outcome, done, panic,
}

-- `enum procstate`.
pub data State : Type 0 where
  unused embryo sleeping runnable running zombie : State

-- The value of the constant.
abbrev pub rank : State → ℕ
rank unused = 0
rank embryo = 1
rank sleeping = 2
rank runnable = 3
rank running = 4
rank zombie = 5

abbrev pub state_eq : State → State → Bool
state_eq a b = rank a == rank b

-- `struct proc` but for the saved registers, the trap frame, and the files and directory. Null
-- pointers are `none`, a null `chan` is 0.
pub record Proc : Type 0 where
  pub sz : ℕ
  pub pgdir : Option ℕ
  pub kstack : Option ℕ
  pub state : State
  pub pid : ℕ
  pub parent : Option ℕ
  pub chan : ℕ
  pub killed : Bool
  pub name : List ℕ

-- `ptable.proc`, `nextpid` and `initproc`. Pids are 32-bit words, and `nextpid` wraps round.
pub record Table : Type 0 where
  pub procs : List Proc
  pub next_pid : ℕ
  pub init_proc : ℕ

abbrev pub is_parent : ℕ → Proc → Bool
is_parent i p = elim p.parent [ none ↦ false | some j ↦ j == i ]

-- The first slot in `state` from slot `i` on.
pub find_state : State → ℕ → List Proc → Option ℕ
find_state s i [] = none
find_state s i (p ∷ ps) =
    let rest = find_state s (suc i) ps in if state_eq p.state s then some i else rest

abbrev pub at_slot : ℕ → (Proc → Proc) → List Proc → List Proc
at_slot i f [] = []
at_slot zero f (p ∷ ps) = f p ∷ ps
at_slot (suc i) f (p ∷ ps) = p ∷ at_slot i f ps

abbrev pub update_slot : ℕ → (Proc → Proc) → Table → Table
update_slot i f t = record t { procs = at_slot i f t.procs }

-- The locked part of `allocproc`: a free slot is taken, with a new pid.
pub take_slot : Table → Option ℕ × Table
unfolding find_state
take_slot t = elim (find_state unused 0 t.procs) [
  | none ↦ (none, t)
  | some i ↦ (
    some i,
    record t {
      procs = at_slot i (λ p. record p { state = embryo; pid = t.next_pid }) t.procs;
      next_pid = (t.next_pid + 1) % 4294967296;
    },
  )
]

-- What `allocproc` does without the lock to the slot that it has taken. `stack` is what `kalloc`
-- returns; the set-up of the stack and the saved registers is not modelled.
pub give_stack : ℕ → Option ℕ → Table → Option ℕ × Table
give_stack i stack t = elim stack [
  | none ↦ (none, update_slot i (λ p. record p { kstack = none; state = unused }) t)
  | some page ↦ (some i, update_slot i (λ p. record p { kstack = some page }) t)
]

abbrev pub with_stack : Option ℕ → Option ℕ × Table → Option ℕ × Table
with_stack stack (none, t) = (none, t)
with_stack stack (some i, t) = give_stack i stack t

-- `allocproc`, where no other process comes between: the slot of the new process, if there is one.
pub allocproc : Option ℕ → Table → Option ℕ × Table
unfolding take_slot give_stack
allocproc stack t = with_stack stack (take_slot t)

-- `fork` for the slot `i` that `allocproc` gave: without a page table for the copy it gives the
-- slot up. Otherwise it stores the page table `d` and what comes from the parent `me` in slot
-- `cur`, without the lock, and then makes the child ready to run, with the lock.
pub abandon : ℕ → Table → Table
abandon i t = update_slot i (λ p. record p { kstack = none; state = unused }) t

pub link_child : ℕ → ℕ → Proc → ℕ → Table → Table
link_child i cur me d t =
    update_slot i (λ p. record p { pgdir = some d; sz = me.sz; parent = some cur; name = me.name })
      t

pub start_child : ℕ → Table → Table
start_child i t = update_slot i (λ p. record p { state = runnable }) t

-- `fork` by the process in slot `cur`, with what `kalloc` and `copyuvm` return, where no other
-- process comes between. The result is the child's pid, or `none` for -1.
pub fork : ℕ → Proc → Option ℕ → Option ℕ → Table → Option ℕ × Table
unfolding allocproc abandon link_child start_child
fork cur me stack dir t =
    let (made, t1) = allocproc stack t in
    elim made [
      | none ↦ (none, t1)
      | some i ↦ elim dir [
        | none ↦ (none, abandon i t1)
        | some d ↦ (some t.next_pid, start_child i (link_child i cur me d t1))
      ]
    ]

-- `wakeup1`; `wakeup` is the same with the lock taken and released.
pub wake_one : ℕ → Proc → Proc
wake_one chan p =
    if state_eq p.state sleeping && p.chan == chan then record p { state = runnable } else p

pub wakeup : ℕ → List Proc → List Proc
wakeup chan ps = map (wake_one chan) ps

-- The address of the process in a slot, as a channel. `exit` wakes its parent on it.
abbrev pub proc_chan : ℕ → ℕ
proc_chan i = suc i

abbrev pub wakeup_parent : Option ℕ → List Proc → List Proc
wakeup_parent none ps = ps
wakeup_parent (some i) ps = wakeup (proc_chan i) ps

-- One round of the loop of `exit` that passes children to init, and whether it wakes init.
abbrev pub adopt : ℕ → ℕ → Proc → Proc
adopt cur init p = if is_parent cur p then record p { parent = some init } else p

pub has_zombie : ℕ → List Proc → Bool
has_zombie cur [] = false
has_zombie cur (p ∷ ps) = is_parent cur p && state_eq p.state zombie || has_zombie cur ps

-- The loop of `exit` that passes the children to init. A call of `wakeup1(initproc)` in the loop
-- and one after it wake the same processes: the loop changes no state or channel else.
pub pass_children : ℕ → ℕ → List Proc → List Proc
unfolding wakeup has_zombie
pass_children cur init ps =
    let adopted = map (adopt cur init) ps in
    if has_zombie cur ps then wakeup (proc_chan init) adopted else adopted

-- `exit` from its `acquire` on, by the process `me` in slot `cur`, up to `sched`.
pub exit : ℕ → Proc → Table → Outcome Table
unfolding pass_children
exit cur me t =
    let passed = pass_children cur t.init_proc (wakeup_parent me.parent t.procs) in
    if cur == t.init_proc
    then panic
    else done (record t { procs = at_slot cur (λ p. record p { state = zombie }) passed })

pub data Waited : Type 0 where
  -- the child's pid, and the table without it
  reaped : ℕ → Table → Waited
  -- -1
  no_child : Waited
  -- `sleep(curproc, &ptable.lock)`, after which the scan is made again
  asleep : Waited

-- The scan of `wait`: the first zombie child from slot `i` on, and `havekids`.
pub find_zombie : ℕ → ℕ → List Proc → Option ℕ
find_zombie cur i [] = none
find_zombie cur i (p ∷ ps) =
    let rest = find_zombie cur (suc i) ps in
    if is_parent cur p && state_eq p.state zombie then some i else rest

pub have_kids : ℕ → List Proc → Bool
have_kids cur [] = false
have_kids cur (p ∷ ps) = is_parent cur p || have_kids cur ps

abbrev pub reap : Proc → Proc
reap p = record p {
  kstack = none;
  pid = 0;
  parent = none;
  name = [];
  killed = false;
  state = unused;
}

pub wait : ℕ → Bool → Table → Waited
unfolding find_zombie have_kids
wait cur killed t = elim (find_zombie cur 0 t.procs) [
  | some i ↦ elim (get_elem? t.procs i) [
    | some p ↦ reaped p.pid (update_slot i reap t)
    | none ↦ no_child
  ]
  | none ↦ if not (have_kids cur t.procs) || killed then no_child else asleep
]

-- `sleep` up to `sched`, and `yield` up to `sched`, by the process in slot `cur`.
pub sleep : ℕ → ℕ → Table → Table
sleep cur chan t = update_slot cur (λ p. record p { chan = chan; state = sleeping }) t

pub yield : ℕ → Table → Table
yield cur t = update_slot cur (λ p. record p { state = runnable }) t

-- What `sleep` does when it runs again: the channel is cleared.
pub resume : ℕ → Table → Table
resume cur t = update_slot cur (λ p. record p { chan = 0 }) t

-- `scheduler`: one step of its scan, at slot `i`, and the switch to the process that it finds.
pub schedule : ℕ → Table → Option ℕ × Table
unfolding find_state
schedule i t = elim (find_state runnable i (drop i t.procs)) [
  | none ↦ (none, t)
  | some j ↦ (some j, update_slot j (λ p. record p { state = running }) t)
]

-- `kill`: whether a slot with the pid was found (0 or -1).
pub kill_slots : ℕ → List Proc → Bool × List Proc
kill_slots pid [] = (false, [])
kill_slots pid (p ∷ ps) =
    let rest = kill_slots pid ps in
    let hit = record p {
      killed = true;
      state = if state_eq p.state sleeping then runnable else p.state;
    } in
    if p.pid == pid then (true, hit ∷ ps) else (rest.0, p ∷ rest.1)

pub kill : ℕ → Table → Bool × Table
unfolding kill_slots
kill pid t = let r = kill_slots pid t.procs in (r.0, record t { procs = r.1 })

pub getproccount : List Proc → ℕ
getproccount [] = 0
getproccount (p ∷ ps) = (if state_eq p.state unused then 0 else 1) + getproccount ps
