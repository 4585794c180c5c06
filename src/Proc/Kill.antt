-- ===== src/Proc/Kill.antt =====
-- `kill` and `wakeup` (proc.c).
use ducko_unix.Prelude.{
  ℕ, suc, ◌+◌, ◌%◌, ◌-◌, ◌<◌, ◌≤◌, ◌==◌, ◌≡◌, ◌≢◌, refl, ◌⊎◌, inl, inr, true, false, List, [], ◌∷◌,
  if◌then◌else◌, arith, ap, sym, ◌∙◌, Bool-cases, some, All, get_elem?,
}
use ducko_unix.Proc.{
  Proc, Table, state_eq, unused, embryo, sleeping, runnable, at_slot, find_state, kill, kill_slots,
  take_slot, give_stack, with_stack, allocproc,
}
use ducko_unix.Proc.Slots.{find_state-some, get_elem?-at_slot}

abbrev pub struck : Proc → Proc
struck p = record p {
  killed = true;
  state = if state_eq p.state sleeping then runnable else p.state;
}

kill_slots_cases :
    (pid : ℕ) (ps : List Proc)
    → ((i : ℕ) × (p : Proc) × (get_elem? ps i ≡ some p)
        × (p.pid ≡ pid)
        × (kill_slots pid ps ≡ (true, at_slot i struck ps)))
      ⊎ (All (λ p. p.pid ≢ pid) ps × (kill_slots pid ps ≡ (false, ps)))
unfolding kill_slots
kill_slots_cases pid [] = inr (tt, refl)
kill_slots_cases pid (q ∷ ps) = elim (Bool-cases (q.pid == pid)) [
  | inl hit ↦ inl (0, q, refl, ground arith, ground arith)
  | inr miss ↦ elim (kill_slots_cases pid ps) [
    | inl (i, p, at, mine, eq) ↦ inl (suc i, p, at, mine, ground (arith, eq))
    | inr (others, eq) ↦ inr ((λ e. ground arith, others), ground (arith, eq))
  ]
]

-- `kill` strikes one slot with the pid: it marks it killed and makes it ready if it sleeps, and
-- leaves all other slots alone; with no such slot it fails and changes nothing.
pub kill_lem :
    (pid : ℕ) (t : Table)
    → ((i : ℕ) × (p : Proc) × (get_elem? t.procs i ≡ some p)
        × (p.pid ≡ pid)
        × (kill pid t ≡ (true, record t { procs = at_slot i struck t.procs })))
      ⊎ (All (λ p. p.pid ≢ pid) t.procs × (kill pid t ≡ (false, t)))
unfolding kill
kill_lem pid t = elim (kill_slots_cases pid t.procs) [
  | inl (i, p, at, mine, eq) ↦ inl (i, p, at, mine, ground (arith, eq))
  | inr (others, eq) ↦ inr (others, ground (arith, eq))
]

-- A slot has the pid 0 exactly if it is free.
abbrev pub IsZeroed : Proc → Type 0
IsZeroed p =
    ((state_eq p.state unused ≡ true) × (p.pid ≡ 0))
    ⊎ ((state_eq p.state unused ≡ false) × (0 < p.pid))

at_slot-suc :
    (f : Proc → Proc) (q : Proc) (ps : List Proc) (n m : ℕ)
    → n ≡ suc m
    → at_slot n f (q ∷ ps) ≡ q ∷ at_slot m f ps
at_slot-suc f q ps n m e = rw e

at_slot-zero :
    (f : Proc → Proc) (q : Proc) (ps : List Proc) (n : ℕ) → n ≡ 0 → at_slot n f (q ∷ ps) ≡ f q ∷ ps
at_slot-zero f q ps n e = rw e

kill_zero-hits :
    (i j : ℕ) (ps : List Proc)
    → All IsZeroed ps
    → find_state unused i ps ≡ some j
    → (i ≤ j)
      × (kill_slots 0 ps ≡ (true, at_slot (j - i) struck ps))
      × (find_state unused i (at_slot (j - i) struck ps) ≡ some j)
unfolding find_state kill_slots
kill_zero-hits i j [] a e = absurd (cc)
kill_zero-hits i j (q ∷ ps) a e = elim (Bool-cases (state_eq q.state unused)) [
  | inl free ↦
      let same : i ≡ j = ground arith in
      let at = at_slot-zero struck q ps (j - i) (omega arith) in
      (omega arith, ground (arith, a.0, at), rw at (ground (arith, a.0)))
  | inr in_use ↦
      let (le, hit, found) = kill_zero-hits (suc i) j ps a.1 (ground arith) in
      let at = at_slot-suc struck q ps (j - i) (j - suc i) (omega (arith, le)) in
      (omega (arith, le), ground (arith, a.0, hit, at), rw at (ground (arith, found)))
]

take_found :
    (t : Table) (i : ℕ)
    → find_state unused 0 t.procs ≡ some i
    → take_slot t ≡ (
      some i,
      record t {
        procs = at_slot i (λ p. record p { state = embryo; pid = t.next_pid }) t.procs;
        next_pid = (t.next_pid + 1) % 4294967296;
      },
    )
unfolding take_slot
take_found t i free = rw (free, take_slot) refl

allocproc-at :
    (t : Table) (i page : ℕ) (p : Proc)
    → find_state unused 0 t.procs ≡ some i
    → get_elem? t.procs i ≡ some p
    → get_elem? (allocproc (some page) t).1.procs i
      ≡ some (record p { state = embryo; pid = t.next_pid; kstack = some page })
unfolding allocproc give_stack
allocproc-at t i page p free at =
    let f = λ (q : Proc). record q { state = embryo; pid = t.next_pid } in
    let g = λ (q : Proc). record q { kstack = some page } in
    let made : get_elem? (at_slot i f t.procs) i ≡ some (f p) =
      get_elem?-at_slot i i f t.procs at ∙ ground arith in
    ap (λ r. get_elem? (with_stack (some page) r).1.procs i) (take_found t i free)
    ∙ get_elem?-at_slot i i g (at_slot i f t.procs) made
    ∙ ground arith

-- Where exactly the free slots have the pid 0, as after boot: `kill(0)` succeeds and marks the
-- first free slot killed, and `allocproc` does not clear the mark, so that the next process to be
-- made is killed from the start.
pub kill_zero-allocproc :
    (t : Table) (i page : ℕ)
    → find_state unused 0 t.procs ≡ some i
    → All IsZeroed t.procs
    → let (found, t1) = kill 0 t in
      (found ≡ true)
      × ((q : Proc) × (get_elem? (allocproc (some page) t1).1.procs i ≡ some q)
          × (q.state ≡ embryo)
          × (q.killed ≡ true))
unfolding kill
kill_zero-allocproc t i page free zeros =
    let (_, hit, found) = kill_zero-hits 0 i t.procs zeros free in
    let (p, _, at, u) = find_state-some unused 0 i t.procs free in
    let j = i - 0 in
    let here : j ≡ i = omega arith in
    let e : (kill_slots 0 t.procs).1 ≡ at_slot j struck t.procs = ap (λ r. r.1) hit in
    let struck_at : get_elem? (at_slot j struck t.procs) i ≡ some (struck p) =
      get_elem?-at_slot j i struck t.procs (ap (get_elem? t.procs) (sym here) ∙ at)
      ∙ ground arith in
    (
      ground (arith, hit),
      (
        record (struck p) { state = embryo; pid = t.next_pid; kstack = some page },
        allocproc-at (kill 0 t).1 i page (struck p) (ap (find_state unused 0) e ∙ found)
            (ap (λ ps. get_elem? ps i) e ∙ struck_at),
        refl,
        refl,
      ),
    )
