-- ===== src/Proc/Pids.antt =====
-- Pids: no two processes have the same (proc.c).
use ducko_unix.Prelude.{
  ℕ, ◌+◌, ◌%◌, ◌<◌, ◌≤◌, ◌==◌, ◌≡◌, refl, ◌⊎◌, inl, inr, Bool, true, false, List, [], ◌∷◌,
  if◌then◌else◌, arith, ap, ◌∙◌, Bool-cases, Option, some, none, All, Option-cases, map, get_elem?,
  drop, subst, done,
}
use ducko_unix.Proc.{
  Proc, Table, state_eq, unused, embryo, runnable, running, zombie, find_state, at_slot,
  update_slot, take_slot, give_stack, abandon, link_child, start_child, exit, wake_one, wakeup,
  wakeup_parent, adopt, pass_children, has_zombie, proc_chan, find_zombie, wait, reaped, reap,
  sleep, yield, resume, schedule, kill, kill_slots,
}
use ducko_unix.Proc.Slots.{
  total, total-at_slot, total-map, All-at_slot, All-map, All-get, find_state-some, find_zombie-some,
  get_elem?-drop,
}
use ducko_unix.Proc.System.{
  Step, takes, stacks, abandons, links, starts, exits, waits, sleeps, yields, resumes, wakes,
  schedules, kills, Reach, here, next, Runs, takes_of, taken,
}
use ducko_unix.Proc.Exit.{exit-done, passed-running}

-- 1 for a slot in use with the pid.
abbrev pub has_pid : ℕ → Proc → ℕ
has_pid x p = if state_eq p.state unused then 0 else if p.pid == x then 1 else 0

abbrev pub IsBelow : ℕ → Proc → Type 0
IsBelow n p = (state_eq p.state unused ≡ true) ⊎ (p.pid < n)

-- Every process has a pid below `n`, and no pid is given to two.
pub record IsNumbered (n : ℕ) (ps : List Proc) : Type 0 where
  pub below : All (IsBelow n) ps
  pub once : (x : ℕ) → total (has_pid x) ps ≤ 1

total-below : (n x : ℕ) (ps : List Proc) → n ≤ x → All (IsBelow n) ps → total (has_pid x) ps ≡ 0
total-below n x [] h a = refl
total-below n x (p ∷ ps) h a = ground (arith, total-below n x ps h a.1)

All-IsBelow : (n : ℕ) (ps : List Proc) → All (IsBelow n) ps → All (IsBelow (n + 1)) ps
All-IsBelow n [] a = tt
All-IsBelow n (p ∷ ps) a = (ground (arith, a.0), All-IsBelow n ps a.1)

-- A change of one slot that keeps its pid, or leaves it unused.
abbrev Keeps : Proc → Proc → Type 0
Keeps p p' =
    (state_eq p'.state unused ≡ true) ⊎ ((p'.pid ≡ p.pid) × (state_eq p.state unused ≡ false))

at_slot-IsNumbered :
    (n i : ℕ) (f : Proc → Proc) (ps : List Proc) (p : Proc)
    → get_elem? ps i ≡ some p
    → Keeps p (f p)
    → IsNumbered n ps
    → IsNumbered n (at_slot i f ps)
at_slot-IsNumbered n i f ps p e k v = record {
  below = All-at_slot (IsBelow n) i f ps v.below (λ q at b.
      let eq : p ≡ q = ground arith in
      let fits : IsBelow n (f p) = ground (arith, All-get (IsBelow n) i ps v.below e) in
      subst (λ r. IsBelow n (f r)) eq fits);
  once = λ x. ground (arith, total-at_slot (has_pid x) i f ps e, v.once x);
}

-- The same for a change of every slot that keeps pids and states of use.
map-IsNumbered :
    (n : ℕ) (f : Proc → Proc) (ps : List Proc)
    → ((p : Proc) → ((f p).pid ≡ p.pid) × (state_eq (f p).state unused ≡ state_eq p.state unused))
    → IsNumbered n ps
    → IsNumbered n (map f ps)
map-IsNumbered n f ps h v = record {
  below = All-map (IsBelow n) (IsBelow n) f ps v.below (λ p b. ground (arith, h p, b));
  once = λ x. omega (arith, total-map (has_pid x) f ps (λ p. ground (arith, h p)), v.once x);
}

wakeup-IsNumbered : (n chan : ℕ) (ps : List Proc) → IsNumbered n ps → IsNumbered n (wakeup chan ps)
unfolding wakeup wake_one
wakeup-IsNumbered n chan ps v = map-IsNumbered n (wake_one chan) ps (λ p. ground arith) v

total-kill :
    (x pid : ℕ) (ps : List Proc) → total (has_pid x) (kill_slots pid ps).1 ≡ total (has_pid x) ps
unfolding kill_slots
total-kill x pid [] = refl
total-kill x pid (p ∷ ps) = ground (arith, total-kill x pid ps)

All-kill : (n pid : ℕ) (ps : List Proc) → All (IsBelow n) ps → All (IsBelow n) (kill_slots pid ps).1
unfolding kill_slots
All-kill n pid [] a = tt
All-kill n pid (p ∷ ps) a = ground (arith, All-kill n pid ps a.1)

-- The pid that `allocproc` gives is new.
number-IsNumbered :
    (n i : ℕ) (ps : List Proc) (p : Proc)
    → get_elem? ps i ≡ some p
    → p.state ≡ unused
    → IsNumbered n ps
    → IsNumbered (n + 1) (at_slot i (λ q. record q { state = embryo; pid = n }) ps)
number-IsNumbered n i ps p e u v = record {
  below =
      All-at_slot (IsBelow (n + 1)) i (λ q. record q { state = embryo; pid = n }) ps
        (All-IsBelow n ps v.below) (λ q at b. inr (omega arith));
  once = λ x. ground (
    arith,
    total-at_slot (has_pid x) i (λ q. record q { state = embryo; pid = n }) ps e,
    v.once x,
    total-below n n ps (omega arith) v.below,
  );
}

take_slot-IsNumbered :
    (t : Table)
    → t.next_pid + 1 < 2147483648
    → IsNumbered t.next_pid t.procs
    → let t' = (take_slot t).1 in IsNumbered t'.next_pid t'.procs
unfolding take_slot
take_slot-IsNumbered t small v = elim (Option-cases (find_state unused 0 t.procs)) [
  | inl full ↦ rw (full, take_slot) v
  | inr (i, free) ↦
      let (p, _, at, u) = find_state-some unused 0 i t.procs free in
      let at' : get_elem? t.procs i ≡ some p = ap (get_elem? t.procs) (omega arith) ∙ at in
      let whole : (t.next_pid + 1) % 4294967296 ≡ t.next_pid + 1 = omega (arith, small) in
      rw (free, whole, take_slot) (number-IsNumbered t.next_pid i t.procs p at' u v)
]

take_slot-next_pid : (t : Table) → (take_slot t).1.next_pid ≤ t.next_pid + 1
unfolding take_slot
take_slot-next_pid t = elim (Option-cases (find_state unused 0 t.procs)) [
  | inl full ↦ rw (full, take_slot) (omega arith)
  | inr (i, free) ↦ rw (free, take_slot) (omega arith)
]

give_stack-IsNumbered :
    (t : Table) (i : ℕ) (p : Proc) (stack : Option ℕ)
    → get_elem? t.procs i ≡ some p
    → p.state ≡ embryo
    → IsNumbered t.next_pid t.procs
    → let t' = (give_stack i stack t).1 in
      IsNumbered t'.next_pid t'.procs × (t'.next_pid ≡ t.next_pid)
unfolding give_stack
give_stack-IsNumbered t i p none at e v = (
  at_slot-IsNumbered t.next_pid i (λ q. record q { kstack = none; state = unused }) t.procs p at
      (inl refl) v,
  refl,
)
give_stack-IsNumbered t i p (some page) at e v = (
  at_slot-IsNumbered t.next_pid i (λ q. record q { kstack = some page }) t.procs p at
      (inr (refl, ground (arith, e))) v,
  refl,
)

abbrev Numbered : Table → Type 0
Numbered t = IsNumbered t.next_pid t.procs

-- A slot whose process is in use stays in use with its pid.
running-IsNumbered :
    {t : Table} (i : ℕ) (f : Proc → Proc) (p : Proc)
    → Runs t i p
    → (f p).pid ≡ p.pid
    → Numbered t
    → Numbered (update_slot i f t)
running-IsNumbered {t} i f p r e v =
    at_slot-IsNumbered t.next_pid i f t.procs p r.here (inr (e, ground (arith, r.state))) v

wakeup_parent-IsNumbered :
    (n : ℕ) (o : Option ℕ) (ps : List Proc) → IsNumbered n ps → IsNumbered n (wakeup_parent o ps)
wakeup_parent-IsNumbered n none ps v = v
wakeup_parent-IsNumbered n (some i) ps v = wakeup-IsNumbered n (proc_chan i) ps v

pass_children-IsNumbered :
    (n cur init : ℕ) (ps : List Proc) → IsNumbered n ps → IsNumbered n (pass_children cur init ps)
unfolding pass_children
pass_children-IsNumbered n cur init ps v =
    let w = map-IsNumbered n (adopt cur init) ps (λ p. ground arith) v in
    elim (Bool-cases (has_zombie cur ps)) [
      | inl called ↦ rw called (wakeup-IsNumbered n (proc_chan init) (map (adopt cur init) ps) w)
      | inr quiet ↦ rw quiet w
    ]

exit-IsNumbered :
    {t t' : Table} (cur : ℕ) (me : Proc)
    → Runs t cur me
    → exit cur me t ≡ done t'
    → Numbered t
    → Numbered t' × (t'.next_pid ≡ t.next_pid)
exit-IsNumbered {t} {t'} cur me r e v =
    let passed = pass_children cur t.init_proc (wakeup_parent me.parent t.procs) in
    let w =
      pass_children-IsNumbered t.next_pid cur t.init_proc (wakeup_parent me.parent t.procs)
        (wakeup_parent-IsNumbered t.next_pid me.parent t.procs v) in
    let (p, at, s, _) = passed-running cur t me.parent r.here r.state in
    rw ((exit-done cur me t e).1) (
      at_slot-IsNumbered t.next_pid cur (λ q. record q { state = zombie }) passed p at
          (inr (refl, ground (arith, s))) w,
      refl,
    )

wait-IsNumbered :
    (t : Table) {t' : Table} (cur pid : ℕ) (killed : Bool)
    → wait cur killed t ≡ reaped pid t'
    → Numbered t
    → Numbered t' × (t'.next_pid ≡ t.next_pid)
unfolding wait
wait-IsNumbered t {t'} cur pid killed e v = elim (Option-cases (find_zombie cur 0 t.procs)) [
  | inl none_dead ↦ ground arith
  | inr (i, dead) ↦
      let (p, _, at, z, par) = find_zombie-some cur 0 i t.procs dead in
      let at' : get_elem? t.procs i ≡ some p = ap (get_elem? t.procs) (omega arith) ∙ at in
      let eq : t' ≡ update_slot i reap t = ground arith in
      rw eq (at_slot-IsNumbered t.next_pid i reap t.procs p at' (inl refl) v, refl)
]

schedule-IsNumbered :
    (t : Table) (i : ℕ)
    → Numbered t
    → Numbered (schedule i t).1 × ((schedule i t).1.next_pid ≡ t.next_pid)
unfolding schedule
schedule-IsNumbered t i v = elim (Option-cases (find_state runnable i (drop i t.procs))) [
  | inl idle ↦ rw (idle, schedule) (v, refl)
  | inr (j, ready) ↦
      let (p, le, at, s) = find_state-some runnable i j (drop i t.procs) ready in
      rw (ready, schedule)
        (
          at_slot-IsNumbered t.next_pid j (λ q. record q { state = running }) t.procs p
              (get_elem?-drop i j t.procs le ∙ at) (inr (refl, ground arith)) v,
          refl,
        )
]

-- A step that takes no slot leaves `nextpid` alone.
kept_pid : {a b : ℕ} {ps : List Proc} → IsNumbered b ps × (b ≡ a) → IsNumbered b ps × (b ≤ a + 0)
kept_pid (v, e) = (v, omega (arith, e))

Step-IsNumbered :
    {t u : Table} (st : Step t u)
    → t.next_pid + takes_of st < 2147483648
    → Numbered t
    → Numbered u × (u.next_pid ≤ t.next_pid + takes_of st)
unfolding abandon link_child start_child sleep yield resume kill
Step-IsNumbered {t} takes small v = (take_slot-IsNumbered t small v, take_slot-next_pid t)
Step-IsNumbered {t} (stacks i p stack n) small v =
    kept_pid (give_stack-IsNumbered t i p stack n.here n.state v)
Step-IsNumbered {t} (abandons i p n) small v = kept_pid (
  at_slot-IsNumbered t.next_pid i (λ q. record q { kstack = none; state = unused }) t.procs p n.here
      (inl refl) v,
  refl,
)
Step-IsNumbered {t} (links i cur d p me n r) small v = kept_pid (
  at_slot-IsNumbered t.next_pid i _ t.procs p n.here (inr (refl, ground (arith, n.state))) v,
  refl,
)
Step-IsNumbered {t} (starts i cur p me n r) small v = kept_pid (
  at_slot-IsNumbered t.next_pid i (λ q. record q { state = runnable }) t.procs p n.here
      (inr (refl, ground (arith, n.state))) v,
  refl,
)
Step-IsNumbered (exits cur me t' r e) small v = kept_pid (exit-IsNumbered cur me r e v)
Step-IsNumbered {t} (waits cur pid me t' r e) small v =
    kept_pid (wait-IsNumbered t cur pid me.killed e v)
Step-IsNumbered (sleeps cur chan me r) small v =
    kept_pid (running-IsNumbered cur _ me r refl v, refl)
Step-IsNumbered (yields cur me r) small v = kept_pid (running-IsNumbered cur _ me r refl v, refl)
Step-IsNumbered (resumes cur me r) small v = kept_pid (running-IsNumbered cur _ me r refl v, refl)
Step-IsNumbered {t} (wakes chan) small v =
    kept_pid (wakeup-IsNumbered t.next_pid chan t.procs v, refl)
Step-IsNumbered {t} (schedules i) small v = kept_pid (schedule-IsNumbered t i v)
Step-IsNumbered {t} (kills pid) small v = kept_pid (
  record {
    below = All-kill t.next_pid pid t.procs v.below;
    once = λ x. omega (arith, total-kill x pid t.procs, v.once x);
  },
  refl,
)

Reach-Numbered :
    {s t : Table} (r : Reach s t)
    → Numbered s
    → s.next_pid + taken r < 2147483648
    → Numbered t × (t.next_pid ≤ s.next_pid + taken r)
Reach-Numbered here v small = (v, omega arith)
Reach-Numbered {s} (next r st) v small =
    let (w, le) = Reach-Numbered r v (omega (arith, small)) in
    let (w', le') = Step-IsNumbered st (omega (arith, small, le)) w in (w', omega (arith, le, le'))

-- However the calls on the process table interleave, up to where `nextpid` would pass the greatest
-- `int`: every process has a pid below `nextpid`, and no two processes have the same pid.
pub Reach-IsNumbered :
    {s t : Table} (r : Reach s t)
    → IsNumbered s.next_pid s.procs
    → s.next_pid + taken r < 2147483648
    → IsNumbered t.next_pid t.procs
Reach-IsNumbered r v small = (Reach-Numbered r v small).0
