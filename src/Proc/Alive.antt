-- ===== src/Proc/Alive.antt =====
-- Parents stay alive under any interleaving of the calls (proc.c).
use ducko_unix.Prelude.{
  ℕ, ◌==◌, ◌≡◌, refl, ◌⊎◌, inl, inr, arith, ◌∙◌, Bool-cases, some, get_elem?, done, panic,
}
use ducko_unix.Proc.{Proc, Table, zombie, at_slot, exit, wakeup_parent, pass_children}
use ducko_unix.Proc.Slots.{get_elem?-at_slot, get_elem?-at_slot_inv}
use ducko_unix.Proc.System.{here, Runs}
use ducko_unix.Proc.Exit.{passed-running}
use ducko_unix.Proc.Family.{IsFamily}
use ducko_unix.Proc.Adopt.{NoChild, wakeup_parent-IsFamily, pass_children-IsFamily}

abbrev Kin : Table → Type 0
Kin t = IsFamily t.init_proc t.procs

-- `exit` of a process other than init leaves it a zombie and leaves no child to it; of init it
-- panics.
pub exit_lem :
    {t : Table} (cur : ℕ) (me : Proc)
    → Runs t cur me
    → IsFamily t.init_proc t.procs
    → ((cur ≡ t.init_proc) × (exit cur me t ≡ panic))
      ⊎ ((t' : Table) × (exit cur me t ≡ done t')
          × NoChild cur t'.procs
          × ((q : Proc) × (get_elem? t'.procs cur ≡ some q) × (q.state ≡ zombie)))
unfolding exit
exit_lem {t} cur me r v = elim (Bool-cases (cur == t.init_proc)) [
  | inl is_init ↦ inl (ground arith, ground arith)
  | inr other ↦
      let ps = wakeup_parent me.parent t.procs in
      let dead = λ (q : Proc). record q { state = zombie } in
      let passed = pass_children cur t.init_proc ps in
      let (w, n) =
        pass_children-IsFamily cur t.init_proc ps (λ e. ground arith)
          (wakeup_parent-IsFamily t.init_proc me.parent t.procs v) in
      let (p, at, s, _) = passed-running cur t me.parent r.here r.state in
      inr (
        record t { procs = at_slot cur dead passed },
        ground arith,
        λ i q' at' e.
            let (q, was, eq) = get_elem?-at_slot_inv cur i dead passed at' in
            n i q was (ground (arith, eq)),
        (dead p, get_elem?-at_slot cur cur dead passed at ∙ ground arith, refl),
      )
]
