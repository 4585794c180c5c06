-- ===== src/Proc/Exit.antt =====
-- The stages of `exit` (proc.c).
use ducko_unix.Prelude.{
  ℕ, ◌≡◌, ◌≢◌, refl, inl, inr, List, arith, ap, ◌∙◌, Bool-cases, Option, some, none, map, get_elem?,
  done,
}
use ducko_unix.Proc.{
  Proc, Table, running, zombie, at_slot, exit, wake_one, wakeup, wakeup_parent, adopt, has_zombie,
  proc_chan, pass_children,
}
use ducko_unix.Proc.Slots.{get_elem?-map}

pub exit-done :
    (cur : ℕ) (me : Proc) (t : Table) {t' : Table}
    → exit cur me t ≡ done t'
    → (cur ≢ t.init_proc)
      × (t' ≡ record t {
        procs =
            at_slot cur
              (λ p. record p { state = zombie })
              (pass_children cur t.init_proc (wakeup_parent me.parent t.procs));
      })
unfolding exit
exit-done cur me t e = ground arith

pub get_elem?-wakeup :
    (chan i : ℕ) (ps : List Proc) {p : Proc}
    → get_elem? ps i ≡ some p
    → get_elem? (wakeup chan ps) i ≡ some (wake_one chan p)
unfolding wakeup
get_elem?-wakeup chan i ps e = get_elem?-map i (wake_one chan) ps e

-- A wakeup leaves a process that runs alone.
wake_one-running : (chan : ℕ) (p : Proc) → p.state ≡ running → wake_one chan p ≡ p
unfolding wake_one
wake_one-running chan p e = ground arith

get_elem?-wakeup_parent :
    (o : Option ℕ) (i : ℕ) (ps : List Proc) {p : Proc}
    → get_elem? ps i ≡ some p
    → p.state ≡ running
    → get_elem? (wakeup_parent o ps) i ≡ some p
get_elem?-wakeup_parent none i ps e s = e
get_elem?-wakeup_parent (some j) i ps {p} e s =
    get_elem?-wakeup (proc_chan j) i ps e ∙ ap some (wake_one-running (proc_chan j) p s)

-- The process that exits is still in its slot, and runs, when the others are done with.
pub passed-running :
    (cur : ℕ) (t : Table) (o : Option ℕ) {p : Proc}
    → get_elem? t.procs cur ≡ some p
    → p.state ≡ running
    → (q : Proc) × (get_elem? (pass_children cur t.init_proc (wakeup_parent o t.procs)) cur
        ≡ some q)
      × (q.state ≡ running)
      × (q ≡ adopt cur t.init_proc p)
unfolding pass_children
passed-running cur t o {p} e s =
    let q = adopt cur t.init_proc p in
    let ps = wakeup_parent o t.procs in
    let running_still : q.state ≡ running = ground arith in
    let adopted =
      get_elem?-map cur (adopt cur t.init_proc) ps (get_elem?-wakeup_parent o cur t.procs e s) in
    (
      q,
      elim (Bool-cases (has_zombie cur ps)) [
        | inl called ↦ rw called (
            get_elem?-wakeup (proc_chan t.init_proc) cur (map (adopt cur t.init_proc) ps) adopted
            ∙ ap some (wake_one-running (proc_chan t.init_proc) q running_still))
        | inr quiet ↦ rw quiet adopted
      ],
      running_still,
      refl,
    )
