-- ===== src/Proc/Wait.antt =====
-- `wait`: which child it takes, and when it fails or sleeps (proc.c).
use ducko_unix.Prelude.{
  ℕ, suc, ◌≡◌, refl, ◌⊎◌, inl, inr, Bool, true, false, ◌&&◌, List, [], ◌∷◌, arith, ap, ◌∙◌,
  Bool-cases, some, none, All, Option-cases, get_elem?,
}
use ducko_unix.Proc.{
  Proc, Table, state_eq, zombie, at_slot, is_parent, find_zombie, have_kids, wait, reaped, no_child,
  asleep, unused,
}
use ducko_unix.Proc.Slots.{find_zombie-some, find_zombie-none}

abbrev pub IsChildOf : ℕ → Proc → Type 0
IsChildOf cur p = p.parent ≡ some cur

have_kids-false :
    (cur : ℕ) (ps : List Proc) → have_kids cur ps ≡ false → All (λ p. is_parent cur p ≡ false) ps
unfolding have_kids
have_kids-false cur [] e = tt
have_kids-false cur (p ∷ ps) e = ground (arith, have_kids-false cur ps)

have_kids-true :
    (cur : ℕ) (ps : List Proc)
    → have_kids cur ps ≡ true
    → (i : ℕ) × (p : Proc) × (get_elem? ps i ≡ some p) × IsChildOf cur p
unfolding have_kids
have_kids-true cur [] e = absurd (cc)
have_kids-true cur (p ∷ ps) e = elim (Bool-cases (is_parent cur p)) [
  | inl hit ↦ (0, p, refl, ground arith)
  | inr miss ↦ let (i, q, at, h) = have_kids-true cur ps (ground arith) in (suc i, q, at, h)
]

-- A slot that is free again; what is not named here stays.
abbrev pub cleared : Proc → Proc
cleared p = record {
  sz = p.sz;
  pgdir = p.pgdir;
  kstack = none;
  state = unused;
  pid = 0;
  parent = none;
  chan = p.chan;
  killed = false;
  name = [];
}

-- What a call of `wait` by the process in slot `cur` comes to. A child that is a zombie is taken:
-- its pid is the result, and its slot is free, with no parent, pid, name, stack or kill mark. With
-- no zombie child, the call fails if it has no child or is killed, and sleeps otherwise, when there
-- is a child that may exit.
pub wait_lem :
    (cur : ℕ) (killed : Bool) (t : Table)
    → ((i : ℕ) × (p : Proc) × (get_elem? t.procs i ≡ some p)
        × (p.state ≡ zombie)
        × IsChildOf cur p
        × (wait cur killed t ≡ reaped p.pid (record t { procs = at_slot i cleared t.procs })))
      ⊎ (All (λ p. (is_parent cur p && state_eq p.state zombie) ≡ false) t.procs
          × (((wait cur killed t ≡ no_child)
                × ((killed ≡ true) ⊎ All (λ p. is_parent cur p ≡ false) t.procs))
              ⊎ ((wait cur killed t ≡ asleep)
                  × (killed ≡ false)
                  × ((i : ℕ) × (p : Proc) × (get_elem? t.procs i ≡ some p) × IsChildOf cur p))))
unfolding wait
wait_lem cur killed t = elim (Option-cases (find_zombie cur 0 t.procs)) [
  | inr (i, dead) ↦
      let (p, _, at, z, par) = find_zombie-some cur 0 i t.procs dead in
      let at' : get_elem? t.procs i ≡ some p = ap (get_elem? t.procs) (omega arith) ∙ at in
      inl (i, p, at', z, par, ground (arith, dead, at'))
  | inl none_dead ↦ inr (
    find_zombie-none cur 0 t.procs none_dead,
    elim (Bool-cases (have_kids cur t.procs)) [
      | inr alone ↦ inl (ground arith, inr (have_kids-false cur t.procs alone))
      | inl kids ↦ elim (Bool-cases killed) [
        | inl k ↦ inl (ground arith, inl k)
        | inr k ↦ inr (ground arith, k, have_kids-true cur t.procs kids)
      ]
    ],
  )
]
