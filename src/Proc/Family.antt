-- ===== src/Proc/Family.antt =====
-- Parents: every process with a parent has a live one (proc.c).
use ducko_unix.Prelude.{
  ℕ, zero, suc, ltb, ◌==◌, ◌≡◌, refl, ◌⊎◌, inl, inr, Bool, true, false, ◌&&◌, List, [], ◌∷◌,
  if◌then◌else◌, arith, ap, ◌∙◌, Bool-cases, Option, some, none, Option-cases, map, get_elem?,
  subst,
}
use ducko_unix.Proc.{
  Proc, Table, rank, state_eq, unused, embryo, sleeping, runnable, find_state, at_slot, update_slot,
  take_slot, give_stack, find_zombie, wait, reaped, reap, kill_slots,
}
use ducko_unix.Proc.Slots.{
  find_state-some, find_zombie-some, get_elem?-at_slot, get_elem?-at_slot_inv, get_elem?-map,
  get_elem?-map_inv,
}

-- Asleep, ready or running; and in use.
abbrev pub alive : Proc → Bool
alive p = ltb 1 (rank p.state) && ltb (rank p.state) 5

abbrev pub is_born : Proc → Bool
is_born p = ltb 0 (rank p.state)

abbrev pub AliveAt : List Proc → ℕ → Type 0
AliveAt ps j = (q : Proc) × (get_elem? ps j ≡ some q) × (alive q ≡ true)

abbrev pub HasParent : List Proc → Proc → Type 0
HasParent ps p =
    (p.parent ≡ none) ⊎ ((j : ℕ) × (p.parent ≡ some j) × (is_born p ≡ true) × AliveAt ps j)

-- A slot that is free has no parent, and the parent of a process, or of one that is being set up,
-- if any, is a process that is neither a zombie nor gone; init is there.
pub record IsFamily (init : ℕ) (ps : List Proc) : Type 0 where
  pub root : AliveAt ps init
  pub each : (i : ℕ) (p : Proc) → get_elem? ps i ≡ some p → HasParent ps p

-- A change that does not touch what the family is about.
abbrev pub Same : Proc → Proc → Type 0
Same p p' = (p'.parent ≡ p.parent) × (is_born p' ≡ is_born p) × (alive p' ≡ alive p)

pub record Related (ps ps' : List Proc) : Type 0 where
  pub onto :
      (j : ℕ) (p : Proc)
      → get_elem? ps j ≡ some p
      → (p' : Proc) × (get_elem? ps' j ≡ some p') × Same p p'
  pub from :
      (j : ℕ) (p' : Proc)
      → get_elem? ps' j ≡ some p'
      → (p : Proc) × (get_elem? ps j ≡ some p) × Same p p'

AliveAt-Related : {ps ps' : List Proc} (j : ℕ) → Related ps ps' → AliveAt ps j → AliveAt ps' j
AliveAt-Related j r (q, at, live) =
    let (q', at', same) = r.onto j q at in (q', at', ground (arith, same))

pub Related-IsFamily :
    {ps ps' : List Proc} (init : ℕ) → Related ps ps' → IsFamily init ps → IsFamily init ps'
Related-IsFamily {ps} {ps'} init r v = record {
  root = AliveAt-Related init r v.root;
  each = λ i p' at'.
      let (p, at, same) = r.from i p' at' in
      elim (v.each i p at) [
        | inl orphan ↦ inl (ground (arith, same))
        | inr (j, par, born, live) ↦
            inr (j, ground (arith, same), ground (arith, same), AliveAt-Related j r live)
      ];
}

pub map-Related :
    (f : Proc → Proc) (ps : List Proc) → ((p : Proc) → Same p (f p)) → Related ps (map f ps)
map-Related f ps h = record {
  onto = λ j p at. (f p, get_elem?-map j f ps at, h p);
  from = λ j p' at'.
      let (p, at, eq) = get_elem?-map_inv j f ps at' in (p, at, ground (arith, h p, eq));
}

pub at_slot-Related :
    (i : ℕ) (f : Proc → Proc) (ps : List Proc) (p : Proc)
    → get_elem? ps i ≡ some p
    → Same p (f p)
    → Related ps (at_slot i f ps)
at_slot-Related i f ps p e h = record {
  onto = λ j q at. (
    if i == j then f q else q,
    get_elem?-at_slot i j f ps at,
    elim (Bool-cases (i == j)) [
      | inl hit ↦
          rw hit (subst (λ r. Same r (f r)) (ground (arith, ap (get_elem? ps) (same hit))) h)
      | inr miss ↦ rw miss (refl, refl, refl)
    ],
  );
  from = λ j q' at'.
      let (q, at, eq) = get_elem?-at_slot_inv i j f ps at' in
      (
        q,
        at,
        rw eq (elim (Bool-cases (i == j)) [
          | inl hit ↦
              rw hit (subst (λ r. Same r (f r)) (ground (arith, ap (get_elem? ps) (same hit))) h)
          | inr miss ↦ rw miss (refl, refl, refl)
        ]),
      );
}
  where
    same : {j : ℕ} → (i == j) ≡ true → i ≡ j
    same h = ground arith

-- A change of one slot that leaves a live process alive and has a parent to show for itself.
pub slot-IsFamily :
    (init i : ℕ) (f : Proc → Proc) (ps : List Proc) (p : Proc)
    → get_elem? ps i ≡ some p
    → (alive p ≡ false) ⊎ (alive (f p) ≡ true)
    → HasParent ps (f p)
    → IsFamily init ps
    → IsFamily init (at_slot i f ps)
slot-IsFamily init i f ps p e h par v = record {
  root = still init v.root;
  each = λ j q' at'.
      let (q, at, eq) = get_elem?-at_slot_inv i j f ps at' in
      let old : HasParent ps q' = elim (Bool-cases (i == j)) [
        | inl hit ↦
            let new : q' ≡ f p = ground (arith, eq, ap (get_elem? ps) (same j hit)) in rw new par
        | inr miss ↦ let new : q' ≡ q = ground (arith, eq) in rw new (v.each j q at)
      ] in
      elim old [
        | inl orphan ↦ inl orphan
        | inr (k, has, born, live) ↦ inr (k, has, born, still k live)
      ];
}
  where
    same : (j : ℕ) → (i == j) ≡ true → i ≡ j
    same j h = ground arith

    still : (j : ℕ) → AliveAt ps j → AliveAt (at_slot i f ps) j
    still j (q, at, live) = (
      if i == j then f q else q,
      get_elem?-at_slot i j f ps at,
      elim (Bool-cases (i == j)) [
        | inl hit ↦ ground (arith, ap (get_elem? ps) (same j hit))
        | inr miss ↦ ground arith
      ],
    )

-- A slot that was free gets no parent from what it held.
unborn-orphan : (ps : List Proc) (p : Proc) → HasParent ps p → is_born p ≡ false → p.parent ≡ none
unborn-orphan ps p h b = ground (arith, h)

pub take_slot-IsFamily :
    (t : Table)
    → IsFamily t.init_proc t.procs
    → let t' = (take_slot t).1 in IsFamily t'.init_proc t'.procs
unfolding take_slot
take_slot-IsFamily t v = elim (Option-cases (find_state unused 0 t.procs)) [
  | inl full ↦ rw (full, take_slot) v
  | inr (i, free) ↦
      let (p, _, at, u) = find_state-some unused 0 i t.procs free in
      let f = λ (q : Proc). record q { state = embryo; pid = t.next_pid } in
      let at' : get_elem? t.procs i ≡ some p = ap (get_elem? t.procs) (omega arith) ∙ at in
      let orphan : p.parent ≡ none = unborn-orphan t.procs p (v.each i p at') (ground (arith, u)) in
      rw (free, take_slot)
        (slot-IsFamily t.init_proc i f t.procs p at' (inl (ground (arith, u))) (inl orphan) v)
]

pub give_stack-IsFamily :
    (t : Table) (i : ℕ) (p : Proc) (stack : Option ℕ)
    → get_elem? t.procs i ≡ some p
    → p.state ≡ embryo
    → p.parent ≡ none
    → IsFamily t.init_proc t.procs
    → let t' = (give_stack i stack t).1 in IsFamily t'.init_proc t'.procs
unfolding give_stack
give_stack-IsFamily t i p none at e orphan v =
    slot-IsFamily t.init_proc i (λ q. record q { kstack = none; state = unused }) t.procs p at
      (inl (ground (arith, e))) (inl orphan) v
give_stack-IsFamily t i p (some page) at e orphan v =
    slot-IsFamily t.init_proc i (λ q. record q { kstack = some page }) t.procs p at
      (inl (ground (arith, e))) (inl orphan) v

kill-onto :
    (pid : ℕ) (ps : List Proc) (j : ℕ) (p : Proc)
    → get_elem? ps j ≡ some p
    → (p' : Proc) × (get_elem? (kill_slots pid ps).1 j ≡ some p') × Same p p'
unfolding kill_slots
kill-onto pid [] j p e = absurd (cc)
kill-onto pid (q ∷ ps) zero p e = elim (Bool-cases (q.pid == pid)) [
  | inl hit ↦
      let p' = record q {
        killed = true;
        state = if state_eq q.state sleeping then runnable else q.state;
      } in
      (p', ground arith, ground arith)
  | inr miss ↦ (q, ground arith, ground arith)
]
kill-onto pid (q ∷ ps) (suc j) p e = elim (Bool-cases (q.pid == pid)) [
  | inl hit ↦ (p, ground arith, (refl, refl, refl))
  | inr miss ↦ let (p', at, s) = kill-onto pid ps j p e in (p', ground (arith, at), s)
]

kill-from :
    (pid : ℕ) (ps : List Proc) (j : ℕ) (p' : Proc)
    → get_elem? (kill_slots pid ps).1 j ≡ some p'
    → (p : Proc) × (get_elem? ps j ≡ some p) × Same p p'
unfolding kill_slots
kill-from pid [] j p' e = absurd (cc)
kill-from pid (q ∷ ps) zero p' e = (q, refl, ground arith)
kill-from pid (q ∷ ps) (suc j) p' e = elim (Bool-cases (q.pid == pid)) [
  | inl hit ↦ (p', ground arith, (refl, refl, refl))
  | inr miss ↦ let (p, at, s) = kill-from pid ps j p' (ground arith) in (p, at, s)
]

pub kill-Related : (pid : ℕ) (ps : List Proc) → Related ps (kill_slots pid ps).1
kill-Related pid ps = record { onto = kill-onto pid ps; from = kill-from pid ps }

pub wait-IsFamily :
    (t : Table) {t' : Table} (cur pid : ℕ) (killed : Bool)
    → wait cur killed t ≡ reaped pid t'
    → IsFamily t.init_proc t.procs
    → IsFamily t'.init_proc t'.procs
unfolding wait
wait-IsFamily t {t'} cur pid killed e v = elim (Option-cases (find_zombie cur 0 t.procs)) [
  | inl none_dead ↦ ground arith
  | inr (i, dead) ↦
      let (p, _, at, z, par) = find_zombie-some cur 0 i t.procs dead in
      let at' : get_elem? t.procs i ≡ some p = ap (get_elem? t.procs) (omega arith) ∙ at in
      let eq : t' ≡ update_slot i reap t = ground arith in
      rw eq (slot-IsFamily t.init_proc i reap t.procs p at' (inl (ground (arith, z))) (inl refl) v)
]
