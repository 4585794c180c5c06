-- ===== src/Proc/Adopt.antt =====
-- What `exit` does to the family: the children pass to init (proc.c).
use ducko_unix.Prelude.{
  ℕ, ◌==◌, ◌≡◌, ◌≢◌, inl, inr, true, List, arith, ap, sym, ◌∙◌, Bool-cases, Option, some, none, map,
  get_elem?,
}
use ducko_unix.Proc.{
  Proc, zombie, at_slot, wake_one, wakeup, wakeup_parent, adopt, has_zombie, proc_chan,
  pass_children,
}
use ducko_unix.Proc.Slots.{
  get_elem?-at_slot, get_elem?-at_slot_inv, get_elem?-map, get_elem?-map_inv,
}
use ducko_unix.Proc.Family.{is_born, AliveAt, IsFamily, Related, Related-IsFamily, map-Related}

pub wakeup-Related : (chan : ℕ) (ps : List Proc) → Related ps (wakeup chan ps)
unfolding wakeup wake_one
wakeup-Related chan ps = map-Related (wake_one chan) ps (λ p. ground arith)

pub wakeup_parent-IsFamily :
    (init : ℕ) (o : Option ℕ) (ps : List Proc)
    → IsFamily init ps
    → IsFamily init (wakeup_parent o ps)
wakeup_parent-IsFamily init none ps v = v
wakeup_parent-IsFamily init (some i) ps v =
    Related-IsFamily init (wakeup-Related (proc_chan i) ps) v

-- No process has `cur` for its parent.
abbrev pub NoChild : ℕ → List Proc → Type 0
NoChild cur ps = (i : ℕ) (p : Proc) → get_elem? ps i ≡ some p → p.parent ≢ some cur

adopt-IsFamily :
    (cur init : ℕ) (ps : List Proc)
    → cur ≢ init
    → IsFamily init ps
    → IsFamily init (map (adopt cur init) ps) × NoChild cur (map (adopt cur init) ps)
adopt-IsFamily cur init ps ne v = (
  record {
    root = still init v.root;
    each = λ i p' at'.
        let (p, at, eq) = get_elem?-map_inv i (adopt cur init) ps at' in
        elim (v.each i p at) [
          | inl orphan ↦ inl (ground (arith, eq))
          | inr (j, par, born, live) ↦ elim (Bool-cases (j == cur)) [
            | inl mine ↦ inr (init, ground (arith, eq), ground (arith, eq), still init v.root)
            | inr other ↦ inr (j, ground (arith, eq), ground (arith, eq), still j live)
          ]
        ];
  },
  λ i p' at' e. let (p, at, eq) = get_elem?-map_inv i (adopt cur init) ps at' in ground (arith, eq),
)
  where
    still : (j : ℕ) → AliveAt ps j → AliveAt (map (adopt cur init) ps) j
    still j (q, at, live) = (adopt cur init q, get_elem?-map j (adopt cur init) ps at, ground arith)

NoChild-wakeup : (cur chan : ℕ) (ps : List Proc) → NoChild cur ps → NoChild cur (wakeup chan ps)
NoChild-wakeup cur chan ps n i p at e =
    let (q, at', same) = (wakeup-Related chan ps).from i p at in n i q at' (ground (arith, same))

pub pass_children-IsFamily :
    (cur init : ℕ) (ps : List Proc)
    → cur ≢ init
    → IsFamily init ps
    → IsFamily init (pass_children cur init ps) × NoChild cur (pass_children cur init ps)
unfolding pass_children
pass_children-IsFamily cur init ps ne v =
    let adopted = map (adopt cur init) ps in
    let (w, n) = adopt-IsFamily cur init ps ne v in
    elim (Bool-cases (has_zombie cur ps)) [
      | inl called ↦ rw called (
        Related-IsFamily init (wakeup-Related (proc_chan init) adopted) w,
        NoChild-wakeup cur (proc_chan init) adopted n,
      )
      | inr quiet ↦ rw quiet (w, n)
    ]

-- A process without children may die.
pub die-IsFamily :
    (init cur : ℕ) (ps : List Proc) (p : Proc)
    → get_elem? ps cur ≡ some p
    → is_born p ≡ true
    → cur ≢ init
    → NoChild cur ps
    → IsFamily init ps
    → IsFamily init (at_slot cur (λ q. record q { state = zombie }) ps)
die-IsFamily init cur ps p e b ne n v = record {
  root = still init (λ h. ne (sym h)) v.root;
  each = λ i q' at'.
      let (q, at, eq) = get_elem?-at_slot_inv cur i dead ps at' in
      elim (v.each i q at) [
        | inl orphan ↦ inl (ground (arith, eq))
        | inr (j, par, born, live) ↦ inr (
          j,
          ground (arith, eq),
          ground (arith, eq),
          still j (λ h. n i q at (par ∙ ap some h)) live,
        )
      ];
}
  where
    dead : Proc → Proc
    dead q = record q { state = zombie }

    still : (j : ℕ) → j ≢ cur → AliveAt ps j → AliveAt (at_slot cur dead ps) j
    still j h (q, at, live) = (q, get_elem?-at_slot cur j dead ps at ∙ ground arith, live)
