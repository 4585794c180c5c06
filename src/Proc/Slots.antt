-- ===== src/Proc/Slots.antt =====
-- Searches and changes of slots of the process table (proc.c).
use ducko_unix.Prelude.{
  ℕ, zero, suc, ◌+◌, ◌-◌, ◌≤◌, ◌==◌, ◌≡◌, refl, inl, inr, true, false, ◌&&◌, List, [], ◌∷◌,
  if◌then◌else◌, arith, ap, ◌∙◌, Bool-cases, some, none, All, map, get_elem?, drop, subst,
}
use ducko_unix.Proc.{Proc, State, state_eq, find_state, at_slot, is_parent, find_zombie, zombie}

-- The sum of a measure over all slots.
abbrev pub total : (Proc → ℕ) → List Proc → ℕ
total g [] = 0
total g (p ∷ ps) = g p + total g ps

pub total-at_slot :
    (g : Proc → ℕ) (i : ℕ) (f : Proc → Proc) (ps : List Proc) {p : Proc}
    → get_elem? ps i ≡ some p
    → total g (at_slot i f ps) + g p ≡ total g ps + g (f p)
total-at_slot g i f [] e = cc
total-at_slot g zero f (q ∷ ps) e = ground arith
total-at_slot g (suc i) f (q ∷ ps) e = omega (arith, total-at_slot g i f ps e)

pub total-map :
    (g : Proc → ℕ) (f : Proc → Proc) (ps : List Proc)
    → ((p : Proc) → g (f p) ≡ g p)
    → total g (map f ps) ≡ total g ps
total-map g f [] h = refl
total-map g f (p ∷ ps) h = omega (arith, h p, total-map g f ps h)

pub All-at_slot {κ} :
    (P : Proc → Type κ) (i : ℕ) (f : Proc → Proc) (ps : List Proc)
    → All P ps
    → ((p : Proc) → get_elem? ps i ≡ some p → P p → P (f p))
    → All P (at_slot i f ps)
All-at_slot P i f [] a h = tt
All-at_slot P zero f (q ∷ ps) a h = (h q refl a.0, a.1)
All-at_slot P (suc i) f (q ∷ ps) a h = (a.0, All-at_slot P i f ps a.1 h)

pub All-map {κ λ'} :
    (P : Proc → Type κ) (Q : Proc → Type λ') (f : Proc → Proc) (ps : List Proc)
    → All P ps
    → ((p : Proc) → P p → Q (f p))
    → All Q (map f ps)
All-map P Q f [] a h = tt
All-map P Q f (q ∷ ps) a h = (h q a.0, All-map P Q f ps a.1 h)

pub All-get {κ} :
    (P : Proc → Type κ) (i : ℕ) (ps : List Proc) {p : Proc}
    → All P ps
    → get_elem? ps i ≡ some p
    → P p
All-get P i [] a e = absurd (cc)
All-get P zero (q ∷ ps) a e = subst P (ground arith) a.0
All-get P (suc i) (q ∷ ps) a e = All-get P i ps a.1 e

pub get_elem?-at_slot :
    (i j : ℕ) (f : Proc → Proc) (ps : List Proc) {p : Proc}
    → get_elem? ps j ≡ some p
    → get_elem? (at_slot i f ps) j ≡ some (if i == j then f p else p)
get_elem?-at_slot i j f [] e = cc
get_elem?-at_slot zero zero f (q ∷ ps) e = ground arith
get_elem?-at_slot zero (suc j) f (q ∷ ps) e = ground arith
get_elem?-at_slot (suc i) zero f (q ∷ ps) e = ground arith
get_elem?-at_slot (suc i) (suc j) f (q ∷ ps) e = ground (arith, get_elem?-at_slot i j f ps e)

pub get_elem?-map :
    (j : ℕ) (f : Proc → Proc) (ps : List Proc) {p : Proc}
    → get_elem? ps j ≡ some p
    → get_elem? (map f ps) j ≡ some (f p)
get_elem?-map j f [] e = cc
get_elem?-map zero f (q ∷ ps) e = ground arith
get_elem?-map (suc j) f (q ∷ ps) e = get_elem?-map j f ps e

pub state_eq→eq : (a b : State) → state_eq a b ≡ true → a ≡ b
state_eq→eq a b h = ground arith

get_elem?-suc :
    (q : Proc) (ps : List Proc) (n m : ℕ) → n ≡ suc m → get_elem? (q ∷ ps) n ≡ get_elem? ps m
get_elem?-suc q ps n m e = rw e

get_elem?-zero : (q : Proc) (ps : List Proc) (n : ℕ) → n ≡ 0 → get_elem? (q ∷ ps) n ≡ some q
get_elem?-zero q ps n e = rw e

-- What a search from slot `i` on returns: a slot in the state.
pub find_state-some :
    (s : State) (i j : ℕ) (ps : List Proc)
    → find_state s i ps ≡ some j
    → (p : Proc) × (i ≤ j) × (get_elem? ps (j - i) ≡ some p) × (p.state ≡ s)
unfolding find_state
find_state-some s i j [] e = absurd (cc)
find_state-some s i j (q ∷ ps) e = elim (Bool-cases (state_eq q.state s)) [
  | inl hit ↦
      (q, ground arith, get_elem?-zero q ps (j - i) (ground arith), state_eq→eq q.state s hit)
  | inr miss ↦
      let (p, le, at, eq) = find_state-some s (suc i) j ps (ground arith) in
      (p, omega (arith, le), get_elem?-suc q ps (j - i) (j - suc i) (omega (arith, le)) ∙ at, eq)
]

pub find_state-none :
    (s : State) (i : ℕ) (ps : List Proc)
    → find_state s i ps ≡ none
    → All (λ p. state_eq p.state s ≡ false) ps
unfolding find_state
find_state-none s i [] e = tt
find_state-none s i (q ∷ ps) e = ground (arith, find_state-none s (suc i) ps)

pub find_zombie-some :
    (cur i j : ℕ) (ps : List Proc)
    → find_zombie cur i ps ≡ some j
    → (p : Proc) × (i ≤ j)
      × (get_elem? ps (j - i) ≡ some p)
      × (p.state ≡ zombie)
      × (p.parent ≡ some cur)
unfolding find_zombie
find_zombie-some cur i j [] e = absurd (cc)
find_zombie-some cur i j (q ∷ ps) e =
    elim (Bool-cases (is_parent cur q && state_eq q.state zombie)) [
      | inl hit ↦ (
        q,
        ground arith,
        get_elem?-zero q ps (j - i) (ground arith),
        state_eq→eq q.state zombie (ground arith),
        ground arith,
      )
      | inr miss ↦
          let (p, le, at, eq, par) = find_zombie-some cur (suc i) j ps (ground arith) in
          (
            p,
            omega (arith, le),
            get_elem?-suc q ps (j - i) (j - suc i) (omega (arith, le)) ∙ at,
            eq,
            par,
          )
    ]

pub find_zombie-none :
    (cur i : ℕ) (ps : List Proc)
    → find_zombie cur i ps ≡ none
    → All (λ p. (is_parent cur p && state_eq p.state zombie) ≡ false) ps
unfolding find_zombie
find_zombie-none cur i [] e = tt
find_zombie-none cur i (q ∷ ps) e = ground (arith, find_zombie-none cur (suc i) ps)

pub get_elem?-drop :
    (i j : ℕ) (ps : List Proc) → i ≤ j → get_elem? ps j ≡ get_elem? (drop i ps) (j - i)
get_elem?-drop zero j ps h = ap (get_elem? ps) (omega arith)
get_elem?-drop (suc i) j [] h = refl
get_elem?-drop (suc i) zero (p ∷ ps) h = absurd (omega arith)
get_elem?-drop (suc i) (suc j) (p ∷ ps) h =
    get_elem?-drop i j ps (omega arith) ∙ ap (get_elem? (drop i ps)) (omega arith)

pub get_elem?-map_inv :
    (j : ℕ) (f : Proc → Proc) (ps : List Proc) {q : Proc}
    → get_elem? (map f ps) j ≡ some q
    → (p : Proc) × (get_elem? ps j ≡ some p) × (q ≡ f p)
get_elem?-map_inv j f [] e = absurd (cc)
get_elem?-map_inv zero f (p ∷ ps) e = (p, refl, ground arith)
get_elem?-map_inv (suc j) f (p ∷ ps) e = get_elem?-map_inv j f ps e

pub get_elem?-at_slot_inv :
    (i j : ℕ) (f : Proc → Proc) (ps : List Proc) {q : Proc}
    → get_elem? (at_slot i f ps) j ≡ some q
    → (p : Proc) × (get_elem? ps j ≡ some p) × (q ≡ (if i == j then f p else p))
get_elem?-at_slot_inv i j f [] e = absurd (cc)
get_elem?-at_slot_inv zero zero f (p ∷ ps) e = (p, refl, ground arith)
get_elem?-at_slot_inv zero (suc j) f (p ∷ ps) {q} e = (q, e, ground arith)
get_elem?-at_slot_inv (suc i) zero f (p ∷ ps) e = (p, refl, ground arith)
get_elem?-at_slot_inv (suc i) (suc j) f (p ∷ ps) e =
    let (r, at, eq) = get_elem?-at_slot_inv i j f ps e in (r, at, ground (arith, eq))
