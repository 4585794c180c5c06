-- ===== src/File/Refs.antt =====
-- Reference counts of the file table (file.c): each is the number of references there are.
use ducko_unix.Prelude.{
  modify, ℕ, ℕ-cases, zero, suc, ◌+◌, ◌-◌, ◌<◌, ltb, ◌==◌, ◌≡◌, refl, sym, subst, ◌∙◌, true, false,
  List, [], ◌∷◌, inl, inr, Option, none, some, if◌then◌else◌, get_elem?, done, arith, Bool-cases,
  Option-cases,
}
use ducko_unix.File.{fd_none, File, ref_of, find_free, filealloc, filedup, fileclose}

-- Each file's count is the number of references to it.
abbrev pub IsCounted : List File → (ℕ → ℕ) → Type 0
IsCounted fs refs = (i : ℕ) → ref_of fs i ≡ refs i

abbrev pub one_at : ℕ → ℕ → ℕ
one_at f i = if f == i then 1 else 0

-- A change of a file in use shows in its own count and in no other.
pub ref_of-modify :
    (fs : List File) (f i : ℕ) (change : File → File)
    → 0 < ref_of fs f
    → (g : File) × (ref_of fs f ≡ g.ref)
      × (ref_of (modify fs f change) i ≡ (if f == i then (change g).ref else ref_of fs i))
ref_of-modify [] f i change h = absurd (omega arith)
ref_of-modify (g ∷ fs) zero zero change h = (g, refl, refl)
ref_of-modify (g ∷ fs) zero (suc i) change h = (g, refl, ground arith)
ref_of-modify (g ∷ fs) (suc f) zero change h =
    let (k, e, rest) = ref_of-modify fs f zero change h in (k, e, ground arith)
ref_of-modify (g ∷ fs) (suc f) (suc i) change h =
    let (k, e, rest) = ref_of-modify fs f i change h in (k, e, ground (arith, rest))

-- `filedup` of a file that has a reference adds one.
pub filedup_lem :
    (fs : List File) (f : ℕ) (refs : ℕ → ℕ)
    → IsCounted fs refs
    → 0 < refs f
    → (gs : List File) × (filedup f fs ≡ done gs) × IsCounted gs (λ i. refs i + one_at f i)
unfolding filedup
filedup_lem fs f refs counted h =
    let there : 0 < ref_of fs f = omega (arith, counted f) in
    let alive : ltb (ref_of fs f) 1 ≡ false = ground arith in
    (
      modify fs f (λ g. record g { ref = g.ref + 1 }),
      rw alive refl,
      λ i.
          let (g, e, now) = ref_of-modify fs f i (λ g. record g { ref = g.ref + 1 }) there in
          let c = counted i in ground (arith, now, e, c),
    )

-- `fileclose` takes one away, and lets the file go just at the last one.
pub fileclose_lem :
    (fs : List File) (f : ℕ) (refs : ℕ → ℕ)
    → IsCounted fs (λ i. refs i + one_at f i)
    → (gs : List File) × (gone : Option File) × (fileclose f fs ≡ done (gs, gone))
      × IsCounted gs refs
      × (gone ≡ (if refs f == 0 then get_elem? fs f else none))
unfolding fileclose
fileclose_lem fs f refs counted =
    let there : ref_of fs f ≡ refs f + 1 = ground (arith, counted f) in
    let alive : ltb (ref_of fs f) 1 ≡ false = ground (arith, there) in
    elim (Bool-cases (refs f == 0)) [
      | inl last ↦
          let over : ltb 0 (ref_of fs f - 1) ≡ false = ground (arith, there, last) in
          (
            modify fs f (λ g. record g { ref = 0; kind = fd_none }),
            get_elem? fs f,
            rw (alive, over) refl,
            λ i.
                let (g, e, now) =
                  ref_of-modify fs f i (λ g. record g { ref = 0; kind = fd_none })
                    (omega (arith, there)) in
                let c = counted i in ground (arith, now, c, there, last),
            rw last refl,
          )
      | inr more ↦
          let on : ltb 0 (ref_of fs f - 1) ≡ true = ground (arith, there, more) in
          (
            modify fs f (λ g. record g { ref = g.ref - 1 }),
            none,
            rw (alive, on) refl,
            λ i.
                let (g, e, now) =
                  ref_of-modify fs f i (λ g. record g { ref = g.ref - 1 }) (omega (arith, there)) in
                let c = counted i in ground (arith, now, c, there, e),
            rw more refl,
          )
    ]

-- No reference to the file, so it can be given its first.
abbrev IsFresh : List File → ℕ → Type 0
IsFresh fs f =
    (ref_of fs f ≡ 0)
    × ((i : ℕ)
        → ref_of (modify fs f (λ g. record g { ref = 1 })) i ≡ (if f == i then 1 else ref_of fs i))

find_free_lem : (fs : List File) (f : ℕ) → find_free fs ≡ some f → IsFresh fs f
unfolding find_free
find_free_lem [] f e = cc
find_free_lem (g ∷ fs) f e = elim (Bool-cases (g.ref == 0)) [
  | inl free ↦
      let at : 0 ≡ f = ground (arith, free, e) in
      subst (λ f. IsFresh (g ∷ fs) f) at
        (
          ground (arith, free),
          ℕ-cases
              (λ i.
                ref_of (record g { ref = 1 } ∷ fs) i ≡ (if 0 == i then 1 else ref_of (g ∷ fs) i))
              (ground arith) (λ i. ground arith),
        )
  | inr used ↦ elim (Option-cases (find_free fs)) [
    | inl full ↦ ground (arith, used, full, e)
    | inr (k, found) ↦
        let at : suc k ≡ f = ground (arith, used, found, e) in
        let (free, now) = find_free_lem fs k found in
        subst (λ f. IsFresh (g ∷ fs) f) at
          (
            free,
            ℕ-cases
                (λ i.
                  ref_of (g ∷ modify fs k (λ g. record g { ref = 1 })) i
                  ≡ (if suc k == i then 1 else ref_of (g ∷ fs) i))
                (ground arith) (λ i. now i ∙ ground arith),
          )
  ]
]

-- A new file is one without references, and gets the first.
pub filealloc_lem :
    (fs : List File) (f : ℕ) (gs : List File) (refs : ℕ → ℕ)
    → IsCounted fs refs
    → filealloc fs ≡ some (f, gs)
    → (refs f ≡ 0) × IsCounted gs (λ i. refs i + one_at f i)
unfolding filealloc
filealloc_lem fs f gs refs counted e = elim (Option-cases (find_free fs)) [
  | inl full ↦ ground (arith, full, e)
  | inr (k, found) ↦
      let at : k ≡ f = ground (arith, found, e) in
      let after : modify fs k (λ g. record g { ref = 1 }) ≡ gs = ground (arith, found, e) in
      let (free, now) = find_free_lem fs k found in
      (
        ground (arith, free, at, counted f),
        λ i. rw (sym after, sym at) (ground (arith, now i, counted i, free)),
      )
]
