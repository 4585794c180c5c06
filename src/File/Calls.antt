-- ===== src/File/Calls.antt =====
-- The descriptor calls of sysfile.c and the loops of `fork` and `exit` keep the counts exact, and
-- so never panic.
use ducko_unix.Prelude.{
  ℕ, ℕ-cases, zero, suc, ◌+◌, ◌<◌, ◌≤◌, ◌==◌, ◌≡◌, ◌≢◌, refl, ap, List, [], ◌∷◌, ◌⊎◌, inl, inr,
  Option, none, some, if◌then◌else◌, length, get_elem?, set, done, arith, Option-cases,
}
use ducko_unix.File.{File, Ofile, argfd, fdalloc, Files, sys_dup, sys_close, dup_all, close_all}
use ducko_unix.File.Refs.{IsCounted, one_at, filedup_lem, fileclose_lem}

-- The references from a process's descriptors to a file.
abbrev pub holds : Ofile → ℕ → ℕ
holds [] i = 0
holds (none ∷ ofile) i = holds ofile i
holds (some f ∷ ofile) i = one_at f i + holds ofile i

-- The counts are those of the process's descriptors and of the references elsewhere.
abbrev pub Balanced : Files → (ℕ → ℕ) → Type 0
Balanced s others = IsCounted s.table (λ i. holds s.ofile i + others i)

-- `fdalloc` takes the first free descriptor, and fails when none is free.
pub fdalloc_lem :
    (ofile : Ofile) (f : ℕ)
    → ((fdalloc ofile f ≡ none) × ((k : ℕ) → k < length ofile → argfd ofile k ≢ none))
      ⊎ ((fd : ℕ) × (after : Ofile) × (fdalloc ofile f ≡ some (fd, after))
          × (fd < length ofile)
          × (after ≡ set ofile fd (some f))
          × (argfd ofile fd ≡ none)
          × ((k : ℕ) → k < fd → argfd ofile k ≢ none))
unfolding fdalloc
fdalloc_lem [] f = inl (refl, λ k h. absurd (omega arith))
fdalloc_lem (none ∷ ofile) f =
    inr (0, some f ∷ ofile, refl, omega arith, refl, refl, λ k h. absurd (omega arith))
fdalloc_lem (some g ∷ ofile) f = elim (fdalloc_lem ofile f) [
  | inl (e, full) ↦ inl (
    rw e refl,
    ℕ-cases (λ k. k < suc (length ofile) → argfd (some g ∷ ofile) k ≢ none) (λ h e'. cc)
        (λ k h. full k (omega arith)),
  )
  | inr (fd, after, e, lt, new, free, low) ↦ inr (
    suc fd,
    some g ∷ after,
    rw e refl,
    omega arith,
    ap (λ o. some g ∷ o) new,
    free,
    ℕ-cases (λ k. k < suc fd → argfd (some g ∷ ofile) k ≢ none) (λ h e'. cc)
        (λ k h. low k (omega arith)),
  )
]

pub holds-set-some :
    (ofile : Ofile) (fd f i : ℕ)
    → fd < length ofile
    → argfd ofile fd ≡ none
    → holds (set ofile fd (some f)) i ≡ one_at f i + holds ofile i
holds-set-some [] fd f i h e = absurd (omega arith)
holds-set-some (none ∷ ofile) zero f i h e = refl
holds-set-some (some g ∷ ofile) zero f i h e = cc
holds-set-some (none ∷ ofile) (suc fd) f i h e = holds-set-some ofile fd f i (omega arith) e
holds-set-some (some g ∷ ofile) (suc fd) f i h e =
    omega (arith, holds-set-some ofile fd f i (omega arith) e)

pub holds-set-none :
    (ofile : Ofile) (fd f i : ℕ)
    → argfd ofile fd ≡ some f
    → holds ofile i ≡ one_at f i + holds (set ofile fd none) i
holds-set-none [] fd f i e = cc
holds-set-none (none ∷ ofile) zero f i e = cc
holds-set-none (some g ∷ ofile) zero f i e = let at : g ≡ f = cc in rw at refl
holds-set-none (none ∷ ofile) (suc fd) f i e = holds-set-none ofile fd f i e
holds-set-none (some g ∷ ofile) (suc fd) f i e = omega (arith, holds-set-none ofile fd f i e)

holds-some : (ofile : Ofile) (fd f : ℕ) → argfd ofile fd ≡ some f → 0 < holds ofile f
holds-some ofile fd f e = ground (arith, holds-set-none ofile fd f f e)

-- With exact counts that cover the descriptors, `dup_all` does not panic, gives the child the
-- same descriptors, and counts each of them once more.
pub dup_all_lem :
    (ofile : Ofile) (fs : List File) (refs : ℕ → ℕ)
    → IsCounted fs refs
    → ((i : ℕ) → holds ofile i ≤ refs i)
    → (gs : List File) × (dup_all ofile fs ≡ done (ofile, gs))
      × IsCounted gs (λ i. holds ofile i + refs i)
unfolding dup_all
dup_all_lem [] fs refs counted h = (fs, refl, λ i. omega (arith, counted i))
dup_all_lem (none ∷ ofile) fs refs counted h =
    let (gs, e, c) = dup_all_lem ofile fs refs counted h in (gs, rw e refl, c)
dup_all_lem (some f ∷ ofile) fs refs counted h =
    let (hs, e, c) = filedup_lem fs f refs counted (let k = h f in ground (arith, k)) in
    let (gs, e', c') =
      dup_all_lem ofile hs (λ i. refs i + one_at f i) c (λ i. omega (arith, h i)) in
    (gs, rw (e, e') refl, λ i. omega (arith, c' i))

-- With exact counts, `close_all` does not panic, gives up exactly the references of the process,
-- and empties its descriptors.
pub close_all_lem :
    (ofile : Ofile) (fs : List File) (others : ℕ → ℕ)
    → IsCounted fs (λ i. holds ofile i + others i)
    → (gone : List File) × (after : Ofile) × (gs : List File) × (close_all ofile fs
        ≡ done (gone, after, gs))
      × IsCounted gs others
      × ((fd : ℕ) → argfd after fd ≡ none)
unfolding close_all
close_all_lem [] fs others counted = ([], [], fs, refl, λ i. omega (arith, counted i), λ fd. refl)
close_all_lem (none ∷ ofile) fs others counted =
    let (gone, after, gs, e, c, empty) = close_all_lem ofile fs others counted in
    (
      gone,
      none ∷ after,
      gs,
      rw e refl,
      c,
      ℕ-cases (λ fd. argfd (none ∷ after) fd ≡ none) refl empty,
    )
close_all_lem (some f ∷ ofile) fs others counted =
    let (hs, g, e, c, last) =
      fileclose_lem fs f (λ i. holds ofile i + others i) (λ i. omega (arith, counted i)) in
    let (gone, after, gs, e', c', empty) = close_all_lem ofile hs others c in
    (
      elim g [ none ↦ gone | some k ↦ k ∷ gone ],
      none ∷ after,
      gs,
      rw (e, e') refl,
      c',
      ℕ-cases (λ fd. argfd (none ∷ after) fd ≡ none) refl empty,
    )

-- With exact counts, which stay exact: `sys_dup` puts the file of an open descriptor into the
-- first free one, which counts as one more reference; it fails, with nothing changed, when the
-- argument is not open or no descriptor is free.
pub sys_dup_lem :
    (arg : ℕ) (s : Files) (others : ℕ → ℕ)
    → Balanced s others
    → ((sys_dup arg s ≡ done (none, s))
        × ((argfd s.ofile arg ≡ none) ⊎ ((k : ℕ) → k < length s.ofile → argfd s.ofile k ≢ none)))
      ⊎ ((fd : ℕ) × (f : ℕ) × (t : Files) × (sys_dup arg s ≡ done (some fd, t))
          × (argfd s.ofile arg ≡ some f)
          × (argfd s.ofile fd ≡ none)
          × ((k : ℕ) → k < fd → argfd s.ofile k ≢ none)
          × (t.ofile ≡ set s.ofile fd (some f))
          × Balanced t others)
unfolding sys_dup
sys_dup_lem arg s others b = elim (Option-cases (argfd s.ofile arg)) [
  | inl closed ↦ inl (rw (closed, sys_dup) refl, inl closed)
  | inr (f, there) ↦ elim (fdalloc_lem s.ofile f) [
    | inl (e, full) ↦ inl (rw (there, e, sys_dup) refl, inr full)
    | inr (fd, after, e, lt, new, free, low) ↦
        let more = holds-some s.ofile arg f there in
        let (gs, e', c) =
          filedup_lem s.table f (λ i. holds s.ofile i + others i) b (omega (arith, more)) in
        inr (
          fd,
          f,
          record { ofile = after; table = gs },
          rw (there, e, e', sys_dup) refl,
          there,
          free,
          low,
          new,
          λ i. rw new (omega (arith, c i, holds-set-some s.ofile fd f i lt free)),
        )
  ]
]

-- With exact counts, which stay exact: `sys_close` closes an open descriptor and gives up its
-- reference, and lets the file go just when that was the last one; it fails, with nothing
-- changed, for a descriptor that is not open.
pub sys_close_lem :
    (arg : ℕ) (s : Files) (others : ℕ → ℕ)
    → Balanced s others
    → ((sys_close arg s ≡ done (none, s)) × (argfd s.ofile arg ≡ none))
      ⊎ ((f : ℕ) × (gone : Option File) × (t : Files) × (sys_close arg s ≡ done (some gone, t))
          × (argfd s.ofile arg ≡ some f)
          × (t.ofile ≡ set s.ofile arg none)
          × Balanced t others
          × (gone ≡ (if holds t.ofile f + others f == 0 then get_elem? s.table f else none)))
unfolding sys_close
sys_close_lem arg s others b = elim (Option-cases (argfd s.ofile arg)) [
  | inl closed ↦ inl (rw (closed, sys_close) refl, closed)
  | inr (f, there) ↦
      let after = set s.ofile arg none in
      let (gs, gone, e, c, last) =
        fileclose_lem s.table f (λ i. holds after i + others i)
          (λ i. omega (arith, b i, holds-set-none s.ofile arg f i there)) in
      inr (
        f,
        gone,
        record { ofile = after; table = gs },
        rw (there, e, sys_close) refl,
        there,
        refl,
        c,
        last,
      )
]
