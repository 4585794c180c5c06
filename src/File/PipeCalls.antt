-- ===== src/File/PipeCalls.antt =====
-- `pipealloc` (pipe.c) and `sys_pipe` (sysfile.c): nothing leaks on any way out.
use ducko_unix.Prelude.{
  modify, ℕ, zero, suc, ◌+◌, ◌<◌, ◌≡◌, refl, ap, subst, ◌∙◌, Bool, true, false, List, [], ◌∷◌, inl,
  inr, Option, none, some, length, set, done, ◌>>=◌, arith, Option-cases,
}
use ducko_unix.File.{File, filealloc, open_end, Ofile, argfd, Files, pipealloc, sys_pipe, pipe_fds}
use ducko_unix.File.Refs.{IsCounted, one_at, ref_of-modify, fileclose_lem, filealloc_lem}
use ducko_unix.File.Calls.{holds, Balanced, fdalloc_lem, holds-set-some}

open_end-IsCounted :
    (fs : List File) (f page : ℕ) (writes : Bool) (refs : ℕ → ℕ)
    → IsCounted fs refs
    → 0 < refs f
    → IsCounted (modify fs f (open_end page writes)) refs
open_end-IsCounted fs f page writes refs c h i =
    let (g, e, now) = ref_of-modify fs f i (open_end page writes) (omega (arith, c f)) in
    ground (arith, now, e, c i)

-- The result is -1 with the counts as before, or two files with a reference each.
abbrev Allocated : (ℕ → ℕ) → Option (ℕ × ℕ) → List File → Type 0
Allocated refs none gs = IsCounted gs refs
Allocated refs (some ends) gs = IsCounted gs (λ i. refs i + one_at ends.0 i + one_at ends.1 i)

pipealloc_lem :
    (page : Option ℕ) (fs : List File) (refs : ℕ → ℕ)
    → IsCounted fs refs
    → (r : Option (ℕ × ℕ)) × (gs : List File) × (pipealloc page fs ≡ done (r, gs))
      × Allocated refs r gs
unfolding pipealloc
pipealloc_lem page fs refs c = elim (Option-cases (filealloc fs)) [
  | inl e ↦ (none, fs, rw (e, pipealloc) refl, c)
  | inr ((f, gs), e) ↦
      let (fresh, cf) = filealloc_lem fs f gs refs c e in
      elim (Option-cases (filealloc gs)) [
        | inl e2 ↦
            let (hs, gone, close, ch, last) = fileclose_lem gs f refs cf in
            (none, hs, rw (e, e2, close, pipealloc) refl, ch)
        | inr ((g, hs), e2) ↦
            let (fresh2, cg) = filealloc_lem gs g hs (λ i. refs i + one_at f i) cf e2 in
            elim (Option-cases page) [
              | inl no_page ↦
                  let (ks, gone, close, ck, last) =
                    fileclose_lem hs f (λ i. refs i + one_at g i) (λ i. omega (arith, cg i)) in
                  let (ls, gone2, close2, cl, last2) = fileclose_lem ks g refs ck in
                  (none, ls, rw (e, e2, no_page, close, close2, pipealloc) refl, cl)
              | inr (p, got) ↦
                  let both = λ (i : ℕ). refs i + one_at f i + one_at g i in
                  let first = open_end-IsCounted hs f p false both cg (ground arith) in
                  (
                    some (f, g),
                    modify (modify hs f (open_end p false)) g (open_end p true),
                    rw (e, e2, got, pipealloc) refl,
                    open_end-IsCounted (modify hs f (open_end p false)) g p true both first
                        (ground arith),
                  )
            ]
      ]
]

set_back :
    (ofile : Ofile) (fd f : ℕ) → argfd ofile fd ≡ none → set (set ofile fd (some f)) fd none ≡ ofile
set_back [] fd f e = refl
set_back (none ∷ ofile) zero f e = refl
set_back (some g ∷ ofile) zero f e = cc
set_back (g ∷ ofile) (suc fd) f e = ap (λ o. g ∷ o) (set_back ofile fd f e)

-- The new descriptors, if there are any: two that were free.
abbrev pub Opened : Ofile → Option (ℕ × ℕ) → Ofile → Type 0
Opened before none after = after ≡ before
Opened before (some fds) after =
    (f : ℕ) × (g : ℕ) × (argfd before fds.0 ≡ none)
    × (argfd (set before fds.0 (some f)) fds.1 ≡ none)
    × (after ≡ set (set before fds.0 (some f)) fds.1 (some g))

holds-fdalloc :
    (ofile after : Ofile) (fd f i : ℕ)
    → fd < length ofile
    → argfd ofile fd ≡ none
    → after ≡ set ofile fd (some f)
    → holds after i ≡ one_at f i + holds ofile i
holds-fdalloc ofile after fd f i h e new = rw new (holds-set-some ofile fd f i h e)

opened :
    (s : Files) (others : ℕ → ℕ) (gs : List File) (r : Option (ℕ × ℕ))
    → Allocated (λ i. holds s.ofile i + others i) r gs
    → (fds : Option (ℕ × ℕ)) × (t : Files) × (pipe_fds s r gs ≡ done (fds, t))
      × Balanced t others
      × Opened s.ofile fds t.ofile
unfolding pipe_fds
opened s others gs none c = (none, record s { table = gs }, refl, c, refl)
opened s others gs (some (f, g)) c =
    let refs = λ (i : ℕ). holds s.ofile i + others i in
    let (hs, gone, close, ch, last) =
      fileclose_lem gs f (λ i. refs i + one_at g i) (λ i. omega (arith, c i)) in
    let (ks, gone2, close2, ck, last2) = fileclose_lem hs g refs ch in
    elim (fdalloc_lem s.ofile f) [
      | inl (full, all) ↦
          (none, record s { table = ks }, rw (full, close, close2, pipe_fds) refl, ck, refl)
      | inr (fd0, o, e0, lt0, new0, free0, low0) ↦ elim (fdalloc_lem o g) [
        | inl (full, all) ↦
            let back : set o fd0 none ≡ s.ofile =
              ap (λ o. set o fd0 none) new0 ∙ set_back s.ofile fd0 f free0 in
            (
              none,
              record { ofile = set o fd0 none; table = ks },
              rw (e0, full, close, close2, pipe_fds) refl,
              rw back ck,
              back,
            )
        | inr (fd1, o1, e1, lt1, new1, free1, low1) ↦ (
          some (fd0, fd1),
          record { ofile = o1; table = gs },
          rw (e0, e1, pipe_fds) refl,
          λ i. rw new1 (
              omega (
                arith,
                c i,
                holds-set-some o fd1 g i lt1 free1,
                holds-fdalloc s.ofile o fd0 f i lt0 free0 new0,
              )),
          (
            f,
            g,
            free0,
            subst (λ o. argfd o fd1 ≡ none) new0 free1,
            new1 ∙ ap (λ o. set o fd1 (some g)) new0,
          ),
        )
      ]
    ]

-- With exact counts, `sys_pipe` never panics. It opens two descriptors that were free, or fails
-- with the process's descriptors as they were, whichever of its allocations fails; the counts
-- are exact either way.
pub sys_pipe_lem :
    (page : Option ℕ) (s : Files) (others : ℕ → ℕ)
    → Balanced s others
    → (r : Option (ℕ × ℕ)) × (t : Files) × (sys_pipe page s ≡ done (r, t))
      × Balanced t others
      × Opened s.ofile r t.ofile
unfolding sys_pipe
sys_pipe_lem page s others b =
    let refs = λ (i : ℕ). holds s.ofile i + others i in
    let (r, gs, e, c) = pipealloc_lem page s.table refs b in
    let (fds, t, e2, kept, news) = opened s others gs r c in
    (fds, t, ap (λ m. m >>= λ p. pipe_fds s p.0 p.1) e ∙ e2, kept, news)
