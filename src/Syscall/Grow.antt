-- ===== src/Syscall/Grow.antt =====
-- `growproc` (proc.c) and `sys_sbrk` (sysproc.c) where they give memory back.
use ducko_unix.Prelude.{
  ℕ, ◌+◌, ◌-◌, ◌%◌, ◌<◌, ◌≤◌, ◌==◌, ◌≡◌, refl, sym, subst, true, false, done, arith, Bool-cases,
  inl, inr, if◌then◌else◌, not,
}
use ducko_unix.Kalloc.{kernbase, page_round_up}
use ducko_unix.Vm.{Vm, word}
use ducko_unix.Vm.Space.{IsSpace}
use ducko_unix.Vm.Unmapped.{IsUnmapped}
use ducko_unix.Vm.Dealloc.{deallocuvm_lem}
use ducko_unix.Syscall.{Grown, is_negative, resized, growproc}

-- What is left of a process of `sz` bytes when `n` of them go.
pub record Shrunk (kernel_end : ℕ) (s : Vm) (pgdir sz n : ℕ) (g : Grown) : Type 0 where
  pub unmapped : IsUnmapped kernel_end s g.vm pgdir (page_round_up (sz - n)) (page_round_up sz)
  pub ok : g.is_ok ≡ not (n == sz)
  pub size : g.sz ≡ (if n == sz then sz else sz - n)

resized-vm : (old : ℕ) (r : ℕ × Vm) → (resized old r).vm ≡ r.1
resized-vm old r = elim (Bool-cases (r.0 == 0)) [ inl z ↦ rw z refl | inr nz ↦ rw nz refl ]

resized-Shrunk :
    (kernel_end : ℕ) (s t : Vm) (pgdir sz n : ℕ)
    → n ≤ sz
    → IsUnmapped kernel_end s t pgdir (page_round_up (sz - n)) (page_round_up sz)
    → Shrunk kernel_end s pgdir sz n (resized sz (sz - n, t))
resized-Shrunk kernel_end s t pgdir sz n fits w =
    let same : (sz - n == 0) ≡ (n == sz) = elim (Bool-cases (n == sz)) [
      | inl all ↦ rw all (let e : (sz - n == 0) ≡ true = ground (arith, all) in e)
      | inr left ↦ rw left (let e : (sz - n == 0) ≡ false = ground (arith, left, fits) in e)
    ] in
    record {
      unmapped =
          subst (λ t. IsUnmapped kernel_end s t pgdir (page_round_up (sz - n)) (page_round_up sz))
            (sym (resized-vm sz (sz - n, t))) w;
      ok = elim (Bool-cases (n == sz)) [
        | inl all ↦ rw (same, all) refl
        | inr left ↦ rw (same, left) refl
      ];
      size = elim (Bool-cases (n == sz)) [
        | inl all ↦ rw (same, all) refl
        | inr left ↦ rw (same, left) refl
      ];
    }

-- `growproc` by a negative number, of no more bytes than there are: it unmaps and frees the pages
-- from the new size to the old one. It returns 0 with the new size where some bytes are left, and
-- -1 with the old size where none are, though the pages are gone then too.
pub growproc_lem :
    (kernel_end : ℕ) (s : Vm) (pgdir sz n : ℕ)
    → IsSpace kernel_end s pgdir
    → 0 < n
    → n ≤ sz
    → sz ≤ kernbase
    → (g : Grown) × (growproc kernel_end pgdir sz (word - n) s ≡ done g)
      × Shrunk kernel_end s pgdir sz n g
unfolding growproc
growproc_lem kernel_end s pgdir sz n v pos fits user =
    let (t, eq, w) = deallocuvm_lem kernel_end s pgdir sz (sz - n) v (omega arith) user in
    let some_bytes : (word - n == 0) ≡ false = ground (arith, fits, user) in
    let down : is_negative (word - n) ≡ true = ground (arith, fits, user) in
    let at : (sz + (word - n)) % word ≡ sz - n = omega (arith, pos, fits, user) in
    (
      resized sz (sz - n, t),
      rw (some_bytes, down, at, eq) refl,
      resized-Shrunk kernel_end s t pgdir sz n fits w,
    )
