-- ===== src/Syscall/Arguments.antt =====
-- What the checks of syscall.c let through: words, blocks and texts that lie in the process.
use ducko_unix.Prelude.{
  ℕ, zero, suc, ◌+◌, ◌-◌, ◌*◌, ◌%◌, ◌<◌, ◌≤◌, leb, ltb, ◌==◌, ◌≡◌, ◌≢◌, ◌↔◌, sym, ap, subst, ◌∙◌,
  true, false, ◌||◌, none, some, arith, Bool-cases, Option-cases, inl, inr, ℕ-cases,
}
use ducko_unix.Kalloc.{kernbase}
use ducko_unix.Vm.{word}
use ducko_unix.Syscall.{
  Task, word_at, is_negative, fetchint, find_nul, fetchstr, argint, argptr, argstr,
}

-- The address of the argument `n` on the user's stack.
abbrev pub arg_addr : Task → ℕ → ℕ
arg_addr t n = (t.esp + 4 + 4 * n) % word

fetchint_lem :
    (t : Task) (addr v : ℕ)
    → t.sz ≤ kernbase
    → (fetchint t addr ≡ some v) ↔ ((addr + 4 ≤ t.sz) × (word_at t.mem addr ≡ v))
unfolding fetchint
fetchint_lem t addr v user = elim (Bool-cases (leb t.sz addr || ltb t.sz ((addr + 4) % word))) [
  | inl out ↦
      (λ e. absurd (ground (arith, out, e)), λ (fits, e). absurd (ground (arith, out, fits, user)))
  | inr in_range ↦ (
    λ e. (ground (arith, in_range, user), ground (arith, in_range, e)),
    λ (fits, e). rw in_range (ap some e),
  )
]

-- A text of `len` bytes at `p`, with the zero after it, lies in the process.
pub record IsText (t : Task) (p len : ℕ) : Type 0 where
  pub fits : p + len < t.sz
  pub ends : t.mem (p + len) ≡ 0
  pub inner : (i : ℕ) → i < len → t.mem (p + i) ≢ 0

zero_add : (n : ℕ) → 0 + n ≡ n
zero_add n = omega arith

add_0 : (n : ℕ) → n + 0 ≡ n
add_0 n = omega arith

next : (s i : ℕ) → s + 1 + i ≡ s + suc i
next s i = omega arith

find_nul-finds :
    (k s n d : ℕ) (mem : ℕ → ℕ)
    → d < k
    → mem (s + d) ≡ 0
    → ((i : ℕ) → i < d → mem (s + i) ≢ 0)
    → find_nul k s n mem ≡ some (n + d)
unfolding find_nul
find_nul-finds zero s n d mem lt ends inner = absurd (omega (arith, lt))
find_nul-finds (suc k) s n zero mem lt ends inner =
    let e : (mem s == 0) ≡ true = ground (arith, ends) in rw e (ap some (sym (add_0 n)))
find_nul-finds (suc k) s n (suc d) mem lt ends inner =
    let e : (mem s == 0) ≡ false = ground (arith, inner 0 (omega arith)) in
    rw e (
      find_nul-finds k (s + 1) (n + 1) d mem (omega (arith, lt)) (ap mem (next s d) ∙ ends)
        (λ i l z. inner (suc i) (omega (arith, l)) (ap mem (sym (next s i)) ∙ z))
      ∙ ap some (next n d))

find_nul-found :
    (k s n m : ℕ) (mem : ℕ → ℕ)
    → find_nul k s n mem ≡ some m
    → (d : ℕ) × (m ≡ n + d) × (d < k) × (mem (s + d) ≡ 0) × ((i : ℕ) → i < d → mem (s + i) ≢ 0)
unfolding find_nul
find_nul-found zero s n m mem e = absurd (ground (arith, e))
find_nul-found (suc k) s n m mem e = elim (Bool-cases (mem s == 0)) [
  | inl z ↦
      (0, ground (arith, e, z), omega arith, ground (arith, z), λ i l. absurd (omega (arith, l)))
  | inr nz ↦
      let (d, eq, lt, ends, inner) =
        find_nul-found k (s + 1) (n + 1) m mem (ground (arith, e, nz)) in
      (
        suc d,
        omega (arith, eq),
        omega (arith, lt),
        ap mem (sym (next s d)) ∙ ends,
        ℕ-cases (λ i. i < suc d → mem (s + i) ≢ 0) (λ l. ground (arith, nz))
            (λ i l z. inner i (omega (arith, l)) (ap mem (next s i) ∙ z)),
      )
]

-- `fetchstr` of an address below the size.
fetchstr_lem : (t : Task) (addr len : ℕ) → (fetchstr t addr ≡ some len) ↔ IsText t addr len
unfolding fetchstr
fetchstr_lem t addr len = elim (Bool-cases (leb t.sz addr)) [
  | inl out ↦
      (λ e. absurd (ground (arith, out, e)), λ text. absurd (ground (arith, out, text.fits)))
  | inr in_range ↦ (
    λ e.
        let (d, eq, lt, ends, inner) =
          find_nul-found (t.sz - addr) addr 0 len t.mem (ground (arith, in_range, e)) in
        let same : d ≡ len = omega (arith, eq) in
        subst (λ len. IsText t addr len) same
          (record { fits = ground (arith, lt, in_range); ends = ends; inner = inner }),
    λ text. rw in_range (
        find_nul-finds (t.sz - addr) addr 0 len t.mem (omega (arith, text.fits)) text.ends
          text.inner
        ∙ ap some (zero_add len)),
  )
]

-- `argptr` of an argument and a size: it lets through just what is on the stack of the process, of
-- a size that is not negative, and with all its bytes in the process, which no sum that wraps
-- round can fake.
pub argptr_lem :
    (t : Task) (n size p : ℕ)
    → t.sz ≤ kernbase
    → size < word
    → (argptr t n size ≡ some p) ↔ (
        (arg_addr t n + 4 ≤ t.sz)
        × (word_at t.mem (arg_addr t n) ≡ p)
        × (is_negative size ≡ false)
        × (p < t.sz)
        × (p + size ≤ t.sz))
unfolding argptr argint
argptr_lem t n size p user small = elim (Option-cases (argint t n)) [
  | inl e ↦ (
    λ f. absurd (ground (arith, e, f)),
    λ (fits, at, sign, lt, whole).
        let f = (fetchint_lem t (arg_addr t n) p user).1 (fits, at) in
        absurd (ground (arith, e, f)),
  )
  | inr (i, e) ↦
      let (fits, at) = (fetchint_lem t (arg_addr t n) i user).0 e in
      elim (Bool-cases (is_negative size || leb t.sz i || ltb t.sz ((i + size) % word))) [
        | inl out ↦ (
          λ f. absurd (ground (arith, e, out, f)),
          λ (fits', at', sign, lt, whole).
              let same : i ≡ p = sym at ∙ at' in
              absurd (ground (arith, out, same, sign, lt, whole, user)),
        )
        | inr in_range ↦ (
          λ f.
              let same : i ≡ p = ground (arith, e, in_range, f) in
              (
                fits,
                at ∙ same,
                ground (arith, in_range),
                ground (arith, in_range, same),
                ground (arith, in_range, same, user, small),
              ),
          λ (fits', at', sign, lt, whole).
              let same : i ≡ p = sym at ∙ at' in ground (arith, e, in_range, same),
        )
      ]
]

-- `argstr` of an argument gives a pointer and a length just where the argument is on the stack of
-- the process and points to a text of that length which ends in it.
pub argstr_lem :
    (t : Task) (n p len : ℕ)
    → t.sz ≤ kernbase
    → (argstr t n ≡ some (p, len))
      ↔ ((arg_addr t n + 4 ≤ t.sz) × (word_at t.mem (arg_addr t n) ≡ p) × IsText t p len)
unfolding argstr argint
argstr_lem t n p len user = elim (Option-cases (argint t n)) [
  | inl e ↦ (
    λ f. absurd (ground (arith, e, f)),
    λ (fits, at, text).
        let f = (fetchint_lem t (arg_addr t n) p user).1 (fits, at) in
        absurd (ground (arith, e, f)),
  )
  | inr (i, e) ↦
      let (fits, at) = (fetchint_lem t (arg_addr t n) i user).0 e in
      elim (Option-cases (fetchstr t i)) [
        | inl none_there ↦ (
          λ f. absurd (ground (arith, e, none_there, f)),
          λ (fits', at', text).
              let same : i ≡ p = sym at ∙ at' in
              let f = (fetchstr_lem t p len).1 text in
              let g : fetchstr t p ≡ none = ap (λ i. fetchstr t i) (sym same) ∙ none_there in
              absurd (ground (arith, f, g)),
        )
        | inr (m, found) ↦ (
          λ f.
              let same : i ≡ p = ground (arith, e, found, f) in
              let long : m ≡ len = ground (arith, e, found, f) in
              (
                fits,
                at ∙ same,
                subst (λ p. IsText t p len) same ((fetchstr_lem t i len).0 (found ∙ ap some long)),
              ),
          λ (fits', at', text).
              let same : i ≡ p = sym at ∙ at' in
              let f = (fetchstr_lem t p len).1 text in
              let g : fetchstr t i ≡ some len = ap (λ i. fetchstr t i) same ∙ f in
              ground (arith, e, g, same),
        )
      ]
]
