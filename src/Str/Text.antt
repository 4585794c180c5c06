-- ===== src/Str/Text.antt =====
-- The text routines of string.c: comparison and copies of strings of bounded length.
use ducko_unix.Prelude.{
  ℕ, zero, suc, ◌+◌, ◌-◌, ◌<◌, ◌≤◌, ltb, leb, ◌==◌, ◌||◌, ap, subst, ◌∙◌, ◌↔◌, ◌≡◌, ◌≢◌, refl, Bool,
  true, ◌&&◌, not, if◌then◌else◌, update, arith, Bool-cases, inl, inr, ◌⊎◌, some,
}
use ducko_unix.Prelude.Int.{pos, sub_ℕ}
use ducko_unix.Str.{memcmp, strncmp, strncpy, pad, safestrcpy_from, safestrcpy, strlen}

-- The two texts agree on `n` bytes from offset `i` on, or up to a NUL in both before that.
abbrev pub agree : (ℕ → ℕ) → (ℕ → ℕ) → ℕ → ℕ → Bool
agree p q zero i = true
agree p q (suc n) i = p i == q i && (p i == 0 || agree p q n (i + 1))

-- `strncmp` is zero just for texts that agree up to the first NUL or the bound.
pub strncmp_lem : (p q : ℕ → ℕ) (n i : ℕ) → (strncmp p q n i ≡ pos 0) ↔ (agree p q n i ≡ true)
unfolding strncmp
strncmp_lem p q zero i = (λ h. refl, λ h. refl)
strncmp_lem p q (suc n) i =
    let rest = strncmp_lem p q n (i + 1) in
    elim (Bool-cases (p i == q i)) [
      | inl same ↦ ground (arith, rest)
      | inr differ ↦ ground (arith, rest)
    ]

at_or_after :
    (p q : ℕ → ℕ) (n i : ℕ)
    → (p i == q i) ≡ true
    → ((j : ℕ) → i + 1 ≤ j → j < i + 1 + n → p j ≡ q j)
    → (j : ℕ) → i ≤ j
    → j < i + suc n
    → p j ≡ q j
at_or_after p q n i same all j lo hi = elim (Bool-cases (i == j)) [
  | inl here ↦
      let at : p i ≡ q i = ground (arith, same) in subst (λ k. p k ≡ q k) (ground (arith, here)) at
  | inr later ↦ all j (ground arith) (omega arith)
]

-- `memcmp` is zero just for blocks that agree in every byte; otherwise its sign is that of the
-- first difference.
pub memcmp_lem :
    (p q : ℕ → ℕ) (n i : ℕ)
    → ((memcmp p q n i ≡ pos 0) × ((j : ℕ) → i ≤ j → j < i + n → p j ≡ q j))
      ⊎ ((j : ℕ) × (i ≤ j)
          × (j < i + n)
          × (p j ≢ q j)
          × ((k : ℕ) → i ≤ k → k < j → p k ≡ q k)
          × (memcmp p q n i ≡ sub_ℕ (p j) (q j)))
unfolding memcmp
memcmp_lem p q zero i = inl (refl, λ j. ground arith)
memcmp_lem p q (suc n) i = elim (Bool-cases (p i == q i)) [
  | inl same ↦ elim (memcmp_lem p q n (i + 1)) [
    | inl (e, all) ↦ inl (ground arith, λ j lo hi. at_or_after p q n i same all j lo hi)
    | inr (j, lo, hi, differ, before, e) ↦ inr (
      j,
      omega arith,
      omega arith,
      differ,
      λ k lo' hi'.
          at_or_after p q (j - (i + 1)) i same (λ k' lo'' hi''. before k' lo'' (omega arith)) k lo'
            (omega arith),
      ground arith,
    )
  ]
  | inr differ ↦
      inr (i, omega arith, omega arith, ground arith, λ k lo hi. absurd (omega arith), ground arith)
]

-- Where the text has its first NUL, from offset `i` on, and how far a copy of `n` bytes reads.
pad_lem : (s : ℕ → ℕ) (n i j : ℕ) → pad s n i j ≡ (if leb i j && ltb j (i + n) then 0 else s j)
unfolding pad
pad_lem s zero i j = ground arith
pad_lem s (suc n) i j = ground (arith, pad_lem (update s i 0) n (i + 1) j)

-- `live t i j`: the text has no NUL at offsets from `i` up to and without `i + n`.
abbrev pub live : (ℕ → ℕ) → ℕ → ℕ → Bool
live t i zero = true
live t i (suc n) = not (t i == 0) && live t (i + 1) n

-- `strncpy` writes `n` bytes: those of the text up to its first NUL, and zeros from there on.
pub strncpy_lem :
    (s t : ℕ → ℕ) (n i j : ℕ)
    → strncpy s t n i j
      ≡ (if leb i j && ltb j (i + n) then (if live t i (j - i) then t j else 0) else s j)
unfolding strncpy
strncpy_lem s t zero i j = ground arith
strncpy_lem s t (suc n) i j = elim (Bool-cases (leb (i + 1) j)) [
  | inl later ↦
      let step : j - i ≡ suc (j - (i + 1)) = ground arith in
      rw step (
        ground (
          arith,
          strncpy_lem (update s i (t i)) t n (i + 1) j,
          pad_lem (update s i (t i)) n (i + 1) j,
        ))
  | inr before ↦
      let step : j - i ≡ 0 = ground arith in
      rw step (
        ground (
          arith,
          strncpy_lem (update s i (t i)) t n (i + 1) j,
          pad_lem (update s i (t i)) n (i + 1) j,
        ))
]

-- The length that `strlen` returns is that of the first NUL; with fuel beyond it, it returns.
pub strlen_lem :
    (s : ℕ → ℕ) (n i fuel : ℕ)
    → live s i n ≡ true
    → s (i + n) ≡ 0
    → n < fuel
    → strlen s i fuel ≡ some (i + n)
unfolding strlen
strlen_lem s n i zero l z h = elim h [ ]
strlen_lem s zero i (suc fuel) l z h = ground arith
strlen_lem s (suc n) i (suc fuel) l z h =
    ground
      (arith, strlen_lem s n (i + 1) fuel (ground arith) (ap s (omega arith) ∙ z) (omega arith))

-- What the loop of `safestrcpy` leaves: the text up to a NUL at `stop`, and nothing beyond the
-- `n + 1` bytes from `i` on.
pub record IsCopied (s t r : ℕ → ℕ) (n i : ℕ) : Type 0 where
  stop : ℕ
  low : i ≤ stop
  high : stop ≤ i + n
  ended : r stop ≡ 0
  copied : (j : ℕ) → i ≤ j → j < stop → r j ≡ t j
  before : (j : ℕ) → j < i → r j ≡ s j
  beyond : (j : ℕ) → i + n < j → r j ≡ s j

safestrcpy_from-IsCopied : (s t : ℕ → ℕ) (n i : ℕ) → IsCopied s t (safestrcpy_from s t n i) n i
unfolding safestrcpy_from
safestrcpy_from-IsCopied s t zero i = record {
  stop = i;
  low = omega arith;
  high = omega arith;
  ended = ground arith;
  copied = λ j lo hi. absurd (omega arith);
  before = λ j lo. ground arith;
  beyond = λ j hi. ground arith;
}
safestrcpy_from-IsCopied s t (suc n) i = elim (Bool-cases (t i == 0)) [
  | inl nul ↦ rw nul record {
    stop = i;
    low = omega arith;
    high = omega arith;
    ended = ground (arith, nul);
    copied = λ j lo hi. absurd (omega arith);
    before = λ j lo. ground arith;
    beyond = λ j hi. ground arith;
  }
  | inr more ↦
      let rest = safestrcpy_from-IsCopied (update s i (t i)) t n (i + 1) in
      rw more record {
        stop = rest.stop;
        low = omega (arith, rest.low);
        high = omega (arith, rest.high);
        ended = rest.ended;
        copied = λ j lo hi. elim (Bool-cases (i == j)) [
          | inl here ↦
              rest.before j (ground (arith, here))
              ∙ (let at : i ≡ j = ground (arith, here) in ground (arith, ap t at))
          | inr later ↦ rest.copied j (ground (arith, later)) hi
        ];
        before = λ j lo. rest.before j (omega arith) ∙ ground arith;
        beyond = λ j hi. rest.beyond j (omega arith) ∙ ground arith;
      }
]

-- `safestrcpy` with room for `n + 1` bytes leaves the text up to a NUL inside them, and writes no
-- byte beyond them, whether the text is longer or not.
pub safestrcpy-IsCopied : (s t : ℕ → ℕ) (n : ℕ) → IsCopied s t (safestrcpy s t (suc n)) n 0
unfolding safestrcpy
safestrcpy-IsCopied s t n = safestrcpy_from-IsCopied s t n 0
