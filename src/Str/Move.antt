-- ===== src/Str/Move.antt =====
-- `memset` and `memmove` (string.c): what they leave in memory.
use ducko_unix.Prelude.{
  ℕ, zero, suc, ◌+◌, ◌-◌, ◌*◌, ◌/◌, ◌%◌, ◌<◌, ◌≤◌, ltb, leb, ◌≡◌, Bool, ◌&&◌, if◌then◌else◌, update,
  arith, Bool-cases, inl, inr, ◌⊎◌,
}
use ducko_unix.Str.{Memory, stosb, stosl, memset, copy_down, copy_up, memmove}

-- The addresses of `n` bytes from `d` on.
abbrev pub within : ℕ → ℕ → ℕ → Bool
within d n a = leb d a && ltb a (d + n)

stosb_lem :
    (d c n : ℕ) (mem : Memory) (a : ℕ)
    → stosb d c n mem a ≡ (if within d n a then c % 256 else mem a)
unfolding stosb
stosb_lem d c zero mem a = ground arith
stosb_lem d c (suc n) mem a = ground (arith, stosb_lem (d + 1) c n (update mem d (c % 256)) a)

stosl_lem :
    (d b n : ℕ) (mem : Memory) (a : ℕ)
    → b < 256
    → stosl d (b * 16777216 + b * 65536 + b * 256 + b) n mem a
      ≡ (if within d (n * 4) a then b else mem a)
unfolding stosl
stosl_lem d b zero mem a h = ground arith
stosl_lem d b (suc n) mem a h =
    let w = b * 16777216 + b * 65536 + b * 256 + b in
    let low : w % 256 ≡ b = omega arith in
    let second : w / 256 % 256 ≡ b = omega arith in
    let third : w / 65536 % 256 ≡ b = omega arith in
    let fourth : w / 16777216 % 256 ≡ b = omega arith in
    rw (low, second, third, fourth)
      (ground (
        arith,
        stosl_lem (d + 4) b n
            (update (update (update (update mem d b) (d + 1) b) (d + 2) b) (d + 3) b) a h,
      ))

-- `memset` puts the low byte of `c` into every byte of the block, whichever way it stores, and
-- changes nothing else.
pub memset_lem :
    (d c n : ℕ) (mem : Memory) (a : ℕ)
    → memset d c n mem a ≡ (if within d n a then c % 256 else mem a)
unfolding memset
memset_lem d c n mem a =
    ground (arith, stosb_lem d c n mem a, stosl_lem d (c % 256) (n / 4) mem a (omega arith))

copy_down_lem :
    (d s n : ℕ) (mem : Memory) (a : ℕ)
    → s < d
    → copy_down d s n mem a ≡ (if within d n a then mem (s + (a - d)) else mem a)
unfolding copy_down
copy_down_lem d s zero mem a h = ground arith
copy_down_lem d s (suc n) mem a h =
    ground (arith, copy_down_lem d s n (update mem (d + n) (mem (s + n))) a h)

copy_up_lem :
    (d s n : ℕ) (mem : Memory) (a : ℕ)
    → (d ≤ s) ⊎ (s + n ≤ d)
    → copy_up d s n mem a ≡ (if within d n a then mem (s + (a - d)) else mem a)
unfolding copy_up
copy_up_lem d s zero mem a h = ground arith
copy_up_lem d s (suc n) mem a h =
    ground (arith, copy_up_lem (d + 1) (s + 1) n (update mem d (mem s)) a (ground arith))

-- `memmove` leaves in the destination what the source held before the call, also where the two
-- overlap, and changes nothing else.
pub memmove_lem :
    (d s n : ℕ) (mem : Memory) (a : ℕ)
    → memmove d s n mem a ≡ (if within d n a then mem (s + (a - d)) else mem a)
unfolding memmove
memmove_lem d s n mem a = elim (Bool-cases (ltb s d && ltb d (s + n))) [
  | inl overlap ↦ rw overlap (copy_down_lem d s n mem a (ground arith))
  | inr apart ↦ rw apart (copy_up_lem d s n mem a (ground arith))
]
