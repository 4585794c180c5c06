-- ===== src/Str.antt =====
-- string.c: memory and text routines of the kernel. Memory is a function from addresses to bytes;
-- a block of memory that a routine is given does not wrap round the address space. A text is what
-- a pointer reads at each offset.
pub mod Move
pub mod Text
mod Tests
use ducko_unix.Prelude.{
  ℕ, zero, suc, ◌+◌, ◌-◌, ◌*◌, ◌/◌, ◌%◌, ltb, ◌==◌, Bool, true, false, ◌&&◌, not, Option, some,
  none, if◌then◌else◌, update,
}
use ducko_unix.Prelude.Int.{ℤ, pos, sub_ℕ}

abbrev pub Memory : Type 0
Memory = ℕ → ℕ

-- x86.h `stosb`: `c` into `n` bytes from `dst` on, upwards.
unfoldable pub stosb : ℕ → ℕ → ℕ → Memory → Memory
stosb dst c zero mem = mem
stosb dst c (suc n) mem = stosb (dst + 1) c n (update mem dst (c % 256))

-- x86.h `stosl`: the word `w`, low byte first, into `n` words from `dst` on.
unfoldable pub stosl : ℕ → ℕ → ℕ → Memory → Memory
stosl dst w zero mem = mem
stosl dst w (suc n) mem = stosl (dst + 4) w n (
    update
      (update (update (update mem dst (w % 256)) (dst + 1) (w / 256 % 256)) (dst + 2)
        (w / 65536 % 256))
      (dst + 3) (w / 16777216 % 256))

unfoldable pub memset : ℕ → ℕ → ℕ → Memory → Memory
unfolding stosb stosl
memset dst c n mem =
    let b = c % 256 in
    if dst % 4 == 0 && n % 4 == 0
    then stosl dst (b * 16777216 + b * 65536 + b * 256 + b) (n / 4) mem
    else stosb dst c n mem

-- The two loops of `memmove`: downwards from the ends, and upwards.
unfoldable pub copy_down : ℕ → ℕ → ℕ → Memory → Memory
copy_down d s zero mem = mem
copy_down d s (suc n) mem = copy_down d s n (update mem (d + n) (mem (s + n)))

unfoldable pub copy_up : ℕ → ℕ → ℕ → Memory → Memory
copy_up d s zero mem = mem
copy_up d s (suc n) mem = copy_up (d + 1) (s + 1) n (update mem d (mem s))

unfoldable pub memmove : ℕ → ℕ → ℕ → Memory → Memory
unfolding copy_down copy_up
memmove dst src n mem =
    if ltb src dst && ltb dst (src + n) then copy_down dst src n mem else copy_up dst src n mem

-- `memcmp` from offset `i` on, with `n` bytes left.
unfoldable pub memcmp : (ℕ → ℕ) → (ℕ → ℕ) → ℕ → ℕ → ℤ
memcmp p q zero i = pos 0
memcmp p q (suc n) i =
    let rest = memcmp p q n (i + 1) in if p i == q i then rest else sub_ℕ (p i) (q i)

-- `strncmp`, likewise; the bytes are `uchar`.
unfoldable pub strncmp : (ℕ → ℕ) → (ℕ → ℕ) → ℕ → ℕ → ℤ
strncmp p q zero i = pos 0
strncmp p q (suc n) i =
    let rest = strncmp p q n (i + 1) in
    if not (p i == 0) && p i == q i then rest else sub_ℕ (p i) (q i)

-- The first loop of `strncpy` and, once a NUL is copied, the second; `n` bytes are left.
unfoldable pub pad : (ℕ → ℕ) → ℕ → ℕ → ℕ → ℕ
pad s zero i = s
pad s (suc n) i = pad (update s i 0) n (i + 1)

unfoldable pub strncpy : (ℕ → ℕ) → (ℕ → ℕ) → ℕ → ℕ → ℕ → ℕ
unfolding pad
strncpy s t zero i = s
strncpy s t (suc n) i =
    let more = strncpy (update s i (t i)) t n (i + 1) in
    if t i == 0 then pad (update s i (t i)) n (i + 1) else more

-- `safestrcpy`: the loop, with `n` as it is before `--n`, and the final NUL.
unfoldable pub safestrcpy_from : (ℕ → ℕ) → (ℕ → ℕ) → ℕ → ℕ → ℕ → ℕ
safestrcpy_from s t zero i = update s i 0
safestrcpy_from s t (suc n) i =
    let more = safestrcpy_from (update s i (t i)) t n (i + 1) in
    if t i == 0 then update (update s i (t i)) (i + 1) 0 else more

unfoldable pub safestrcpy : (ℕ → ℕ) → (ℕ → ℕ) → ℕ → ℕ → ℕ
unfolding safestrcpy_from
safestrcpy s t zero = s
safestrcpy s t (suc n) = safestrcpy_from s t n 0

-- The loop of `strlen` from offset `n` on; `none` when no NUL is met within the fuel.
unfoldable pub strlen : (ℕ → ℕ) → ℕ → ℕ → Option ℕ
strlen s n zero = none
strlen s n (suc fuel) = let more = strlen s (n + 1) fuel in if s n == 0 then some n else more
