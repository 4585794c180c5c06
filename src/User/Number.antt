-- ===== src/User/Number.antt =====
-- Decimal numbers of the user programs: `printint` (printf.c) and `atoi` (ulib.c). A C text is the
-- list of its bytes before the NUL.
pub mod Print
mod Tests
use ducko_unix.Prelude.{
  ℕ, zero, suc, ◌+◌, ◌-◌, ◌*◌, ◌/◌, ◌%◌, ltb, leb, ◌==◌, Bool, true, false, ◌&&◌, List, [], ◌∷◌,
  ◌++◌, if◌then◌else◌, length,
}
use ducko_unix.Prelude.Int.{ℤ, pos, negsuc}

-- "0123456789ABCDEF"
unfoldable pub digit : ℕ → ℕ
digit d = if ltb d 10 then 48 + d else 55 + d

-- The `do` loop of `printint`: what it puts into `buf`, lowest digit first. The buffer has 16
-- places, and the fuel is their number.
unfoldable pub digits_from : ℕ → ℕ → ℕ → List ℕ
unfolding digit
digits_from zero base x = []
digits_from (suc fuel) base x =
    let rest = digits_from fuel base (x / base) in
    digit (x % base) ∷ (if x / base == 0 then [] else rest)

-- The last loop writes `buf` from its end; `out` is what it has still to write behind the list.
unfoldable pub reversed_onto : List ℕ → List ℕ → List ℕ
reversed_onto [] out = out
reversed_onto (c ∷ buf) out = reversed_onto buf (c ∷ out)

-- What `printint` writes; `xx` is the 32 bits of the `int`.
unfoldable pub printint : ℕ → ℕ → Bool → List ℕ
unfolding digits_from reversed_onto
printint xx base sgn =
    let neg = sgn && leb 2147483648 xx in
    let x = if neg then 4294967296 - xx else xx in
    reversed_onto (digits_from 16 base x ++ (if neg then 45 ∷ [] else [])) []

-- The loop of `atoi`; `n` is the bits of its `int`.
unfoldable pub atoi_from : ℕ → List ℕ → ℕ
atoi_from n [] = n
atoi_from n (c ∷ s) =
    let rest = atoi_from ((n * 10 + c + 4294967248) % 4294967296) s in
    if leb 48 c && leb c 57 then rest else n

unfoldable pub atoi : List ℕ → ℕ
unfolding atoi_from
atoi s = atoi_from 0 s
