-- ===== src/Fs/Content/Read.antt =====
-- `readi` (fs.c) returns the bytes of the file.
use ducko_unix.Prelude.{
  ℕ, zero, suc, ◌+◌, ◌-◌, ◌*◌, ◌/◌, ◌%◌, ◌<◌, ◌≤◌, min, ltb, leb, ◌==◌, ◌≡◌, ◌≢◌, refl, true, false,
  ◌||◌, if◌then◌else◌, done, Option, none, some, List, ◌∷◌, ◌++◌, arith, ap, ◌∙◌, Bool-cases, inl,
  inr, ne→==_false, ◌>>=◌,
}
use ducko_unix.Fs.FreeMap.{Disk, Super}
use ducko_unix.Fs.Content.{
  bsize, ndirect, maxfile, nindirect, t_dev, get_word, Addrs, direct, indirect, bmap, slice, Body,
  chunk, read_loop, readi,
}
use ducko_unix.Fs.Content.Slots.{slot}

-- A place that has its block is looked up, and nothing changes.
pub bmap_present :
    (sb : Super) (d : Disk) (addrs : Addrs) (bn : ℕ)
    → bn < maxfile
    → slot d addrs bn ≢ 0
    → bmap sb addrs bn d ≡ done (record { block = slot d addrs bn; addrs = addrs; disk = d })
unfolding bmap direct indirect
bmap_present sb d addrs bn lt there = elim (Bool-cases (ltb bn ndirect)) [
  | inl low ↦
      let is : slot d addrs bn ≡ addrs bn = rw low refl in
      rw (low, ne→==_false (addrs bn) 0 (λ z. there (is ∙ z))) refl
  | inr high ↦
      let inside : ltb (bn - ndirect) nindirect ≡ true = ground (arith, lt) in
      let mid : (bn == maxfile) ≡ false = ground (arith, lt) in
      let root : (addrs ndirect == 0) ≡ false = elim (Bool-cases (addrs ndirect == 0)) [
        | inl empty ↦ absurd (there (rw (high, mid, empty) refl))
        | inr full ↦ full
      ] in
      let is : slot d addrs bn ≡ get_word (d (addrs ndirect)) (bn - ndirect) =
        rw (high, mid, root) refl in
      rw
        (
          high,
          inside,
          root,
          mid,
          ne→==_false (get_word (d (addrs ndirect)) (bn - ndirect)) 0 (λ z. there (is ∙ z)),
        )
        refl
]

-- The byte `p` of a file.
abbrev pub content : Disk → Addrs → ℕ → ℕ
content d addrs p = d (slot d addrs (p / bsize)) (p % bsize)

slice-append : (f : ℕ → ℕ) (o m k : ℕ) → slice f o m ++ slice f (o + m) k ≡ slice f o (m + k)
slice-append f o zero k = ap (λ o. slice f o k) (omega arith) ∙ ap (λ k. slice f o k) (omega arith)
slice-append f o (suc m) k =
    ap (λ o'. f o ∷ (slice f (o + 1) m ++ slice f o' k)) (omega arith)
    ∙ ap (λ l. f o ∷ l) (slice-append f (o + 1) m k)
    ∙ ap (λ n. slice f o n) (let e : suc (m + k) ≡ suc m + k = omega arith in e)

slice_same :
    (f g : ℕ → ℕ) (o o' m : ℕ)
    → ((i : ℕ) → i < m → f (o + i) ≡ g (o' + i))
    → slice f o m ≡ slice g o' m
slice_same f g o o' zero h = refl
slice_same f g o o' (suc m) h =
    let first : f o ≡ g o' =
      ap f (omega arith) ∙ h 0 (omega arith) ∙ ap g (let e : o' + 0 ≡ o' = omega arith in e) in
    let rest = slice_same f g (o + 1) (o' + 1) m (λ i lt.
      ap f (omega arith)
      ∙ h (i + 1) (omega arith)
      ∙ ap g (let e : o' + (i + 1) ≡ o' + 1 + i = omega arith in e)) in
    ap (λ l. f o ∷ l) rest ∙ ap (λ x. x ∷ slice g (o' + 1) m) first

-- Every block below the size is there.
abbrev pub IsWhole : Disk → Addrs → ℕ → Type 0
IsWhole d addrs size = (i : ℕ) → i * bsize < size → slot d addrs i ≢ 0

-- What one turn copies.
slice-chunk :
    (d : Disk) (addrs : Addrs) (off m : ℕ)
    → off % bsize + m ≤ bsize
    → slice (d (slot d addrs (off / bsize))) (off % bsize) m ≡ slice (content d addrs) off m
slice-chunk d addrs off m fits =
    slice_same (d (slot d addrs (off / bsize))) (content d addrs) (off % bsize) off m (λ i lt.
      let block : off / bsize ≡ (off + i) / bsize = omega arith in
      let place : off % bsize + i ≡ (off + i) % bsize = omega arith in
      ap (λ b. d (slot d addrs b) (off % bsize + i)) block
      ∙ ap (λ j. d (slot d addrs ((off + i) / bsize)) j) place)

read_loop_lem :
    (sb : Super) (fuel off n : ℕ) (s : Body)
    → IsWhole s.disk s.ip.addrs (off + n)
    → off + n ≤ maxfile * bsize
    → n ≤ fuel
    → read_loop sb fuel off n s ≡ done (slice (content s.disk s.ip.addrs) off n, s)
unfolding read_loop
read_loop_lem sb zero off n s whole small enough =
    ap (λ n. done (slice (content s.disk s.ip.addrs) off n, s)) (let e : 0 ≡ n = omega arith in e)
read_loop_lem sb (suc fuel) off n s whole small enough = elim (Bool-cases (n == 0)) [
  | inl stop ↦
      let e : 0 ≡ n = ground (arith, stop) in
      rw stop (ap (λ n. done (slice (content s.disk s.ip.addrs) off n, s)) e)
  | inr go ↦
      let m = chunk off n in
      let pos : 0 < n = ground (arith, go) in
      let found =
        bmap_present sb s.disk s.ip.addrs (off / bsize) (omega arith)
          (whole (off / bsize) (omega arith)) in
      let rest : read_loop sb fuel (off + m) (n - m) s
          ≡ done (slice (content s.disk s.ip.addrs) (off + m) (n - m), s) =
        read_loop_lem sb fuel (off + m) (n - m) s (λ i lt. whole i (omega arith)) (omega arith)
          (omega arith) in
      let all : m + (n - m) ≡ n = omega arith in
      rw (go, found, rest)
        (ap (λ l. done (l, s))
          (ap (λ l. l ++ slice (content s.disk s.ip.addrs) (off + m) (n - m))
              (slice-chunk s.disk s.ip.addrs off m (omega arith))
            ∙ slice-append (content s.disk s.ip.addrs) off m (n - m)
            ∙ ap (λ n. slice (content s.disk s.ip.addrs) off n) all))
]

-- On a file whose blocks are there, `readi` gives the bytes from `off` on, `n` of them or as many
-- as there are, changes nothing and does not panic; it gives -1 just where `off` is beyond the end
-- or `off + n` wraps around.
pub readi_lem :
    (devsw : ℕ → Option (ℕ → Option (List ℕ))) (sb : Super) (off n : ℕ) (s : Body)
    → s.ip.kind ≢ t_dev
    → IsWhole s.disk s.ip.addrs s.ip.size
    → s.ip.size ≤ maxfile * bsize
    → off < 4294967296
    → n < 4294967296
    → readi devsw sb off n s
      ≡ done (
        if ltb s.ip.size off || leb 4294967296 (off + n)
            then none
            else some (slice (content s.disk s.ip.addrs) off (min n (s.ip.size - off))),
        s,
      )
unfolding readi
readi_lem devsw sb off n s file whole small word word' =
    let wraps : ltb ((off + n) % 4294967296) off ≡ leb 4294967296 (off + n) = ground arith in
    rw (ne→==_false s.ip.kind t_dev file, wraps)
      (elim (Bool-cases (ltb s.ip.size off || leb 4294967296 (off + n))) [
        | inl bad ↦ rw bad refl
        | inr good ↦
            let k = if ltb s.ip.size (off + n) then s.ip.size - off else n in
            let le : off ≤ s.ip.size = ground (arith, good) in
            let is : k ≡ min n (s.ip.size - off) = ground (arith, le) in
            rw (good, is)
              (ap (λ m. m >>= λ r. done (some r.0, r.1))
                (read_loop_lem sb (min n (s.ip.size - off)) off (min n (s.ip.size - off)) s
                  (λ i lt. whole i (omega arith)) (omega arith) (omega arith)))
      ])
