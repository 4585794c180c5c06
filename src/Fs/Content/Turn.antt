-- ===== src/Fs/Content/Turn.antt =====
-- One turn of the loop of `writei` (fs.c): the bytes of a block.
use ducko_unix.Prelude.{
  ℕ, zero, suc, ◌+◌, ◌-◌, ◌*◌, ◌/◌, ◌%◌, ◌<◌, ◌≤◌, ltb, leb, ◌==◌, ◌≡◌, ◌≢◌, refl, false, ◌&&◌,
  if◌then◌else◌, update, done, List, [], ◌∷◌, length, get_or, drop, arith, ap, ◌∙◌, sym, subst,
  Bool-cases, inl, inr, ne→==_false, ==_refl,
}
use ducko_unix.Fs.FreeMap.{Disk, Super, bblock}
use ducko_unix.Fs.FreeMap.Bits.{used}
use ducko_unix.Fs.Content.{bsize, ndirect, maxfile, Addrs, Mapped, bmap, splice, Body, chunk}
use ducko_unix.Fs.Content.Words.{count_same}
use ducko_unix.Fs.Content.Slots.{slot, IsOwner}
use ducko_unix.Fs.Content.Filled.{IsFilled}
use ducko_unix.Fs.Content.Read.{content, IsWhole, bmap_present}

-- A data block is written; the map and the indirect block are others.
slot_after :
    (sb : Super) (d : Disk) (addrs : Addrs) (k : ℕ) (f : ℕ → ℕ)
    → IsOwner sb d (slot d addrs)
    → k < maxfile
    → slot d addrs k ≢ 0
    → (i : ℕ) → slot (update d (slot d addrs k) f) addrs i ≡ slot d addrs i
slot_after sb d addrs k f v lt nz i = elim (Bool-cases (ltb i ndirect)) [
  | inl low ↦ rw low refl
  | inr high ↦ rw high (elim (Bool-cases (i == maxfile)) [
    | inl top ↦ rw top refl
    | inr mid ↦ rw mid (elim (Bool-cases (addrs ndirect == 0)) [
      | inl empty ↦ rw empty refl
      | inr full ↦
          let apart : slot d addrs k ≢ addrs ndirect =
            λ z. absurd (omega (arith, lt, v.apart k maxfile (omega arith) (omega arith) nz z)) in
          rw (ne→==_false (slot d addrs k) (addrs ndirect) apart, full) refl
    ])
  ])
]

IsOwner-same :
    (sb : Super) (d e : Disk) (blocks after : ℕ → ℕ)
    → IsOwner sb d blocks
    → ((m : ℕ) → m < sb.size → used sb e m ≡ used sb d m)
    → ((i : ℕ) → after i ≡ blocks i)
    → IsOwner sb e after
IsOwner-same sb d e blocks after v map same = record {
  map = λ m lt z. v.map m lt (sym (map (bblock sb m) (omega (arith, v.map_end, lt))) ∙ z);
  map_end = v.map_end;
  root = λ z. v.root (sym (map 0 (omega (arith, v.map_end))) ∙ z);
  words = v.words;
  inside = λ i le nz. omega (arith, same i, v.inside i le (λ z. nz (same i ∙ z)));
  marked = λ i le nz z.
      let nz' : blocks i ≢ 0 = λ z. nz (same i ∙ z) in
      v.marked i le nz'
        (sym (map (blocks i) (v.inside i le nz')) ∙ ap (λ b. used sb e b) (sym (same i)) ∙ z);
  apart = λ i j li lj nz z. v.apart i j li lj (λ z'. nz (same i ∙ z')) (sym (same i) ∙ z ∙ same j);
  no_map = λ i m le nz lt z. v.no_map i m le (λ z'. nz (same i ∙ z')) lt (z ∙ same i);
  room =
      let m =
        count_same (λ i. blocks i == 0) (λ i. after i == 0) (suc maxfile)
          (λ i _. ap (λ b. b == 0) (same i)) in
      let f =
        count_same (λ m. used sb d m == 0) (λ m. used sb e m == 0) sb.size
          (λ m lt. ap (λ u. u == 0) (map m lt)) in
      omega (arith, m, f, v.room);
}

IsOwner-after :
    (sb : Super) (d : Disk) (addrs : Addrs) (k : ℕ) (f : ℕ → ℕ)
    → IsOwner sb d (slot d addrs)
    → k < maxfile
    → slot d addrs k ≢ 0
    → IsOwner sb (update d (slot d addrs k) f) (slot (update d (slot d addrs k) f) addrs)
IsOwner-after sb d addrs k f v lt nz =
    IsOwner-same sb d (update d (slot d addrs k) f) (slot d addrs)
      (slot (update d (slot d addrs k) f) addrs) v
      (λ m small.
        rw
          (ne→==_false (slot d addrs k) (bblock sb m)
            (λ z. v.no_map k m (omega arith) nz small (sym z)))
          refl)
      (slot_after sb d addrs k f v lt nz)

abbrev pub later : ℕ → ℕ → ℕ
later a b = if ltb a b then b else a

-- `k` bytes of the source stand at `off`, in a file that had all its blocks below `size`.
pub record IsWritten (sb : Super) (size off : ℕ) (src : List ℕ) (k : ℕ) (s t : Body) : Type 0 where
  pub owner : IsOwner sb t.disk (slot t.disk t.ip.addrs)
  pub whole : IsWhole t.disk t.ip.addrs (later size (off + k))
  pub bytes :
      (p : ℕ)
      → p < later size (off + k)
      → content t.disk t.ip.addrs p ≡ (
          if leb off p && ltb p (off + k)
          then get_or src (p - off) 0
          else content s.disk s.ip.addrs p)
  pub kind_kept : t.ip.kind ≡ s.ip.kind
  pub size_kept : t.ip.size ≡ s.ip.size
  pub saved_kept : t.saved ≡ s.saved
  pub inside : off + k ≤ size → t.ip ≡ s.ip

pub get_or-drop : (src : List ℕ) (m i : ℕ) → get_or (drop m src) i 0 ≡ get_or src (m + i) 0
get_or-drop src zero i = ap (λ i. get_or src i 0) (let e : i ≡ 0 + i = omega arith in e)
get_or-drop [] (suc m) i = refl
get_or-drop (x ∷ src) (suc m) i =
    get_or-drop src m i
    ∙ ap (λ i. get_or (x ∷ src) i 0) (let e : suc (m + i) ≡ suc m + i = omega arith in e)

abbrev pub after_turn : Body → Mapped → ℕ → List ℕ → Body
after_turn s q off src = record s {
  ip = record s.ip { addrs = q.addrs };
  disk = update q.disk q.block (splice (q.disk q.block) (off % bsize) src (chunk off (length src)));
}

turn-IsWhole :
    (sb : Super) (size off k : ℕ) (d : Disk) (addrs : Addrs) (q : Mapped)
    → IsWhole d addrs size
    → size ≤ maxfile * bsize
    → off ≤ size
    → off % bsize + k ≤ bsize
    → off + k ≤ maxfile * bsize
    → IsFilled sb d addrs (off / bsize) q
    → IsWhole q.disk q.addrs (later size (off + k))
turn-IsWhole sb size off k d addrs q whole bound le fits small f i lt z =
    elim (Bool-cases (off / bsize == i)) [
      | inl at ↦
          let here : off / bsize ≡ i = ground (arith, at) in
          f.real (sym f.here ∙ ap (λ j. slot q.disk q.addrs j) here ∙ z)
      | inr apart ↦
          let before : i * bsize < size = ground (arith, lt, fits, le, apart) in
          whole i before (sym (f.same i (omega (arith, before, bound)) (ground (arith, apart))) ∙ z)
    ]

-- The bytes of the block that a turn writes.
near-bytes :
    (sb : Super) (size off k p : ℕ) (src : List ℕ) (d : Disk) (addrs : Addrs) (q : Mapped)
    → IsWhole d addrs size
    → size ≤ maxfile * bsize
    → off ≤ size
    → off % bsize + k ≤ bsize
    → IsFilled sb d addrs (off / bsize) q
    → p < later size (off + k)
    → off / bsize ≡ p / bsize
    → splice (q.disk q.block) (off % bsize) src k (p % bsize)
      ≡ (if leb off p && ltb p (off + k) then get_or src (p - off) 0 else content d addrs p)
near-bytes sb size off k p src d addrs q whole bound le fits f lt at =
    let test : (leb (off % bsize) (p % bsize) && ltb (p % bsize) (off % bsize + k))
        ≡ (leb off p && ltb p (off + k)) =
      ground (arith, at) in
    rw test (elim (Bool-cases (leb off p && ltb p (off + k))) [
      | inl within ↦
          let i : p % bsize - off % bsize ≡ p - off = ground (arith, at, within) in
          rw within (ap (λ i. get_or src i 0) i)
      | inr outside ↦
          let small : p < size = ground (arith, outside, lt, le) in
          let there = whole (off / bsize) (omega (arith, at, small)) in
          rw outside (
            ap (λ b. q.disk b (p % bsize)) (f.stays there)
            ∙ f.data_kept (off / bsize) (omega (arith, at, small, bound)) there (p % bsize)
            ∙ ap (λ b. d (slot d addrs b) (p % bsize)) at)
    ])

-- The bytes of the other blocks.
far-bytes :
    (sb : Super) (size off k p : ℕ) (src : List ℕ) (d : Disk) (addrs : Addrs) (q : Mapped)
    (g : ℕ → ℕ)
    → IsWhole d addrs size
    → size ≤ maxfile * bsize
    → off ≤ size
    → off % bsize + k ≤ bsize
    → off + k ≤ maxfile * bsize
    → IsFilled sb d addrs (off / bsize) q
    → p < later size (off + k)
    → off / bsize ≢ p / bsize
    → update q.disk q.block g (slot q.disk q.addrs (p / bsize)) (p % bsize)
      ≡ (if leb off p && ltb p (off + k) then get_or src (p - off) 0 else content d addrs p)
far-bytes sb size off k p src d addrs q g whole bound le fits top f lt at =
    let small : p < size = ground (arith, lt, le, fits, at) in
    let test : (leb off p && ltb p (off + k)) ≡ false = ground (arith, at, fits) in
    let there = whole (p / bsize) (omega (arith, small)) in
    let in_file : p / bsize < maxfile = omega (arith, small, bound) in
    let same = f.same (p / bsize) in_file at in
    let apart : q.block ≢ slot q.disk q.addrs (p / bsize) = λ z. at (
      f.owner.apart (off / bsize) (p / bsize) (omega (arith, le, bound)) (omega (arith, in_file))
        (λ z'. f.real (sym f.here ∙ z')) (f.here ∙ z)) in
    rw (test, ne→==_false q.block (slot q.disk q.addrs (p / bsize)) apart)
      (ap (λ b. q.disk b (p % bsize)) same ∙ f.data_kept (p / bsize) in_file there (p % bsize))

bmap-inside :
    (sb : Super) (d : Disk) (addrs : Addrs) (bn : ℕ) (q : Mapped)
    → bn < maxfile
    → slot d addrs bn ≢ 0
    → bmap sb addrs bn d ≡ done q
    → q.addrs ≡ addrs
bmap-inside sb d addrs bn q lt there eq =
    let same : done q ≡ done (record { block = slot d addrs bn; addrs = addrs; disk = d }) =
      sym eq ∙ bmap_present sb d addrs bn lt there in
    cc same

pub turn-IsWritten :
    (sb : Super) (size off : ℕ) (src : List ℕ) (s : Body) (q : Mapped)
    → IsWhole s.disk s.ip.addrs size
    → size ≤ maxfile * bsize
    → off ≤ size
    → off + length src ≤ maxfile * bsize
    → 0 < length src
    → bmap sb s.ip.addrs (off / bsize) s.disk ≡ done q
    → IsFilled sb s.disk s.ip.addrs (off / bsize) q
    → IsWritten sb size off src (chunk off (length src)) s (after_turn s q off src)
turn-IsWritten sb size off src s q whole bound le small pos eq f =
    let nz : slot q.disk q.addrs (off / bsize) ≢ 0 = λ z. f.real (sym f.here ∙ z) in
    let k = chunk off (length src) in
    let g = splice (q.disk q.block) (off % bsize) src k in
    let e = update q.disk q.block g in
    let slots : (i : ℕ) → slot e q.addrs i ≡ slot q.disk q.addrs i = λ i.
      subst (λ b. slot (update q.disk b g) q.addrs i ≡ slot q.disk q.addrs i) f.here
        (slot_after sb q.disk q.addrs (off / bsize) g f.owner (omega arith) nz i) in
    record {
      owner =
          subst (λ b. IsOwner sb (update q.disk b g) (slot (update q.disk b g) q.addrs)) f.here
            (IsOwner-after sb q.disk q.addrs (off / bsize) g f.owner (omega arith) nz);
      whole = λ i lt z.
          turn-IsWhole sb size off k s.disk s.ip.addrs q whole bound le (omega arith) (omega arith)
            f i lt (sym (slots i) ∙ z);
      bytes = λ p lt.
          ap (λ b. e b (p % bsize)) (slots (p / bsize))
          ∙ elim (Bool-cases (off / bsize == p / bsize)) [
            | inl at ↦
                let here : off / bsize ≡ p / bsize = ground (arith, at) in
                let own : slot q.disk q.addrs (p / bsize) ≡ q.block =
                  ap (λ i. slot q.disk q.addrs i) (sym here) ∙ f.here in
                ap (λ b. e b (p % bsize)) own
                ∙ rw (==_refl q.block) (
                    near-bytes sb size off k p src s.disk s.ip.addrs q whole bound le (omega arith)
                      f lt here)
            | inr at ↦
                far-bytes sb size off k p src s.disk s.ip.addrs q g whole bound le (omega arith)
                  (omega arith) f lt (ground (arith, at))
          ];
      kind_kept = refl;
      size_kept = refl;
      saved_kept = refl;
      inside = λ fits.
          ap (λ a. record s.ip { addrs = a })
            (bmap-inside sb s.disk s.ip.addrs (off / bsize) q (omega arith)
              (whole (off / bsize) (omega arith)) eq);
    }
