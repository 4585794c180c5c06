-- ===== src/Fs/Content/Filled.antt =====
-- `bmap` (fs.c) returns the block of a place in the file, and takes a new one where there is none.
use ducko_unix.Prelude.{
  ℕ, suc, ◌+◌, ◌-◌, ◌*◌, ◌<◌, ◌≤◌, ltb, ◌==◌, ◌≡◌, ◌≢◌, refl, true, false, if◌then◌else◌, update,
  done, arith, ap, ◌∙◌, sym, fun_ext, Bool-cases, inl, inr, ne→==_false, ==_refl,
}
use ducko_unix.Fs.FreeMap.{Disk, Super, balloc}
use ducko_unix.Fs.FreeMap.Bits.{used}
use ducko_unix.Fs.FreeMap.Alloc.{balloc_lem}
use ducko_unix.Fs.Content.{ndirect, maxfile, get_word, Addrs, Mapped, direct}
use ducko_unix.Fs.Content.Words.{count_some, count_none}
use ducko_unix.Fs.Content.Slots.{slot, IsOwner, Takes, fill-IsOwner, fresh}

-- What `balloc` does for an inode that has an empty entry.
pub record IsNew (sb : Super) (d e : Disk) (blocks : ℕ → ℕ) (n : ℕ) : Type 0 where
  pub inside : n < sb.size
  pub was_free : used sb d n ≡ 0
  pub takes : Takes sb d e n
  pub nonzero : n ≢ 0
  pub zeroed : (j : ℕ) → e n j ≡ 0
  pub kept : (i : ℕ) → i ≤ maxfile → blocks i ≢ 0 → (j : ℕ) → e (blocks i) j ≡ d (blocks i) j

pub balloc-IsNew :
    (sb : Super) (d : Disk) (blocks : ℕ → ℕ) (k : ℕ)
    → IsOwner sb d blocks
    → k ≤ maxfile
    → blocks k ≡ 0
    → (n : ℕ) × (e : Disk) × (balloc sb d ≡ done (n, e)) × IsNew sb d e blocks n
balloc-IsNew sb d blocks k v le empty = elim (balloc_lem sb d v.map) [
  | inr (_, full) ↦
      let some_missing =
        count_some (λ i. blocks i == 0) (suc maxfile) k (omega arith) (rw empty refl) in
      let none_free =
        count_none (λ m. used sb d m == 0) sb.size
          (λ m lt. ne→==_false (used sb d m) 0 (full m lt)) in
      absurd (omega (arith, some_missing, none_free, v.room))
  | inl (n, e, eq, t) ↦
      let nz : n ≢ 0 = λ z. v.root (ap (λ b. used sb d b) (sym z) ∙ t.was_free) in
      (
        n,
        e,
        eq,
        record {
          inside = t.inside;
          was_free = t.was_free;
          takes = t.map;
          nonzero = nz;
          zeroed = t.zeroed;
          kept = λ i le' bnz.
              t.others (blocks i) (fresh sb d blocks n i v t.was_free le' nz)
                (v.no_map i n le' bnz t.inside);
        },
      )
]

-- The entry `k` has the block of `q`; the other entries are as they were, and so are the blocks
-- with data.
pub record IsFilled (sb : Super) (d : Disk) (addrs : Addrs) (k : ℕ) (q : Mapped) : Type 0 where
  pub owner : IsOwner sb q.disk (slot q.disk q.addrs)
  pub here : slot q.disk q.addrs k ≡ q.block
  pub real : q.block ≢ 0
  pub same : (i : ℕ) → i < maxfile → k ≢ i → slot q.disk q.addrs i ≡ slot d addrs i
  pub stays : slot d addrs k ≢ 0 → q.block ≡ slot d addrs k
  pub data_kept :
      (i : ℕ)
      → i < maxfile
      → slot d addrs i ≢ 0
      → (j : ℕ) → q.disk (slot d addrs i) j ≡ d (slot d addrs i) j
  pub zeroed : slot d addrs k ≡ 0 → (j : ℕ) → q.disk q.block j ≡ 0

-- An entry that has its block.
pub present-IsFilled :
    (sb : Super) (d : Disk) (addrs : Addrs) (k b : ℕ)
    → IsOwner sb d (slot d addrs)
    → slot d addrs k ≡ b
    → b ≢ 0
    → IsFilled sb d addrs k (record { block = b; addrs = addrs; disk = d })
present-IsFilled sb d addrs k b v h nz = record {
  owner = v;
  here = h;
  real = nz;
  same = λ i lt ne. refl;
  stays = λ z. sym h;
  data_kept = λ i lt z j. refl;
  zeroed = λ z. absurd (nz (sym h ∙ z));
}

-- The indirect block keeps its words.
pub words_kept :
    (sb : Super) (d e : Disk) (addrs : Addrs) (n k : ℕ)
    → IsNew sb d e (slot d addrs) n
    → addrs ndirect ≢ 0
    → get_word (e (addrs ndirect)) k ≡ get_word (d (addrs ndirect)) k
words_kept sb d e addrs n k v nz =
    ap (λ bytes. get_word bytes k) (fun_ext (λ j. v.kept maxfile (omega arith) nz j))

slot-update_low :
    (sb : Super) (d e : Disk) (addrs : Addrs) (i n : ℕ)
    → i < ndirect
    → IsNew sb d e (slot d addrs) n
    → (j : ℕ) → slot e (update addrs i n) j ≡ (if i == j then n else slot d addrs j)
slot-update_low sb d e addrs i n lt v j =
    let apart : (i == ndirect) ≡ false = ground (arith, lt) in
    elim (Bool-cases (ltb j ndirect)) [
      | inl low ↦ rw low refl
      | inr high ↦
          let ne : (i == j) ≡ false = ground (arith, lt, high) in
          rw (high, apart, ne)
            (elim (Bool-cases (j == maxfile)) [
              | inl top ↦ rw top refl
              | inr mid ↦ rw mid (elim (Bool-cases (addrs ndirect == 0)) [
                | inl none ↦ rw none refl
                | inr some ↦ rw some (
                    words_kept sb d e addrs n (j - ndirect) v
                      (λ z. absurd (ground (arith, some, z))))
              ])
            ])
    ]

get_word-zero : (bytes : ℕ → ℕ) (k : ℕ) → ((j : ℕ) → bytes j ≡ 0) → get_word bytes k ≡ 0
unfolding get_word
get_word-zero bytes k h = rw (h (k * 4), h (k * 4 + 1), h (k * 4 + 2), h (k * 4 + 3)) refl

slot-update_root :
    (sb : Super) (d e : Disk) (addrs : Addrs) (n : ℕ)
    → addrs ndirect ≡ 0
    → IsNew sb d e (slot d addrs) n
    → (j : ℕ) → slot e (update addrs ndirect n) j ≡ (if maxfile == j then n else slot d addrs j)
slot-update_root sb d e addrs n empty v j = elim (Bool-cases (ltb j ndirect)) [
  | inl low ↦
      let ne : (ndirect == j) ≡ false = ground (arith, low) in
      let ne' : (maxfile == j) ≡ false = ground (arith, low) in rw (low, ne, ne') refl
  | inr high ↦ rw high (elim (Bool-cases (j == maxfile)) [
    | inl top ↦ let top' : (maxfile == j) ≡ true = ground (arith, top) in rw (top, top') refl
    | inr mid ↦
        let ne : (maxfile == j) ≡ false = ground (arith, mid) in
        rw (mid, ne, empty, ne→==_false n 0 v.nonzero) (get_word-zero (e n) (j - ndirect) v.zeroed)
  ])
]

-- A new block in an entry, once the entries after it are known.
pub new-IsFilled :
    (sb : Super) (d e : Disk) (addrs addrs' : Addrs) (k n : ℕ)
    → IsOwner sb d (slot d addrs)
    → k ≤ maxfile
    → slot d addrs k ≡ 0
    → n < sb.size
    → used sb d n ≡ 0
    → n ≢ 0
    → Takes sb d e n
    → ((j : ℕ) → slot e addrs' j ≡ (if k == j then n else slot d addrs j))
    → ((i : ℕ)
        → i < maxfile
        → slot d addrs i ≢ 0
        → (j : ℕ) → e (slot d addrs i) j ≡ d (slot d addrs i) j)
    → ((j : ℕ) → e n j ≡ 0)
    → IsFilled sb d addrs k (record { block = n; addrs = addrs'; disk = e })
new-IsFilled sb d e addrs addrs' k n v le empty inside was nz takes new kept zeroed = record {
  owner =
      fill-IsOwner sb d e (slot d addrs) (slot e addrs') k n v inside was takes le empty
        (λ i _. new i);
  here = new k ∙ rw (==_refl k) refl;
  real = nz;
  same = λ i lt ne. new i ∙ rw (ne→==_false k i ne) refl;
  stays = λ there. absurd (there empty);
  data_kept = kept;
  zeroed = λ _. zeroed;
}

pub direct-IsFilled :
    (sb : Super) (d : Disk) (addrs : Addrs) (i : ℕ)
    → IsOwner sb d (slot d addrs)
    → i < ndirect
    → (q : Mapped) × (direct sb addrs i d ≡ done q) × IsFilled sb d addrs i q
unfolding direct
direct-IsFilled sb d addrs i v lt =
    let low : ltb i ndirect ≡ true = ground (arith, lt) in
    let is : slot d addrs i ≡ addrs i = rw low refl in
    elim (Bool-cases (addrs i == 0)) [
      | inr there ↦ (
        record { block = addrs i; addrs = addrs; disk = d },
        rw there refl,
        present-IsFilled sb d addrs i (addrs i) v is (λ z. absurd (ground (arith, there, z))),
      )
      | inl none ↦
          let empty : slot d addrs i ≡ 0 = is ∙ ground (arith, none) in
          let (n, e, eq, new) = balloc-IsNew sb d (slot d addrs) i v (omega arith) empty in
          (
            record { block = n; addrs = update addrs i n; disk = e },
            rw (none, eq) refl,
            new-IsFilled sb d e addrs (update addrs i n) i n v (omega arith) empty new.inside
                new.was_free new.nonzero new.takes (slot-update_low sb d e addrs i n lt new)
                (λ i lt' there. new.kept i (omega arith) there) new.zeroed,
          )
    ]

pub root-IsFilled :
    (sb : Super) (d : Disk) (addrs : Addrs)
    → IsOwner sb d (slot d addrs)
    → (q : Mapped) × (direct sb addrs ndirect d ≡ done q) × IsFilled sb d addrs maxfile q
unfolding direct
root-IsFilled sb d addrs v = elim (Bool-cases (addrs ndirect == 0)) [
  | inr there ↦ (
    record { block = addrs ndirect; addrs = addrs; disk = d },
    rw there refl,
    present-IsFilled sb d addrs maxfile (addrs ndirect) v refl
        (λ z. absurd (ground (arith, there, z))),
  )
  | inl none ↦
      let empty : addrs ndirect ≡ 0 = ground (arith, none) in
      let (n, e, eq, new) = balloc-IsNew sb d (slot d addrs) maxfile v (omega arith) empty in
      (
        record { block = n; addrs = update addrs ndirect n; disk = e },
        rw (none, eq) refl,
        new-IsFilled sb d e addrs (update addrs ndirect n) maxfile n v (omega arith) empty
            new.inside new.was_free new.nonzero new.takes
            (slot-update_root sb d e addrs n empty new)
            (λ i lt' there. new.kept i (omega arith) there) new.zeroed,
      )
]
