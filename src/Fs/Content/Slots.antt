-- ===== src/Fs/Content/Slots.antt =====
-- The blocks of an inode: data blocks by their place in the file, and the indirect block as the
-- entry 140 (fs.c).
use ducko_unix.Prelude.{
  ℕ, suc, ◌+◌, ◌-◌, ◌/◌, ◌<◌, ◌≤◌, ltb, ◌==◌, ◌≡◌, ◌≢◌, ◌⊎◌, refl, if◌then◌else◌, arith, ap, ◌∙◌,
  sym, subst, Bool-cases, inl, inr, ne→==_false, ==_refl,
}
use ducko_unix.Fs.FreeMap.{Disk, Super, bpb, bblock}
use ducko_unix.Fs.FreeMap.Bits.{used}
use ducko_unix.Fs.FreeMap.Alloc.{IsMap}
use ducko_unix.Fs.Content.{ndirect, maxfile, get_word, Addrs}
use ducko_unix.Fs.Content.Words.{count, count_less}

abbrev pub slot : Disk → Addrs → ℕ → ℕ
slot d addrs i =
    if ltb i ndirect
    then addrs i
    else if i == maxfile
    then addrs ndirect
    else if addrs ndirect == 0
    then 0
    else get_word (d (addrs ndirect)) (i - ndirect)

-- The free blocks of the disk, and the entries of the inode that have no block.
abbrev pub free : Super → Disk → ℕ
free sb d = count (λ m. used sb d m == 0) sb.size

abbrev pub missing : (ℕ → ℕ) → ℕ
missing blocks = count (λ i. blocks i == 0) (suc maxfile)

-- The blocks of an inode are in bounds, marked used, each in one place, and none of them holds the
-- map; block 0 and the blocks of the map are used.
pub record IsOwner (sb : Super) (d : Disk) (blocks : ℕ → ℕ) : Type 0 where
  pub map : IsMap sb d
  pub map_end : sb.size / bpb + sb.bmapstart < sb.size
  pub root : used sb d 0 ≢ 0
  pub words : sb.size ≤ 4294967296
  pub inside : (i : ℕ) → i ≤ maxfile → blocks i ≢ 0 → blocks i < sb.size
  pub marked : (i : ℕ) → i ≤ maxfile → blocks i ≢ 0 → used sb d (blocks i) ≢ 0
  pub apart : (i j : ℕ) → i ≤ maxfile → j ≤ maxfile → blocks i ≢ 0 → blocks i ≡ blocks j → i ≡ j
  pub no_map : (i m : ℕ) → i ≤ maxfile → blocks i ≢ 0 → m < sb.size → bblock sb m ≢ blocks i
  -- there are free blocks for a file of the largest size
  pub room : missing blocks ≤ free sb d

-- The map after block `n` is taken.
abbrev pub Takes : Super → Disk → Disk → ℕ → Type 0
Takes sb d e n = (m : ℕ) → m < sb.size → used sb e m ≡ (if n == m then 1 else used sb d m)

old_or_new :
    (blocks after : ℕ → ℕ) (k n i : ℕ)
    → after i ≡ (if k == i then n else blocks i)
    → ((k ≡ i) × (after i ≡ n)) ⊎ ((k ≢ i) × (after i ≡ blocks i))
old_or_new blocks after k n i h = elim (Bool-cases (k == i)) [
  | inl e ↦ inl (ground (arith, e), h ∙ rw e refl)
  | inr e ↦ inr (ground (arith, e), h ∙ rw e refl)
]

stays :
    (sb : Super) (d e : Disk) (n m : ℕ)
    → Takes sb d e n
    → m < sb.size
    → used sb d m ≢ 0
    → used sb e m ≢ 0
stays sb d e n m takes lt was now = ground (arith, takes m lt)

-- The new block is none of the old ones.
pub fresh :
    (sb : Super) (d : Disk) (blocks : ℕ → ℕ) (n i : ℕ)
    → IsOwner sb d blocks
    → used sb d n ≡ 0
    → i ≤ maxfile
    → n ≢ 0
    → n ≢ blocks i
fresh sb d blocks n i v was le nz same =
    v.marked i le (λ z. nz (same ∙ z)) (ap (λ b. used sb d b) (sym same) ∙ was)

now_used : (sb : Super) (d e : Disk) (n : ℕ) → Takes sb d e n → n < sb.size → used sb e n ≢ 0
now_used sb d e n takes small z = ground (arith, takes n small, ==_refl n)

kept_room :
    (sb : Super) (d e : Disk) (blocks after : ℕ → ℕ) (k n : ℕ)
    → missing blocks ≤ free sb d
    → n < sb.size
    → used sb d n ≡ 0
    → Takes sb d e n
    → k ≤ maxfile
    → blocks k ≡ 0
    → ((i : ℕ) → i ≤ maxfile → after i ≡ (if k == i then n else blocks i))
    → n ≢ 0
    → missing after ≤ free sb e
kept_room sb d e blocks after k n room small was takes in_range empty new nz =
    let less =
      count_less (λ i. blocks i == 0) (λ i. after i == 0) (suc maxfile) k (omega arith)
        (rw empty refl) (rw (new k in_range, ==_refl k, ne→==_false n 0 nz) refl)
        (λ i lt ne. rw (new i (omega arith), ne→==_false k i ne) refl) in
    let taken =
      count_less (λ m. used sb d m == 0) (λ m. used sb e m == 0) sb.size n small (rw was refl)
        (rw (takes n small, ==_refl n) refl)
        (λ m lt ne. rw (takes m lt, ne→==_false n m ne) refl) in
    omega (arith, less, taken, room)

-- A block that was free, put into an entry that had none.
pub fill-IsOwner :
    (sb : Super) (d e : Disk) (blocks after : ℕ → ℕ) (k n : ℕ)
    → IsOwner sb d blocks
    → n < sb.size
    → used sb d n ≡ 0
    → Takes sb d e n
    → k ≤ maxfile
    → blocks k ≡ 0
    → ((i : ℕ) → i ≤ maxfile → after i ≡ (if k == i then n else blocks i))
    → IsOwner sb e after
fill-IsOwner sb d e blocks after k n v small was takes in_range empty new =
    let nz : n ≢ 0 = λ z. v.root (ap (λ b. used sb d b) (sym z) ∙ was) in
    let split = λ (i : ℕ) (le : i ≤ maxfile). old_or_new blocks after k n i (new i le) in
    record {
      map = λ m lt. stays sb d e n (bblock sb m) takes (omega (arith, v.map_end, lt)) (v.map m lt);
      map_end = v.map_end;
      root = stays sb d e n 0 takes (omega arith) v.root;
      words = v.words;
      inside = λ i le. elim (split i le) [
        | inl (at, is) ↦ λ anz. omega (arith, is, small)
        | inr (at, is) ↦ λ anz. omega (arith, is, v.inside i le (λ z. anz (is ∙ z)))
      ];
      marked = λ i le. elim (split i le) [
        | inl (at, is) ↦ λ anz z. now_used sb d e n takes small (ap (λ b. used sb e b) (sym is) ∙ z)
        | inr (at, is) ↦ λ anz.
            let nz' : blocks i ≢ 0 = λ z. anz (is ∙ z) in
            subst (λ b. used sb e b ≢ 0) (sym is)
              (stays sb d e n (blocks i) takes (v.inside i le nz') (v.marked i le nz'))
      ];
      apart = λ i j li lj. elim (split i li) [
        | inl (ai, is) ↦ elim (split j lj) [
          | inl (aj, js) ↦ λ anz same. omega arith
          | inr (aj, js) ↦
              λ anz same. absurd (fresh sb d blocks n j v was lj nz (sym is ∙ same ∙ js))
        ]
        | inr (ai, is) ↦ elim (split j lj) [
          | inl (aj, js) ↦
              λ anz same. absurd (fresh sb d blocks n i v was li nz (sym js ∙ sym same ∙ is))
          | inr (aj, js) ↦ λ anz same. v.apart i j li lj (λ z. anz (is ∙ z)) (sym is ∙ same ∙ js)
        ]
      ];
      no_map = λ i m le. elim (split i le) [
        | inl (at, is) ↦ λ anz lt same. v.map m lt (ap (λ b. used sb d b) (same ∙ is) ∙ was)
        | inr (at, is) ↦ λ anz lt same. v.no_map i m le (λ z. anz (is ∙ z)) lt (same ∙ is)
      ];
      room = kept_room sb d e blocks after k n v.room small was takes in_range empty new nz;
    }
