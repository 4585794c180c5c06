-- ===== src/Log/Absorb.antt =====
-- `log_write` is an update of the blocks that the group wants, and lists each block once (log.c).
use ducko_unix.Prelude.{
  ℕ, zero, suc, ◌+◌, ◌<◌, ◌≤◌, ◌==◌, ◌≡◌, ◌≢◌, refl, inl, inr, Bool, true, false, ◌||◌,
  if◌then◌else◌, update, arith, Bool-cases, some, done,
}
use ducko_unix.Log.{Log, Block, contents}
use ducko_unix.Log.Disk.{IsHome, replay}
use ducko_unix.Log.WriteLog.{Pending, intended}
use ducko_unix.Log.Ops.{find_logged, log_write}

listed : (ℕ → ℕ) → ℕ → ℕ → Bool
listed block zero c = false
listed block (suc k) c = block k == c || listed block k c

listed_cong : (f g : ℕ → ℕ) (k c : ℕ) → ((i : ℕ) → i < k → f i ≡ g i) → listed f k c ≡ listed g k c
unfolding listed
listed_cong f g zero c h = refl
listed_cong f g (suc k) c h =
    ground (arith, h k (omega arith), listed_cong f g k c (λ i lt. h i (omega arith)))

listed_at : (f : ℕ → ℕ) (k r : ℕ) → r < k → listed f k (f r) ≡ true
unfolding listed
listed_at f zero r lt = absurd (omega arith)
listed_at f (suc k) r lt = elim (Bool-cases (r == k)) [
  | inl e ↦ ground arith
  | inr e ↦ ground (arith, listed_at f k r (ground arith))
]

-- Where the copies are a function of the block, the order of the list does not matter.
replay-listed :
    (block : ℕ → ℕ) (f home : ℕ → Block) (k c : ℕ)
    → replay block (λ i. f (block i)) home k c ≡ (if listed block k c then f c else home c)
unfolding listed
replay-listed block f home zero c = refl
replay-listed block f home (suc k) c = ground (arith, replay-listed block f home k c)

-- What the search of `log_write` finds.
record Found (block : ℕ → ℕ) (b k i r : ℕ) : Type 0 where
  lo : i ≤ r
  hi : r ≤ i + k
  hit : r < i + k → block r ≡ b
  first : (j : ℕ) → i ≤ j → j < r → block j ≢ b

find_logged-Found : (block : ℕ → ℕ) (b k i : ℕ) → Found block b k i (find_logged block b k i)
unfolding find_logged
find_logged-Found block b zero i = record {
  lo = omega arith;
  hi = omega arith;
  hit = λ h. absurd (omega arith);
  first = λ j lo hi. absurd (omega arith);
}
find_logged-Found block b (suc k) i =
    let rest = find_logged-Found block b k (suc i) in
    elim (Bool-cases (block i == b)) [
      | inl e ↦ rw e (record {
        lo = omega arith;
        hi = omega arith;
        hit = λ h. ground arith;
        first = λ j lo hi. absurd (omega arith);
      })
      | inr e ↦ rw e (record {
        lo = omega (arith, rest.lo);
        hi = omega (arith, rest.hi);
        hit = λ h. rest.hit (omega arith);
        first = λ j lo hi eq. elim (Bool-cases (i == j)) [
          | inl same ↦ ground arith
          | inr other ↦ rest.first j (ground arith) hi eq
        ];
      })
    ]

-- Each block is listed once.
abbrev pub IsDistinct : ℕ → (ℕ → ℕ) → Type 0
IsDistinct n block = (i j : ℕ) → i < j → j < n → block i ≢ block j

abbrev found : Log → ℕ → ℕ
found s b = find_logged s.block b s.n 0

abbrev after : Log → ℕ → Block → Log
after s b words = record s {
  cache = update s.cache b (some words);
  block = update s.block (found s b) b;
  n = if found s b == s.n then s.n + 1 else s.n;
}

log_write-after :
    (s : Log) {t : Log} (b : ℕ) (words : Block)
    → log_write s b words ≡ done t
    → (t ≡ after s b words) × (s.n + 1 < s.size)
unfolding log_write
log_write-after s b words e = ground arith

module _ (s : Log) (b : ℕ) (words : Block) where
  abbrev t : Log
  t = after s b words

  after-contents : (c : ℕ) → contents t c ≡ (if b == c then words else contents s c)
  after-contents c = ground arith

  after-block : (i : ℕ) → i < s.n → t.block i ≡ s.block i
  after-block i lt = let f = find_logged-Found s.block b s.n 0 in ground (arith, f.hit, f.hi)

  after-listed : (c : ℕ) → listed t.block t.n c ≡ (b == c || listed s.block s.n c)
  unfolding listed
  after-listed c =
      let f = find_logged-Found s.block b s.n 0 in
      let same = listed_cong t.block s.block s.n c after-block in
      ground (arith, f.hit, f.hi, same, listed_at s.block s.n (found s b))

  after-intended : (c : ℕ) → intended t c ≡ (if b == c then words else intended s c)
  after-intended c = ground (
    arith,
    replay-listed t.block (contents t) t.disk t.n c,
    replay-listed s.block (contents s) s.disk s.n c,
    after-listed c,
    after-contents c,
  )

  after-Pending : s.n + 1 < s.size → IsHome s.start s.size b → Pending s → Pending t
  after-Pending room hb q =
      let f = find_logged-Found s.block b s.n 0 in
      record {
        listed = record {
          room = ground arith;
          home = λ i lt. ground (arith, f.hi, q.listed.home i, after-block i);
        };
        clear = q.clear;
      }

  after-IsDistinct : IsDistinct s.n s.block → IsDistinct t.n t.block
  after-IsDistinct d i j lt hj =
      let f = find_logged-Found s.block b s.n 0 in
      ground (arith, f.hi, f.first i, d i j lt, after-block i, after-block j)

-- A `log_write` that does not panic makes the group want the new contents of its block and leaves
-- what it wants of all others; it writes nothing to the disk, keeps the list within the log and
-- outside of it, and lists each block once (log absorption).
pub log_write_lem :
    {s t : Log} (b : ℕ) (words : Block)
    → Pending s
    → IsDistinct s.n s.block
    → IsHome s.start s.size b
    → log_write s b words ≡ done t
    → Pending t
      × IsDistinct t.n t.block
      × (t.disk ≡ s.disk)
      × ((c : ℕ) → intended t c ≡ (if b == c then words else intended s c))
unfolding log_write
log_write_lem {s} {t} b words q d hb e =
    let (eq, room) = log_write-after s b words e in
    rw eq (
      after-Pending s b words room hb q,
      after-IsDistinct s b words d,
      refl,
      after-intended s b words,
    )
