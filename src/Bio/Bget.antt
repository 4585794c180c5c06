-- ===== src/Bio/Bget.antt =====
-- `bget` (bio.c): one copy of each block, and no buffer in use is given to another block.
use ducko_unix.Prelude.{
  ℕ, suc, get_elem?, subst, ◌+◌, ◌<◌, ◌≤◌, ◌==◌, ◌≡◌, ◌≢◌, refl, ◌⊎◌, inl, inr, false, ◌&&◌, List,
  [], ◌∷◌, if◌then◌else◌, arith, Bool-cases, some, none, done, panic, All, Option-cases,
}
use ducko_unix.Bio.{Buf, is_buf, is_unused, share, recycle, bget}

-- The buffers that claim to be the block's.
abbrev pub copies : ℕ → ℕ → List Buf → ℕ
copies d k [] = 0
copies d k (b ∷ bs) = (if is_buf d k b then 1 else 0) + copies d k bs

-- No device has the number 0, which is that of a buffer never used.
abbrev pub IsUnique : List Buf → Type 0
IsUnique bs = (d k : ℕ) → d ≢ 0 → copies d k bs ≤ 1

-- What a buffer may become while another is looked for: one that is referenced or dirty keeps its
-- block, contents, flags and lock, and loses no reference.
abbrev pub Kept : Buf → Buf → Type 0
Kept b b' =
    (b'.id ≡ b.id)
    × (((b.refcnt ≡ 0) × (b.dirty ≡ false))
        ⊎ ((b' ≡ record b { refcnt = b'.refcnt }) × (b.refcnt ≤ b'.refcnt)))

abbrev pub AllKept : List Buf → List Buf → Type 0
AllKept [] [] = Unit
AllKept [] (b ∷ bs) = ⊥
AllKept (b ∷ bs) [] = ⊥
AllKept (b ∷ bs) (b' ∷ bs') = Kept b b' × AllKept bs bs'

pub AllKept-refl : (bs : List Buf) → AllKept bs bs
AllKept-refl [] = tt
AllKept-refl (b ∷ bs) = ((refl, inr (refl, omega arith)), AllKept-refl bs)

share-none : (d k : ℕ) (bs : List Buf) → share d k bs ≡ none → copies d k bs ≡ 0
unfolding share
share-none d k [] e = refl
share-none d k (b ∷ bs) e = ground (arith, share-none d k bs)

-- The buffer `i` has the block, and a reference.
abbrev pub HasBlock : ℕ → ℕ → ℕ → List Buf → Type 0
HasBlock d k i bs =
    (j : ℕ) × (b : Buf) × (get_elem? bs j ≡ some b)
    × (b.id ≡ i)
    × (b.dev ≡ d)
    × (b.blockno ≡ k)
    × (0 < b.refcnt)

pushed : (d k i : ℕ) (b : Buf) (bs : List Buf) → HasBlock d k i bs → HasBlock d k i (b ∷ bs)
pushed d k i b bs (j, c, at, name, dev, block, held) = (suc j, c, at, name, dev, block, held)

-- A hit adds one reference to the first copy, and changes nothing else.
record Shared (d k : ℕ) (bs : List Buf) (r : ℕ × List Buf) : Type 0 where
  kept : AllKept bs r.1
  same : (d' k' : ℕ) → copies d' k' r.1 ≡ copies d' k' bs
  there : 0 < copies d k bs
  has : HasBlock d k r.0 r.1

share-Shared :
    (d k : ℕ) (bs : List Buf) (r : ℕ × List Buf) → share d k bs ≡ some r → Shared d k bs r
unfolding share
share-Shared d k [] r e = cc
share-Shared d k (b ∷ bs) r e = elim (Bool-cases (is_buf d k b)) [
  | inl hit ↦ record {
    kept = ground (arith, AllKept-refl bs);
    same = λ d' k'. ground arith;
    there = ground arith;
    has =
        let e : (b.id, record b { refcnt = b.refcnt + 1 } ∷ bs) ≡ r = ground arith in
        subst (λ r. HasBlock d k r.0 r.1) e
          (
            0,
            record b { refcnt = b.refcnt + 1 },
            refl,
            refl,
            ground arith,
            ground arith,
            omega arith,
          );
  }
  | inr miss ↦ elim (Option-cases (share d k bs)) [
    | inl gone ↦ ground arith
    | inr (q, hit) ↦
        let rest = share-Shared d k bs q hit in
        record {
          kept = ground (arith, rest.kept);
          same = λ d' k'. ground (arith, rest.same d' k');
          there = ground (arith, rest.there);
          has =
              let e : (q.0, b ∷ q.1) ≡ r = ground arith in
              subst (λ r. HasBlock d k r.0 r.1) e (pushed d k q.0 b q.1 rest.has);
        }
  ]
]

-- A recycled buffer was unused, and is the block's with one reference; the others stay.
record Recycled (d k : ℕ) (bs : List Buf) (r : ℕ × List Buf) : Type 0 where
  kept : AllKept bs r.1
  more : (d' k' : ℕ) → copies d' k' r.1 ≤ copies d' k' bs + (if d == d' && k == k' then 1 else 0)
  there : 0 < copies d k r.1
  has : HasBlock d k r.0 r.1

recycle-Recycled :
    (d k : ℕ) (bs : List Buf) (r : ℕ × List Buf) → recycle d k bs ≡ some r → Recycled d k bs r
unfolding recycle
recycle-Recycled d k [] r e = cc
recycle-Recycled d k (b ∷ bs) r e = elim (Option-cases (recycle d k bs)) [
  | inl gone ↦ record {
    kept = ground (arith, AllKept-refl bs);
    more = λ d' k'. ground arith;
    there = ground arith;
    has =
        let mine = record b { dev = d; blockno = k; valid = false; dirty = false; refcnt = 1 } in
        let e : (b.id, mine ∷ bs) ≡ r = ground arith in
        subst (λ r. HasBlock d k r.0 r.1) e (0, mine, refl, refl, refl, refl, omega arith);
  }
  | inr (q, hit) ↦
      let rest = recycle-Recycled d k bs q hit in
      record {
        kept = ground (arith, rest.kept);
        more = λ d' k'. ground (arith, rest.more d' k');
        there = ground (arith, rest.there);
        has =
            let e : (q.0, b ∷ q.1) ≡ r = ground arith in
            subst (λ r. HasBlock d k r.0 r.1) e (pushed d k q.0 b q.1 rest.has);
      }
]

recycle-none : (d k : ℕ) (bs : List Buf) → recycle d k bs ≡ none → All (λ b. is_unused b ≡ false) bs
unfolding recycle
recycle-none d k [] e = tt
recycle-none d k (b ∷ bs) e = ground (arith, recycle-none d k bs)

-- For a block of a device: `bget` returns a buffer that has it, with a reference, so that exactly
-- one buffer has the block and still no block has two; and every buffer that is referenced or dirty
-- keeps its block, contents, flags and lock, and loses no reference.
pub bget_lem :
    (d k : ℕ) (bs : List Buf) {i : ℕ} {bs' : List Buf}
    → d ≢ 0
    → IsUnique bs
    → bget d k bs ≡ done (i, bs')
    → IsUnique bs' × (copies d k bs' ≡ 1) × HasBlock d k i bs' × AllKept bs bs'
unfolding bget
bget_lem d k bs {i} {bs'} h u e = elim (Option-cases (share d k bs)) [
  | inl gone ↦ elim (Option-cases (recycle d k bs)) [
    | inl full ↦ ground arith
    | inr (r, hit) ↦
        let v = recycle-Recycled d k bs r hit in
        let none_there = share-none d k bs gone in
        let eq : r ≡ (i, bs') = ground arith in
        let one : (d' k' : ℕ) → d' ≢ 0 → copies d' k' bs' ≤ 1 =
          λ d' k' h'. ground (arith, v.more d' k', u d' k' h', eq, none_there) in
        (
          one,
          ground (arith, one d k h, v.there, eq),
          subst (λ r. HasBlock d k r.0 r.1) eq v.has,
          ground (arith, v.kept, eq),
        )
  ]
  | inr (r, hit) ↦
      let v = share-Shared d k bs r hit in
      let eq : r ≡ (i, bs') = ground arith in
      (
        λ d' k' h'. ground (arith, v.same d' k', u d' k' h', eq),
        ground (arith, v.same d k, u d k h, v.there, eq),
        subst (λ r. HasBlock d k r.0 r.1) eq v.has,
        ground (arith, v.kept, eq),
      )
]

-- `bget` panics only where the block has no buffer and every buffer is referenced or dirty.
pub bget-panic :
    (d k : ℕ) (bs : List Buf)
    → bget d k bs ≡ panic
    → (copies d k bs ≡ 0) × All (λ b. is_unused b ≡ false) bs
unfolding bget
bget-panic d k bs e = ground (arith, share-none d k bs, recycle-none d k bs)
