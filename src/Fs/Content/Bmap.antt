-- ===== src/Fs/Content/Bmap.antt =====
-- `bmap` (fs.c) with the indirect block.
use ducko_unix.Prelude.{
  ℕ, ◌+◌, ◌-◌, ◌<◌, ◌≤◌, ltb, ◌==◌, ◌≡◌, ◌≢◌, refl, true, false, if◌then◌else◌, update, done, arith,
  ap, ◌∙◌, sym, subst, Bool-cases, inl, inr, ne→==_false, ==_refl,
}
use ducko_unix.Fs.FreeMap.{Disk, Super, bblock}
use ducko_unix.Fs.Content.{
  ndirect, maxfile, nindirect, get_word, put_word, Addrs, Mapped, indirect, bmap,
}
use ducko_unix.Fs.Content.Words.{get_word-put_word}
use ducko_unix.Fs.Content.Slots.{slot, IsOwner, Takes, fresh}
use ducko_unix.Fs.Content.Filled.{
  balloc-IsNew, IsFilled, present-IsFilled, words_kept, new-IsFilled, direct-IsFilled,
  root-IsFilled,
}

pub slot-indirect :
    (d : Disk) (addrs : Addrs) (b j : ℕ)
    → addrs ndirect ≡ b
    → b ≢ 0
    → ndirect ≤ j
    → j ≢ maxfile
    → slot d addrs j ≡ get_word (d b) (j - ndirect)
slot-indirect d addrs b j at nz lo hi =
    let high : ltb j ndirect ≡ false = ground (arith, lo) in
    rw (high, ne→==_false j maxfile hi, at, ne→==_false b 0 nz) refl

-- The disk after a new block is put into the word `k` of the indirect block `b`.
abbrev linked : Disk → ℕ → ℕ → ℕ → Disk
linked e b k n = update e b (put_word (e b) k n)

slot-linked :
    (d e : Disk) (addrs : Addrs) (b k n : ℕ)
    → addrs ndirect ≡ b
    → b ≢ 0
    → n < 4294967296
    → k < nindirect
    → ((i : ℕ) → get_word (e b) i ≡ get_word (d b) i)
    → (j : ℕ) → slot (linked e b k n) addrs j ≡ (if ndirect + k == j then n else slot d addrs j)
slot-linked d e addrs b k n at nz small lt kept j = elim (Bool-cases (ltb j ndirect)) [
  | inl low ↦ let ne : (ndirect + k == j) ≡ false = ground (arith, low) in rw (low, ne) refl
  | inr high ↦ elim (Bool-cases (j == maxfile)) [
    | inl top ↦
        let ne : (ndirect + k == j) ≡ false = ground (arith, top, lt) in rw (high, top, ne) refl
    | inr mid ↦
        let ne : j ≢ maxfile = λ z. absurd (ground (arith, mid, z)) in
        let le : ndirect ≤ j = ground (arith, high) in
        let place : (ndirect + k == j) ≡ (k == j - ndirect) = ground (arith, le) in
        slot-indirect (linked e b k n) addrs b j at nz le ne
        ∙ rw (==_refl b) (
            get_word-put_word (e b) k n (j - ndirect) small
            ∙ rw (place, slot-indirect d addrs b j at nz le ne, kept (j - ndirect)) refl)
  ]
]

used-linked :
    (sb : Super) (d e : Disk) (blocks : ℕ → ℕ) (i k n : ℕ)
    → IsOwner sb d blocks
    → i ≤ maxfile
    → blocks i ≢ 0
    → Takes sb d e n
    → Takes sb d (linked e (blocks i) k n) n
used-linked sb d e blocks i k n v le nz takes m lt =
    rw (ne→==_false (blocks i) (bblock sb m) (λ z. v.no_map i m le nz lt (sym z))) (takes m lt)

-- The second half of `bmap`, where `b` is the indirect block.
indirect-IsFilled :
    (sb : Super) (k : ℕ) (d : Disk) (addrs : Addrs) (b : ℕ)
    → IsOwner sb d (slot d addrs)
    → addrs ndirect ≡ b
    → b ≢ 0
    → k < nindirect
    → (q : Mapped) × (indirect sb k (record { block = b; addrs = addrs; disk = d }) ≡ done q)
      × IsFilled sb d addrs (ndirect + k) q
unfolding indirect
indirect-IsFilled sb k d addrs b v at nz lt =
    let is : slot d addrs (ndirect + k) ≡ get_word (d b) k =
      slot-indirect d addrs b (ndirect + k) at nz (omega arith) (omega arith)
      ∙ ap (λ i. get_word (d b) i) (omega arith) in
    elim (Bool-cases (get_word (d b) k == 0)) [
      | inr there ↦ (
        record { block = get_word (d b) k; addrs = addrs; disk = d },
        rw there refl,
        present-IsFilled sb d addrs (ndirect + k) (get_word (d b) k) v is
            (λ z. absurd (ground (arith, there, z))),
      )
      | inl none ↦
          let empty : slot d addrs (ndirect + k) ≡ 0 = is ∙ ground (arith, none) in
          let (n, e, eq, new) =
            balloc-IsNew sb d (slot d addrs) (ndirect + k) v (omega arith) empty in
          let nz' : addrs ndirect ≢ 0 = λ z. nz (sym at ∙ z) in
          let far : b ≢ n = λ z.
            fresh sb d (slot d addrs) n maxfile v new.was_free (omega arith) new.nonzero
              (sym z ∙ sym at) in
          (
            record { block = n; addrs = addrs; disk = linked e b k n },
            rw (none, eq) refl,
            new-IsFilled sb d (linked e b k n) addrs addrs (ndirect + k) n v (omega arith) empty
                new.inside new.was_free new.nonzero
                (subst (λ b. Takes sb d (linked e b k n) n) at
                  (used-linked sb d e (slot d addrs) maxfile k n v (omega arith) nz' new.takes))
                (slot-linked d e addrs b k n at nz (omega (arith, new.inside, v.words)) lt (
                  subst (λ b. (i : ℕ) → get_word (e b) i ≡ get_word (d b) i) at
                    (λ i. words_kept sb d e addrs n i new nz')))
                (λ i lt' there j.
                  let apart : b ≢ slot d addrs i = λ z. absurd (
                    omega
                      (arith, lt', v.apart maxfile i (omega arith) (omega arith) nz' (at ∙ z))) in
                  rw (ne→==_false b (slot d addrs i) apart) (new.kept i (omega arith) there j))
                (λ j. rw (ne→==_false b n far) (new.zeroed j)),
          )
    ]

-- First the indirect block, then the block of the data.
both-IsFilled :
    (sb : Super) (d : Disk) (addrs : Addrs) (k : ℕ) (q r : Mapped)
    → k < maxfile
    → IsFilled sb d addrs maxfile q
    → IsFilled sb q.disk q.addrs k r
    → IsFilled sb d addrs k r
both-IsFilled sb d addrs k q r lt f g =
    let was : slot q.disk q.addrs k ≡ slot d addrs k = f.same k lt (omega arith) in
    record {
      owner = g.owner;
      here = g.here;
      real = g.real;
      same = λ i lt' ne. g.same i lt' ne ∙ f.same i lt' (omega arith);
      stays = λ z. g.stays (λ z'. z (sym was ∙ z')) ∙ was;
      data_kept = λ i lt' nz j.
          let was' = f.same i lt' (omega arith) in
          ap (λ b. r.disk b j) (sym was')
          ∙ g.data_kept i lt' (λ z. nz (sym was' ∙ z)) j
          ∙ ap (λ b. q.disk b j) was'
          ∙ f.data_kept i lt' nz j;
      zeroed = λ z. g.zeroed (was ∙ z);
    }

-- Where the disk has room for a file of the largest size, `bmap` does not panic: it returns the
-- block of the place `bn`, which is as it was where there was one and a zeroed block that nothing
-- else had where there was none; the other places keep their blocks, the blocks their data, and
-- the inode stays the only owner of its blocks.
pub bmap_lem :
    (sb : Super) (d : Disk) (addrs : Addrs) (bn : ℕ)
    → IsOwner sb d (slot d addrs)
    → bn < maxfile
    → (q : Mapped) × (bmap sb addrs bn d ≡ done q) × IsFilled sb d addrs bn q
unfolding bmap
bmap_lem sb d addrs bn v lt = elim (Bool-cases (ltb bn ndirect)) [
  | inl low ↦
      let (q, eq, f) = direct-IsFilled sb d addrs bn v (ground (arith, low)) in
      (q, rw (low, eq) refl, f)
  | inr high ↦
      let inside : ltb (bn - ndirect) nindirect ≡ true = ground (arith, lt) in
      let place : ndirect + (bn - ndirect) ≡ bn = ground (arith, high) in
      let (q, eq, f) = root-IsFilled sb d addrs v in
      let (r, eq', g) =
        indirect-IsFilled sb (bn - ndirect) q.disk q.addrs q.block f.owner f.here f.real
          (omega (arith, lt, place)) in
      (
        r,
        rw (high, inside, eq) eq',
        both-IsFilled sb d addrs bn q r lt f (subst (λ k. IsFilled sb q.disk q.addrs k r) place g),
      )
]
