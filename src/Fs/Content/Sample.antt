-- ===== src/Fs/Content/Sample.antt =====
-- A disk of 300 blocks, of which the first five are used and block 3 holds the map; an inode that
-- has block 4 as its first block, with eight bytes in it (fs.c).
use ducko_unix.Prelude.{
  ℕ, ◌<◌, ◌≤◌, ltb, ◌==◌, ◌≡◌, ◌≢◌, refl, false, if◌then◌else◌, arith, ap, ◌∙◌, sym, subst,
  Bool-cases, inl, inr,
}
use ducko_unix.Fs.Icache.{Dinode}
use ducko_unix.Fs.FreeMap.{Disk, Super, bit, bblock}
use ducko_unix.Fs.FreeMap.Bits.{used}
use ducko_unix.Fs.Content.{ndirect, maxfile, get_word, Body}
use ducko_unix.Fs.Content.Words.{count}
use ducko_unix.Fs.Content.Slots.{slot, IsOwner, free, missing}
use ducko_unix.Fs.Content.Read.{IsWhole}
use ducko_unix.Fs.Content.Write.{IsFile}

abbrev pub sb : Super
sb = record { size = 300; bmapstart = 3 }

abbrev pub disk : Disk
disk b i = if b == 3 then (if i == 0 then 31 else 0) else i

abbrev pub inode : Dinode
inode = record {
  kind = 2;
  major = 0;
  minor = 0;
  nlink = 1;
  size = 8;
  addrs = λ i. if i == 0 then 4 else 0;
}

abbrev pub file : Body
file = record { ip = inode; disk = disk; saved = inode }

abbrev pub blocks : ℕ → ℕ
blocks = slot disk inode.addrs

other_empty : (i : ℕ) → (i == 0) ≡ false → blocks i ≡ 0
other_empty i ne = elim (Bool-cases (ltb i ndirect)) [
  | inl low ↦ rw (low, ne) refl
  | inr high ↦ elim (Bool-cases (i == maxfile)) [
    | inl top ↦ rw (high, top) refl
    | inr mid ↦ rw (high, mid) refl
  ]
]

only_first : (i : ℕ) → blocks i ≢ 0 → 0 ≡ i
only_first i nz = elim (Bool-cases (i == 0)) [
  | inl at ↦ ground (arith, at)
  | inr ne ↦ absurd (nz (other_empty i ne))
]

first : (i : ℕ) → blocks i ≢ 0 → 4 ≡ blocks i
first i nz = ap blocks (only_first i nz)

used_0 : used sb disk 0 ≡ 1
unfolding bit
used_0 = refl

used_3 : used sb disk 3 ≡ 1
unfolding bit
used_3 = refl

used_4 : used sb disk 4 ≡ 1
unfolding bit
used_4 = refl

own_block : (m : ℕ) → m < sb.size → 3 ≡ bblock sb m
own_block m lt = omega arith

enough : missing blocks ≤ free sb disk
unfolding count bit get_word
enough = omega arith

pub file-IsOwner : IsOwner sb disk blocks
file-IsOwner = record {
  map = λ m lt.
      subst (λ b. used sb disk b ≢ 0) (own_block m lt) (λ z. absurd (omega (arith, z, used_3)));
  map_end = omega arith;
  root = λ z. absurd (omega (arith, z, used_0));
  words = omega arith;
  inside = λ i le nz. omega (arith, first i nz);
  marked = λ i le nz.
      subst (λ b. used sb disk b ≢ 0) (first i nz) (λ z. absurd (omega (arith, z, used_4)));
  apart = λ i j li lj nz same. sym (only_first i nz) ∙ only_first j (λ z. nz (same ∙ z));
  no_map = λ i m le nz lt same. absurd (omega (arith, own_block m lt, first i nz, same));
  room = enough;
}

pub file-IsWhole : IsWhole disk inode.addrs 8
file-IsWhole i lt z =
    let at : i ≡ 0 = omega arith in
    let four : blocks i ≡ 4 = ap blocks at in absurd (omega (arith, four, z))

pub file-IsFile : IsFile sb file
file-IsFile = record {
  owner = file-IsOwner;
  whole = file-IsWhole;
  bound = omega arith;
  synced = refl;
}
