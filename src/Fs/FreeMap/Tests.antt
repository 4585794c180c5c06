-- ===== src/Fs/FreeMap/Tests.antt =====
-- A disk of eight blocks, of which the first five are used and block 3 holds the map.
use ducko_unix.Prelude.{
  some, ℕ, ◌<◌, ◌≡◌, ◌≢◌, ◌==◌, refl, arith, subst, sym, ◌⊎◌, done, panic, if◌then◌else◌,
}
use ducko_unix.Fs.FreeMap.{bit, Disk, Super, bblock, balloc, scan, scan_blocks}
use ducko_unix.Fs.FreeMap.Bits.{used}
use ducko_unix.Fs.FreeMap.Alloc.{IsMap, IsTaken, balloc_lem}

abbrev sb : Super
sb = record { size = 8; bmapstart = 3 }

abbrev disk : Disk
disk b i = if b == 3 then (if i == 0 then 31 else 0) else 7

own_used : used sb disk 3 ≡ 1
unfolding bit
own_used = refl

disk-IsMap : IsMap sb disk
disk-IsMap m small =
    let own : bblock sb m ≡ 3 = omega arith in
    subst (λ k. used sb disk k ≢ 0) (sym own) (λ e. absurd (omega (arith, e, own_used)))

first_free : scan_blocks sb disk 0 1 ≡ some 5
unfolding scan_blocks scan bit
first_free = refl

balloc_lem_example :
    ((n : ℕ) × (e : Disk) × (balloc sb disk ≡ done (n, e)) × IsTaken sb disk e n)
    ⊎ ((balloc sb disk ≡ panic) × ((m : ℕ) → m < sb.size → used sb disk m ≢ 0))
balloc_lem_example = balloc_lem sb disk disk-IsMap
