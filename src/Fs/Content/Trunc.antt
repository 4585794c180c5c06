-- ===== src/Fs/Content/Trunc.antt =====
-- `itrunc` (fs.c) frees the blocks of an inode, and no others.
use ducko_unix.Prelude.{
  ℕ, suc, ◌+◌, ◌<◌, ◌≤◌, ltb, leb, ◌==◌, ◌≡◌, ◌≢◌, refl, true, false, done, arith, ap, ◌∙◌, sym,
  Bool-cases, inl, inr, ne→==_false,
}
use ducko_unix.Fs.FreeMap.{Disk, Super, bfree}
use ducko_unix.Fs.Content.{
  ndirect, nindirect, maxfile, get_word, Addrs, Body, free_one, free_all, free_indirect, emptied,
  itrunc,
}
use ducko_unix.Fs.Content.Slots.{slot, IsOwner}
use ducko_unix.Fs.Content.Bmap.{slot-indirect}
use ducko_unix.Fs.Content.Freed.{
  IsFreed, IsTidy, none-IsFreed, free_one-IsFreed, rest-IsTidy, both-IsFreed, start-IsTidy,
  free_all-IsFreed, free_all_same,
}

slots-IsTidy :
    (sb : Super) (d : Disk) (addrs : Addrs)
    → IsOwner sb d (slot d addrs)
    → IsTidy sb (slot d addrs) 0 (suc maxfile) d
slots-IsTidy sb d addrs v = record {
  marked = λ j l h. v.marked j (omega arith);
  apart = λ j k l h l' h'. v.apart j k (omega arith) (omega arith);
}

slot-direct : (d : Disk) (addrs : Addrs) (j : ℕ) → j < ndirect → slot d addrs j ≡ addrs j
slot-direct d addrs j lt = let low : ltb j ndirect ≡ true = ground (arith, lt) in rw low refl

slot-empty :
    (d : Disk) (addrs : Addrs) (j : ℕ) → ndirect ≤ j → addrs ndirect ≡ 0 → slot d addrs j ≡ 0
slot-empty d addrs j le z =
    let high : ltb j ndirect ≡ false = ground (arith, le) in
    let empty : (addrs ndirect == 0) ≡ true = rw z refl in
    elim (Bool-cases (j == maxfile)) [
      | inl top ↦ rw (high, top) z
      | inr mid ↦ rw (high, mid, empty) refl
    ]

free_one_there : (sb : Super) (b : ℕ) (d : Disk) → b ≢ 0 → free_one sb b d ≡ bfree sb b d
unfolding free_one
free_one_there sb b d nz = rw (ne→==_false b 0 nz) refl

-- The indirect block, whose words are the entries from 12 to 139.
free_indirect-IsFreed :
    (sb : Super) (c d : Disk) (addrs : Addrs)
    → IsTidy sb (slot c addrs) ndirect (suc maxfile) d
    → (addrs ndirect ≢ 0 → d (addrs ndirect) ≡ c (addrs ndirect))
    → (e : Disk) × (free_indirect sb (addrs ndirect) d ≡ done e)
      × IsFreed sb (slot c addrs) ndirect (suc maxfile) d e
unfolding free_indirect
free_indirect-IsFreed sb c d addrs v same = elim (Bool-cases (addrs ndirect == 0)) [
  | inl empty ↦ (
    d,
    rw empty refl,
    none-IsFreed sb (slot c addrs) ndirect (suc maxfile) d
        (λ j l h. slot-empty c addrs j l (ground (arith, empty))),
  )
  | inr full ↦
      let nz : addrs ndirect ≢ 0 = λ z. absurd (ground (arith, full, z)) in
      let blocks = slot c addrs in
      let (e, eq, w) =
        free_all-IsFreed sb blocks ndirect nindirect d
          (start-IsTidy sb blocks ndirect maxfile (suc maxfile) d (omega arith) v) in
      let words : free_all sb (get_word (d (addrs ndirect))) 0 nindirect d ≡ done e =
        free_all_same sb (get_word (d (addrs ndirect))) blocks ndirect 0 nindirect d (λ j l h.
          ap (λ bytes. get_word bytes j) (same nz)
          ∙ sym (
              slot-indirect c addrs (addrs ndirect) (ndirect + j) refl nz (omega arith)
                (omega arith)
              ∙ ap (λ i. get_word (c (addrs ndirect)) i) (omega arith)))
        ∙ eq in
      let last =
        rest-IsTidy sb blocks ndirect maxfile (suc maxfile) d e (omega arith) (omega arith) v w in
      let (g, eq', x) = free_one-IsFreed sb blocks maxfile (suc maxfile) e (omega arith) last in
      (
        g,
        rw (full, words) (sym (free_one_there sb (addrs ndirect) e nz) ∙ eq'),
        both-IsFreed sb blocks ndirect maxfile (suc maxfile) d e g (omega arith) (omega arith) v w
            x,
      )
]

-- `itrunc` of an inode that owns its blocks does not panic: all its blocks are free after it, those
-- of the indirect block and the indirect block itself included, no other block changes its state,
-- and the inode has size 0, no blocks, and is on disk as in memory.
pub itrunc_lem :
    (sb : Super) (s : Body)
    → IsOwner sb s.disk (slot s.disk s.ip.addrs)
    → (t : Body) × (itrunc sb s ≡ done t)
      × IsFreed sb (slot s.disk s.ip.addrs) 0 (suc maxfile) s.disk t.disk
      × (t.ip.size ≡ 0)
      × ((i : ℕ) → i ≤ maxfile → slot t.disk t.ip.addrs i ≡ 0)
      × (t.saved ≡ t.ip)
unfolding itrunc
itrunc_lem sb s v =
    let blocks = slot s.disk s.ip.addrs in
    let tidy = slots-IsTidy sb s.disk s.ip.addrs v in
    let (d, eq, w) =
      free_all-IsFreed sb blocks 0 ndirect s.disk
        (start-IsTidy sb blocks 0 ndirect (suc maxfile) s.disk (omega arith) tidy) in
    let first : free_all sb s.ip.addrs 0 ndirect s.disk ≡ done d =
      free_all_same sb s.ip.addrs blocks 0 0 ndirect s.disk (λ j l h. sym (
        ap blocks (let e : 0 + j ≡ j = omega arith in e)
        ∙ slot-direct s.disk s.ip.addrs j (omega arith)))
      ∙ eq in
    let rest =
      rest-IsTidy sb blocks 0 ndirect (suc maxfile) s.disk d (omega arith) (omega arith) tidy w in
    let (e, eq', x) = free_indirect-IsFreed sb s.disk d s.ip.addrs rest (λ nz.
      w.others (s.ip.addrs ndirect) (λ j l h nz' z.
        v.no_map maxfile (blocks j) (omega arith) nz (v.inside j (omega arith) nz') z)) in
    (
      emptied s e,
      rw (first, eq') refl,
      both-IsFreed sb blocks 0 ndirect (suc maxfile) s.disk d e (omega arith) (omega arith) tidy w
          x,
      refl,
      λ i le. elim (Bool-cases (ltb i ndirect)) [
        | inl low ↦
            let in_addrs : leb i ndirect ≡ true = ground (arith, low) in rw (low, in_addrs) refl
        | inr high ↦ slot-empty e (emptied s e).ip.addrs i (ground (arith, high)) refl
      ],
      refl,
    )
