-- ===== src/Fs/Lifetime/Put.antt =====
-- What `iput` (fs.c) gives up: a reference, and with the last one of an inode without links its
-- blocks and its number.
use ducko_unix.Prelude.{
  ℕ, suc, ◌<◌, ◌-◌, ◌==◌, ◌≡◌, ◌≢◌, refl, sym, ap, subst, ◌∙◌, true, false, ◌&&◌, none, some,
  if◌then◌else◌, get_elem?, get_elem?-modify_self, get_elem?-modify_ne, modify, done, arith, Bool,
  ◌⊎◌, Bool-cases, inl, inr,
}
use ducko_unix.Fs.FreeMap.{Super}
use ducko_unix.Fs.Icache.{Dinode, Inode, Fs, iupdate}
use ducko_unix.Fs.Content.{Body, maxfile}
use ducko_unix.Fs.Content.Slots.{slot, IsOwner}
use ducko_unix.Fs.Content.Freed.{IsFreed}
use ducko_unix.Fs.Content.Trunc.{itrunc_lem}
use ducko_unix.Fs.Lifetime.{Store, one_less, put_inode, retired, free_last, iput}

-- Nothing refers to the inode any more, here or on disk.
pub record IsGone (sb : Super) (i : ℕ) (ip : Inode) (s t : Store) : Type 0 where
  pub copy : Dinode
  pub entry : get_elem? t.fs.inodes i ≡ some (record ip { ref = 0; valid = false; copy = copy })
  pub saved : t.fs.disk ip.dev ip.inum ≡ copy
  pub is_free : copy.kind ≡ 0
  pub size : copy.size ≡ 0
  pub inodes : (d k : ℕ) → (d == ip.dev && k == ip.inum) ≡ false → t.fs.disk d k ≡ s.fs.disk d k
  pub freed : IsFreed sb (slot s.blocks ip.copy.addrs) 0 (suc maxfile) s.blocks t.blocks
  pub others : (j : ℕ) → i ≢ j → get_elem? t.fs.inodes j ≡ get_elem? s.fs.inodes j

iupdate_there :
    (i : ℕ) (ip : Inode) (s : Fs)
    → get_elem? s.inodes i ≡ some ip
    → iupdate i s ≡ record s {
      disk = λ dev inum. if dev == ip.dev && inum == ip.inum then ip.copy else s.disk dev inum;
    }
unfolding iupdate
iupdate_there i ip s there = rw (there, iupdate) refl

written_through :
    (i : ℕ) (ip : Inode) (t : Body) (s : Store)
    → get_elem? s.fs.inodes i ≡ some ip
    → (retired i ip t s).fs.inodes
        ≡ modify
            (modify s.fs.inodes i (λ ip. record ip { copy = record t.ip { kind = 0 } }))
            i
            (λ ip. record ip { valid = false })
      × ((d k : ℕ)
          → (retired i ip t s).fs.disk d k ≡ (
              if d == ip.dev && k == ip.inum
              then record t.ip { kind = 0 }
              else put_inode ip.dev ip.inum t.saved s.fs.disk d k))
unfolding retired
written_through i ip t s there =
    let e =
      get_elem?-modify_self s.fs.inodes i (λ ip. record ip { copy = record t.ip { kind = 0 } })
        there in
    rw
      (iupdate_there i (record ip { copy = record t.ip { kind = 0 } })
        (record {
          inodes = modify s.fs.inodes i (λ ip. record ip { copy = record t.ip { kind = 0 } });
          disk = put_inode ip.dev ip.inum t.saved s.fs.disk;
        })
        e)
      (refl, λ d k. refl)

retired_blocks : (i : ℕ) (ip : Inode) (b : Body) (s : Store) → (retired i ip b s).blocks ≡ b.disk
unfolding retired
retired_blocks i ip b s = refl

retired-IsGone :
    (sb : Super) (i : ℕ) (ip : Inode) (b : Body) (s : Store)
    → get_elem? s.fs.inodes i ≡ some ip
    → ip.ref ≡ 1
    → b.ip.size ≡ 0
    → IsFreed sb (slot s.blocks ip.copy.addrs) 0 (suc maxfile) s.blocks b.disk
    → IsGone sb i ip s (record (retired i ip b s) {
      fs = record (retired i ip b s).fs { inodes = modify (retired i ip b s).fs.inodes i one_less };
    })
retired-IsGone sb i ip b s there one size freed =
    let c : Dinode = record b.ip { kind = 0 } in
    let (list, disk) = written_through i ip b s there in
    let e = get_elem?-modify_self s.fs.inodes i (λ ip. record ip { copy = c }) there in
    let e' =
      get_elem?-modify_self (modify s.fs.inodes i (λ ip. record ip { copy = c })) i
        (λ ip. record ip { valid = false }) e in
    let e'' =
      get_elem?-modify_self
        (modify (modify s.fs.inodes i (λ ip. record ip { copy = c })) i
          (λ ip. record ip { valid = false }))
        i one_less e' in
    let none_left : ip.ref - 1 ≡ 0 = omega (arith, one) in
    let same : (ip.dev == ip.dev && ip.inum == ip.inum) ≡ true = ground arith in
    record {
      copy = c;
      entry =
          ap (λ ips. get_elem? (modify ips i one_less) i) list
          ∙ e''
          ∙ ap (λ r. some (record ip { ref = r; valid = false; copy = c })) none_left;
      saved = disk ip.dev ip.inum ∙ rw same refl;
      is_free = refl;
      size = size;
      inodes = λ d k other. disk d k ∙ rw other refl;
      freed =
          subst (λ d. IsFreed sb (slot s.blocks ip.copy.addrs) 0 (suc maxfile) s.blocks d)
            (sym (retired_blocks i ip b s)) freed;
      others = λ j ne.
          ap (λ ips. get_elem? (modify ips i one_less) j) list
          ∙ get_elem?-modify_ne
              (modify (modify s.fs.inodes i (λ ip. record ip { copy = c })) i
                (λ ip. record ip { valid = false }))
              one_less ne
          ∙ get_elem?-modify_ne (modify s.fs.inodes i (λ ip. record ip { copy = c }))
              (λ ip. record ip { valid = false }) ne
          ∙ get_elem?-modify_ne s.fs.inodes (λ ip. record ip { copy = c }) ne;
    }

free_last-IsGone :
    (sb : Super) (i : ℕ) (ip : Inode) (s : Store)
    → get_elem? s.fs.inodes i ≡ some ip
    → ip.ref ≡ 1
    → IsOwner sb s.blocks (slot s.blocks ip.copy.addrs)
    → (t : Store) × (free_last sb i ip s ≡ done t)
      × IsGone sb i ip s (record t { fs = record t.fs { inodes = modify t.fs.inodes i one_less } })
unfolding free_last
free_last-IsGone sb i ip s there one v =
    let body : Body = record { ip = ip.copy; disk = s.blocks; saved = s.fs.disk ip.dev ip.inum } in
    let (t, eq, freed, size, slots, synced) = itrunc_lem sb body v in
    (retired i ip t s, rw eq refl, retired-IsGone sb i ip t s there one size freed)

-- One reference less, and nothing else.
pub record IsReleased (i : ℕ) (ip : Inode) (s t : Store) : Type 0 where
  pub entry : get_elem? t.fs.inodes i ≡ some (record ip { ref = ip.ref - 1 })
  pub others : (j : ℕ) → i ≢ j → get_elem? t.fs.inodes j ≡ get_elem? s.fs.inodes j
  pub disk : t.fs.disk ≡ s.fs.disk
  pub blocks : t.blocks ≡ s.blocks

abbrev pub is_last : Inode → Bool
is_last ip = ip.valid && ip.copy.nlink == 0 && ip.ref == 1

-- `iput` of an inode with a reference, whose lock is free, which owns its blocks if it is to go:
-- the last reference to a valid inode without links frees all its blocks, and its number on disk;
-- any other call only takes one reference away. It does not panic, and no other entry of the cache
-- changes.
pub iput_lem :
    (sb : Super) (i : ℕ) (ip : Inode) (s : Store)
    → get_elem? s.fs.inodes i ≡ some ip
    → ip.holder ≡ none
    → 0 < ip.ref
    → (is_last ip ≡ true → IsOwner sb s.blocks (slot s.blocks ip.copy.addrs))
    → (t : Store) × (iput sb i s ≡ done (some t))
      × (((is_last ip ≡ true) × IsGone sb i ip s t) ⊎ ((is_last ip ≡ false) × IsReleased i ip s t))
unfolding iput
iput_lem sb i ip s there unlocked held owner = elim (Bool-cases (is_last ip)) [
  | inl last ↦
      let (t, eq, gone) = free_last-IsGone sb i ip s there (ground (arith, last)) (owner last) in
      (
        record t { fs = record t.fs { inodes = modify t.fs.inodes i one_less } },
        rw (there, unlocked, last, eq, iput) refl,
        inl (last, gone),
      )
  | inr more ↦ (
    record s { fs = record s.fs { inodes = modify s.fs.inodes i one_less } },
    rw (there, unlocked, more, iput) refl,
    inr (
      more,
      record {
        entry = get_elem?-modify_self s.fs.inodes i one_less there;
        others = λ j ne. get_elem?-modify_ne s.fs.inodes one_less ne;
        disk = refl;
        blocks = refl;
      },
    ),
  )
]
