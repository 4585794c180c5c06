-- ===== src/Fs/Icache/Copies.antt =====
-- `ilock` (fs.c) gives its caller a true copy of the inode on disk.
use ducko_unix.Prelude.{
  ℕ, ◌<◌, ltb, ◌==◌, ◌≡◌, ◌≢◌, refl, ap, sym, subst, ◌∙◌, true, false, ◌&&◌, not, none, some,
  get_elem?, modify, done, panic, arith, Bool-cases, Option-cases, inl, inr, ◌⊎◌,
  get_elem?-modify_ne, get_elem?-modify_self,
}
use ducko_unix.Fs.Icache.{Dinode, Inode, Fs, filled, taken, ilock}

-- Every valid copy of an inode in use is what the disk has.
abbrev pub IsWritten : Fs → Type 0
IsWritten s =
    (j : ℕ) (ip : Inode)
    → get_elem? s.inodes j ≡ some ip
    → 0 < ip.ref
    → ip.valid ≡ true
    → ip.copy ≡ s.disk ip.dev ip.inum

-- The caller has the lock and a copy of the disk's inode; nothing else has changed.
pub record IsLocked (pid i : ℕ) (s t : Fs) (ip : Inode) : Type 0 where
  pub entry : Inode
  pub there : get_elem? t.inodes i ≡ some entry
  pub mine : entry.holder ≡ some pid
  pub valid : entry.valid ≡ true
  pub copy : entry.copy ≡ s.disk ip.dev ip.inum
  pub same : (entry.dev ≡ ip.dev) × (entry.inum ≡ ip.inum) × (entry.ref ≡ ip.ref)
  pub others : (j : ℕ) → i ≢ j → get_elem? t.inodes j ≡ get_elem? s.inodes j
  pub disk : t.disk ≡ s.disk
  pub written : IsWritten t

taken_lem :
    (pid : ℕ) (disk : ℕ → ℕ → Dinode) (ip : Inode)
    → (ip.valid ≡ true → ip.copy ≡ disk ip.dev ip.inum)
    → (let e = taken pid disk ip in
        (e.copy ≡ disk e.dev e.inum)
        × (e.valid ≡ true)
        × (e.dev ≡ ip.dev)
        × (e.inum ≡ ip.inum)
        × (e.ref ≡ ip.ref))
taken_lem pid disk ip h = elim (Bool-cases ip.valid) [
  | inl v ↦
      let as_is : filled disk ip ≡ ip = rw v refl in
      (
        subst (λ (x : Inode). x.copy ≡ disk x.dev x.inum) (sym as_is) (h v),
        subst (λ (x : Inode). x.valid ≡ true) (sym as_is) v,
        ap (λ (x : Inode). x.dev) as_is,
        ap (λ (x : Inode). x.inum) as_is,
        ap (λ (x : Inode). x.ref) as_is,
      )
  | inr n ↦
      let new = record ip { valid = true; copy = disk ip.dev ip.inum } in
      let read : filled disk ip ≡ new = rw n refl in
      (
        subst (λ (x : Inode). x.copy ≡ disk x.dev x.inum) (sym read) refl,
        subst (λ (x : Inode). x.valid ≡ true) (sym read) refl,
        ap (λ (x : Inode). x.dev) read,
        ap (λ (x : Inode). x.inum) read,
        ap (λ (x : Inode). x.ref) read,
      )
]

IsLocked-entry :
    (pid i : ℕ) (s : Fs) (ip : Inode)
    → IsWritten s
    → get_elem? s.inodes i ≡ some ip
    → 0 < ip.ref
    → IsLocked pid i s (record s { inodes = modify s.inodes i (taken pid s.disk) }) ip
IsLocked-entry pid i s ip written at used =
    let change = taken pid s.disk in
    let entry = change ip in
    let now : get_elem? (modify s.inodes i change) i ≡ some entry =
      get_elem?-modify_self s.inodes i change at in
    let (true_copy, valid, dev, inum, ref) = taken_lem pid s.disk ip (written i ip at used) in
    record {
      entry = entry;
      there = now;
      mine = refl;
      valid = valid;
      copy = true_copy ∙ ap (λ d. s.disk d entry.inum) dev ∙ ap (λ k. s.disk ip.dev k) inum;
      same = (dev, inum, ref);
      others = λ j ne. get_elem?-modify_ne s.inodes change ne;
      disk = refl;
      written = λ j jp e u v. elim (Bool-cases (i == j)) [
        | inl here ↦
            let same_slot : i ≡ j = ground (arith, here) in
            let there : some entry ≡ some jp =
              sym now ∙ ap (λ k. get_elem? (modify s.inodes i change) k) same_slot ∙ e in
            let at_j : entry ≡ jp = cc in
            subst (λ (x : Inode). x.copy ≡ s.disk x.dev x.inum) at_j true_copy
        | inr there ↦
            written j jp (sym (get_elem?-modify_ne s.inodes change (ground (arith, there))) ∙ e) u v
      ];
    }

-- Where every valid copy of an inode in use is true, `ilock` of such an inode sleeps while
-- another process has the lock. Otherwise its caller gets the lock and a true copy, and it
-- panics only for an inode that the disk has as free.
pub ilock_lem :
    (pid i : ℕ) (s : Fs) (ip : Inode)
    → IsWritten s
    → get_elem? s.inodes i ≡ some ip
    → 0 < ip.ref
    → ((ilock pid i s ≡ done none) × (ip.holder ≢ none))
      ⊎ ((ilock pid i s ≡ panic) × (ip.valid ≡ false) × ((s.disk ip.dev ip.inum).kind ≡ 0))
      ⊎ ((t : Fs) × (ilock pid i s ≡ done (some t)) × IsLocked pid i s t ip)
unfolding ilock
ilock_lem pid i s ip written at used =
    let alive : ltb ip.ref 1 ≡ false = ground arith in
    elim (Option-cases ip.holder) [
      | inr (p, held) ↦ inl (rw (at, ilock) (rw alive (rw held refl)), λ e. ground (arith, e, held))
      | inl open_lock ↦ elim (Bool-cases (not ip.valid && (s.disk ip.dev ip.inum).kind == 0)) [
        | inl free ↦ inr (
            inl (
              rw (at, ilock) (rw alive (rw open_lock (rw free refl))),
              ground (arith, free),
              ground (arith, free),
            ))
        | inr good ↦ inr (
            inr (
              record s { inodes = modify s.inodes i (taken pid s.disk) },
              rw (at, ilock) (rw alive (rw open_lock (rw good refl))),
              IsLocked-entry pid i s ip written at used,
            ))
      ]
    ]
