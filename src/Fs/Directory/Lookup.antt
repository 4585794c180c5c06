-- ===== src/Fs/Directory/Lookup.antt =====
-- What `dirlookup` (fs.c) finds in a directory.
use ducko_unix.Prelude.{
  ℕ, zero, suc, ◌+◌, ◌-◌, ◌*◌, ◌<◌, ◌≤◌, ltb, leb, ◌==◌, ◌≡◌, ◌≢◌, refl, ap, ◌∙◌, subst, true,
  false, ◌||◌, Option, none, some, List, length, min, Outcome, done, ◌>>=◌, arith, Bool-cases,
  ne→==_false, ==_iff, inl, inr, ◌⊎◌, ◌↔◌,
}
use ducko_unix.Prelude.Int.{ℤ, pos, negsuc}
use ducko_unix.Str.Text.{agree, strncmp_lem}
use ducko_unix.Fs.FreeMap.{Super}
use ducko_unix.Fs.Icache.{Inode, iget}
use ducko_unix.Fs.Content.{Body, readi, slice, bsize, maxfile, t_dev}
use ducko_unix.Fs.Content.Read.{IsWhole, content, readi_lem}
use ducko_unix.Fs.Directory.{
  dirent_size, dirsiz, t_dir, inum_of, name_of, is_zero, namecmp, look_loop, dirlookup,
}

-- The bytes of the entry `j` of a directory.
pub dirent : Body → ℕ → List ℕ
dirent s j = slice (content s.disk s.ip.addrs) (dirent_size * j) dirent_size

-- The entry is in use, and its name is `name`, up to a NUL or 14 bytes.
pub record HasName (name : ℕ → ℕ) (de : List ℕ) : Type 0 where
  pub used : inum_of de ≢ 0
  pub named : agree name (name_of de) dirsiz 0 ≡ true

length-slice : (f : ℕ → ℕ) (o m : ℕ) → length (slice f o m) ≡ m
length-slice f o zero = refl
length-slice f o (suc m) = ap suc (length-slice f (o + 1) m)

is_zero_iff : (z : ℤ) → (is_zero z ≡ true) ↔ (z ≡ pos 0)
is_zero_iff (pos n) = (λ e. ap pos (ground (arith, e)), λ e. ground (arith, e))
is_zero_iff (negsuc n) = (λ e. ground (arith, e), λ e. ground (arith, e))

==_false→ne : (a b : ℕ) → (a == b) ≡ false → a ≢ b
==_false→ne a b e z = ground (arith, e, z)

-- What a turn reads.
turn_read :
    (devsw : ℕ → Option (ℕ → Option (List ℕ))) (sb : Super) (s : Body) (j : ℕ)
    → s.ip.kind ≡ t_dir
    → IsWhole s.disk s.ip.addrs s.ip.size
    → s.ip.size ≤ maxfile * bsize
    → dirent_size * (j + 1) ≤ s.ip.size
    → (readi devsw sb (dirent_size * j) dirent_size s ≡ done (some (dirent s j), s))
      × (length (dirent s j) ≡ dirent_size)
unfolding dirent
turn_read devsw sb s j dir whole small fits =
    let file : s.ip.kind ≢ t_dev = λ e. absurd (omega (arith, dir, e)) in
    let read =
      readi_lem devsw sb (dirent_size * j) dirent_size s file whole small
        (omega (arith, small, fits)) (omega arith) in
    let ok : (ltb s.ip.size (dirent_size * j) || leb 4294967296 (dirent_size * j + dirent_size))
        ≡ false =
      ground (arith, fits, small) in
    let all : min dirent_size (s.ip.size - dirent_size * j) ≡ dirent_size = omega (arith, fits) in
    (
      read ∙ rw (ok, all) refl,
      length-slice (content s.disk s.ip.addrs) (dirent_size * j) dirent_size,
    )

-- The first of the `k` entries from `j` on that has the name, or none.
data Found (name : ℕ → ℕ) (s : Body) (j k : ℕ) : Option (ℕ × ℕ) → Type 0 where
  nowhere : ((i : ℕ) → j ≤ i → i < j + k → ¬ HasName name (dirent s i)) → Found name s j k none
  at :
      (i : ℕ)
      → j ≤ i
      → i < j + k
      → HasName name (dirent s i)
      → ((h : ℕ) → j ≤ h → h < i → ¬ HasName name (dirent s h))
      → Found name s j k (some (dirent_size * i, inum_of (dirent s i)))

-- An entry that does not have the name is passed over.
passed :
    (name : ℕ → ℕ) (s : Body) (j k : ℕ) (o : Option (ℕ × ℕ))
    → ¬ HasName name (dirent s j)
    → Found name s (j + 1) k o
    → Found name s j (suc k) o
passed name s j k _ other (nowhere none_there) = nowhere (λ i le lt. elim (Bool-cases (i == j)) [
  | inl here ↦
      let e : j ≡ i = ground (arith, here) in subst (λ i. ¬ HasName name (dirent s i)) e other
  | inr later ↦ none_there i (ground (arith, later, le)) (omega (arith, lt))
])
passed name s j k _ other (at i le lt has before) =
    at i (omega (arith, le)) (omega (arith, lt)) has (λ h le' lt'. elim (Bool-cases (h == j)) [
      | inl here ↦
          let e : j ≡ h = ground (arith, here) in subst (λ i. ¬ HasName name (dirent s i)) e other
      | inr later ↦ before h (ground (arith, later, le')) lt'
    ])

nowhere_left : (name : ℕ → ℕ) (s : Body) (j : ℕ) → Found name s j 0 none
nowhere_left name s j = nowhere (λ i le lt. absurd (omega (arith, le, lt)))

-- A turn at an entry: it ends the loop, or the loop goes on behind it.
turn_has :
    (devsw : ℕ → Option (ℕ → Option (List ℕ))) (sb : Super) (name : ℕ → ℕ) (s : Body) (fuel j : ℕ)
    → leb s.ip.size (dirent_size * j) ≡ false
    → readi devsw sb (dirent_size * j) dirent_size s ≡ done (some (dirent s j), s)
    → length (dirent s j) ≡ dirent_size
    → HasName name (dirent s j)
    → look_loop devsw sb name (suc fuel) (dirent_size * j) s
      ≡ done (some (dirent_size * j, inum_of (dirent s j)), s)
unfolding look_loop namecmp
turn_has devsw sb name s fuel j more read len has =
    let full : (length (dirent s j) == dirent_size) ≡ true = ground (arith, len) in
    let used : (inum_of (dirent s j) == 0) ≡ false =
      ne→==_false (inum_of (dirent s j)) 0 has.used in
    let hit : is_zero (namecmp name (name_of (dirent s j))) ≡ true =
      (is_zero_iff (namecmp name (name_of (dirent s j)))).1
        ((strncmp_lem name (name_of (dirent s j)) dirsiz 0).1 has.named) in
    rw (more, read, full, used, hit) refl

turn_other :
    (devsw : ℕ → Option (ℕ → Option (List ℕ))) (sb : Super) (name : ℕ → ℕ) (s : Body) (fuel j : ℕ)
    → leb s.ip.size (dirent_size * j) ≡ false
    → readi devsw sb (dirent_size * j) dirent_size s ≡ done (some (dirent s j), s)
    → length (dirent s j) ≡ dirent_size
    → HasName name (dirent s j)
      ⊎ ((¬ HasName name (dirent s j))
          × (look_loop devsw sb name (suc fuel) (dirent_size * j) s
              ≡ look_loop devsw sb name fuel (dirent_size * j + dirent_size) s))
unfolding look_loop namecmp
turn_other devsw sb name s fuel j more read len =
    let full : (length (dirent s j) == dirent_size) ≡ true = ground (arith, len) in
    elim (Bool-cases (inum_of (dirent s j) == 0)) [
      | inl free ↦ inr (
        λ has. has.used ((==_iff (inum_of (dirent s j)) 0).0 free),
        rw (more, read, full, free) refl,
      )
      | inr used ↦ elim (Bool-cases (is_zero (namecmp name (name_of (dirent s j))))) [
        | inl hit ↦ inl (record {
          used = ==_false→ne (inum_of (dirent s j)) 0 used;
          named =
              (strncmp_lem name (name_of (dirent s j)) dirsiz 0).0
                ((is_zero_iff (namecmp name (name_of (dirent s j)))).0 hit);
        })
        | inr miss ↦ inr (
          λ has.
              let hit =
                (is_zero_iff (namecmp name (name_of (dirent s j)))).1
                  ((strncmp_lem name (name_of (dirent s j)) dirsiz 0).1 has.named) in
              ground (arith, hit, miss),
          rw (more, read, full, used, miss) refl,
        )
      ]
    ]

look_loop_lem :
    (devsw : ℕ → Option (ℕ → Option (List ℕ))) (sb : Super) (name : ℕ → ℕ) (s : Body) (fuel j k : ℕ)
    → s.ip.kind ≡ t_dir
    → IsWhole s.disk s.ip.addrs s.ip.size
    → s.ip.size ≤ maxfile * bsize
    → s.ip.size ≡ dirent_size * (j + k)
    → k ≤ fuel
    → (o : Option (ℕ × ℕ)) × (look_loop devsw sb name fuel (dirent_size * j) s ≡ done (o, s))
      × Found name s j k o
unfolding look_loop
look_loop_lem devsw sb name s zero j zero dir whole small size le =
    (none, refl, nowhere_left name s j)
look_loop_lem devsw sb name s zero j (suc k) dir whole small size le = absurd (omega (arith, le))
look_loop_lem devsw sb name s (suc fuel) j zero dir whole small size le =
    let over : leb s.ip.size (dirent_size * j) ≡ true = ground (arith, size) in
    (none, rw over refl, nowhere_left name s j)
look_loop_lem devsw sb name s (suc fuel) j (suc k) dir whole small size le =
    let more : leb s.ip.size (dirent_size * j) ≡ false = ground (arith, size) in
    let (read, len) = turn_read devsw sb s j dir whole small (omega (arith, size)) in
    elim (turn_other devsw sb name s fuel j more read len) [
      | inl has ↦ (
        some (dirent_size * j, inum_of (dirent s j)),
        turn_has devsw sb name s fuel j more read len has,
        at j (omega arith) (omega arith) has (λ h le lt. absurd (omega (arith, le, lt))),
      )
      | inr (lacks, goes_on) ↦
          let (o, eq, found) =
            look_loop_lem devsw sb name s fuel (j + 1) k dir whole small (omega (arith, size))
              (omega (arith, le)) in
          let behind : dirent_size * j + dirent_size ≡ dirent_size * (j + 1) = omega arith in
          (
            o,
            goes_on ∙ ap (λ off. look_loop devsw sb name fuel off s) behind ∙ eq,
            passed name s j k o lacks found,
          )
    ]

-- What `dirlookup` comes to in a directory of `n` entries.
pub data Looked (name : ℕ → ℕ) (s : Body) (n dev : ℕ) (ips : List Inode)
    : Outcome (Option (ℕ × ℕ) × Body × List Inode) → Type 0 where
  missing :
      ((i : ℕ) → i < n → ¬ HasName name (dirent s i))
      → Looked name s n dev ips (done (none, s, ips))
  present :
      (i : ℕ)
      → i < n
      → HasName name (dirent s i)
      → ((h : ℕ) → h < i → ¬ HasName name (dirent s h))
      → Looked name s n dev ips
          (iget dev (inum_of (dirent s i)) ips >>= λ q. done (some (dirent_size * i, q.0), s, q.1))

found-Looked :
    (devsw : ℕ → Option (ℕ → Option (List ℕ))) (sb : Super) (name : ℕ → ℕ) (s : Body) (n dev : ℕ)
    (ips : List Inode) (o : Option (ℕ × ℕ))
    → (s.ip.kind == t_dir) ≡ true
    → look_loop devsw sb name s.ip.size 0 s ≡ done (o, s)
    → Found name s 0 n o
    → Looked name s n dev ips (dirlookup devsw sb dev name s ips)
unfolding dirlookup
found-Looked devsw sb name s n dev ips _ dir eq (nowhere lacks) =
    rw (dir, eq) (missing (λ i lt. lacks i (omega arith) (omega (arith, lt))))
found-Looked devsw sb name s n dev ips _ dir eq (at i le lt has before) =
    rw (dir, eq) (present i (omega (arith, lt)) has (λ h l. before h (omega arith) l))

-- `dirlookup` in a directory of whole entries always ends, and does not panic before `iget`: it
-- takes a reference to the inode of the first entry in use that has the name, and gives the
-- offset of that entry, or it finds that no entry has the name; the directory is as it was.
pub dirlookup_lem :
    (devsw : ℕ → Option (ℕ → Option (List ℕ))) (sb : Super) (name : ℕ → ℕ) (s : Body) (n dev : ℕ)
    (ips : List Inode)
    → s.ip.kind ≡ t_dir
    → IsWhole s.disk s.ip.addrs s.ip.size
    → s.ip.size ≤ maxfile * bsize
    → s.ip.size ≡ dirent_size * n
    → Looked name s n dev ips (dirlookup devsw sb dev name s ips)
dirlookup_lem devsw sb name s n dev ips dir whole small size =
    let (o, eq, found) =
      look_loop_lem devsw sb name s s.ip.size 0 n dir whole small (omega (arith, size))
        (omega (arith, size)) in
    found-Looked devsw sb name s n dev ips o ((==_iff s.ip.kind t_dir).1 dir) eq found
