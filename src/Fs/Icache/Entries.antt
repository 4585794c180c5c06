-- ===== src/Fs/Icache/Entries.antt =====
-- `iget` (fs.c) keeps one cache entry for each inode in use.
use ducko_unix.Prelude.{
  ℕ, suc, ◌+◌, ◌≤◌, ◌==◌, ◌≡◌, ◌≢◌, refl, ap, sym, subst, ◌∙◌, true, false, ◌&&◌, List, [], ◌∷◌,
  none, some, if◌then◌else◌, get_elem?, modify, All, done, panic, arith, Bool-cases, Option-cases,
  inl, inr, ◌⊎◌, get_elem?-modify_ne, get_elem?-modify_self,
}
use ducko_unix.Fs.Icache.{Inode, is_cached, find_cached, find_empty, one_more, recycled, iget}

-- The entries in use for an inode.
abbrev pub copies : ℕ → ℕ → List Inode → ℕ
copies d k [] = 0
copies d k (ip ∷ ips) = (if is_cached d k ip then 1 else 0) + copies d k ips

abbrev pub IsUnique : List Inode → Type 0
IsUnique ips = (d k : ℕ) → copies d k ips ≤ 1

find_cached-none : (d k : ℕ) (ips : List Inode) → find_cached d k ips ≡ none → copies d k ips ≡ 0
unfolding find_cached
find_cached-none d k [] e = refl
find_cached-none d k (ip ∷ ips) e = ground (arith, find_cached-none d k ips)

-- The entry that is found, and what one more reference to it does.
record Hit (d k : ℕ) (ips : List Inode) (i : ℕ) : Type 0 where
  entry : Inode
  there : get_elem? ips i ≡ some entry
  cached : is_cached d k entry ≡ true
  same : (d' k' : ℕ) → copies d' k' (modify ips i one_more) ≡ copies d' k' ips

find_cached-Hit :
    (d k : ℕ) (ips : List Inode) (i : ℕ) → find_cached d k ips ≡ some i → Hit d k ips i
unfolding find_cached
find_cached-Hit d k [] i e = cc
find_cached-Hit d k (ip ∷ ips) i e = elim (Bool-cases (is_cached d k ip)) [
  | inl hit ↦
      let at : 0 ≡ i = ground (arith, hit, e) in
      subst (λ i. Hit d k (ip ∷ ips) i) at
        record { entry = ip; there = refl; cached = hit; same = λ d' k'. ground (arith, hit) }
  | inr miss ↦ elim (Option-cases (find_cached d k ips)) [
    | inl no_entry ↦ ground (arith, miss, no_entry, e)
    | inr (j, found) ↦
        let at : suc j ≡ i = ground (arith, miss, found, e) in
        let rest = find_cached-Hit d k ips j found in
        subst (λ i. Hit d k (ip ∷ ips) i) at
          record {
            entry = rest.entry;
            there = rest.there;
            cached = rest.cached;
            same = λ d' k'. omega (arith, rest.same d' k');
          }
  ]
]

-- A free entry, and what it does to take it.
record Vacant (d k : ℕ) (ips : List Inode) (i : ℕ) : Type 0 where
  entry : Inode
  there : get_elem? ips i ≡ some entry
  free : entry.ref ≡ 0
  more :
      (d' k' : ℕ)
      → copies d' k' (modify ips i (recycled d k))
        ≡ (if d == d' && k == k' then 1 else 0) + copies d' k' ips

find_empty-Vacant :
    (d k : ℕ) (ips : List Inode) (i : ℕ) → find_empty ips ≡ some i → Vacant d k ips i
unfolding find_empty
find_empty-Vacant d k [] i e = cc
find_empty-Vacant d k (ip ∷ ips) i e = elim (Bool-cases (ip.ref == 0)) [
  | inl free ↦
      let at : 0 ≡ i = ground (arith, free, e) in
      subst (λ i. Vacant d k (ip ∷ ips) i) at
        record {
          entry = ip;
          there = refl;
          free = ground (arith, free);
          more = λ d' k'. ground (arith, free);
        }
  | inr used ↦ elim (Option-cases (find_empty ips)) [
    | inl full ↦ ground (arith, used, full, e)
    | inr (j, found) ↦
        let at : suc j ≡ i = ground (arith, used, found, e) in
        let rest = find_empty-Vacant d k ips j found in
        subst (λ i. Vacant d k (ip ∷ ips) i) at
          record {
            entry = rest.entry;
            there = rest.there;
            free = rest.free;
            more = λ d' k'. omega (arith, rest.more d' k');
          }
  ]
]

-- What `iget` returns: an entry for the inode, with one more reference than it had, where every
-- other entry is as it was. An entry that was free has no valid copy.
pub record IsGot (d k : ℕ) (ips ips' : List Inode) (i : ℕ) : Type 0 where
  pub before : Inode
  pub after : Inode
  pub was : get_elem? ips i ≡ some before
  pub now : get_elem? ips' i ≡ some after
  pub names : (after.dev ≡ d) × (after.inum ≡ k)
  pub counted : after.ref ≡ before.ref + 1
  pub fresh : (after.valid ≡ false) ⊎ (is_cached d k before ≡ true)
  pub others : (j : ℕ) → i ≢ j → get_elem? ips' j ≡ get_elem? ips j
  pub unique : IsUnique ips'

one_new :
    (d k d' k' : ℕ) (ips : List Inode) {n : ℕ}
    → copies d' k' ips ≤ 1
    → copies d k ips ≡ 0
    → n ≡ (if d == d' && k == k' then 1 else 0) + copies d' k' ips
    → n ≤ 1
one_new d k d' k' ips old new e = elim (Bool-cases (d == d' && k == k')) [
  | inl same ↦
      let dd : d ≡ d' = ground (arith, same) in
      let kk : k ≡ k' = ground (arith, same) in
      let absent : copies d' k' ips ≡ 0 =
        ap (λ x. copies x k' ips) (sym dd) ∙ ap (λ x. copies d x ips) (sym kk) ∙ new in
      ground (arith, absent, e)
  | inr other ↦ ground (arith, other, old, e)
]

find_empty-none : (ips : List Inode) → find_empty ips ≡ none → All (λ ip. ip.ref ≢ 0) ips
unfolding find_empty
find_empty-none [] e = tt
find_empty-none (ip ∷ ips) e = elim (Bool-cases (ip.ref == 0)) [
  | inl free ↦ absurd (ground (arith, free, e))
  | inr used ↦ elim (Option-cases (find_empty ips)) [
    | inl full ↦ (λ z. ground (arith, used, z), find_empty-none ips full)
    | inr (j, found) ↦ absurd (ground (arith, used, found, e))
  ]
]

-- With one entry for each inode in use, `iget` returns an entry for its inode and keeps it so; it
-- panics only when the inode is not cached and every entry has references.
pub iget_lem :
    (d k : ℕ) (ips : List Inode)
    → IsUnique ips
    → ((i : ℕ) × (ips' : List Inode) × (iget d k ips ≡ done (i, ips')) × IsGot d k ips ips' i)
      ⊎ ((iget d k ips ≡ panic) × (copies d k ips ≡ 0) × All (λ ip. ip.ref ≢ 0) ips)
unfolding iget
iget_lem d k ips unique = elim (Option-cases (find_cached d k ips)) [
  | inr (i, found) ↦
      let hit = find_cached-Hit d k ips i found in
      inl (
        i,
        modify ips i one_more,
        rw (found, iget) refl,
        record {
          before = hit.entry;
          after = one_more hit.entry;
          was = hit.there;
          now = get_elem?-modify_self ips i one_more hit.there;
          names = (ground (arith, hit.cached), ground (arith, hit.cached));
          counted = refl;
          fresh = inr hit.cached;
          others = λ j ne. get_elem?-modify_ne ips one_more ne;
          unique = λ d' k'. omega (arith, unique d' k', hit.same d' k');
        },
      )
  | inl missed ↦ elim (Option-cases (find_empty ips)) [
    | inl full ↦
        inr
          (rw (missed, full, iget) refl, find_cached-none d k ips missed, find_empty-none ips full)
    | inr (i, found) ↦
        let vacant = find_empty-Vacant d k ips i found in
        let none_yet = find_cached-none d k ips missed in
        inl (
          i,
          modify ips i (recycled d k),
          rw (missed, found, iget) refl,
          record {
            before = vacant.entry;
            after = recycled d k vacant.entry;
            was = vacant.there;
            now = get_elem?-modify_self ips i (recycled d k) vacant.there;
            names = (refl, refl);
            counted = ground (arith, vacant.free);
            fresh = inl refl;
            others = λ j ne. get_elem?-modify_ne ips (recycled d k) ne;
            unique = λ d' k'. one_new d k d' k' ips (unique d' k') none_yet (vacant.more d' k');
          },
        )
  ]
]
