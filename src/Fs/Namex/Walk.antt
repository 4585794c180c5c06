-- ===== src/Fs/Namex/Walk.antt =====
-- `namex` (fs.c) follows the elements of its path, and leaks no reference.
use ducko_unix.Prelude.{
  ℕ, ◌+◌, ◌==◌, ◌≡◌, Bool, ◌&&◌, not, List, [], ◌∷◌, Option, none, some, if◌then◌else◌, Outcome,
  done, ◌≢◌, true,
}
use ducko_unix.Fs.Namex.{Tree, Refs, Found}
use ducko_unix.Fs.Namex.Elements.{is_last}

-- What a path names from `ip` on: the inode at the end of its elements or, for the parent, the one
-- before the last. Every inode that an element is looked up in has to be a directory.
abbrev pub follow : Tree → Bool → ℕ → List (List ℕ) → Option ℕ
follow tree parent ip [] = if parent then none else some ip
follow tree parent ip (name ∷ names) =
    if not (tree.is_dir ip)
    then none
    else if parent && is_last names
    then some ip
    else elim (tree.entry ip name) [ none ↦ none | some next ↦ follow tree parent next names ]

-- Where a path is followed from: the root for one that begins with '/', which is 47.
pub data StartsAt (tree : Tree) : List ℕ → ℕ → Type 0 where
  absolute : (path : List ℕ) → StartsAt tree (47 ∷ path) tree.root
  relative : (c : ℕ) (path : List ℕ) → c ≢ 47 → StartsAt tree (c ∷ path) tree.cwd
  empty : StartsAt tree [] tree.cwd

-- One reference for the inode that is returned, if any.
abbrev pub holds : Option ℕ → ℕ → ℕ
holds none j = 0
holds (some i) j = if i == j then 1 else 0

-- The walk ends at what the path names, with the references `refs` and one to its result.
pub record IsWalked (r : Outcome (Option Found)) (named : Option ℕ) (refs : Refs) : Type 0 where
  pub found : Found
  pub returns : r ≡ done (some found)
  pub at : found.inode ≡ named
  pub balance : (j : ℕ) → found.refs j ≡ refs j + holds named j

-- A tree in which nothing makes the walk panic: the inodes on the way have types, and the cache has
-- room for another one.
pub record IsReady (tree : Tree) : Type 0 where
  pub types : (i : ℕ) → tree.has_type i ≡ true
  pub room : (refs : Refs) → tree.has_room refs ≡ true
