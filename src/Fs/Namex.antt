-- ===== src/Fs/Namex.antt =====
-- `skipelem` and `namex` (fs.c). A path is the list of its bytes before the NUL. Inodes are known
-- by number; `refs` is their count of references in memory.
pub mod Elements
pub mod Walk
mod Tests
use ducko_unix.Prelude.{
  ℕ, zero, suc, ◌+◌, ◌-◌, ◌==◌, Bool, true, false, ◌&&◌, not, length, List, [], ◌∷◌, ◌++◌, Option,
  none, some, if◌then◌else◌, take, update, Outcome, done, panic, ◌>>=◌,
}

-- DIRSIZ and '/'.
abbrev pub dir_siz : ℕ
dir_siz = 14

abbrev pub slash : ℕ
slash = 47

unfoldable pub skip_slashes : List ℕ → List ℕ
skip_slashes [] = []
skip_slashes (c ∷ path) = let rest = skip_slashes path in if c == slash then rest else c ∷ path

-- The element at the start of the path, and what follows it.
unfoldable pub split_elem : List ℕ → List ℕ × List ℕ
split_elem [] = ([], [])
split_elem (c ∷ path) =
    let rest = split_elem path in if c == slash then ([], c ∷ path) else (c ∷ rest.0, rest.1)

-- The name, cut to DIRSIZ bytes, and the path behind it, or `none` for the null pointer.
unfoldable pub skipelem : List ℕ → Option (List ℕ × List ℕ)
unfolding skip_slashes split_elem
skipelem path = elim (skip_slashes path) [
  | [] ↦ none
  | c ∷ s ↦ let parts = split_elem (c ∷ s) in some (take dir_siz parts.0, skip_slashes parts.1)
]

-- What the walk sees of the directories: `entry` is what `dirlookup` finds in them. `has_type` is
-- whether the inode has a type on disk, without which `ilock` panics, and `has_room` whether the
-- cache has an entry left for one more inode, without which `iget` does.
pub record Tree : Type 0 where
  pub root : ℕ
  pub cwd : ℕ
  pub is_dir : ℕ → Bool
  pub entry : ℕ → List ℕ → Option ℕ
  pub has_type : ℕ → Bool
  pub has_room : (ℕ → ℕ) → Bool

abbrev pub Refs : Type 0
Refs = ℕ → ℕ

abbrev pub one_more : ℕ → Refs → Refs
one_more i refs = update refs i (refs i + 1)

unfoldable pub iget : Tree → ℕ → Refs → Outcome Refs
iget tree i refs = if refs i == 0 && not (tree.has_room refs) then panic else done (one_more i refs)

abbrev pub iput : ℕ → Refs → Refs
iput i refs = update refs i (refs i - 1)

-- The inode or the null pointer, what is in `name`, and the references.
pub record Found : Type 0 where
  pub inode : Option ℕ
  pub name : List ℕ
  pub refs : Refs

abbrev pub is_empty : List ℕ → Bool
is_empty [] = true
is_empty (c ∷ s) = false

-- The loop, at `ip`; `done none` when the fuel runs out.
unfoldable pub namex_from : Tree → ℕ → Bool → ℕ → List ℕ → List ℕ → Refs → Outcome (Option Found)
unfolding skipelem iget
namex_from tree zero parent ip name path refs = done none
namex_from tree (suc fuel) parent ip name path refs = elim (skipelem path) [
  | none ↦ done (
      some (record {
        inode = if parent then none else some ip;
        name = name;
        refs = if parent then iput ip refs else refs;
      }))
  | some r ↦
      if not (tree.has_type ip)
      then panic
      else if not (tree.is_dir ip)
      then done (some (record { inode = none; name = r.0; refs = iput ip refs }))
      else if parent && is_empty r.1
      then done (some (record { inode = some ip; name = r.0; refs = refs }))
      else elim (tree.entry ip r.0) [
        | none ↦ done (some (record { inode = none; name = r.0; refs = iput ip refs }))
        | some next ↦
            iget tree next refs >>= λ held. namex_from tree fuel parent next r.0 r.1 (iput ip held)
      ]
]

abbrev pub start : Tree → List ℕ → ℕ
start tree [] = tree.cwd
start tree (c ∷ path) = if c == slash then tree.root else tree.cwd

-- Each turn takes a byte of the path at least.
unfoldable pub namex : Tree → Bool → List ℕ → List ℕ → Refs → Outcome (Option Found)
unfolding namex_from
namex tree parent name path refs =
    let ip = start tree path in
    iget tree ip refs >>= λ held. namex_from tree (suc (length path)) parent ip name path held
