-- ===== src/Fs/Namex/Tests.antt =====
-- A walk through a root directory, inode 1, with the directory "a", inode 2, in it.
use ducko_unix.Prelude.{
  ℕ, ◌≡◌, refl, ◌==◌, ◌||◌, ◌&&◌, List, [], ◌∷◌, Option, none, some, true, false, if◌then◌else◌,
}
use ducko_unix.Fs.Namex.{Tree, skipelem, start}
use ducko_unix.Fs.Namex.Elements.{elements}
use ducko_unix.Fs.Namex.Walk.{follow}

abbrev entry : ℕ → List ℕ → Option ℕ
entry i [] = none
entry i (c ∷ name) =
    if i == 1 && c == 97 then some 2 else if i == 2 && c == 98 then some 3 else none

abbrev tree : Tree
tree = record {
  root = 1;
  cwd = 2;
  is_dir = λ i. i == 1 || i == 2;
  entry = entry;
  has_type = λ i. true;
  has_room = λ refs. true;
}

-- "/a//b"
abbrev path : List ℕ
path = 47 ∷ 97 ∷ 47 ∷ 47 ∷ 98 ∷ []

found : follow tree false (start tree path) (elements path) ≡ some 3
found = refl

first : skipelem path ≡ some (97 ∷ [], 98 ∷ [])
unfolding skipelem
first = refl
