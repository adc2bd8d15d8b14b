-- ===== src/Fat/Chdir.antt =====
-- `fat32_chdir` of src/fs/fat32.c. The first `path_depth` rows of `path_stack` are the list of their
-- names, the last one at the end; a name is the list of its bytes.
pub mod Arrives
pub mod Located
pub mod Call
use quantum_kernel.Prelude.{
  ltb, if◌then◌else◌, bit, length, take, ℤ, pos, negsuc, ℕ, ◌-◌, Bool, true, false, ◌&&◌, Option,
  none, some, List, [], ◌∷◌, ◌++◌, ◌==◌,
}
use mathlib.Core.Option
use quantum_kernel.Fat.{State}
use quantum_kernel.Fat.Directory.{find_entry, first_cluster_of}

abbrev pub max_path_depth : ℕ
max_path_depth = 16

abbrev pub max_name_len : ℕ
max_name_len = 12

-- `!strcmp(a, b)`
unfoldable pub same_string : List ℕ → List ℕ → Bool
same_string [] [] = true
same_string [] (_ ∷ _) = false
same_string (_ ∷ _) [] = false
same_string (a ∷ as') (b ∷ bs) = (a == b) && same_string as' bs

abbrev pub root_path : List ℕ
root_path = b'/' ∷ []

abbrev pub parent_path : List ℕ
parent_path = b'.' ∷ b'.' ∷ []

-- `path_depth--`
unfoldable pub without_last : List (List ℕ) → List (List ℕ)
without_last names = take (length names - 1) names

-- The loop that looks the names up from a directory on; -1 is `none` in the result.
unfoldable pub follow : ℕ → List (List ℕ) → ℕ → State → Option (Option ℕ × State)
follow fuel [] cluster s = some (some cluster, s)
follow fuel (name ∷ names) cluster s = elim (find_entry fuel cluster name s) [
  | none ↦ none
  | some (none, s1) ↦ some (none, s1)
  | some (some p, s1) ↦ follow fuel names (first_cluster_of p.entry) s1
]

-- What `fat32_chdir` returns, with `path_stack` and the driver's state.
pub record Moved : Type 0 where
  pub result : ℤ
  pub names : List (List ℕ)
  pub state : State

abbrev pub stands_at : ℕ → State → State
stands_at cluster s = record s { current_dir_cluster = cluster }

-- The branch of "..".
unfoldable pub to_parent : ℕ → List (List ℕ) → State → Option Moved
to_parent fuel names s =
    let rest = without_last names in
    let root = s.fs.root_dir_first_cluster in
    if length names == 0
    then some (record { result = pos 0; names = names; state = s })
    else if length rest == 0
    then some (record { result = pos 0; names = rest; state = stands_at root s })
    else elim (follow fuel rest root s) [
      | none ↦ none
      | some (none, s1) ↦ some (record { result = negsuc 0; names = rest; state = s1 })
      | some (some c, s1) ↦ some (record { result = pos 0; names = rest; state = stands_at c s1 })
    ]

-- The push of the name, cut to its row, while there is a row left.
unfoldable pub push_name : List ℕ → List (List ℕ) → List (List ℕ)
push_name path names =
    if ltb (length names) max_path_depth then names ++ take (max_name_len - 1) path ∷ [] else names

-- The branch of a name in the current directory.
unfoldable pub to_child : ℕ → List ℕ → List (List ℕ) → State → Option Moved
to_child fuel path names s = elim (find_entry fuel s.current_dir_cluster path s) [
  | none ↦ none
  | some (none, s1) ↦ some (record { result = negsuc 0; names = names; state = s1 })
  | some (some p, s1) ↦ some (
      if bit (p.entry 11) 4
      then record {
        result = pos 0;
        names = push_name path names;
        state = stands_at (first_cluster_of p.entry) s1;
      }
      else record { result = negsuc 0; names = names; state = s1 })
]

unfoldable pub chdir : ℕ → List ℕ → List (List ℕ) → State → Option Moved
chdir fuel path names s =
    let up = to_parent fuel names s in
    let down = to_child fuel path names s in
    if same_string path root_path
    then some
        (record { result = pos 0; names = []; state = stands_at s.fs.root_dir_first_cluster s })
    else if same_string path parent_path
    then up
    else down
