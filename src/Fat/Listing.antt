-- ===== src/Fat/Listing.antt =====
-- `fat32_readdir` of src/fs/fat32.c. A `fat32_file_info_t` has its name as the list of the bytes in
-- front of the terminator; the fields for dates are never set.
use quantum_kernel.Prelude.{
  ltb, leb, if◌then◌else◌, u32, ℕ, zero, suc, ◌+◌, ◌-◌, ◌*◌, ◌/◌, ◌%◌, ◌&&◌, ◌||◌, Option, none,
  some, List, [], ◌∷◌, ◌++◌, ◌==◌,
}
use quantum_kernel.Bytes.{Bytes, read32, from}
use quantum_kernel.Fat.{State, eoc_min}
use quantum_kernel.Fat.Cluster.{read_cluster}
use quantum_kernel.Fat.Table.{read_fat}
use quantum_kernel.Fat.File.{skip_clusters}
use quantum_kernel.Fat.Directory.{dirent_size, attr_lfn, first_cluster_of}

pub record FileInfo : Type 0 where
  pub name : List ℕ
  pub size : ℕ
  pub attr : ℕ
  pub first_cluster : ℕ

-- `for (j = o; j < o + n && name[j] != ' '; j++)`: the characters it copies.
unfoldable pub until_blank : ℕ → Bytes → ℕ → List ℕ
until_blank zero b o = []
until_blank (suc n) b o =
    let rest = until_blank n b (o + 1) in if b o == b' ' then [] else b o ∷ rest

-- The name of the entry at `b`, with a dot in front of an extension.
unfoldable pub entry_name : Bytes → List ℕ
entry_name b = until_blank 8 b 0 ++ (if b 8 == b' ' then [] else b'.' ∷ until_blank 3 b 8)

unfoldable pub entry_info : Bytes → FileInfo
entry_info e = record {
  name = entry_name e;
  size = read32 e 28;
  attr = e 11;
  first_cluster = first_cluster_of e;
}

-- What the loop over the entries of one cluster comes to.
pub data Listed : Type 0 where
  listed : FileInfo → Listed
  nothing_left : Listed
  none_here : Listed

-- The loop, with `n` entries left from entry `i` on.
unfoldable pub list_entries : ℕ → ℕ → Bytes → Listed
list_entries zero i b = none_here
list_entries (suc n) i b =
    let rest = list_entries n (i + 1) b in
    let entry = from b (i * dirent_size) in
    if entry 0 == 0x00
    then nothing_left
    else if (entry 0 == 0xe5) || (entry 11 == attr_lfn)
    then rest
    else listed (entry_info entry)

-- The `while` loop, on fuel; -1 is `none` in the result.
unfoldable pub readdir_loop : ℕ → ℕ → ℕ → State → Option (Option FileInfo × State)
readdir_loop zero entry_in_cluster cluster s = none
readdir_loop (suc fuel) entry_in_cluster cluster s =
    let (done, s1) = read_cluster cluster s in
    let (next, s2) = read_fat cluster s1 in
    let rest = readdir_loop fuel 0 next s2 in
    let count = s.fs.bytes_per_cluster / dirent_size in
    let looked : Option (Option FileInfo × State) =
      elim (list_entries (count - entry_in_cluster) entry_in_cluster s1.cluster_buffer) [
        | listed info ↦ some (some info, s1)
        | nothing_left ↦ some (none, s1)
        | none_here ↦ rest
      ] in
    if leb 2 cluster && ltb cluster eoc_min
    then (if done then looked else some (none, s1))
    else some (none, s)

-- `fat32_readdir` with an index and an info that are not NULL: the entry, if there is one, the index
-- behind the call, and the driver's state.
unfoldable pub readdir : ℕ → ℕ → ℕ → State → Option (Option FileInfo × ℕ × State)
readdir fuel cluster index s =
    let count = s.fs.bytes_per_cluster / dirent_size in
    let (start, s1) = skip_clusters (index / count) cluster s in
    elim (readdir_loop fuel (index % count) start s1) [
      | none ↦ none
      | some (none, s2) ↦ some (none, index, s2)
      | some (some info, s2) ↦ some (some info, u32 (index + 1), s2)
    ]
