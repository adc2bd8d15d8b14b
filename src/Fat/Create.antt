-- ===== src/Fat/Create.antt =====
-- New files and directories in src/fs/fat32.c: `fat32_create_entry`, `fat32_mkdir` and `fat32_open`.
pub mod Slot
mod Tests
use mathlib.Core.Option
use quantum_kernel.Prelude.{
  mul-le, sub-mul, length-drop, get_or-drop, le→leb, to_int, ltb, leb, if◌then◌else◌, bit, u8, u16,
  u32, ltb→lt, lt→ltb, le→ltb, ==_iff, Bool-cases, Option-cases, length, get_or, set, take, drop,
  length-append, length-set, get_or-set_self, get_or-set_ne, replicate, ℤ, pos, negsuc, is_neg,
  sign_extend, ℕ, zero, suc, ◌+◌, ◌-◌, ◌*◌, ◌/◌, ◌%◌, ◌^◌, ◌≤◌, ◌<◌, min, max, ◌≡◌, refl, sym, ap,
  ap₂, ◌∙◌, ◌≢◌, ◌↔◌, ◌⊎◌, inl, inr, Bool, true, false, ◌&&◌, ◌||◌, not, Option, none, some, List,
  [], ◌∷◌, ◌++◌, map, append-nil, append_assoc, arith, ◌==◌,
}
use quantum_kernel.Bytes.{Bytes, read32, write8, write16, store_list, fill}
use quantum_kernel.Fat.{State, eoc_min}
use quantum_kernel.Fat.Name.{to_short_name}
use quantum_kernel.Fat.Table.{read_fat, write_fat, alloc_cluster, free_cluster_chain}
use quantum_kernel.Fat.Cluster.{read_cluster, write_cluster}
use quantum_kernel.Fat.Directory.{Place, dirent_size, find_entry, first_cluster_of}
use quantum_kernel.Fat.File.{File}

abbrev pub attr_directory : ℕ
attr_directory = 0x10

abbrev pub attr_archive : ℕ
attr_archive = 0x20

-- The loop over `n` entries from entry `i` on: the first that is unused or deleted.
unfoldable pub free_entry : ℕ → ℕ → Bytes → Option ℕ
free_entry zero i b = none
free_entry (suc n) i b =
    let rest = free_entry n (i + 1) b in
    let first = b (i * dirent_size) in if (first == 0x00) || (first == 0xe5) then some i else rest

-- The stores into the entry at offset `o`.
unfoldable pub put_entry : List ℕ → ℕ → ℕ → ℕ → Bytes → Bytes
put_entry short_name attr first_cluster o b =
    let named = store_list (fill b o 0 dirent_size) o short_name in
    let low = write16 (write8 named (o + 11) attr) (o + 26) (first_cluster % 2 ^ 16) in
    write16 low (o + 20) (first_cluster / 2 ^ 16 % 2 ^ 16)

-- The end of a round that has found no entry: the next cluster, a new one at the end of the chain,
-- or none when the disk is full.
unfoldable pub next_cluster : ℕ → State → Option ℕ × State
next_cluster cluster s =
    let (next, s1) = read_fat cluster s in
    let (new, s2) = alloc_cluster s1 in
    let (_, s3) = write_fat cluster new s2 in
    let blank : State = record s3 {
      cluster_buffer = fill s3.cluster_buffer 0 0 s3.fs.bytes_per_cluster;
    } in
    let (_, s4) = write_cluster new blank in
    if leb eoc_min next then (if new == 0 then (none, s2) else (some new, s4)) else (some next, s1)

-- The `while` loop of `fat32_create_entry`, on fuel, and whether it returned 0.
unfoldable pub create_loop : ℕ → List ℕ → ℕ → ℕ → ℕ → State → Option (Bool × State)
create_loop zero short_name attr first_cluster cluster s = none
create_loop (suc fuel) short_name attr first_cluster cluster s =
    let (done, s1) = read_cluster cluster s in
    let (next, s2) = next_cluster cluster s1 in
    let rest : Option (Bool × State) = elim next [
      | some c ↦ create_loop fuel short_name attr first_cluster c s2
      | none ↦ some (false, s2)
    ] in
    let count = s1.fs.bytes_per_cluster / dirent_size in
    let looked : Option (Bool × State) = elim (free_entry count 0 s1.cluster_buffer) [
      | some i ↦
          let b = put_entry short_name attr first_cluster (i * dirent_size) s1.cluster_buffer in
          some (write_cluster cluster (record s1 { cluster_buffer = b }))
      | none ↦ rest
    ] in
    if leb 2 cluster && ltb cluster eoc_min
    then (if done then looked else some (false, s1))
    else some (false, s)

unfoldable pub create_entry : ℕ → ℕ → List ℕ → ℕ → ℕ → State → Option (Bool × State)
create_entry fuel dir_cluster name attr first_cluster s =
    create_loop fuel (to_short_name name) attr first_cluster dir_cluster s

-- `fat32_free_cluster_chain(new_cluster); return -1;`
unfoldable pub give_back : ℕ → ℕ → State → Option (ℤ × State)
give_back fuel cluster s = Option.map (λ s'. (negsuc 0, s')) (free_cluster_chain fuel cluster s)

unfoldable pub mkdir : ℕ → List ℕ → State → Option (ℤ × State)
mkdir fuel path s =
    let (new, s1) = alloc_cluster s in
    let made : Option (ℤ × State) =
      elim (create_entry fuel s1.current_dir_cluster path attr_directory new s1) [
        | none ↦ none
        | some (false, s2) ↦ give_back fuel new s2
        | some (true, s2) ↦
            let blank : State = record s2 {
              cluster_buffer = fill s2.cluster_buffer 0 0 s2.fs.bytes_per_cluster;
            } in
            let (_, s3) = write_cluster new blank in some (pos 0, s3)
      ] in
    if new == 0 then some (negsuc 0, s1) else made

-- `memset(file, 0, sizeof(fat32_file_t))`
abbrev pub cleared : File
cleared = record {
  first_cluster = 0;
  current_cluster = 0;
  file_size = 0;
  position = 0;
  dir_cluster = 0;
  dir_entry_offset = 0;
  flags = 0;
  is_open = false;
  attr = 0;
}

-- The `fat32_file_t` of an entry that was found, not open yet.
unfoldable pub file_of : Place → File
file_of p = record cleared {
  first_cluster = first_cluster_of p.entry;
  current_cluster = first_cluster_of p.entry;
  file_size = read32 p.entry 28;
  dir_cluster = p.cluster;
  dir_entry_offset = p.offset;
  attr = p.entry 11;
}

-- `FAT32_O_TRUNC` on a file with clusters.
unfoldable pub truncate : ℕ → ℕ → File → State → Option (File × State)
truncate fuel flags f s =
    let cut : File = record f { first_cluster = 0; current_cluster = 0; file_size = 0 } in
    let freed = Option.map (λ s'. (cut, s')) (free_cluster_chain fuel f.first_cluster s) in
    if bit flags 3 && leb 2 f.first_cluster then freed else some (f, s)

-- `FAT32_O_APPEND` puts the position at the end.
unfoldable pub opened : ℕ → File → File
opened flags f = record f {
  flags = flags;
  is_open = true;
  position = if bit flags 4 then f.file_size else 0;
}

-- `fat32_free_cluster_chain(new_cluster); return -1;` of `fat32_open`.
unfoldable pub give_up : ℕ → ℕ → State → Option (Option File × State)
give_up fuel new s = Option.map (λ s'. (none, s')) (free_cluster_chain fuel new s)

-- The file of the new entry, found again; -1 is `none`.
unfoldable pub open_entry : ℕ → ℕ → ℕ → Option (Option Place × State) → Option (Option File × State)
open_entry fuel flags new none = none
open_entry fuel flags new (some (none, s)) = give_up fuel new s
open_entry fuel flags new (some (some p, s)) =
    let f : File = record (file_of p) {
      first_cluster = new;
      current_cluster = new;
      file_size = 0;
      attr = attr_archive;
    } in
    some (some (opened flags f), s)

-- What follows the creation of the entry.
unfoldable pub open_made :
    ℕ → List ℕ → ℕ → ℕ → ℕ → Option (Bool × State) → Option (Option File × State)
open_made fuel path flags dir_cluster new none = none
open_made fuel path flags dir_cluster new (some (false, s)) = give_up fuel new s
open_made fuel path flags dir_cluster new (some (true, s)) =
    open_entry fuel flags new (find_entry fuel dir_cluster path s)

unfoldable pub open_new : ℕ → List ℕ → ℕ → State → Option (Option File × State)
open_new fuel path flags s =
    let (new, s1) = alloc_cluster s in
    let dir_cluster = s.current_dir_cluster in
    let made =
      open_made fuel path flags dir_cluster new
        (create_entry fuel dir_cluster path attr_archive new s1) in
    if new == 0 then some (none, s1) else made

-- What follows the search for the entry.
unfoldable pub open_found :
    ℕ → List ℕ → ℕ → Option (Option Place × State) → Option (Option File × State)
open_found fuel path flags none = none
open_found fuel path flags (some (some p, s)) =
    Option.map (λ r. let (f, s') = r in (some (opened flags f), s'))
      (truncate fuel flags (file_of p) s)
open_found fuel path flags (some (none, s)) =
    let new = open_new fuel path flags s in if bit flags 2 then new else some (none, s)

-- The value returned, and what it leaves in `*file`: every `return -1` comes before a store into the
-- file that the `memset` has cleared.
unfoldable pub returned : Option File × State → ℤ × File × State
returned (none, s) = (negsuc 0, cleared, s)
returned (some f, s) = (pos 0, f, s)

-- `fat32_open` with a file and a path that are not NULL.
unfoldable pub open_file : ℕ → List ℕ → ℕ → State → Option (ℤ × File × State)
open_file fuel path flags s =
    Option.map returned (open_found fuel path flags (find_entry fuel s.current_dir_cluster path s))
