-- ===== src/Fat/Directory.antt =====
-- Entries of directories in src/fs/fat32.c: `fat32_find_entry` and `fat32_unlink`.
pub mod Scan
pub mod Flat
pub mod Whole
pub mod Find
pub mod Round
use mathlib.Core.Option
use quantum_kernel.Prelude.{
  mul-le, sub-mul, length-drop, get_or-drop, le→leb, to_int, ltb, leb, if◌then◌else◌, bit, u8, u16,
  u32, ltb→lt, lt→ltb, le→ltb, ==_iff, Bool-cases, Option-cases, length, get_or, set, take, drop,
  length-append, length-set, get_or-set_self, get_or-set_ne, replicate, ℤ, pos, negsuc, is_neg,
  sign_extend, ℕ, zero, suc, ◌+◌, ◌-◌, ◌*◌, ◌/◌, ◌%◌, ◌^◌, ◌≤◌, ◌<◌, min, max, ◌≡◌, refl, sym, ap,
  ap₂, ◌∙◌, ◌≢◌, ◌↔◌, ◌⊎◌, inl, inr, Bool, true, false, ◌&&◌, ◌||◌, not, Option, none, some, List,
  [], ◌∷◌, ◌++◌, map, append-nil, append_assoc, arith, ◌==◌,
}
use quantum_kernel.Bytes.{Bytes, read16, read32, write8, from}
use quantum_kernel.Fat.{State, eoc_min}
use quantum_kernel.Fat.Name.{to_short_name}
use quantum_kernel.Fat.Table.{read_fat, free_cluster_chain}
use quantum_kernel.Fat.Cluster.{read_cluster, write_cluster}

-- `sizeof(fat32_dirent_t)`
abbrev pub dirent_size : ℕ
dirent_size = 32

abbrev pub attr_lfn : ℕ
attr_lfn = 0x0f

-- `memcmp(entries[i].name, short_name, 11) == 0`, with the name's bytes at `o`.
unfoldable pub same_name : List ℕ → Bytes → ℕ → Bool
same_name [] b o = true
same_name (c ∷ cs) b o = (b o == c) && same_name cs b (o + 1)

-- What the loop over the entries of one cluster comes to.
pub data Scanned : Type 0 where
  at_end : Scanned
  found : ℕ → Scanned
  passed : Scanned

-- The loop, with `n` entries left from entry `i` on.
unfoldable pub scan : ℕ → ℕ → List ℕ → Bytes → Scanned
scan zero i name b = passed
scan (suc n) i name b =
    let rest = scan n (i + 1) name b in
    let first = b (i * dirent_size) in
    if first == 0x00
    then at_end
    else if first == 0xe5
    then rest
    else if b (i * dirent_size + 11) == attr_lfn
    then rest
    else if same_name name b (i * dirent_size)
    then found i
    else rest

-- `*entry`, `*entry_cluster` and `*entry_offset`.
pub record Place : Type 0 where
  pub entry : Bytes
  pub cluster : ℕ
  pub offset : ℕ

-- The `while` loop of `fat32_find_entry`, on fuel; -1 is `none` in the result.
unfoldable pub find_loop : ℕ → List ℕ → ℕ → State → Option (Option Place × State)
find_loop zero name cluster s = none
find_loop (suc fuel) name cluster s =
    let (done, s1) = read_cluster cluster s in
    let count = s1.fs.bytes_per_cluster / dirent_size in
    let (next, s2) = read_fat cluster s1 in
    let rest = find_loop fuel name next s2 in
    let looked : Option (Option Place × State) = elim (scan count 0 name s1.cluster_buffer) [
      | at_end ↦ some (none, s1)
      | found i ↦ some (
        some (record {
          entry = from s1.cluster_buffer (i * dirent_size);
          cluster = cluster;
          offset = i * dirent_size;
        }),
        s1,
      )
      | passed ↦ rest
    ] in
    if leb 2 cluster && ltb cluster eoc_min && ltb cluster (u32 (s.fs.total_clusters + 2))
    then (if done then looked else some (none, s1))
    else some (none, s)

unfoldable pub find_entry : ℕ → ℕ → List ℕ → State → Option (Option Place × State)
find_entry fuel dir_cluster name s = find_loop fuel (to_short_name name) dir_cluster s

-- `((uint32_t)entry.first_cluster_high << 16) | entry.first_cluster_low`
abbrev pub first_cluster_of : Bytes → ℕ
first_cluster_of e = read16 e 20 * 2 ^ 16 + read16 e 26

-- The end of `fat32_unlink`: the entry's first byte becomes 0xE5.
unfoldable pub strike_entry : Place → State → ℤ × State
strike_entry p s =
    let (done, s1) = read_cluster p.cluster s in
    let struck : State = record s1 { cluster_buffer = write8 s1.cluster_buffer p.offset 0xe5 } in
    let (wrote, s2) = write_cluster p.cluster struck in
    if not done then (negsuc 0, s1) else if wrote then (pos 0, s2) else (negsuc 0, s2)

unfoldable pub unlink_found : ℕ → Place → State → Option (ℤ × State)
unlink_found fuel p s =
    let first = first_cluster_of p.entry in
    let freed = Option.map (strike_entry p) (free_cluster_chain fuel first s) in
    if leb 2 first then freed else some (strike_entry p s)

unfoldable pub unlink : ℕ → List ℕ → State → Option (ℤ × State)
unlink fuel path s = elim (find_entry fuel s.current_dir_cluster path s) [
  | none ↦ none
  | some (none, s') ↦ some (negsuc 0, s')
  | some (some p, s') ↦ unlink_found fuel p s'
]
