-- ===== src/Fat/File.antt =====
-- Open files of src/fs/fat32.c: `fat32_read`, `fat32_seek`, `fat32_tell` and `fat32_close`. A buffer
-- or a file that may be NULL is an `Option`; a result of -1 is `negsuc 0`. The loop of `fat32_read`
-- takes one round of fuel for each byte that is left and one more.
pub mod Chain
pub mod Reads
pub mod Close
use mathlib.Core.Option
use quantum_kernel.Bytes.{Bytes, read32, write16, write32, copy}
use quantum_kernel.Prelude.{
  to_int, mul-le, ltb, leb, if◌then◌else◌, bit, u8, u16, u32, ltb→lt, lt→ltb, le→ltb, ==_iff,
  Bool-cases, Option-cases, length, get_or, set, take, drop, length-append, length-set,
  get_or-set_self, get_or-set_ne, replicate, ℤ, pos, negsuc, is_neg, sign_extend, ℕ, zero, suc, ◌+◌,
  ◌-◌, ◌*◌, ◌/◌, ◌%◌, ◌^◌, ◌≤◌, ◌<◌, min, max, ◌≡◌, refl, sym, ap, ap₂, ◌∙◌, ◌≢◌, ◌↔◌, ◌⊎◌, inl,
  inr, Bool, true, false, ◌&&◌, ◌||◌, not, Option, none, some, List, [], ◌∷◌, ◌++◌, map, append-nil,
  append_assoc, arith, ◌==◌,
}
use quantum_kernel.Fat.{State, eoc_min}
use quantum_kernel.Fat.Table.{read_fat, write_fat, alloc_cluster}
use quantum_kernel.Fat.Cluster.{read_cluster, write_cluster}

-- `fat32_file_t`
pub record File : Type 0 where
  pub first_cluster : ℕ
  pub current_cluster : ℕ
  pub file_size : ℕ
  pub position : ℕ
  pub dir_cluster : ℕ
  pub dir_entry_offset : ℕ
  pub flags : ℕ
  pub is_open : Bool
  pub attr : ℕ

-- `for (i = 0; i < skip_clusters && cluster >= 2; i++) cluster = fat32_read_fat(cluster);`
unfoldable pub skip_clusters : ℕ → ℕ → State → ℕ × State
skip_clusters zero cluster s = (cluster, s)
skip_clusters (suc n) cluster s =
    let (next, s') = read_fat cluster s in
    let rest = skip_clusters n next s' in if leb 2 cluster then rest else (cluster, s)

-- The local variables of the loop of `fat32_read`, with the caller's buffer and `file->position`.
pub record Reading : Type 0 where
  pub buffer : Bytes
  pub bytes_read : ℕ
  pub size : ℕ
  pub cluster : ℕ
  pub position : ℕ
  pub offset_in_cluster : ℕ

-- A round, after the cluster has been read into `cluster_buffer`, up to the next cluster.
unfoldable pub take_bytes : State → Reading → Reading
take_bytes s r =
    let room = s.fs.bytes_per_cluster - r.offset_in_cluster in
    let to_copy = if ltb r.size room then r.size else room in
    record r {
      buffer = copy r.buffer r.bytes_read s.cluster_buffer r.offset_in_cluster to_copy;
      bytes_read = r.bytes_read + to_copy;
      size = r.size - to_copy;
      position = u32 (r.position + to_copy);
      offset_in_cluster = 0;
    }

-- `if (size > 0) cluster = fat32_read_fat(cluster);`
unfoldable pub advance : Reading → State → Reading × State
advance r s =
    let (next, s') = read_fat r.cluster s in
    if ltb 0 r.size then (record r { cluster = next }, s') else (r, s)

unfoldable pub read_loop : ℕ → Reading → State → Option (Reading × State)
read_loop zero r s = none
read_loop (suc fuel) r s =
    let (done, s1) = read_cluster r.cluster s in
    let (r', s2) = advance (take_bytes s1 r) s1 in
    let rest = read_loop fuel r' s2 in
    let round = if done then rest else some (r, s1) in
    if ltb 0 r.size && leb 2 r.cluster && ltb r.cluster eoc_min then round else some (r, s)

-- `if (file->position + size > file->file_size) size = file->file_size - file->position;`
unfoldable pub clamp_size : File → ℕ → ℕ
clamp_size f size =
    if ltb f.file_size (u32 (f.position + size)) then f.file_size - f.position else size

-- What a read returns: the result, the file, the caller's buffer, and the driver's state.
pub record ReadResult : Type 0 where
  pub result : ℤ
  pub file : File
  pub buffer : Bytes
  pub state : State

unfoldable pub start_reading : File → Bytes → ℕ → ℕ → Reading
start_reading f buffer size bytes_per_cluster = record {
  buffer = buffer;
  bytes_read = 0;
  size = size;
  cluster = f.current_cluster;
  position = f.position;
  offset_in_cluster = f.position % bytes_per_cluster;
}

unfoldable pub finish_reading : File → Option (Reading × State) → Option ReadResult
finish_reading f none = none
finish_reading f (some (r, s)) = some (record {
  result = to_int r.bytes_read;
  file = record f { position = r.position };
  buffer = r.buffer;
  state = s;
})

-- `fat32_read` past its first guard.
unfoldable pub read_open : File → Bytes → ℕ → State → Option ReadResult
read_open f buffer size s =
    if leb f.file_size f.position
    then some (record { result = pos 0; file = f; buffer = buffer; state = s })
    else let size' = clamp_size f size in
      let (cluster, s') = skip_clusters (f.position / s.fs.bytes_per_cluster) f.first_cluster s in
      let f' = record f { current_cluster = cluster } in
      finish_reading f'
        (read_loop (size' + 1) (start_reading f' buffer size' s.fs.bytes_per_cluster) s')

unfoldable pub read : Option File → Option Bytes → ℕ → State → Option (ℤ ⊎ ReadResult)
read none buffer size s = some (inl (negsuc 0))
read (some f) none size s = some (inl (negsuc 0))
read (some f) (some buffer) size s =
    if f.is_open then Option.map inr (read_open f buffer size s) else some (inl (negsuc 0))

-- `fat32_seek` on a file that is not NULL: the low 32 bits of `offset`, and `whence`.
unfoldable pub seek : File → ℕ → ℕ → ℤ × File
seek f offset whence =
    if not f.is_open
    then (negsuc 0, f)
    else if whence == 0
    then (pos 0, record f { position = u32 offset })
    else if whence == 1
    then (pos 0, record f { position = u32 (f.position + offset) })
    else if whence == 2
    then (pos 0, record f { position = u32 (f.file_size + offset) })
    else (negsuc 0, f)

unfoldable pub tell : File → ℤ
tell f = if f.is_open then to_int f.position else negsuc 0

-- `fat32_close` on a file that is not NULL.
unfoldable pub close : File → State → ℤ × File × State
close f s =
    let (done, s1) = read_cluster f.dir_cluster s in
    let o = f.dir_entry_offset in
    let sized = write32 s1.cluster_buffer (o + 28) f.file_size in
    let low = write16 sized (o + 26) (f.first_cluster % 2 ^ 16) in
    let high = write16 low (o + 20) (f.first_cluster / 2 ^ 16 % 2 ^ 16) in
    let (_, s2) = write_cluster f.dir_cluster (record s1 { cluster_buffer = high }) in
    if not f.is_open
    then (negsuc 0, f, s)
    else if done
    then (pos 0, record f { is_open = false }, s2)
    else (negsuc 0, f, s1)
