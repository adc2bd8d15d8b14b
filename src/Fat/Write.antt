-- ===== src/Fat/Write.antt =====
-- `fat32_write` of src/fs/fat32.c.
pub mod Apart
pub mod Round
pub mod All
pub mod RoundTrip
pub mod Loop
pub mod Call
use mathlib.Core.Option
use quantum_kernel.Prelude.{
  to_int, ltb, leb, if◌then◌else◌, u32, ℤ, pos, negsuc, ℕ, zero, suc, ◌+◌, ◌-◌, ◌/◌, ◌%◌, ◌⊎◌, inl,
  inr, Bool, true, ◌&&◌, ◌||◌, not, Option, none, some, ◌==◌,
}
use quantum_kernel.Bytes.{Bytes, copy}
use quantum_kernel.Fat.{State, eoc_min}
use quantum_kernel.Fat.Table.{read_fat, write_fat, alloc_cluster}
use quantum_kernel.Fat.Cluster.{read_cluster, write_cluster}
use quantum_kernel.Fat.File.{File}

-- The next cluster of the chain, a new one behind its last, or none when the disk is full.
unfoldable pub extend : ℕ → State → Option ℕ × State
extend cluster s =
    let (next, s1) = read_fat cluster s in
    let (new, s2) = alloc_cluster s1 in
    let (_, s3) = write_fat cluster new s2 in
    if leb eoc_min next then (if new == 0 then (none, s2) else (some new, s3)) else (some next, s1)

-- The `for` loop over the clusters before the position.
unfoldable pub skip_or_extend : ℕ → ℕ → State → Option ℕ × State
skip_or_extend zero cluster s = (some cluster, s)
skip_or_extend (suc n) cluster s =
    let (next, s1) = extend cluster s in
    let rest : Option ℕ × State = elim next [
      | some c ↦ skip_or_extend n c s1
      | none ↦ (none, s1)
    ] in
    if leb 2 cluster then rest else (some cluster, s)

-- The local variables of the loop of `fat32_write`, and what it changes of the file.
pub record Writing : Type 0 where
  pub bytes_written : ℕ
  pub size : ℕ
  pub cluster : ℕ
  pub offset_in_cluster : ℕ
  pub position : ℕ
  pub file_size : ℕ

-- A cluster that is not written whole is read first.
unfoldable pub prepare : Writing → State → Bool × State
prepare w s =
    let loaded = read_cluster w.cluster s in
    if ltb 0 w.offset_in_cluster || ltb w.size s.fs.bytes_per_cluster then loaded else (true, s)

-- How many bytes a round copies.
unfoldable pub to_copy : Writing → State → ℕ
to_copy w s =
    let room = s.fs.bytes_per_cluster - w.offset_in_cluster in
    if ltb w.size room then w.size else room

-- `memcpy(cluster_buffer + offset_in_cluster, buffer + bytes_written, to_copy)`
unfoldable pub put_bytes : Bytes → Writing → State → State
put_bytes buffer w s = record s {
  cluster_buffer = copy s.cluster_buffer w.offset_in_cluster buffer w.bytes_written (to_copy w s);
}

-- The variables behind a round.
unfoldable pub count_bytes : ℕ → Writing → Writing
count_bytes n w =
    let position = u32 (w.position + n) in
    record w {
      bytes_written = w.bytes_written + n;
      size = w.size - n;
      position = position;
      file_size = if ltb w.file_size position then position else w.file_size;
      offset_in_cluster = 0;
    }

unfoldable pub write_loop : ℕ → Bytes → Writing → State → Option (Writing × State)
write_loop zero buffer w s = none
write_loop (suc fuel) buffer w s =
    let (done, s1) = prepare w s in
    let (wrote, s2) = write_cluster w.cluster (put_bytes buffer w s1) in
    let w' = count_bytes (to_copy w s) w in
    let (next, s3) = extend w'.cluster s2 in
    let more : Option (Writing × State) = elim next [
      | some c ↦ write_loop fuel buffer (record w' { cluster = c }) s3
      | none ↦ some (w', s3)
    ] in
    let round =
      if not done
      then some (w, s1)
      else if not wrote
      then some (w, s2)
      else if ltb 0 w'.size
      then more
      else some (w', s2) in
    if ltb 0 w.size && leb 2 w.cluster then round else some (w, s)

-- What a write returns.
pub record WriteResult : Type 0 where
  pub result : ℤ
  pub file : File
  pub state : State

unfoldable pub start_writing : File → ℕ → ℕ → ℕ → Writing
start_writing f size cluster bytes_per_cluster = record {
  bytes_written = 0;
  size = size;
  cluster = cluster;
  offset_in_cluster = f.position % bytes_per_cluster;
  position = f.position;
  file_size = f.file_size;
}

unfoldable pub finish_writing : File → Option (Writing × State) → Option WriteResult
finish_writing f none = none
finish_writing f (some (w, s)) = some (record {
  result = to_int w.bytes_written;
  file = record f { position = w.position; file_size = w.file_size };
  state = s;
})

-- `fat32_write` once the file has a first cluster.
unfoldable pub write_chain : File → Bytes → ℕ → State → Option WriteResult
write_chain f buffer size s =
    let (found, s') = skip_or_extend (f.position / s.fs.bytes_per_cluster) f.first_cluster s in
    elim found [
      | none ↦ some (record { result = pos 0; file = f; state = s' })
      | some cluster ↦
          finish_writing (record f { current_cluster = cluster })
            (write_loop (size + 1) buffer (start_writing f size cluster s.fs.bytes_per_cluster) s')
    ]

-- `fat32_write` of an open file: one without clusters gets its first.
unfoldable pub write_open : File → Bytes → ℕ → State → Option WriteResult
write_open f buffer size s =
    let (new, s') = alloc_cluster s in
    let begun = record f { first_cluster = new; current_cluster = new } in
    let written = write_chain begun buffer size s' in
    if f.first_cluster == 0
    then (if new == 0 then some (record { result = negsuc 0; file = f; state = s' }) else written)
    else write_chain f buffer size s

unfoldable pub write : Option File → Option Bytes → ℕ → State → Option (ℤ ⊎ WriteResult)
write none buffer size s = some (inl (negsuc 0))
write (some f) none size s = some (inl (negsuc 0))
write (some f) (some buffer) size s =
    if f.is_open then Option.map inr (write_open f buffer size s) else some (inl (negsuc 0))
