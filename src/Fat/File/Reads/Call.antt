-- ===== src/Fat/File/Reads/Call.antt =====
-- A whole `fat32_read` of src/fs/fat32.c.
use quantum_kernel.Fat.File.Reads.Loop.{Result, read_loop_lem}
use mathlib.Core.Path.{subst}
use mathlib.Core.Option
use quantum_kernel.Fat.File.Chain.{
  stream, Links, Quiet, skip_clusters_lem, Quiet-Holds, Quiet-Links, Quiet-trans, Quiet-stream,
}
use native.Mathlib.Nat.{
  div-lt_iff_lt-mul, div-add-mod', mod-lt, mul-add-div_right, mul-add-mod_self_right,
}
use quantum_kernel.Prelude.{
  sub-mul, length-drop, get_or-drop, to_int, ltb, leb, if◌then◌else◌, length, drop, ℕ, ◌+◌, ◌-◌,
  ◌*◌, ◌/◌, ◌%◌, ◌^◌, ◌≤◌, ◌<◌, min, ◌≡◌, refl, sym, ap, ◌∙◌, inr, true, false, some, List, arith,
}
use quantum_kernel.Bytes.{Bytes}
use quantum_kernel.Fat.{State}
use quantum_kernel.Fat.File.{
  File, Reading, ReadResult, read, read_open, clamp_size, start_reading, finish_reading,
  skip_clusters, read_loop,
}
use quantum_kernel.Fat.File.Reads.{bytes_per_cluster-pos}
use quantum_kernel.Fat.Table.View.{Holds}

-- The stream of a chain, from its cluster `n` on.
pub stream-drop :
    (s : State) (n p : ℕ) (cs : List ℕ)
    → 0 < s.fs.bytes_per_cluster
    → stream s (drop n cs) p ≡ stream s cs (n * s.fs.bytes_per_cluster + p)
unfolding stream
stream-drop s n p cs h =
    let b = s.fs.bytes_per_cluster in
    let q : (n * b + p) / b ≡ n + p / b = mul-add-div_right h n p in
    let e : (n * b + p) % b ≡ p % b = mul-add-mod_self_right n b p in
    rw (q, e, get_or-drop n (p / b) cs 0)

-- What `fat32_read` returns for an open file, in terms of the bytes of its chain.
pub record ReadsFile (f : File) (buffer : Bytes) (n : ℕ) (cs : List ℕ) (s : State) (o : ReadResult)
    : Type 0 where
  pub result : o.result ≡ to_int n
  pub bytes : (k : ℕ) → o.buffer k ≡ (if ltb k n then stream s cs (f.position + k) else buffer k)
  pub position : o.file.position ≡ f.position + n
  pub same_size : o.file.file_size ≡ f.file_size
  pub same_first : o.file.first_cluster ≡ f.first_cluster
  pub still_open : o.file.is_open ≡ f.is_open
  pub quiet : Quiet s o.state

clamp_size-eq :
    (f : File) (size : ℕ)
    → f.position < f.file_size
    → f.position + size < 2 ^ 32
    → clamp_size f size ≡ min size (f.file_size - f.position)
unfolding clamp_size
clamp_size-eq f size h k = ground arith

-- The state and the loop's variables once the clusters before the position are skipped.
skipped : File → State → State
skipped f s = (skip_clusters (f.position / s.fs.bytes_per_cluster) f.first_cluster s).1

at_cluster : File → State → File
at_cluster f s = record f {
  current_cluster = (skip_clusters (f.position / s.fs.bytes_per_cluster) f.first_cluster s).0;
}

first_round : File → Bytes → ℕ → State → Reading
first_round f buffer n s = start_reading (at_cluster f s) buffer n s.fs.bytes_per_cluster

module _ (f : File) (buffer : Bytes) (size : ℕ) (s : State) (before : f.position < f.file_size)
    (small : f.position + size < 2 ^ 32) where
  -- What the call asks of the loop.
  wanted : ℕ
  wanted = min size (f.file_size - f.position)

  read_eq :
      f.is_open ≡ true
      → read (some f) (some buffer) size s
        ≡ Option.map inr (
            finish_reading
              (at_cluster f s)
              (read_loop (wanted + 1) (first_round f buffer wanted s) (skipped f s)))
  unfolding read read_open wanted first_round skipped at_cluster
  read_eq opened =
      let inside : leb f.file_size f.position ≡ false = ground arith in
      simp (opened, inside, clamp_size-eq f size before small)

  module _ {t : ℕ → ℕ} (cs : List ℕ) (h : Holds s t) (links : Links s.fs t f.first_cluster cs)
      (enough : f.file_size ≤ length cs * s.fs.bytes_per_cluster) where
    index : ℕ
    index = f.position / s.fs.bytes_per_cluster

    bytes-pos : 0 < s.fs.bytes_per_cluster
    bytes-pos = bytes_per_cluster-pos h (first_round f buffer 0 s)

    index-lt : index < length cs
    unfolding index
    index-lt = (div-lt_iff_lt-mul bytes-pos).1 (omega arith)

    position-eq : index * s.fs.bytes_per_cluster + f.position % s.fs.bytes_per_cluster ≡ f.position
    unfolding index
    position-eq = div-add-mod' f.position s.fs.bytes_per_cluster

    loop_reads : Result (wanted + 1) (skipped f s) (drop index cs) (first_round f buffer wanted s)
    unfolding index first_round start_reading skipped at_cluster wanted
    loop_reads =
        let (found, links', q) = skip_clusters_lem index h links index-lt in
        read_loop_lem (wanted + 1) t _ _ _ (Quiet-Holds q h)
          (Quiet-Links q (subst (λ c. Links s.fs t c (drop index cs)) (sym found) links'))
          (record {
            inside = rw q.same_fs (mod-lt _ bytes-pos);
            enough =
                rw
                  (
                    q.same_fs,
                    length-drop index cs,
                    sub-mul (length cs) index s.fs.bytes_per_cluster,
                  )
                  (omega (arith, position-eq, enough));
            small = omega arith;
          })
          (omega arith)

    skipped-Quiet : Quiet s (skipped f s)
    unfolding skipped index
    skipped-Quiet = (skip_clusters_lem index h links index-lt).2

    -- The bytes behind the position, seen from the cluster that holds it.
    skipped-stream :
        (k : ℕ)
        → stream (skipped f s) (drop index cs) (f.position % s.fs.bytes_per_cluster + k)
          ≡ stream s cs (f.position + k)
    skipped-stream k =
        let e : index * s.fs.bytes_per_cluster + (f.position % s.fs.bytes_per_cluster + k)
            ≡ f.position + k =
          omega (arith, position-eq) in
        Quiet-stream skipped-Quiet (drop index cs) _
        ∙ stream-drop s index _ cs bytes-pos
        ∙ ap (stream s cs) e

-- `fat32_read` of an open file on a mounted volume whose disk does not fail, at a position before
-- the end, where position and size do not pass 2 ^ 32 and the chain holds the file's size: it ends,
-- returns the smaller of the size and what is left, fills that many bytes of the buffer with the
-- chain's bytes from the position on and no other, moves the position behind them, and writes
-- nothing to the disk.
pub read_lem :
    (f : File) (buffer : Bytes) (size : ℕ) (s : State) (t : ℕ → ℕ) (cs : List ℕ)
    → Holds s t
    → f.is_open ≡ true
    → Links s.fs t f.first_cluster cs
    → f.position < f.file_size
    → f.file_size ≤ length cs * s.fs.bytes_per_cluster
    → f.position + size < 2 ^ 32
    → (o : ReadResult) × (read (some f) (some buffer) size s ≡ some (inr o))
      × ReadsFile f buffer (min size (f.file_size - f.position)) cs s o
unfolding finish_reading first_round start_reading wanted at_cluster index
read_lem f buffer size s t cs h opened links before enough small =
    let loop = loop_reads f buffer size s before small cs h links enough in
    let all = loop.all in
    let q = skipped-Quiet f buffer size s before small cs h links enough in
    let behind = skipped-stream f buffer size s before small cs h links enough in
    (
      record {
        result = to_int loop.reading.bytes_read;
        file = record (at_cluster f s) { position = loop.reading.position };
        buffer = loop.reading.buffer;
        state = loop.state;
      },
      read_eq f buffer size s before small opened
          ∙ ap (λ o. Option.map inr (finish_reading (at_cluster f s) o)) loop.ends,
      record {
        result = ap to_int (omega (arith, all.count));
        bytes = λ k. ground (arith, all.bytes k, behind k);
        position = all.moved;
        same_size = refl;
        same_first = refl;
        still_open = refl;
        quiet = Quiet-trans q all.quiet;
      },
    )

-- A read whose position and size pass 2 ^ 32 together is not cut to the file's size: the 32-bit sum
-- in the test wraps round to a number below it.
pub clamp_size_wraps :
    (f : File) (size : ℕ)
    → f.position < f.file_size
    → f.file_size < 2 ^ 32
    → size < 2 ^ 32
    → 2 ^ 32 ≤ f.position + size
    → (clamp_size f size ≡ size) × (f.file_size - f.position < clamp_size f size)
unfolding clamp_size
clamp_size_wraps f size before small fits wraps = ground arith
