-- ===== src/Fat/File/Reads.antt =====
-- `fat32_read` of src/fs/fat32.c: on a mounted volume whose disk does not fail it returns the bytes
-- of the file's chain.
use quantum_kernel.Fat.Cluster.RoundTrip.{read_cluster_lem}
use quantum_kernel.Fat.Cluster.{read_cluster}
use quantum_kernel.Fat.Cluster.Laws.{content}
use quantum_kernel.Bytes.{copy}
use quantum_kernel.Fat.File.Chain.{stream, Quiet, read_cluster-Quiet}
pub mod Call
pub mod Loop
use native.Mathlib.Nat.{mod-eq_of_lt}
use quantum_kernel.Prelude.{
  mul-le, le→leb, to_int, ltb, leb, if◌then◌else◌, bit, u8, u16, u32, ltb→lt, lt→ltb, le→ltb,
  ==_iff, Bool-cases, Option-cases, length, get_or, set, take, drop, length-append, length-set,
  get_or-set_self, get_or-set_ne, replicate, ℤ, pos, negsuc, is_neg, sign_extend, ℕ, zero, suc, ◌+◌,
  ◌-◌, ◌*◌, ◌/◌, ◌%◌, ◌^◌, ◌≤◌, ◌<◌, min, max, ◌≡◌, refl, sym, ap, ap₂, ◌∙◌, ◌≢◌, ◌↔◌, ◌⊎◌, inl,
  inr, Bool, true, false, ◌&&◌, ◌||◌, not, Option, none, some, List, [], ◌∷◌, ◌++◌, map, append-nil,
  append_assoc, arith, ◌==◌,
}
use quantum_kernel.Fat.{Fs, State, IsMounted}
use quantum_kernel.Fat.File.{Reading, read_loop, take_bytes, advance}
use quantum_kernel.Fat.Table.View.{InRange, Holds}

module _ (s : State) (c : ℕ) (cs : List ℕ) where
  pub stream_first : (p : ℕ) → p < s.fs.bytes_per_cluster → stream s (c ∷ cs) p ≡ content s c p
  unfolding stream
  stream_first p h =
      let q : p / s.fs.bytes_per_cluster ≡ 0 = grind arith in
      let e : p % s.fs.bytes_per_cluster ≡ p = mod-eq_of_lt h in rw (q, e)

  pub stream_rest :
      (p : ℕ)
      → 0 < s.fs.bytes_per_cluster
      → stream s (c ∷ cs) (s.fs.bytes_per_cluster + p) ≡ stream s cs p
  unfolding stream
  stream_rest p h =
      let q : (s.fs.bytes_per_cluster + p) / s.fs.bytes_per_cluster
          ≡ suc (p / s.fs.bytes_per_cluster) =
        grind arith in
      let e : (s.fs.bytes_per_cluster + p) % s.fs.bytes_per_cluster ≡ p % s.fs.bytes_per_cluster =
        grind arith in
      rw (q, e)

-- What the loop has done when it ends: all that was asked for has been read.
pub record ReadAll (s : State) (cs : List ℕ) (r r' : Reading) (s' : State) : Type 0 where
  pub count : r'.bytes_read ≡ r.bytes_read + r.size
  pub moved : r'.position ≡ r.position + r.size
  pub bytes :
      (k : ℕ)
      → r'.buffer k ≡ (
          if leb r.bytes_read k && ltb k (r.bytes_read + r.size)
          then stream s cs (r.offset_in_cluster + (k - r.bytes_read))
          else r.buffer k)
  pub quiet : Quiet s s'

-- What the loop needs to read all.
pub record CanRead (s : State) (cs : List ℕ) (r : Reading) : Type 0 where
  pub inside : r.offset_in_cluster < s.fs.bytes_per_cluster
  pub enough : r.offset_in_cluster + r.size ≤ length cs * s.fs.bytes_per_cluster
  pub small : r.position + r.size < 2 ^ 32

-- How many bytes a round takes.
abbrev pub taken : State → Reading → ℕ
taken s r = min r.size (s.fs.bytes_per_cluster - r.offset_in_cluster)

taken-eq :
    (r : Reading) (s s' : State)
    → s'.fs ≡ s.fs
    → (if ltb r.size (s'.fs.bytes_per_cluster - r.offset_in_cluster)
        then r.size
        else s'.fs.bytes_per_cluster - r.offset_in_cluster)
      ≡ taken s r
taken-eq r s s' same = ground (arith, same)

module _ {s : State} {t : ℕ → ℕ} (h : Holds s t) (r : Reading) where
  pub bytes_per_cluster-pos : 0 < s.fs.bytes_per_cluster
  bytes_per_cluster-pos = omega (arith, h.mounted.cluster_bytes, h.mounted.has_sector)

  pub take_bytes_lem :
      (cs : List ℕ)
      → InRange s.fs r.cluster
      → CanRead s (r.cluster ∷ cs) r
      → let r' = take_bytes (read_cluster r.cluster s).1 r in
        (r'.bytes_read ≡ r.bytes_read + taken s r)
        × (r'.size ≡ r.size - taken s r)
        × (r'.position ≡ r.position + taken s r)
        × (r'.cluster ≡ r.cluster)
        × (r'.offset_in_cluster ≡ 0)
        × ((k : ℕ)
            → r'.buffer k ≡ (
                if leb r.bytes_read k && ltb k (r.bytes_read + taken s r)
                then stream s (r.cluster ∷ cs) (r.offset_in_cluster + (k - r.bytes_read))
                else r.buffer k))
  unfolding take_bytes copy
  take_bytes_lem cs range can =
      let same = (read_cluster-Quiet h r.cluster range).same_fs in
      let (_, filled, _) = read_cluster_lem h r.cluster range in
      let count = taken-eq r s (read_cluster r.cluster s).1 same in
      (
        rw count,
        rw count,
        rw count (ground (arith, can.small)),
        refl,
        refl,
        λ k. rw count (
            ground (
              arith,
              can.inside,
              filled (r.offset_in_cluster + (k - r.bytes_read)),
              stream_first s r.cluster cs (r.offset_in_cluster + (k - r.bytes_read)),
            )),
      )
