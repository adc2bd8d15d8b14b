-- ===== src/Fat/File/Reads/Loop.antt =====
-- The loop of `fat32_read` of src/fs/fat32.c, and the whole call.
use quantum_kernel.Fat.Table.Entries.{clusters-lt}
use quantum_kernel.Fat.Cluster.RoundTrip.{read_cluster_lem}
use quantum_kernel.Fat.File.Chain.{
  stream, Quiet, Quiet-trans, Links, read_cluster-Quiet, Quiet-Holds, Quiet-Links, read_fat-Quiet,
  Quiet-stream, last, Quiet-refl, link,
}
use quantum_kernel.Fat.Cluster.{read_cluster}
use quantum_kernel.Fat.Table.{read_fat}
use mathlib.Core.Path.{subst}
use quantum_kernel.Prelude.{
  ltb, leb, if◌then◌else◌, lt→ltb, Bool-cases, length, ℕ, zero, suc, ◌+◌, ◌-◌, ◌*◌, ◌≤◌, ◌<◌, ◌≡◌,
  refl, sym, ap, ◌∙◌, ◌⊎◌, inl, inr, true, ◌&&◌, some, List, [], ◌∷◌, arith, ◌==◌,
}
use quantum_kernel.Fat.{Fs, State, eoc_min}
use quantum_kernel.Fat.File.{Reading, read_loop, take_bytes, advance}
use quantum_kernel.Fat.File.Reads.{
  ReadAll, CanRead, taken, take_bytes_lem, bytes_per_cluster-pos, stream_rest,
}
use quantum_kernel.Fat.Table.View.{InRange, Holds, read_fat-lookup}

advance_end : (r : Reading) (s : State) → r.size ≡ 0 → advance r s ≡ (r, s)
unfolding advance
advance_end r s e = rw e

advance_next :
    (r : Reading) (s : State)
    → 0 < r.size
    → advance r s ≡ (record r { cluster = (read_fat r.cluster s).0 }, (read_fat r.cluster s).1)
unfolding advance
advance_next r s h = rw (lt→ltb 0 r.size h)

read_loop_end :
    (fuel : ℕ) (r : Reading) (s : State) → r.size ≡ 0 → read_loop (suc fuel) r s ≡ some (r, s)
unfolding read_loop
read_loop_end fuel r s e = rw e

module _ {s : State} {t : ℕ → ℕ} (h : Holds s t) (r : Reading)
    (range : InRange s.fs r.cluster) where
  read_loop_round :
      (fuel : ℕ)
      → 0 < r.size
      → (r' : Reading) (s' : State)
      → advance (take_bytes (read_cluster r.cluster s).1 r) (read_cluster r.cluster s).1 ≡ (r', s')
      → read_loop (suc fuel) r s ≡ read_loop fuel r' s'
  unfolding read_loop
  read_loop_round fuel pos_size r' s' e =
      let (done, _, _) = read_cluster_lem h r.cluster range in
      let test : (ltb 0 r.size && leb 2 r.cluster && ltb r.cluster eoc_min) ≡ true =
        ground (arith, clusters-lt h.mounted) in
      rw (test, done, e)

pub record Result (fuel : ℕ) (s : State) (cs : List ℕ) (r : Reading) : Type 0 where
  pub reading : Reading
  pub state : State
  pub ends : read_loop fuel r s ≡ some (reading, state)
  pub all : ReadAll s cs r reading state

-- The bytes of a round, and those of the rounds that follow it.
ReadAll-round :
    {s s' u : State} {cs cs' : List ℕ} {r r' w : Reading} (n : ℕ)
    → n ≤ r.size
    → r'.bytes_read ≡ r.bytes_read + n
    → r'.size ≡ r.size - n
    → r'.position ≡ r.position + n
    → ((k : ℕ)
        → r'.buffer k ≡ (
            if leb r.bytes_read k && ltb k (r.bytes_read + n)
            then stream s cs (r.offset_in_cluster + (k - r.bytes_read))
            else r.buffer k))
    → ((k : ℕ)
        → k < r.size - n
        → stream s' cs' (r'.offset_in_cluster + k) ≡ stream s cs (r.offset_in_cluster + (k + n)))
    → Quiet s s'
    → ReadAll s' cs' r' w u
    → ReadAll s cs r w u
ReadAll-round {r} n fits count left moved now later quiet rest = record {
  count = ground (arith, rest.count);
  moved = ground (arith, rest.moved);
  bytes = λ k. ground (arith, rest.bytes k, now k, later (k - (r.bytes_read + n)));
  quiet = Quiet-trans quiet rest.quiet;
}

-- That the loop with this fuel reads all it is asked for.
abbrev pub Reads : ℕ → (ℕ → ℕ) → Type 0
Reads fuel t =
    (r : Reading) (s : State) (cs : List ℕ)
    → Holds s t
    → Links s.fs t r.cluster cs
    → CanRead s cs r
    → r.size < fuel
    → Result fuel s cs r

module _ {fuel : ℕ} {t : ℕ → ℕ} (reads : Reads fuel t) {s : State} (h : Holds s t) (r : Reading)
    (range : InRange s.fs r.cluster) (cs : List ℕ) (can : CanRead s (r.cluster ∷ cs) r)
    (enough : r.size < suc fuel) (some_left : 0 < r.size) where
  -- The last round.
  read_last :
      Links s.fs t r.cluster (r.cluster ∷ cs)
      → r.size ≤ s.fs.bytes_per_cluster - r.offset_in_cluster
      → Result (suc fuel) s (r.cluster ∷ cs) r
  read_last links fits =
      let s1 = (read_cluster r.cluster s).1 in
      let r1 = take_bytes s1 r in
      let q = read_cluster-Quiet h r.cluster range in
      let (count, left, moved, same, offset, now) = take_bytes_lem h r cs range can in
      let none_left : r1.size ≡ 0 = omega arith in
      let rest =
        reads r1 s1 (r.cluster ∷ cs) (Quiet-Holds q h)
          (subst (λ c. Links s1.fs t c (r.cluster ∷ cs)) (sym same) (Quiet-Links q links))
          (record {
            inside = ground (arith, offset, q.same_fs, bytes_per_cluster-pos h r);
            enough = ground (arith, offset, none_left);
            small = ground (arith, moved, none_left, can.small);
          })
          (omega arith) in
      record {
        reading = rest.reading;
        state = rest.state;
        ends =
            read_loop_round h r range fuel some_left r1 s1 (advance_end r1 s1 none_left)
            ∙ rest.ends;
        all =
            ReadAll-round (taken s r) (omega arith) count left moved now
              (λ k hk. absurd (omega arith)) q rest.all;
      }

  -- A round that another follows, on the next cluster of the chain.
  read_more :
      Links s.fs t (t r.cluster) cs
      → s.fs.bytes_per_cluster - r.offset_in_cluster < r.size
      → Result (suc fuel) s (r.cluster ∷ cs) r
  read_more links full =
      let s1 = (read_cluster r.cluster s).1 in
      let r1 = take_bytes s1 r in
      let q = read_cluster-Quiet h r.cluster range in
      let h1 = Quiet-Holds q h in
      let (count, left, moved, same, offset, now) = take_bytes_lem h r cs range can in
      let range1 : InRange s1.fs r1.cluster = rw (q.same_fs, same) range in
      let s2 = (read_fat r1.cluster s1).1 in
      let r2 = record r1 { cluster = (read_fat r1.cluster s1).0 } in
      let q2 = Quiet-trans q (read_fat-Quiet h1 r1.cluster range1) in
      let next : r2.cluster ≡ t r.cluster = (read_fat-lookup h1 r1.cluster range1).0 ∙ ap t same in
      let some_more : 0 < r1.size = omega arith in
      let fits : r2.offset_in_cluster + r2.size ≤ length cs * s2.fs.bytes_per_cluster =
        ground (arith, offset, left, q2.same_fs, can.enough) in
      let later : (k : ℕ)
          → stream s2 cs (r2.offset_in_cluster + k)
            ≡ stream s (r.cluster ∷ cs) (r.offset_in_cluster + (k + taken s r)) =
        λ k.
          ap (stream s2 cs) (omega arith)
          ∙ Quiet-stream q2 cs k
          ∙ sym (stream_rest s r.cluster cs k (bytes_per_cluster-pos h r))
          ∙ ap (stream s (r.cluster ∷ cs)) (omega (arith, can.inside)) in
      let rest =
        reads r2 s2 cs (Quiet-Holds q2 h)
          (subst (λ c. Links s2.fs t c cs) (sym next) (Quiet-Links q2 links))
          (record {
            inside = ground (arith, offset, q2.same_fs, bytes_per_cluster-pos h r);
            enough = fits;
            small = ground (arith, moved, left, can.small);
          })
          (omega arith) in
      record {
        reading = rest.reading;
        state = rest.state;
        ends =
            read_loop_round h r range fuel some_left r2 s2 (advance_next r1 s1 some_more)
            ∙ rest.ends;
        all =
            ReadAll-round (taken s r) (omega arith) count left moved now (λ k hk. later k) q2
              rest.all;
      }

-- The first cluster of a chain, and what follows it.
pub record Opened (f : Fs) (t : ℕ → ℕ) (c : ℕ) (cs : List ℕ) : Type 0 where
  pub rest : List ℕ
  pub split : cs ≡ c ∷ rest
  pub range : InRange f c
  pub goes_on : (rest ≡ []) ⊎ Links f t (t c) rest

pub open_links : {f : Fs} {t : ℕ → ℕ} {c : ℕ} {cs : List ℕ} → Links f t c cs → Opened f t c cs
open_links (last r) = record { rest = []; split = refl; range = r; goes_on = inl refl }
open_links (link {cs} r l) = record { rest = cs; split = refl; range = r; goes_on = inr l }

-- Fuel above the size is enough, and the chain's bytes arrive.
pub read_loop_lem : (fuel : ℕ) (t : ℕ → ℕ) → Reads fuel t
read_loop_lem zero t r s cs h links can enough = absurd (omega arith)
read_loop_lem (suc fuel) t r s cs h links can enough = elim (Bool-cases (r.size == 0)) [
  | inl e ↦
      let none_left : r.size ≡ 0 = ground arith in
      record {
        reading = r;
        state = s;
        ends = read_loop_end fuel r s none_left;
        all = record {
          count = omega arith;
          moved = omega arith;
          bytes = λ k. ground (arith, none_left);
          quiet = Quiet-refl s;
        };
      }
  | inr e ↦
      let o = open_links links in
      let can' = subst (λ (l : List ℕ). CanRead s l r) o.split can in
      let some_left : 0 < r.size = ground arith in
      let reads = read_loop_lem fuel t in
      subst (λ (l : List ℕ). Result (suc fuel) s l r) (sym o.split)
        (elim (Bool-cases (leb r.size (s.fs.bytes_per_cluster - r.offset_in_cluster))) [
          | inl fits ↦
              read_last reads h r o.range o.rest can' enough some_left
                (subst (λ l. Links s.fs t r.cluster l) o.split links) (ground arith)
          | inr full ↦
              read_more reads h r o.range o.rest can' enough some_left
                (elim o.goes_on [
                  | inl over ↦
                      absurd (ground (arith, can'.enough, can'.inside, over, ap length over))
                  | inr more ↦ more
                ])
                (ground arith)
        ])
]
