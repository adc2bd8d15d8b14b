-- ===== src/Net/Table/Oldest.antt =====
-- The third loop of `arp_add_entry` of src/drivers/net/arp.c: the entry a full table gives up.
use quantum_kernel.Net.State.{ArpEntry}
use quantum_kernel.Prelude.{
  ltb, Bool-cases, length, ℕ, zero, suc, ◌+◌, ◌<◌, ◌≤◌, ◌≡◌, refl, ◌∙◌, inl, inr, false, List, [],
  ◌∷◌, arith,
}
use quantum_kernel.Net.Table.{oldest_from, oldest}

-- The time of entry `k`.
abbrev pub stamp : List ArpEntry → ℕ → ℕ
stamp [] k = 0
stamp (e ∷ es) zero = e.timestamp
stamp (e ∷ es) (suc k) = stamp es k

-- No entry is older than entry `j`, and every entry before it is younger.
pub record IsOldest (t : List ArpEntry) (j : ℕ) : Type 0 where
  pub inside : j < length t
  pub least : (k : ℕ) → k < length t → stamp t j ≤ stamp t k
  pub first : (k : ℕ) → k < j → stamp t j < stamp t k

least_here :
    (e : ArpEntry) (es : List ArpEntry)
    → ((k : ℕ) → k < length es → e.timestamp ≤ stamp es k)
    → (k : ℕ) → k < suc (length es)
    → e.timestamp ≤ stamp (e ∷ es) k
least_here e es all zero h = omega arith
least_here e es all (suc k) h = all k (omega arith)

least_from :
    (e : ArpEntry) (es : List ArpEntry) (time : ℕ)
    → ltb e.timestamp time ≡ false
    → ((k : ℕ) → k < length es → time ≤ stamp es k)
    → (k : ℕ) → k < suc (length es)
    → time ≤ stamp (e ∷ es) k
least_from e es time younger all zero h = ground (arith, younger)
least_from e es time younger all (suc k) h = all k (omega arith)

-- The oldest entry of the rest, when it is older than the first entry.
later_least :
    (e : ArpEntry) (es : List ArpEntry) (m : ℕ)
    → stamp es m < e.timestamp
    → IsOldest es m
    → (k : ℕ) → k < suc (length es)
    → stamp es m ≤ stamp (e ∷ es) k
later_least e es m less o zero h = omega arith
later_least e es m less o (suc k) h = o.least k (omega arith)

later_first :
    (e : ArpEntry) (es : List ArpEntry) (m : ℕ)
    → stamp es m < e.timestamp
    → IsOldest es m
    → (k : ℕ) → k < suc m
    → stamp es m < stamp (e ∷ es) k
later_first e es m less o zero h = less
later_first e es m less o (suc k) h = o.first k (omega arith)

IsOldest-later :
    (e : ArpEntry) (es : List ArpEntry) (m : ℕ)
    → stamp es m < e.timestamp
    → IsOldest es m
    → IsOldest (e ∷ es) (suc m)
IsOldest-later e es m less o = record {
  inside = omega (arith, o.inside);
  least = λ k. later_least e es m less o k;
  first = λ k. later_first e es m less o k;
}

-- What the third loop has found in the entries from `i` on, where entry `first` with the time `time`
-- was the oldest before.
data Oldest (t : List ArpEntry) (i first time j : ℕ) : Type 0 where
  stays : j ≡ first → ((k : ℕ) → k < length t → time ≤ stamp t k) → Oldest t i first time j
  moves : (m : ℕ) → j ≡ i + m → stamp t m < time → IsOldest t m → Oldest t i first time j

oldest_from_lem :
    (t : List ArpEntry) (i first time : ℕ) → Oldest t i first time (oldest_from t i first time)
unfolding oldest_from
oldest_from_lem [] i first time = stays refl (λ k h. absurd (omega arith))
oldest_from_lem (e ∷ es) i first time = elim (Bool-cases (ltb e.timestamp time)) [
  | inl older ↦ elim (oldest_from_lem es (i + 1) i e.timestamp) [
    | stays same all ↦ moves 0 (rw older (same ∙ omega arith)) (ground (arith, older)) (record {
      inside = omega arith;
      least = λ k h. least_here e es all k h;
      first = λ k h. absurd (omega arith);
    })
    | moves m there less o ↦
        moves (suc m) (rw older (there ∙ omega arith)) (ground (arith, older, less))
          (IsOldest-later e es m less o)
  ]
  | inr younger ↦ elim (oldest_from_lem es (i + 1) first time) [
    | stays same all ↦ stays (rw younger same) (λ k h. least_from e es time younger all k h)
    | moves m there less o ↦
        moves (suc m) (rw younger (there ∙ omega arith)) less
          (IsOldest-later e es m (ground (arith, younger, less)) o)
  ]
]

-- The entry that the third loop picks.
pub oldest_lem : (t : List ArpEntry) → 0 < length t → IsOldest t (oldest t)
unfolding oldest
oldest_lem [] h = absurd (omega arith)
oldest_lem (e ∷ es) h = elim (oldest_from_lem es 1 0 e.timestamp) [
  | stays same all ↦ rw same (record {
    inside = omega arith;
    least = λ k h. least_here e es all k h;
    first = λ k h. absurd (omega arith);
  })
  | moves m there less o ↦
      let next : 1 + m ≡ suc m = omega arith in rw (there ∙ next) (IsOldest-later e es m less o)
]
