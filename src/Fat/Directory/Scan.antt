-- ===== src/Fat/Directory/Scan.antt =====
-- The search for a name among the entries of one cluster, in src/fs/fat32.c.
use quantum_kernel.Prelude.{
  Bool-cases, ℕ, zero, suc, ◌+◌, ◌*◌, ◌<◌, ◌≡◌, refl, ap, ◌∙◌, inl, inr, Bool, true, false, ◌&&◌,
  not, List, arith, ◌==◌,
}
use quantum_kernel.Bytes.{Bytes}
use quantum_kernel.Fat.Directory.{
  Scanned, at_end, found, passed, scan, same_name, dirent_size, attr_lfn,
}

-- Entry `j` ends the directory.
abbrev pub ends : Bytes → ℕ → Bool
ends b j = b (j * dirent_size) == 0

-- Entry `j` is in use, is no part of a long name, and has the name.
unfoldable pub is_named : List ℕ → Bytes → ℕ → Bool
is_named name b j =
    not (b (j * dirent_size) == 0xe5)
    && not (b (j * dirent_size + 11) == attr_lfn)
    && same_name name b (j * dirent_size)

-- The entries from `i` to before `k` neither end the directory nor have the name.
unfoldable pub Clear : List ℕ → Bytes → ℕ → ℕ → Type 0
Clear name b zero i = Unit
Clear name b (suc n) i = (ends b i ≡ false) × (is_named name b i ≡ false) × Clear name b n (i + 1)

module _ (n i : ℕ) (name : List ℕ) (b : Bytes) where
  scan_ends : ends b i ≡ true → scan (suc n) i name b ≡ at_end
  unfolding scan
  scan_ends h = rw (h, scan) refl

  pub scan_named : ends b i ≡ false → is_named name b i ≡ true → scan (suc n) i name b ≡ found i
  unfolding scan is_named
  scan_named h k = ground (arith, h, k)

  pub scan_skips :
      ends b i ≡ false → is_named name b i ≡ false → scan (suc n) i name b ≡ scan n (i + 1) name b
  unfolding scan is_named
  scan_skips h k = ground (arith, h, k)

-- What the search among `n` entries from `i` on may come to: `m` entries are clear, and behind them
-- the search ends, or finds the name, or has no more entries.
pub data Search (n i : ℕ) (name : List ℕ) (b : Bytes) (r : Scanned) : Type 0 where
  stops :
      (m : ℕ) → m < n → Clear name b m i → ends b (i + m) ≡ true → r ≡ at_end → Search n i name b r
  hits :
      (m : ℕ)
      → m < n
      → Clear name b m i
      → ends b (i + m) ≡ false
      → is_named name b (i + m) ≡ true
      → r ≡ found (i + m)
      → Search n i name b r
  misses : Clear name b n i → r ≡ passed → Search n i name b r

later :
    (n i : ℕ) (name : List ℕ) (b : Bytes) (r r' : Scanned)
    → ends b i ≡ false
    → is_named name b i ≡ false
    → r' ≡ r
    → Search n (i + 1) name b r
    → Search (suc n) i name b r'
unfolding Clear
later n i name b r r' h k e (stops m inside clear end_here q) =
    stops (suc m) (omega arith) (h, k, clear) (ap (ends b) (omega arith) ∙ end_here) (e ∙ q)
later n i name b r r' h k e (hits m inside clear goes_on named q) =
    hits (suc m) (omega arith) (h, k, clear) (ap (ends b) (omega arith) ∙ goes_on)
      (ap (is_named name b) (omega arith) ∙ named) (e ∙ q ∙ ap found (omega arith))
later n i name b r r' h k e (misses clear q) = misses (h, k, clear) (e ∙ q)

-- The loop over a cluster's entries finds the first entry that is in use and has the name, if one
-- comes before the directory's end, and otherwise tells whether it has met that end; deleted entries
-- and parts of long names are passed over.
pub scan_lem : (n i : ℕ) (name : List ℕ) (b : Bytes) → Search n i name b (scan n i name b)
unfolding scan Clear
scan_lem zero i name b = misses tt refl
scan_lem (suc n) i name b = elim (Bool-cases (ends b i)) [
  | inl over ↦
      stops 0 (omega arith) tt (ap (ends b) (omega arith) ∙ over) (scan_ends n i name b over)
  | inr goes_on ↦ elim (Bool-cases (is_named name b i)) [
    | inl named ↦
        hits 0 (omega arith) tt (ap (ends b) (omega arith) ∙ goes_on)
          (ap (is_named name b) (omega arith) ∙ named)
          (scan_named n i name b goes_on named ∙ ap found (omega arith))
    | inr other ↦
        later n i name b (scan n (i + 1) name b) (scan (suc n) i name b) goes_on other
          (scan_skips n i name b goes_on other) (scan_lem n (i + 1) name b)
  ]
]
