-- ===== src/Fat/Create/Slot.antt =====
-- An entry that `fat32_create_entry` of src/fs/fat32.c puts into a cluster, for the search of
-- `fat32_find_entry`.
use quantum_kernel.Prelude.{
  ==_iff, length, get_or, ℕ, zero, suc, ◌+◌, ◌-◌, ◌*◌, ◌^◌, ◌≤◌, ◌<◌, ◌≡◌, refl, sym, ap, ap₂, ◌∙◌,
  ◌≢◌, true, false, ◌&&◌, not, List, [], ◌∷◌, arith, ◌==◌,
}
use quantum_kernel.Bytes.{Bytes, read16, write8, write16, store_list, fill, from}
use quantum_kernel.Fat.Create.{put_entry}
use quantum_kernel.Fat.Directory.{first_cluster_of, dirent_size, scan, found, same_name, attr_lfn}
use quantum_kernel.Fat.Directory.Scan.{Clear, ends, is_named, scan_named, scan_skips}

-- The search passes over clear entries to the one with the name.
scan_hit :
    (m n i : ℕ) (name : List ℕ) (b : Bytes)
    → m < n
    → Clear name b m i
    → ends b (i + m) ≡ false
    → is_named name b (i + m) ≡ true
    → scan n i name b ≡ found (i + m)
unfolding Clear
scan_hit m zero i name b h clear goes_on named = absurd (omega arith)
scan_hit zero (suc n) i name b h clear goes_on named =
    let e : i + 0 ≡ i = omega arith in
    scan_named n i name b (ap (ends b) (sym e) ∙ goes_on) (ap (is_named name b) (sym e) ∙ named)
    ∙ ap found (sym e)
scan_hit (suc m) (suc n) i name b h (goes, other, clear) goes_on named =
    let e : i + suc m ≡ i + 1 + m = omega arith in
    scan_skips n i name b goes other
    ∙ scan_hit m n (i + 1) name b (omega arith) clear (ap (ends b) (sym e) ∙ goes_on)
        (ap (is_named name b) (sym e) ∙ named)
    ∙ ap found (sym e)

pub same_name_cong :
    (name : List ℕ) (b c : Bytes) (o : ℕ)
    → ((k : ℕ) → k < o + length name → b k ≡ c k)
    → same_name name b o ≡ same_name name c o
unfolding same_name
same_name_cong [] b c o h = refl
same_name_cong (x ∷ xs) b c o h =
    ap₂ ◌&&◌ (ap (λ v. v == x) (h o (omega arith)))
      (same_name_cong xs b c (o + 1) (λ k l. h k (omega (arith, l))))

-- Bytes that stand at `o` are the name.
same_name_stands :
    (name : List ℕ) (b : Bytes) (o : ℕ)
    → ((k : ℕ) → k < length name → b (o + k) ≡ get_or name k 0)
    → same_name name b o ≡ true
unfolding same_name
same_name_stands [] b o h = refl
same_name_stands (x ∷ xs) b o h =
    let here : b o ≡ x = ap b (omega arith) ∙ h 0 (omega arith) in
    let rest =
      same_name_stands xs b (o + 1) (λ k l. ap b (omega arith) ∙ h (suc k) (omega arith)) in
    ap₂ ◌&&◌ ((==_iff (b o) x).1 here) rest

-- Entries in front of a change stay clear.
Clear-kept :
    (m j i : ℕ) (name : List ℕ) (b c : Bytes)
    → length name ≡ 11
    → j + m ≤ i
    → ((k : ℕ) → k < i * dirent_size → b k ≡ c k)
    → Clear name c m j
    → Clear name b m j
unfolding Clear is_named
Clear-kept zero j i name b c size h same clear = clear
Clear-kept (suc m) j i name b c size h same (goes, other, clear) =
    let first = same (j * dirent_size) (omega arith) in
    let attr = same (j * dirent_size + 11) (omega arith) in
    let text = same_name_cong name b c (j * dirent_size) (λ k l. same k (omega (arith, l, size))) in
    (
      ap (λ v. v == 0) first ∙ goes,
      ap₂ ◌&&◌ (ap₂ ◌&&◌ (ap (λ v. not (v == 0xe5)) first) (ap (λ v. not (v == attr_lfn)) attr))
            text
          ∙ other,
      Clear-kept m (j + 1) i name b c size (omega arith) same clear,
    )

module _ (short_name : List ℕ) (attr first_cluster i : ℕ) (b : Bytes) where
  -- The cluster with the entry.
  abbrev put_in : Bytes
  put_in = put_entry short_name attr first_cluster (i * dirent_size) b

  put_entry_cluster :
      length short_name ≡ 11
      → first_cluster < 2 ^ 32
      → first_cluster_of (from put_in (i * dirent_size)) ≡ first_cluster
  unfolding put_entry read16 write16
  put_entry_cluster h k = ground (arith, h)

  put_entry_below : (k : ℕ) → k < i * dirent_size → put_in k ≡ b k
  unfolding put_entry write16 write8 store_list fill
  put_entry_below k h = ground (arith, h)

  put_entry_name :
      (k : ℕ)
      → length short_name ≡ 11
      → k < length short_name
      → put_in (i * dirent_size + k) ≡ get_or short_name k 0
  unfolding put_entry write16 write8 store_list fill
  put_entry_name k h l =
      let o = i * dirent_size in
      let e : get_or short_name (o + k - o) 0 ≡ get_or short_name k 0 =
        ap (λ j. get_or short_name j 0) (omega arith) in
      ground (arith, h, l, e)

  put_entry_attr : length short_name ≡ 11 → attr < 256 → put_in (i * dirent_size + 11) ≡ attr
  unfolding put_entry write16 write8 store_list fill
  put_entry_attr h l = ground (arith, h)

named_lem :
    (name : List ℕ) (b : Bytes) (i : ℕ)
    → b (i * dirent_size) ≢ 0xe5
    → b (i * dirent_size + 11) ≢ attr_lfn
    → same_name name b (i * dirent_size) ≡ true
    → is_named name b i ≡ true
unfolding is_named
named_lem name b i h k same = ground (arith, h, k, same)

goes_lem : (b : Bytes) (i : ℕ) → b (i * dirent_size) ≢ 0 → ends b i ≡ false
goes_lem b i h = ground (arith, h)

-- A short name of eleven bytes that does not begin with 0 or 0xE5, put with its attributes and first
-- cluster into entry `i` of a cluster of `n` entries, where no entry before it ends the directory or
-- has the name: the search of `fat32_find_entry` among the cluster's entries finds entry `i`, whose
-- first cluster and attributes are those that were put.
pub scan-put_entry :
    (short_name : List ℕ) (attr first_cluster n i : ℕ) (b : Bytes)
    → length short_name ≡ 11
    → get_or short_name 0 0 ≢ 0
    → get_or short_name 0 0 ≢ 0xe5
    → attr < 256
    → attr ≢ attr_lfn
    → first_cluster < 2 ^ 32
    → i < n
    → Clear short_name b i 0
    → (scan n 0 short_name (put_entry short_name attr first_cluster (i * dirent_size) b) ≡ found i)
      × (first_cluster_of
            (from (put_entry short_name attr first_cluster (i * dirent_size) b) (i * dirent_size))
          ≡ first_cluster)
      × (put_entry short_name attr first_cluster (i * dirent_size) b (i * dirent_size + 11) ≡ attr)
scan-put_entry short_name attr first_cluster n i b size used kept small no_lfn fits inside clear =
    let c = put_in short_name attr first_cluster i b in
    let o = i * dirent_size in
    let attr_there = put_entry_attr short_name attr first_cluster i b size small in
    let first : c o ≡ get_or short_name 0 0 =
      ap c (omega arith)
      ∙ put_entry_name short_name attr first_cluster i b 0 size (omega (arith, size)) in
    let text =
      same_name_stands short_name c o
        (λ k l. put_entry_name short_name attr first_cluster i b k size l) in
    let goes_on = goes_lem c i (λ e. used (sym first ∙ e)) in
    let named =
      named_lem short_name c i (λ e. kept (sym first ∙ e)) (λ e. no_lfn (sym attr_there ∙ e))
        text in
    let before =
      Clear-kept i 0 i short_name c b size (omega arith)
        (put_entry_below short_name attr first_cluster i b) clear in
    (
      scan_hit i n 0 short_name c inside before (ap (ends c) (omega arith) ∙ goes_on)
            (ap (is_named short_name c) (omega arith) ∙ named)
          ∙ ap found (omega arith),
      put_entry_cluster short_name attr first_cluster i b size fits,
      attr_there,
    )
