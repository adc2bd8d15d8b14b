-- ===== src/Fat/Directory/Flat.antt =====
-- The search of src/fs/fat32.c among entries that are read from another place, or in two parts.
use quantum_kernel.Prelude.{
  if◌then◌else◌, length, get_or, set, drop, length-set, replicate, ℕ, zero, suc, ◌+◌, ◌-◌, ◌*◌, ◌<◌,
  min, ◌≡◌, refl, sym, ap, ap₂, ◌∙◌, Bool, true, false, ◌&&◌, none, some, List, [], ◌∷◌, arith,
  ◌==◌,
}
use quantum_kernel.Bytes.{Bytes}
use quantum_kernel.Fat.Name.{to_short_name, put_chars, upper, last_dot}
use quantum_kernel.Fat.Directory.Scan.{scan_lem, stops, hits, misses}
use quantum_kernel.Fat.Directory.{
  Scanned, at_end, found, passed, scan, same_name, dirent_size, attr_lfn,
}

-- The same outcome, with the entries counted from `d` on.
unfoldable pub shift : ℕ → Scanned → Scanned
shift d at_end = at_end
shift d (found i) = found (d + i)
shift d passed = passed

-- The outcome of a first part decides, or else that of the second.
unfoldable pub or_else : Scanned → Scanned → Scanned
or_else at_end r = at_end
or_else (found i) r = found i
or_else passed r = r

pub shift_zero : (r : Scanned) → shift 0 r ≡ r
unfolding shift
shift_zero at_end = refl
shift_zero (found i) = ap found (omega arith)
shift_zero passed = refl

put_chars_length :
    (n : ℕ) (cs : List ℕ) (o : ℕ) (out : List ℕ) → length (put_chars n cs o out) ≡ length out
unfolding put_chars
put_chars_length zero cs o out = refl
put_chars_length (suc n) cs o out =
    put_chars_length n (drop 1 cs) (o + 1) (set out o (upper (get_or cs 0 0)))
    ∙ length-set out o (upper (get_or cs 0 0))

pub to_short_name_length : (name : List ℕ) → length (to_short_name name) ≡ 11
unfolding to_short_name
to_short_name_length name =
    let blank : List ℕ = replicate 11 b' ' in
    elim (last_dot name 0 none)
      as (λ o.
        length (elim o [
          | none ↦ put_chars (min (length name) 8) name 0 blank
          | some d ↦
              put_chars (min (length name - (d + 1)) 3) (drop (d + 1) name) 8
                (put_chars (min d 8) name 0 blank)
        ])
        ≡ 11) [
          | none ↦ put_chars_length (min (length name) 8) name 0 blank
          | some d ↦
              put_chars_length (min (length name - (d + 1)) 3) (drop (d + 1) name) 8
                (put_chars (min d 8) name 0 blank)
              ∙ put_chars_length (min d 8) name 0 blank
        ]

-- What the loop makes of one entry.
unfoldable pick : Bool → Bool → Bool → Bool → ℕ → Scanned → Scanned
pick over deleted part named i rest =
    if over
    then at_end
    else if deleted
    then rest
    else if part
    then rest
    else if named
    then found i
    else rest

shift-pick :
    (over deleted part named : Bool) (d i : ℕ) (r : Scanned)
    → shift d (pick over deleted part named i r) ≡ pick over deleted part named (d + i) (shift d r)
unfolding shift pick
shift-pick true deleted part named d i r = refl
shift-pick false true part named d i r = refl
shift-pick false false true named d i r = refl
shift-pick false false false true d i r = refl
shift-pick false false false false d i r = refl

or_else-pick :
    (over deleted part named : Bool) (i : ℕ) (r r' : Scanned)
    → or_else (pick over deleted part named i r) r' ≡ pick over deleted part named i (or_else r r')
unfolding or_else pick
or_else-pick true deleted part named i r r' = refl
or_else-pick false true part named i r r' = refl
or_else-pick false false true named i r r' = refl
or_else-pick false false false true i r r' = refl
or_else-pick false false false false i r r' = refl

same_name_moved :
    (name : List ℕ) (b c : Bytes) (o p : ℕ)
    → ((k : ℕ) → k < length name → b (o + k) ≡ c (p + k))
    → same_name name b o ≡ same_name name c p
unfolding same_name
same_name_moved [] b c o p h = refl
same_name_moved (x ∷ xs) b c o p h =
    let here : b o ≡ c p = ap b (omega arith) ∙ h 0 (omega arith) ∙ ap c (omega arith) in
    ap₂ ◌&&◌ (ap (λ v. v == x) here) (
      same_name_moved xs b c (o + 1) (p + 1)
        (λ k l. ap b (omega arith) ∙ h (suc k) (omega arith) ∙ ap c (omega arith)))

-- Entries from `d + i` on that are those from `i` on elsewhere.
pub scan_moved :
    (n i d : ℕ) (name : List ℕ) (b c : Bytes)
    → length name ≡ 11
    → ((k : ℕ) → k < n * dirent_size → b ((d + i) * dirent_size + k) ≡ c (i * dirent_size + k))
    → scan n (d + i) name b ≡ shift d (scan n i name c)
unfolding scan shift pick
scan_moved zero i d name b c len same = refl
scan_moved (suc n) i d name b c len same =
    let at_first : b ((d + i) * dirent_size) ≡ c (i * dirent_size) =
      ap b (omega arith) ∙ same 0 (omega arith) ∙ ap c (omega arith) in
    let at_attr : b ((d + i) * dirent_size + 11) ≡ c (i * dirent_size + 11) =
      same 11 (omega arith) in
    let at_name =
      same_name_moved name b c ((d + i) * dirent_size) (i * dirent_size)
        (λ k l. same k (omega arith)) in
    let rest : scan n (d + i + 1) name b ≡ shift d (scan n (i + 1) name c) =
      ap (λ j. scan n j name b) (omega arith)
      ∙ scan_moved n (i + 1) d name b c len
          (λ k l. ap b (omega arith) ∙ same (dirent_size + k) (omega arith) ∙ ap c (omega arith)) in
    rw (at_first, at_attr, at_name, rest)
      (sym (
        shift-pick (c (i * dirent_size) == 0) (c (i * dirent_size) == 0xe5)
          (c (i * dirent_size + 11) == attr_lfn) (same_name name c (i * dirent_size)) d i
          (scan n (i + 1) name c)))

pub scan_parts :
    (n m i : ℕ) (name : List ℕ) (b : Bytes)
    → scan (n + m) i name b ≡ or_else (scan n i name b) (scan m (i + n) name b)
unfolding or_else scan pick
scan_parts zero m i name b =
    let k : zero + m ≡ m = omega arith in
    let j : i ≡ i + zero = omega arith in ap₂ (λ k j. scan k j name b) k j
scan_parts (suc n) m i name b =
    let rest : scan (n + m) (i + 1) name b
        ≡ or_else (scan n (i + 1) name b) (scan m (i + suc n) name b) =
      scan_parts n m (i + 1) name b
      ∙ ap (λ j. or_else (scan n (i + 1) name b) (scan m j name b)) (omega arith) in
    let count : suc n + m ≡ suc (n + m) = omega arith in
    ap (λ k. scan k i name b) count
    ∙ rw rest (
        sym (
          or_else-pick (b (i * dirent_size) == 0) (b (i * dirent_size) == 0xe5)
            (b (i * dirent_size + 11) == attr_lfn) (same_name name b (i * dirent_size)) i
            (scan n (i + 1) name b) (scan m (i + suc n) name b)))

pub scan_found-lt : (n i j : ℕ) (name : List ℕ) (b : Bytes) → scan n i name b ≡ found j → j < i + n
scan_found-lt n i j name b e = elim (scan_lem n i name b) [
  | stops m inside clear ends_here q ↦ absurd (ground (arith, q, e))
  | hits m inside clear goes named q ↦ ground (arith, q, e)
  | misses clear q ↦ absurd (ground (arith, q, e))
]
