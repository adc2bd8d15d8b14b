-- ===== src/Libc/Text.antt =====
-- C strings in memory, and the string functions of src/lib/string.c on them.
use quantum_kernel.Libc.{byte_diff, strlen, strcmp, strcpy, memcpy, string_end, strcat}
use quantum_kernel.Prelude.{
  if◌then◌else◌, length, ℤ, pos, ℕ, suc, ◌+◌, ◌-◌, ◌≤◌, ◌<◌, ◌≡◌, refl, sym, ap, ◌∙◌, ◌≢◌, ◌↔◌, ◌⊎◌,
  inl, some, List, [], ◌∷◌, ◌++◌, arith, ◌==◌,
}
use mathlib.Core.Path.{subst}
use quantum_kernel.Libc.Copy.{Forward, memcpy-copy}
use quantum_kernel.Bytes.{Bytes, write8, copy}

-- The bytes `cs`, none of them 0, stand at `p`, and a terminator behind them.
unfoldable pub IsString : Bytes → ℕ → List ℕ → Type 0
IsString m p [] = m p ≡ 0
IsString m p (c ∷ cs) = (m p ≡ c) × (c ≢ 0) × IsString m (p + 1) cs

-- The order of strings by their first difference, where a string comes before those it starts.
unfoldable pub compare_text : List ℕ → List ℕ → ℤ
compare_text [] [] = pos 0
compare_text [] (d ∷ ds) = byte_diff 0 d
compare_text (c ∷ cs) [] = byte_diff c 0
compare_text (c ∷ cs) (d ∷ ds) = if c == d then compare_text cs ds else byte_diff c d

-- A round for each byte and one for the terminator.
abbrev pub rounds : List ℕ → ℕ
rounds [] = 1
rounds (_ ∷ cs) = suc (rounds cs)

pub strlen_lem :
    (cs : List ℕ) (p len : ℕ) (m : Bytes)
    → IsString m (p + len) cs
    → strlen (rounds cs) p len m ≡ some (len + length cs)
unfolding strlen IsString
strlen_lem [] p len m h = ground arith
strlen_lem (c ∷ cs) p len m h =
    ground (arith, strlen_lem cs p (len + 1) m (subst (λ a. IsString m a cs) (omega arith) h.2))

pub strcmp_lem :
    (cs ds : List ℕ) (p q : ℕ) (m : Bytes)
    → IsString m p cs
    → IsString m q ds
    → strcmp (rounds cs) p q m ≡ some (compare_text cs ds)
unfolding strcmp IsString compare_text
strcmp_lem [] [] p q m h k = ground arith
strcmp_lem [] (d ∷ ds) p q m h k = ground arith
strcmp_lem (c ∷ cs) [] p q m h k = ground arith
strcmp_lem (c ∷ cs) (d ∷ ds) p q m h k = ground (arith, strcmp_lem cs ds (p + 1) (q + 1) m h.2 k.2)

compare_text-eq :
    (cs ds : List ℕ) (p q : ℕ) (m : Bytes)
    → IsString m p cs
    → IsString m q ds
    → compare_text cs ds ≡ pos 0
    → cs ≡ ds
unfolding compare_text IsString
compare_text-eq [] [] p q m h k e = refl
compare_text-eq [] (d ∷ ds) p q m h k e = ground arith
compare_text-eq (c ∷ cs) [] p q m h k e = ground arith
compare_text-eq (c ∷ cs) (d ∷ ds) p q m h k e =
    ground (arith, compare_text-eq cs ds (p + 1) (q + 1) m h.2 k.2)

compare_text_refl : (cs : List ℕ) → compare_text cs cs ≡ pos 0
unfolding compare_text
compare_text_refl [] = refl
compare_text_refl (c ∷ cs) = ground (arith, compare_text_refl cs)

-- `strcmp` of two strings ends, within a round for each byte of the first and one more, with the
-- difference of the first two bytes that differ, which is 0 exactly when the strings are equal.
pub strcmp-compare_text :
    (cs ds : List ℕ) (p q : ℕ) (m : Bytes)
    → IsString m p cs
    → IsString m q ds
    → (strcmp (rounds cs) p q m ≡ some (compare_text cs ds))
      × ((compare_text cs ds ≡ pos 0) ↔ (cs ≡ ds))
strcmp-compare_text cs ds p q m h k = (
  strcmp_lem cs ds p q m h k,
  (compare_text-eq cs ds p q m h k, λ e. ap (compare_text cs) (sym e) ∙ compare_text_refl cs),
)

-- A string at `p` of `m` stands at `d` of `m'`, where its bytes do.
IsString-moved :
    (cs : List ℕ) (p d : ℕ) (m m' : Bytes)
    → ((k : ℕ) → k < rounds cs → m' (d + k) ≡ m (p + k))
    → IsString m p cs
    → IsString m' d cs
unfolding IsString
IsString-moved cs p d m m' same h = moved cs p d same h
  where
    first_byte : (p d n : ℕ) → ((k : ℕ) → k < suc n → m' (d + k) ≡ m (p + k)) → m' d ≡ m p
    first_byte p d n same =
        subst (λ a. m' a ≡ m p) (omega arith)
          (subst (λ a. m' (d + 0) ≡ m a) (omega arith) (same 0 (omega arith)))

    moved :
        (cs : List ℕ) (p d : ℕ)
        → ((k : ℕ) → k < rounds cs → m' (d + k) ≡ m (p + k))
        → IsString m p cs
        → IsString m' d cs
    moved [] p d same h = first_byte p d 0 same ∙ h
    moved (c ∷ cs) p d same h = (
      first_byte p d (rounds cs) same ∙ h.0,
      h.1,
      moved cs (p + 1) (d + 1)
          (λ k l.
            subst (λ a. m' a ≡ m (p + 1 + k)) (omega arith)
              (subst (λ a. m' (d + suc k) ≡ m a) (omega arith) (same (suc k) (omega arith))))
          h.2,
    )

-- A byte stored outside a string and its terminator.
pub IsString-write8 :
    (cs : List ℕ) (p d v : ℕ) (m : Bytes)
    → (d < p) ⊎ (p + rounds cs ≤ d)
    → IsString m p cs
    → IsString (write8 m d v) p cs
unfolding write8
IsString-write8 cs p d v m apart h = IsString-moved cs p p m (write8 m d v) (λ k l. ground arith) h

strcpy-memcpy :
    (cs : List ℕ) (d p : ℕ) (m : Bytes)
    → IsString m p cs
    → ((a : ℕ) → m a < 256)
    → Forward d p (rounds cs)
    → strcpy (rounds cs) d p m ≡ some (memcpy d p (rounds cs) m)
unfolding strcpy memcpy IsString write8
strcpy-memcpy [] d p m h small apart = ground arith
strcpy-memcpy (c ∷ cs) d p m h small apart =
    let m' : Bytes = write8 m d (m p) in
    let h' = IsString-write8 cs (p + 1) d (m p) m (ground arith) h.2 in
    let rest =
      strcpy-memcpy cs (d + 1) (p + 1) m' h' (λ a. ground (arith, small a, small p))
        (ground arith) in
    ground (arith, rest)

string_end_lem :
    (cs : List ℕ) (d : ℕ) (m : Bytes)
    → IsString m d cs
    → string_end (rounds cs) d m ≡ some (d + length cs)
unfolding string_end IsString
string_end_lem [] d m h = ground arith
string_end_lem (c ∷ cs) d m h = ground (arith, string_end_lem cs (d + 1) m h.2)

-- A string whose bytes stand still, with another in place of its terminator.
IsString-append :
    (xs ys : List ℕ) (d : ℕ) (m m' : Bytes)
    → ((k : ℕ) → k < d + length xs → m' k ≡ m k)
    → IsString m d xs
    → IsString m' (d + length xs) ys
    → IsString m' d (xs ++ ys)
unfolding IsString
IsString-append [] ys d m m' same h k = subst (λ a. IsString m' a ys) (omega arith) k
IsString-append (x ∷ xs) ys d m m' same h k = (
  same d (omega arith) ∙ h.0,
  h.1,
  IsString-append xs ys (d + 1) m m' (λ j l. same j (omega arith)) h.2
      (subst (λ a. IsString m' a ys) (omega arith) k),
)

pub rounds-length : (cs : List ℕ) → rounds cs ≡ length cs + 1
rounds-length [] = refl
rounds-length (_ ∷ cs) = omega (arith, rounds-length cs)

-- What copying a string puts at the destination.
copied :
    (cs : List ℕ) (d p : ℕ) (m : Bytes)
    → IsString m p cs
    → ((a : ℕ) → m a < 256)
    → Forward d p (rounds cs)
    → IsString (memcpy d p (rounds cs) m) d cs
unfolding copy
copied cs d p m h small way =
    IsString-moved cs p d m (memcpy d p (rounds cs) m)
      (λ k l.
        memcpy-copy (rounds cs) d p m (d + k) small way
        ∙ (let e : d + k - d ≡ k = omega arith in ground (arith, ap (λ a. m (p + a)) e)))
      h

-- `strcat` of two strings, where the source and the place behind the destination are apart: it ends,
-- within a round for each byte and each terminator, with the two strings one behind the other at
-- the destination, and changes no byte but those behind the destination's old end.
pub strcat-append :
    (xs ys : List ℕ) (d p : ℕ) (m : Bytes)
    → IsString m d xs
    → IsString m p ys
    → ((a : ℕ) → m a < 256)
    → (d + length xs + rounds ys ≤ p) ⊎ (p + rounds ys ≤ d + length xs)
    → (m' : Bytes) × (strcat (rounds xs) (rounds ys) d p m ≡ some m')
      × IsString m' d (xs ++ ys)
      × ((k : ℕ) → (k < d + length xs) ⊎ (d + length xs + rounds ys ≤ k) → m' k ≡ m k)
unfolding strcat copy
strcat-append xs ys d p m h k small apart =
    let e = d + length xs in
    let way : Forward e p (rounds ys) = ground arith in
    let kept : (a : ℕ) → (a < e) ⊎ (e + rounds ys ≤ a) → memcpy e p (rounds ys) m a ≡ m a =
      λ a out. memcpy-copy (rounds ys) e p m a small way ∙ ground arith in
    (
      memcpy e p (rounds ys) m,
      rw (string_end_lem xs d m h, strcat) (strcpy-memcpy ys e p m k small way),
      IsString-append xs ys d m (memcpy e p (rounds ys) m) (λ j l. kept j (inl l)) h
          (copied ys e p m k small way),
      kept,
    )
