-- ===== src/Libc/Number/RoundTrip.antt =====
-- `itoa` of src/lib/libc.c, and `atoi` on the text that it writes.
use quantum_kernel.Libc.Text.{IsString}
use quantum_kernel.Libc.Number.{finish, put_number, itoa, atoi, signed, skip_spaces, number}
use quantum_kernel.Libc.Number.Print.{
  Stands, turn_round_lem, turned_in, turned_out, lt-or-ge, put_digits_lem,
}
use quantum_kernel.Libc.Number.Digits.{
  reverse_onto, AllDigits, digits, IsDigit, decimal, atoi-decimal, digits-AllDigits,
  atoi-minus_decimal,
}
use quantum_kernel.Prelude.{
  lt→ltb, length, get_or, length-append, ℤ, pos, negsuc, ℕ, zero, suc, ◌+◌, ◌-◌, ◌^◌, ◌<◌, ◌≡◌,
  refl, sym, ap, ◌∙◌, ◌≢◌, inl, inr, true, false, some, List, [], ◌∷◌, ◌++◌, arith, ◌==◌,
}
use quantum_kernel.Bytes.{Bytes, write8}
use mathlib.Core.Path.{subst}

get_or-reverse_onto_behind :
    (xs acc : List ℕ) (j : ℕ) → get_or (reverse_onto xs acc) (length xs + j) 0 ≡ get_or acc j 0
unfolding reverse_onto
get_or-reverse_onto_behind [] acc j = let e : 0 + j ≡ j = omega arith in ap (λ i. get_or acc i 0) e
get_or-reverse_onto_behind (x ∷ xs) acc j =
    let e : suc (length xs) + j ≡ length xs + suc j = omega arith in
    ap (λ i. get_or (reverse_onto xs (x ∷ acc)) i 0) e
    ∙ get_or-reverse_onto_behind xs (x ∷ acc) (suc j)

get_or-reverse_onto :
    (xs acc : List ℕ) (i j : ℕ)
    → i + j + 1 ≡ length xs
    → get_or (reverse_onto xs acc) i 0 ≡ get_or xs j 0
unfolding reverse_onto
get_or-reverse_onto [] acc i j h = absurd (omega arith)
get_or-reverse_onto (x ∷ xs) acc i zero h =
    let e : i ≡ length xs + 0 = omega arith in
    ap (λ i. get_or (reverse_onto xs (x ∷ acc)) i 0) e ∙ get_or-reverse_onto_behind xs (x ∷ acc) 0
get_or-reverse_onto (x ∷ xs) acc i (suc j) h = get_or-reverse_onto xs (x ∷ acc) i j (omega arith)

length-reverse_onto : (xs acc : List ℕ) → length (reverse_onto xs acc) ≡ length xs + length acc
unfolding reverse_onto
length-reverse_onto [] acc = omega arith
length-reverse_onto (x ∷ xs) acc = omega (arith, length-reverse_onto xs (x ∷ acc))

NonZero : List ℕ → Type 0
NonZero [] = Unit
NonZero (c ∷ cs) = (c ≢ 0) × NonZero cs

NonZero-reverse_onto : (xs acc : List ℕ) → NonZero xs → NonZero acc → NonZero (reverse_onto xs acc)
unfolding NonZero reverse_onto
NonZero-reverse_onto [] acc h k = k
NonZero-reverse_onto (x ∷ xs) acc h k = NonZero-reverse_onto xs (x ∷ acc) h.1 (h.0, k)

Stands-IsString :
    (cs : List ℕ) (p : ℕ) (m : Bytes)
    → NonZero cs
    → Stands m p cs
    → m (p + length cs) ≡ 0
    → IsString m p cs
unfolding NonZero Stands IsString
Stands-IsString [] p m h k z = let e : p ≡ p + 0 = omega arith in ap m e ∙ z
Stands-IsString (c ∷ cs) p m h k z =
    let e : p ≡ p + 0 = omega arith in
    let f : p + 1 + length cs ≡ p + suc (length cs) = omega arith in
    (
      ap m e ∙ k 0 (omega arith),
      h.0,
      Stands-IsString cs (p + 1) m h.1
          (λ i l. let g : p + 1 + i ≡ p + suc i = omega arith in ap m g ∙ k (suc i) (omega arith))
          (ap m f ∙ z),
    )

-- The end of `itoa`: the text that stands at `str` is turned round and ended.
finish_lem :
    (zs : List ℕ) (str : ℕ) (m : Bytes)
    → ((a : ℕ) → m a < 256)
    → Stands m str zs
    → NonZero zs
    → 0 < length zs
    → (m' : Bytes) × (finish str (str + length zs) m ≡ some m')
      × IsString m' str (reverse_onto zs [])
unfolding finish Stands write8 NonZero
finish_lem zs str m small stands non_zero some_byte =
    let ptr = str + length zs in
    let m1 : Bytes = write8 m ptr 0 in
    let (m', runs, result) =
      turn_round_lem (ptr - str + 1) str (ptr - 1) m1 (λ a. ground (arith, small a)) (omega arith)
        (omega arith) in
    let long : length (reverse_onto zs []) ≡ length zs = omega (arith, length-reverse_onto zs []) in
    let bytes : (i : ℕ)
        → i < length (reverse_onto zs [])
        → m' (str + i) ≡ get_or (reverse_onto zs []) i 0 =
      λ i l.
        let j = length zs - 1 - i in
        let kept : m1 (str + j) ≡ m (str + j) = ground (arith, l, long) in
        result (str + i)
        ∙ turned_in str (ptr - 1) (str + i) (str + j) m1 (omega arith) (omega (arith, l, long))
            (omega (arith, l, long))
        ∙ kept
        ∙ stands j (omega arith)
        ∙ sym (get_or-reverse_onto zs [] i j (omega (arith, l, long))) in
    let last_byte : m' ptr ≡ 0 =
      result ptr ∙ turned_out str (ptr - 1) ptr m1 (inr (omega arith)) ∙ ground arith in
    (
      m',
      runs,
      Stands-IsString (reverse_onto zs []) str m' (NonZero-reverse_onto zs [] non_zero tt) bytes
          (ap (λ n. m' (str + n)) long ∙ last_byte),
    )

digits-NonZero : (ds : List ℕ) → AllDigits ds → NonZero ds
unfolding NonZero AllDigits IsDigit
digits-NonZero [] h = tt
digits-NonZero (d ∷ ds) h = (ground (arith, h.0), digits-NonZero ds h.1)

NonZero-append : (xs ys : List ℕ) → NonZero xs → NonZero ys → NonZero (xs ++ ys)
unfolding NonZero
NonZero-append [] ys h k = k
NonZero-append (x ∷ xs) ys h k = (h.0, NonZero-append xs ys h.1 k)

reverse_onto-append :
    (xs acc : List ℕ) (x : ℕ) → reverse_onto (xs ++ x ∷ []) acc ≡ x ∷ reverse_onto xs acc
unfolding reverse_onto
reverse_onto-append [] acc x = refl
reverse_onto-append (y ∷ ys) acc x = reverse_onto-append ys (y ∷ acc) x

get_or-append : (xs ys : List ℕ) (i : ℕ) → i < length xs → get_or (xs ++ ys) i 0 ≡ get_or xs i 0
get_or-append [] ys i l = absurd (omega arith)
get_or-append (x ∷ xs) ys zero l = refl
get_or-append (x ∷ xs) ys (suc i) l = get_or-append xs ys i (omega arith)

get_or_last : (xs : List ℕ) (x : ℕ) → get_or (xs ++ x ∷ []) (length xs) 0 ≡ x
get_or_last [] x = refl
get_or_last (y ∷ xs) x = get_or_last xs x

-- One byte more behind a text.
Stands-write8 :
    (xs : List ℕ) (p x : ℕ) (m : Bytes)
    → x < 256
    → Stands m p xs
    → Stands (write8 m (p + length xs) x) p (xs ++ x ∷ [])
unfolding Stands write8
Stands-write8 xs p x m small h i l = elim (lt-or-ge i (length xs)) [
  | inl before ↦ ground (arith, h i, get_or-append xs (x ∷ []) i)
  | inr behind ↦
      let e : i ≡ length xs = omega (arith, l, length-append xs (x ∷ [])) in
      ground (arith, e) ∙ sym (ap (λ j. get_or (xs ++ x ∷ []) j 0) e ∙ get_or_last xs x)
]

length-digits : (fuel n : ℕ) → 0 < n → n < fuel → 0 < length (digits fuel n)
unfolding digits
length-digits zero n h k = absurd (omega arith)
length-digits (suc fuel) n h k = ground arith

module _ (fuel n str : ℕ) (m : Bytes) (small : (a : ℕ) → m a < 256) (some_left : 0 < n)
    (enough : n < fuel) where
  put_number_pos :
      (m' : Bytes) × (put_number fuel false n str 10 m ≡ some m') × IsString m' str (decimal fuel n)
  unfolding put_number decimal
  put_number_pos =
      let (m1, runs, stands, _, small1) = put_digits_lem fuel n str m enough in
      let (m', ends, text) =
        finish_lem (digits fuel n) str m1 (small1 small) stands
          (digits-NonZero (digits fuel n) (digits-AllDigits fuel n))
          (length-digits fuel n some_left enough) in
      (m', rw (runs, put_number) ends, text)

  put_number_neg :
      (m' : Bytes) × (put_number fuel true n str 10 m ≡ some m')
      × IsString m' str (b'-' ∷ decimal fuel n)
  unfolding put_number decimal NonZero write8
  put_number_neg =
      let ds = digits fuel n in
      let (m1, runs, stands, _, small1) = put_digits_lem fuel n str m enough in
      let m2 : Bytes = write8 m1 (str + length ds) b'-' in
      let long : length (ds ++ b'-' ∷ []) ≡ length ds + 1 = length-append ds (b'-' ∷ []) in
      let e : str + length (ds ++ b'-' ∷ []) ≡ str + length ds + 1 = omega (arith, long) in
      let (m', ends, text) =
        finish_lem (ds ++ b'-' ∷ []) str m2 (λ a. ground (arith, small1 small a))
          (Stands-write8 ds str b'-' m1 (omega arith) stands)
          (NonZero-append ds (b'-' ∷ []) (digits-NonZero ds (digits-AllDigits fuel n))
            (ground arith))
          (omega (arith, long)) in
      (
        m',
        rw (runs, put_number) (ap (λ p. finish str p m2) (sym e) ∙ ends),
        subst (IsString m' str) (reverse_onto-append ds [] b'-') text,
      )

-- The magnitude of an `int`.
unfoldable pub magnitude : ℤ → ℕ
magnitude (pos n) = n
magnitude (negsuc n) = n + 1

-- `itoa` in base 10 of every `int` but the least, with more fuel than its magnitude, into a memory
-- of bytes: it ends with a string at `str`, and `atoi` of that string is the value.
pub atoi-itoa :
    (fuel : ℕ) (v : ℤ) (str : ℕ) (m : Bytes)
    → magnitude v < fuel
    → magnitude v < 2 ^ 31
    → ((a : ℕ) → m a < 256)
    → (m' : Bytes) × (cs : List ℕ) × (itoa fuel v str 10 m ≡ some m')
      × IsString m' str cs
      × (atoi cs ≡ v)
unfolding itoa magnitude write8 IsString atoi signed skip_spaces number
atoi-itoa fuel (pos zero) str m enough fits small = (
  write8 (write8 m str b'0') (str + 1) 0,
  b'0' ∷ [],
  refl,
  (ground arith, ground arith, ground arith),
  refl,
)
atoi-itoa fuel (pos (suc n)) str m enough fits small =
    let (m', runs, text) = put_number_pos fuel (suc n) str m small (omega arith) enough in
    let q : (suc n == 0) ≡ false = ground arith in
    (m', decimal fuel (suc n), rw q runs, text, atoi-decimal fuel (suc n) (omega arith) enough fits)
atoi-itoa fuel (negsuc n) str m enough fits small =
    let (m', runs, text) = put_number_neg fuel (n + 1) str m small (omega arith) enough in
    (
      m',
      b'-' ∷ decimal fuel (n + 1),
      rw (lt→ltb (n + 1) (2 ^ 31) fits) runs,
      text,
      atoi-minus_decimal fuel n enough fits,
    )
