-- ===== src/Fat/Path.antt =====
-- `fat32_get_current_path` of src/fs/fat32.c. The names of `path_stack` are the lists of their bytes,
-- and the buffer the list of the bytes that are written into it.
use quantum_kernel.Prelude.{
  ltb, leb, if◌then◌else◌, Bool-cases, length, length-append, ℤ, pos, negsuc, ℕ, ◌+◌, ◌≤◌, ◌<◌, ◌≡◌,
  refl, sym, ap, ◌∙◌, inl, inr, true, false, List, [], ◌∷◌, ◌++◌, append-nil, append_assoc, arith,
  ◌==◌, ◌⊎◌,
}

abbrev pub slash : ℕ
slash = b'/'

-- `if (i < path_depth - 1) buffer[pos++] = '/';`
unfoldable pub separator : List (List ℕ) → List ℕ
separator [] = []
separator (_ ∷ _) = slash ∷ []

-- The loop over the names left, with what has been written.
unfoldable pub write_names : List (List ℕ) → ℕ → List ℕ → ℤ × List ℕ
write_names [] size out = (pos (length out), out ++ 0 ∷ [])
write_names (name ∷ names) size out =
    let rest = write_names names size (out ++ (name ++ separator names)) in
    if leb size (length out + length name + 1) then (negsuc 0, out ++ 0 ∷ []) else rest

-- A buffer that is not NULL, of `size` bytes; an `int` that is not positive is 0 here.
unfoldable pub get_current_path : List (List ℕ) → ℕ → ℤ × List ℕ
get_current_path [] size = if ltb size 2 then (negsuc 0, []) else (pos 1, slash ∷ 0 ∷ [])
get_current_path (name ∷ names) size =
    let written = write_names (name ∷ names) size (if ltb 1 size then slash ∷ [] else []) in
    if size == 0 then (negsuc 0, []) else written

-- The names with slashes between them.
unfoldable pub joined : List (List ℕ) → List ℕ
joined [] = []
joined (name ∷ names) = name ++ (separator names ++ joined names)

-- The path that the stack stands for.
unfoldable pub path_of : List (List ℕ) → List ℕ
path_of names = slash ∷ joined names

has_room : (size n : ℕ) → n < size → leb size n ≡ false
has_room size n h = ground arith

no_room : (size n : ℕ) → size ≤ n → leb size n ≡ true
no_room size n h = ground arith

in_room : (size n : ℕ) → leb size n ≡ false → n < size
in_room size n h = ground (arith, h)

separator_bound : (names : List (List ℕ)) → length (separator names) ≤ 1
unfolding separator
separator_bound [] = omega arith
separator_bound (_ ∷ _) = omega arith

-- A write of names that comes to its end.
module _ (size : ℕ) where
  write_names_done :
      (names : List (List ℕ)) (out : List ℕ)
      → length out + length (joined names) + 1 < size
      → write_names names size out
        ≡ (pos (length (out ++ joined names)), (out ++ joined names) ++ 0 ∷ [])
  unfolding write_names joined
  write_names_done [] out h = ap (λ o. (pos (length o), o ++ 0 ∷ [])) (sym (append-nil out))
  write_names_done (name ∷ names) out h =
      let a = length-append name (separator names ++ joined names) in
      let b = length-append (separator names) (joined names) in
      let c = length-append out (name ++ separator names) in
      let d = length-append name (separator names) in
      let room : leb size (length out + length name + 1) ≡ false =
        has_room size (length out + length name + 1) (omega (arith, a, b, h)) in
      rw room (
        write_names_done names (out ++ (name ++ separator names)) (omega (arith, a, b, c, d, h))
        ∙ ap (λ o. (pos (length o), o ++ 0 ∷ []))
            (append_assoc out (name ++ separator names) (joined names)
              ∙ ap (λ r. out ++ r) (append_assoc name (separator names) (joined names))))

  write_names_cut :
      (names : List (List ℕ)) (name out : List ℕ)
      → size ≤ length out + length (joined (name ∷ names)) + 1
      → (write_names (name ∷ names) size out).0 ≡ negsuc 0
  unfolding write_names joined separator
  write_names_cut [] name out h =
      let a = length-append name [] in
      rw (no_room size (length out + length name + 1) (omega (arith, a, h))) refl
  write_names_cut (next ∷ names) name out h =
      elim (Bool-cases (leb size (length out + length name + 1))) [
        | inl full ↦ rw full refl
        | inr room ↦
            let a = length-append name (slash ∷ joined (next ∷ names)) in
            let c = length-append out (name ++ slash ∷ []) in
            let d = length-append name (slash ∷ []) in
            rw room
              (write_names_cut names next (out ++ (name ++ slash ∷ [])) (omega (arith, a, c, d, h)))
      ]

  -- What is written stays in the buffer.
  write_names_bound :
      (names : List (List ℕ)) (out : List ℕ)
      → length out < size
      → length (write_names names size out).1 ≤ size
  unfolding write_names separator
  write_names_bound [] out h = let e = length-append out (0 ∷ []) in omega (arith, e)
  write_names_bound (name ∷ names) out h =
      elim (Bool-cases (leb size (length out + length name + 1))) [
        | inl full ↦ rw full (let e = length-append out (0 ∷ []) in omega (arith, e))
        | inr room ↦
            let c = length-append out (name ++ separator names) in
            let d = length-append name (separator names) in
            let e = separator_bound names in
            let f = in_room size (length out + length name + 1) room in
            rw room (
              write_names_bound names (out ++ (name ++ separator names))
                (omega (arith, c, d, e, f)))
      ]

lt-or-le : (n size : ℕ) → (n < size) ⊎ (size ≤ n)
lt-or-le n size = ground arith

-- Below the root, with a buffer of at least two bytes: when the path, its terminator and one byte more
-- fit, `fat32_get_current_path` writes the names with a slash in front of each and a terminator, and
-- returns the path's length; otherwise it returns -1; and what it writes never passes the buffer's
-- end.
pub get_current_path_lem :
    (name : List ℕ) (names : List (List ℕ)) (size : ℕ)
    → 2 ≤ size
    → (((length (path_of (name ∷ names)) + 1 < size)
          × (get_current_path (name ∷ names) size
              ≡ (pos (length (path_of (name ∷ names))), path_of (name ∷ names) ++ 0 ∷ [])))
        ⊎ ((size ≤ length (path_of (name ∷ names)) + 1)
            × ((get_current_path (name ∷ names) size).0 ≡ negsuc 0)))
      × (length (get_current_path (name ∷ names) size).1 ≤ size)
unfolding get_current_path path_of
get_current_path_lem name names size h =
    let not_empty : (size == 0) ≡ false = ground arith in
    let starts : ltb 1 size ≡ true = ground arith in
    rw (not_empty, starts)
      (
        elim (lt-or-le (length (slash ∷ joined (name ∷ names)) + 1) size) [
          | inl fits ↦
              inl (fits, write_names_done size (name ∷ names) (slash ∷ []) (omega (arith, fits)))
          | inr long ↦
              inr (long, write_names_cut size names name (slash ∷ []) (omega (arith, long)))
        ],
        write_names_bound size (name ∷ names) (slash ∷ []) (omega arith),
      )
