-- ===== src/Fat/Name.antt =====
-- Names in directory entries: `fat32_to_short_name` and `fat32_lfn_checksum` of src/fs/fat32.c. A C
-- string is the list of its bytes before the terminator.
use quantum_kernel.Prelude.{
  leb, if◌then◌else◌, bit, u8, length, get_or, set, drop, replicate, ℕ, zero, suc, ◌+◌, ◌-◌, ◌/◌,
  min, ◌&&◌, Option, none, some, List, [], ◌∷◌, ◌==◌,
}

abbrev pub dot_char : ℕ
dot_char = b'.'

-- The loop that finds the last `.`, from position `i` on.
unfoldable pub last_dot : List ℕ → ℕ → Option ℕ → Option ℕ
last_dot [] i dot = dot
last_dot (c ∷ cs) i dot = last_dot cs (i + 1) (if c == dot_char then some i else dot)

-- `if (c >= 'a' && c <= 'z') c -= 32;`
unfoldable pub upper : ℕ → ℕ
upper c = if leb b'a' c && leb c b'z' then c - 32 else c

-- `for (i = 0; i < n; i++) short_name[o + i] = upper(chars[i]);`
unfoldable pub put_chars : ℕ → List ℕ → ℕ → List ℕ → List ℕ
put_chars zero cs o out = out
put_chars (suc n) cs o out = put_chars n (drop 1 cs) (o + 1) (set out o (upper (get_or cs 0 0)))

unfoldable pub to_short_name : List ℕ → List ℕ
to_short_name name =
    let blank = replicate 11 b' ' in
    elim (last_dot name 0 none) [
      | none ↦ put_chars (min (length name) 8) name 0 blank
      | some d ↦
          put_chars (min (length name - (d + 1)) 3) (drop (d + 1) name) 8
            (put_chars (min d 8) name 0 blank)
    ]

-- The loop of `fat32_lfn_checksum` over the bytes left.
unfoldable pub lfn_checksum : List ℕ → ℕ → ℕ
lfn_checksum [] sum = sum
lfn_checksum (c ∷ cs) sum = lfn_checksum cs (u8 ((if bit sum 0 then 0x80 else 0) + sum / 2 + c))
