-- ===== src/Devices/Mouse.antt =====
-- src/drivers/mouse.c: the packets of a PS/2 mouse and the cursor. `mouse_init`, which talks to the
-- controller's ports, is left out.
use quantum_kernel.Prelude.{
  ltb, if◌then◌else◌, bit, Bool-cases, ℤ, pos, negsuc, sign_extend, ℕ, ◌%◌, ◌≤◌, ◌<◌, ◌≡◌, refl, ap,
  ◌∙◌, inl, inr, true, false, List, [], ◌∷◌, ◌++◌, arith, ◌==◌, ◌+ℤ◌, ◌-ℤ◌,
}

-- `mouse_packet` has signed bytes; of its three only the first two are read again.
pub record Mouse : Type 0 where
  pub x : ℤ
  pub y : ℤ
  pub buttons : ℕ
  pub cycle : ℕ
  pub first : ℕ
  pub second : ℕ

abbrev pub initial_mouse : Mouse
initial_mouse = record { x = pos 100; y = pos 100; buttons = 0; cycle = 0; first = 0; second = 0 }

-- A coordinate pushed back into 0 .. `limit`.
unfoldable pub clamp : ℤ → ℕ → ℤ
clamp (negsuc _) limit = pos 0
clamp (pos n) limit = if ltb limit n then pos limit else pos n

-- The end of `mouse_irq`, with all three bytes there.
unfoldable pub move : ℕ → Mouse → Mouse
move third m = record m {
  cycle = 0;
  buttons = m.first % 8;
  x = clamp (m.x +ℤ sign_extend m.second) 1919;
  y = clamp (m.y -ℤ sign_extend third) 1079;
}

unfoldable pub mouse_irq : ℕ → Mouse → Mouse
mouse_irq byte m =
    if m.cycle == 0
    then (if bit byte 3 then record m { first = byte; cycle = 1 } else m)
    else if m.cycle == 1
    then record m { second = byte; cycle = 2 }
    else move byte m

unfoldable pub run_mouse : List ℕ → Mouse → Mouse
run_mouse [] m = m
run_mouse (byte ∷ bytes) m = run_mouse bytes (mouse_irq byte m)

-- Within 0 .. `limit`.
unfoldable pub IsWithin : ℕ → ℤ → Type 0
IsWithin limit (pos n) = n ≤ limit
IsWithin limit (negsuc _) = ⊥

-- The cursor is on the screen, and the packet is at one of its three bytes.
pub record IsOnScreen (m : Mouse) : Type 0 where
  pub column : IsWithin 1919 m.x
  pub row : IsWithin 1079 m.y
  pub phase : m.cycle ≤ 2
  pub three_buttons : m.buttons < 8

not_beyond : (limit n : ℕ) → ltb limit n ≡ false → n ≤ limit
not_beyond limit n h = ground (arith, h)

clamp-IsWithin : (v : ℤ) (limit : ℕ) → IsWithin limit (clamp v limit)
unfolding IsWithin clamp
clamp-IsWithin (negsuc n) limit = omega arith
clamp-IsWithin (pos n) limit = elim (Bool-cases (ltb limit n)) [
  | inl beyond ↦ rw beyond (omega arith)
  | inr inside ↦ rw inside (not_beyond limit n inside)
]

move-IsOnScreen : (third : ℕ) (m : Mouse) → IsOnScreen (move third m)
unfolding move
move-IsOnScreen third m = record {
  column = clamp-IsWithin (m.x +ℤ sign_extend m.second) 1919;
  row = clamp-IsWithin (m.y -ℤ sign_extend third) 1079;
  phase = omega arith;
  three_buttons = omega arith;
}

mouse_irq-IsOnScreen : (byte : ℕ) (m : Mouse) → IsOnScreen m → IsOnScreen (mouse_irq byte m)
unfolding mouse_irq
mouse_irq-IsOnScreen byte m on = elim (Bool-cases (m.cycle == 0)) [
  | inl starts ↦ elim (Bool-cases (bit byte 3)) [
    | inl header ↦
        rw (starts, header)
          (record {
            column = on.column;
            row = on.row;
            phase = omega arith;
            three_buttons = on.three_buttons;
          })
    | inr stray ↦ rw (starts, stray) on
  ]
  | inr later ↦ elim (Bool-cases (m.cycle == 1)) [
    | inl second ↦
        rw (later, second)
          (record {
            column = on.column;
            row = on.row;
            phase = omega arith;
            three_buttons = on.three_buttons;
          })
    | inr third ↦ rw (later, third) (move-IsOnScreen byte m)
  ]
]

-- From a cursor on the screen, whatever bytes the mouse sends: the cursor stays on the screen of
-- 1920 by 1080, the buttons within three bits, and the packet at one of its three bytes.
pub run_mouse-IsOnScreen :
    (bytes : List ℕ) (m : Mouse) → IsOnScreen m → IsOnScreen (run_mouse bytes m)
unfolding run_mouse
run_mouse-IsOnScreen [] m on = on
run_mouse-IsOnScreen (byte ∷ bytes) m on =
    run_mouse-IsOnScreen bytes (mouse_irq byte m) (mouse_irq-IsOnScreen byte m on)

-- Bytes that cannot begin a packet.
unfoldable pub AllStray : List ℕ → Type 0
AllStray [] = Unit
AllStray (byte ∷ bytes) = (bit byte 3 ≡ false) × AllStray bytes

mouse_irq_stray : (byte : ℕ) (m : Mouse) → m.cycle ≡ 0 → bit byte 3 ≡ false → mouse_irq byte m ≡ m
unfolding mouse_irq
mouse_irq_stray byte m h k = rw (h, k, mouse_irq) refl

skip_strays :
    (strays rest : List ℕ) (m : Mouse)
    → m.cycle ≡ 0
    → AllStray strays
    → run_mouse (strays ++ rest) m ≡ run_mouse rest m
unfolding run_mouse AllStray
skip_strays [] rest m h k = refl
skip_strays (byte ∷ bytes) rest m h (k, ks) =
    ap (run_mouse (bytes ++ rest)) (mouse_irq_stray byte m h k) ∙ skip_strays bytes rest m h ks

one_packet :
    (a b c : ℕ) (m : Mouse)
    → m.cycle ≡ 0
    → bit a 3 ≡ true
    → run_mouse (a ∷ b ∷ c ∷ []) m ≡ move c (record m { first = a; second = b; cycle = 2 })
unfolding run_mouse mouse_irq
one_packet a b c m h k = rw (h, k) refl

-- Between packets, any bytes without bit 3 and then three bytes of which the first has it: the bytes
-- without it are skipped, and the three are one packet, after which the next may begin. The buttons
-- are the first byte's low bits, and the cursor moves by the signed second and third bytes, up being
-- positive in a packet, and stops at the edges of the screen.
pub run_mouse_lem :
    (strays : List ℕ) (a b c : ℕ) (m : Mouse)
    → m.cycle ≡ 0
    → AllStray strays
    → bit a 3 ≡ true
    → run_mouse (strays ++ a ∷ b ∷ c ∷ []) m ≡ record {
      x = clamp (m.x +ℤ sign_extend b) 1919;
      y = clamp (m.y -ℤ sign_extend c) 1079;
      buttons = a % 8;
      cycle = 0;
      first = a;
      second = b;
    }
unfolding move
run_mouse_lem strays a b c m h k begins =
    skip_strays strays (a ∷ b ∷ c ∷ []) m h k ∙ one_packet a b c m h begins
