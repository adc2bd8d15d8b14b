-- ===== src/Keyboard/Tests.antt =====
-- Tests of the keyboard, and its theorems at concrete inputs.
use quantum_kernel.Prelude.{◌≡◌, refl, inl, true, List, [], ◌∷◌, arith, set}
use quantum_kernel.Keyboard.{
  Keyboard, initial, keyboard_irq, push_arrow, kbd_pop, read_loop, kbd_push, keymap_at,
}
use quantum_kernel.Keyboard.Queue
use quantum_kernel.Keyboard.Refine.{IsRing, contents}
use quantum_kernel.Keyboard.Trace.{Event, scan, read, run, run_queue, run_refines, arrow_lost}

-- `l`, `s`, Enter pressed and released; then a read of 8 bytes; then an arrow, `a` and two reads.
abbrev session : List Event
session =
    scan 0x26
    ∷ scan 0xa6
    ∷ scan 0x1f
    ∷ scan 0x1c
    ∷ read 8
    ∷ scan 0xe0
    ∷ scan 0x48
    ∷ scan 0x1e
    ∷ read 8
    ∷ read 8
    ∷ []

session_runs : run session initial ≡ (b'l' ∷ b's' ∷ 10 ∷ []) ∷ [] ∷ (b'a' ∷ []) ∷ []
unfolding run keyboard_irq push_arrow read_loop kbd_pop kbd_push keymap_at
session_runs = refl

initial-IsRing : IsRing initial
initial-IsRing = record { size = refl; head_in = omega arith; tail_in = omega arith }

-- A ring whose contents wrap round the end of the array: `a`, `b`.
abbrev wrapped : Keyboard
wrapped = record initial { buf = set (set initial.buf 127 b'a') 0 b'b'; tail = 127; head = 1 }

wrapped-IsRing : IsRing wrapped
wrapped-IsRing = record { size = refl; head_in = omega arith; tail_in = omega arith }

run_refines_example :
    run session wrapped ≡ (b'a' ∷ b'b' ∷ b'l' ∷ b's' ∷ 10 ∷ []) ∷ [] ∷ (b'a' ∷ []) ∷ []
unfolding run_queue Queue.deliver Queue.type_in Queue.decode Queue.push keymap_at contents
run_refines_example = run_refines session wrapped-IsRing

arrow_lost_example :
    let (bs, k) = read_loop 4 (keyboard_irq 0x48 (record initial { extended = true })) in
    (bs ≡ []) × (contents k ≡ [])
unfolding contents
arrow_lost_example =
    arrow_lost 0x48 3 {k = record initial { extended = true }}
      (record { size = refl; head_in = omega arith; tail_in = omega arith }) refl refl (inl refl)
