-- ===== src/Devices/Tests.antt =====
-- A mouse at boot, and the clock at the turn of a day.
use quantum_kernel.Bytes.{zeros}
use quantum_kernel.Devices.Terminal.{Terminal, color_fg, color_bg}
use quantum_kernel.Devices.Terminal.Screen.{Within}
use quantum_kernel.Devices.Terminal.Session.{serve, serve-Within, text, mouse_at, clear}
use quantum_kernel.Devices.Clock.{RtcTime, rtc_get_local_time, rtc_get_local_time_lem}
use quantum_kernel.Devices.Mouse.{
  IsOnScreen, AllStray, run_mouse, clamp, initial_mouse, run_mouse-IsOnScreen, run_mouse_lem,
}
use quantum_kernel.Prelude.{
  get_or, pos, ℕ, ◌≡◌, refl, [], ◌∷◌, ◌++◌, arith, ◌+ℤ◌, ◌-ℤ◌, difference, none,
}

run_mouse-IsOnScreen_example : IsOnScreen (run_mouse (0x29 ∷ 0x80 ∷ 0x7f ∷ 0x08 ∷ []) initial_mouse)
unfolding quantum_kernel.Devices.Mouse.IsWithin
run_mouse-IsOnScreen_example =
    run_mouse-IsOnScreen (0x29 ∷ 0x80 ∷ 0x7f ∷ 0x08 ∷ []) initial_mouse (record {
      column = omega arith;
      row = omega arith;
      phase = omega arith;
      three_buttons = omega arith;
    })

run_mouse_lem_example :
    run_mouse ((0x61 ∷ []) ++ 0x09 ∷ 0x05 ∷ 0xff ∷ []) initial_mouse
    ≡ record { x = pos 105; y = pos 101; buttons = 1; cycle = 0; first = 9; second = 5 }
unfolding AllStray clamp ◌+ℤ◌ ◌-ℤ◌ difference
run_mouse_lem_example = run_mouse_lem (0x61 ∷ []) 0x09 0x05 0xff initial_mouse refl (refl, tt) refl

-- 23:59:58 on the 31st of May 2026.
abbrev turn : RtcTime
turn = record { sec = 58; min = 59; hour = 23; day = 31; month = 5; year = 2026 }

abbrev registers : ℕ → ℕ
registers r = get_or (0x58 ∷ 0 ∷ 0x59 ∷ 0 ∷ 0x23 ∷ 0 ∷ 0 ∷ 0x31 ∷ 5 ∷ 0x26 ∷ []) r 0

rtc_get_local_time_lem_example :
    rtc_get_local_time registers
    ≡ record { sec = 58; min = 59; hour = 2; day = 31; month = 5; year = 2026 }
rtc_get_local_time_lem_example = rtc_get_local_time_lem registers turn (record {
  sec = (refl, omega arith);
  min = (refl, omega arith);
  hour = (refl, omega arith);
  day = (refl, omega arith, omega arith);
  month = (refl, omega arith, omega arith);
  year = (refl, omega arith, omega arith);
})

-- 800 by 600 pixels of 32 bits.
abbrev screen : Terminal
screen = record {
  fb = zeros;
  width = 800;
  height = 600;
  pitch = 3200;
  bpp = 32;
  cursor_x = 0;
  cursor_y = 0;
  fg = color_fg;
  bg = color_bg;
  cursor_buffer = zeros;
  last_mouse = none;
}

serve-Within_example :
    Within screen
      (serve (λ c row. c) (text (b'h' ∷ b'i' ∷ 10 ∷ []) ∷ mouse_at 790 5 ∷ clear ∷ []) screen)
serve-Within_example =
    serve-Within (λ c row. c) (text (b'h' ∷ b'i' ∷ 10 ∷ []) ∷ mouse_at 790 5 ∷ clear ∷ []) screen
      (record { row = omega arith; whole = omega arith })
