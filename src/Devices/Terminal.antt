-- ===== src/Devices/Terminal.antt =====
-- The terminal of src/drivers/fb_terminal.c. The frame buffer is memory by offset from `fb`, and the
-- font of src/drivers/font.c is an argument: row `r` of the glyph of a byte. The mouse's cursor is
-- drawn at a place on the screen.
pub mod Screen
pub mod Session
use quantum_kernel.Prelude.{
  mul-le, sub-mul, length-drop, get_or-drop, le→leb, to_int, ltb, leb, if◌then◌else◌, bit, u8, u16,
  u32, ltb→lt, lt→ltb, le→ltb, ==_iff, Bool-cases, Option-cases, length, get_or, set, take, drop,
  length-append, length-set, get_or-set_self, get_or-set_ne, replicate, ℤ, pos, negsuc, is_neg,
  sign_extend, ℕ, zero, suc, ◌+◌, ◌-◌, ◌*◌, ◌/◌, ◌%◌, ◌^◌, ◌≤◌, ◌<◌, min, max, ◌≡◌, refl, sym, ap,
  ap₂, ◌∙◌, ◌≢◌, ◌↔◌, ◌⊎◌, inl, inr, Bool, true, false, ◌&&◌, ◌||◌, not, Option, none, some, List,
  [], ◌∷◌, ◌++◌, map, append-nil, append_assoc, arith, ◌==◌,
}
use quantum_kernel.Bytes.{Bytes, zeros}

abbrev pub color_bg : ℕ
color_bg = 0x000b_001f

abbrev pub color_fg : ℕ
color_fg = 0x00ff_d9e0

-- `SCALED_FONT_WIDTH`, `SCALED_FONT_HEIGHT` and `SCALED_FONT_Y_STEP`.
abbrev pub glyph_width : ℕ
glyph_width = 16

abbrev pub glyph_height : ℕ
glyph_height = 16

abbrev pub y_step : ℕ
y_step = 16

abbrev pub cursor_size : ℕ
cursor_size = 11

-- The static variables; `last_mouse` is none for the coordinates -1.
pub record Terminal : Type 0 where
  pub fb : Bytes
  pub width : ℕ
  pub height : ℕ
  pub pitch : ℕ
  pub bpp : ℕ
  pub cursor_x : ℕ
  pub cursor_y : ℕ
  pub fg : ℕ
  pub bg : ℕ
  pub cursor_buffer : ℕ → ℕ
  pub last_mouse : Option (ℕ × ℕ)

-- `offset`
unfoldable pub pixel_offset : ℕ → ℕ → Terminal → ℕ
pixel_offset x y s = u32 (y * s.pitch + x * (s.bpp / 8))

-- `p[i] = v`
abbrev pub poke : ℕ → ℕ → Bytes → Bytes
poke o v b k = if k == o then v % 256 else b k

-- The three bytes that both depths store.
abbrev pub poke_rgb : ℕ → ℕ → Bytes → Bytes
poke_rgb o color b = poke (o + 2) color (poke (o + 1) (color / 256) (poke o (color / 65536) b))

unfoldable pub putpixel : ℕ → ℕ → ℕ → Terminal → Terminal
putpixel x y color s =
    let o = pixel_offset x y s in
    if leb s.width x || leb s.height y
    then s
    else if s.bpp == 32
    then record s { fb = poke (o + 3) (color / 16777216) (poke_rgb o color s.fb) }
    else if s.bpp == 24
    then record s { fb = poke_rgb o color s.fb }
    else s

unfoldable pub getpixel : ℕ → ℕ → Terminal → ℕ
getpixel x y s =
    let o = pixel_offset x y s in
    let rgb = s.fb o * 65536 + s.fb (o + 1) * 256 + s.fb (o + 2) in
    if leb s.width x || leb s.height y
    then 0
    else if s.bpp == 32
    then s.fb (o + 3) * 16777216 + rgb
    else if s.bpp == 24
    then rgb
    else 0

-- `for (i = 0; i < n; i++)` with `n` rounds left from round `i` on.
unfoldable pub for_each : ℕ → ℕ → (ℕ → Terminal → Terminal) → Terminal → Terminal
for_each zero i body s = s
for_each (suc n) i body s = for_each n (i + 1) body (body i s)

-- The inner loops of `draw_char`: one bit of the glyph, four pixels.
unfoldable pub draw_dot : ℕ → ℕ → ℕ → Terminal → Terminal
draw_dot x y color =
    for_each 2 0 (λ sy. for_each 2 0 (λ sx. putpixel (u32 (x + sx)) (u32 (y + sy)) color))

unfoldable pub draw_char : (ℕ → ℕ → ℕ) → ℕ → ℕ → ℕ → Terminal → Terminal
draw_char font c x y = for_each 8 0 (λ row. for_each 8 0 (λ col s.
    let color = if bit (font c row) (7 - col) then s.fg else s.bg in
    draw_dot (x + col * 2) (y + row * 2) color s))

abbrev pub at_cursor : ℕ → ℕ → Terminal → Terminal
at_cursor x y s = record s { cursor_x = x; cursor_y = y }

-- `if (cursor_y + SCALED_FONT_HEIGHT > fb_height) cursor_y = 0;`
unfoldable pub wrap_y : Terminal → Terminal
wrap_y s = if ltb s.height (u32 (s.cursor_y + glyph_height)) then record s { cursor_y = 0 } else s

-- `if (cursor_x + SCALED_FONT_WIDTH > fb_width)`: the next line.
unfoldable pub wrap_x : Terminal → Terminal
wrap_x s =
    if ltb s.width (u32 (s.cursor_x + glyph_width))
    then at_cursor 0 (u32 (s.cursor_y + y_step)) s
    else s

-- The branch of a backspace.
unfoldable pub rub_out : (ℕ → ℕ → ℕ) → Terminal → Terminal
rub_out font s =
    let left = at_cursor (s.cursor_x - glyph_width) s.cursor_y s in
    let up = at_cursor (u32 (s.width + 2 ^ 32 - glyph_width)) (s.cursor_y - y_step) s in
    if leb glyph_width s.cursor_x
    then draw_char font b' ' left.cursor_x left.cursor_y left
    else if leb y_step s.cursor_y
    then draw_char font b' ' up.cursor_x up.cursor_y up
    else s

-- The branch of a character with a glyph.
unfoldable pub put_glyph : (ℕ → ℕ → ℕ) → ℕ → Terminal → Terminal
put_glyph font c s =
    let placed = wrap_y (wrap_x s) in
    let drawn = draw_char font c placed.cursor_x placed.cursor_y placed in
    record drawn { cursor_x = u32 (drawn.cursor_x + glyph_width) }

unfoldable pub term_putc : (ℕ → ℕ → ℕ) → ℕ → Terminal → Terminal
term_putc font c s =
    if c == 10
    then wrap_y (at_cursor 0 (u32 (s.cursor_y + y_step)) s)
    else if c == 13
    then record s { cursor_x = 0 }
    else if (c == 8) || (c == 127)
    then rub_out font s
    else if ltb c 32
    then s
    else put_glyph font c s

unfoldable pub term_puts : (ℕ → ℕ → ℕ) → List ℕ → Terminal → Terminal
term_puts font [] s = s
term_puts font (c ∷ cs) s = term_puts font cs (term_putc font c s)

unfoldable pub term_clear : Terminal → Terminal
term_clear s =
    let cleared = for_each s.height 0 (λ y. for_each s.width 0 (λ x. putpixel x y color_bg)) s in
    record cleared { cursor_x = 0; cursor_y = 0; last_mouse = none }

-- The frame buffer is memory that the boot loader has set up.
unfoldable pub term_init_fb : Bytes → ℕ → ℕ → ℕ → ℕ → Terminal → Terminal
term_init_fb fb w h pitch bpp s =
    term_clear (record s { fb = fb; width = w; height = h; pitch = pitch; bpp = bpp })

unfoldable pub save_cursor_background : ℕ → ℕ → Terminal → Terminal
save_cursor_background x y = for_each cursor_size 0 (λ dy. for_each cursor_size 0 (λ dx s.
    let color = getpixel (u32 (x + dx)) (u32 (y + dy)) s in
    record s {
      cursor_buffer = λ k. if k == dy * cursor_size + dx then color else s.cursor_buffer k;
    }))

unfoldable pub restore_cursor_background : ℕ → ℕ → Terminal → Terminal
restore_cursor_background x y = for_each cursor_size 0 (λ dy.
    for_each cursor_size 0
      (λ dx s. putpixel (u32 (x + dx)) (u32 (y + dy)) (s.cursor_buffer (dy * cursor_size + dx)) s))

-- `cursor_pattern`, row by row.
abbrev pub cursor_pattern : List ℕ
cursor_pattern =
    0 ∷ 0 ∷ 0 ∷ 0 ∷ 0 ∷ 0 ∷ 0 ∷ 0 ∷ 0 ∷ 0 ∷ 0 ∷ 0 ∷ 1 ∷ 0 ∷ 0 ∷ 0 ∷ 0 ∷ 0 ∷ 0 ∷ 0 ∷ 0 ∷ 0 ∷ 0 ∷ 1
    ∷ 2 ∷ 0 ∷ 0 ∷ 0 ∷ 0 ∷ 0 ∷ 0 ∷ 0 ∷ 0 ∷ 0 ∷ 1 ∷ 2 ∷ 2 ∷ 0 ∷ 0 ∷ 0 ∷ 0 ∷ 0 ∷ 0 ∷ 0 ∷ 0 ∷ 1 ∷ 2 ∷ 2
    ∷ 2 ∷ 0 ∷ 0 ∷ 0 ∷ 0 ∷ 0 ∷ 0 ∷ 0 ∷ 1 ∷ 2 ∷ 2 ∷ 2 ∷ 2 ∷ 0 ∷ 0 ∷ 0 ∷ 0 ∷ 0 ∷ 0 ∷ 1 ∷ 2 ∷ 2 ∷ 2 ∷ 2
    ∷ 2 ∷ 0 ∷ 0 ∷ 0 ∷ 0 ∷ 0 ∷ 1 ∷ 2 ∷ 2 ∷ 2 ∷ 2 ∷ 2 ∷ 2 ∷ 0 ∷ 0 ∷ 0 ∷ 0 ∷ 1 ∷ 2 ∷ 2 ∷ 2 ∷ 2 ∷ 2 ∷ 2
    ∷ 2 ∷ 0 ∷ 0 ∷ 0 ∷ 1 ∷ 2 ∷ 2 ∷ 2 ∷ 1 ∷ 1 ∷ 1 ∷ 1 ∷ 1 ∷ 0 ∷ 0 ∷ 1 ∷ 2 ∷ 0 ∷ 1 ∷ 2 ∷ 1 ∷ 0 ∷ 0 ∷ 0
    ∷ 0 ∷ []

unfoldable pub draw_cursor_shape : ℕ → ℕ → Terminal → Terminal
draw_cursor_shape x y = for_each cursor_size 0 (λ dy. for_each cursor_size 0 (λ dx s.
    let dot = get_or cursor_pattern (dy * cursor_size + dx) 0 in
    if dot == 1
    then putpixel (u32 (x + dx)) (u32 (y + dy)) 0x000000 s
    else if dot == 2
    then putpixel (u32 (x + dx)) (u32 (y + dy)) 0xff44ff s
    else s))

-- `if (last_mouse_x >= 0 && last_mouse_y >= 0)`
unfoldable pub hide_mouse : Option (ℕ × ℕ) → Terminal → Terminal
hide_mouse none s = s
hide_mouse (some (x, y)) s = restore_cursor_background x y s

unfoldable pub draw_mouse : ℕ → ℕ → Terminal → Terminal
draw_mouse mouse_x mouse_y s =
    let saved = save_cursor_background mouse_x mouse_y (hide_mouse s.last_mouse s) in
    record (draw_cursor_shape mouse_x mouse_y saved) { last_mouse = some (mouse_x, mouse_y) }

unfoldable pub term_set_color : ℕ → Terminal → Terminal
term_set_color fg s = record s { fg = fg }

unfoldable pub term_reset_color : Terminal → Terminal
term_reset_color s = record s { fg = color_fg }
