-- ===== src/Devices/Terminal/Screen.antt =====
-- What src/drivers/fb_terminal.c draws stays in the frame buffer.
use quantum_kernel.Prelude.{
  mul-le, leb, if◌then◌else◌, u32, Bool-cases, ℕ, zero, suc, ◌+◌, ◌-◌, ◌*◌, ◌/◌, ◌^◌, ◌≤◌, ◌<◌, ◌≡◌,
  refl, ◌∙◌, inl, inr, Bool, true, false, ◌||◌, List, [], ◌∷◌, arith, ◌==◌,
}
use quantum_kernel.Devices.Terminal.{
  Terminal, pixel_offset, putpixel, for_each, draw_dot, draw_char, wrap_x, wrap_y, rub_out,
  put_glyph, term_putc, term_puts, at_cursor,
}

-- A row of pixels fits the pitch, and the frame buffer has 32-bit offsets.
pub record Fits (s : Terminal) : Type 0 where
  pub row : s.width * (s.bpp / 8) ≤ s.pitch
  pub whole : s.height * s.pitch ≤ 2 ^ 32

-- The same geometry, and the same memory behind the frame buffer.
pub record Within (s s' : Terminal) : Type 0 where
  pub same_width : s'.width ≡ s.width
  pub same_height : s'.height ≡ s.height
  pub same_pitch : s'.pitch ≡ s.pitch
  pub same_bpp : s'.bpp ≡ s.bpp
  pub beyond : (k : ℕ) → s.height * s.pitch ≤ k → s'.fb k ≡ s.fb k

pub Within-refl : (s : Terminal) → Within s s
Within-refl s = record {
  same_width = refl;
  same_height = refl;
  same_pitch = refl;
  same_bpp = refl;
  beyond = λ k h. refl;
}

pub Within-trans : {s t u : Terminal} → Within s t → Within t u → Within s u
Within-trans a b = record {
  same_width = b.same_width ∙ a.same_width;
  same_height = b.same_height ∙ a.same_height;
  same_pitch = b.same_pitch ∙ a.same_pitch;
  same_bpp = b.same_bpp ∙ a.same_bpp;
  beyond = λ k h. b.beyond k (rw (a.same_height, a.same_pitch) h) ∙ a.beyond k h;
}

pub Within-Fits : {s t : Terminal} → Within s t → Fits s → Fits t
Within-Fits w f = record {
  row = rw (w.same_width, w.same_bpp, w.same_pitch) f.row;
  whole = rw (w.same_height, w.same_pitch) f.whole;
}

-- A step that stays in every frame buffer that fits.
abbrev pub Stays : (Terminal → Terminal) → Type 0
Stays step = (s : Terminal) → Fits s → Within s (step s)

-- The bytes of a pixel on the screen lie in front of the frame buffer's end.
pixel-lt :
    (x y n : ℕ) (s : Terminal)
    → Fits s
    → x < s.width
    → y < s.height
    → n ≤ s.bpp / 8
    → (pixel_offset x y s + n ≤ s.height * s.pitch)
unfolding pixel_offset
pixel-lt x y n s f hx hy hn =
    let a = mul-le x s.width (s.bpp / 8) hx in
    let b = mul-le y s.height s.pitch hy in omega (arith, f.row, f.whole)

pub putpixel-Stays : (x y color : ℕ) → Stays (putpixel x y color)
unfolding putpixel
putpixel-Stays x y color s f = elim (Bool-cases (leb s.width x || leb s.height y)) [
  | inl out ↦ rw (putpixel, out) (Within-refl s)
  | inr on ↦ elim (Bool-cases (s.bpp == 32)) [
    | inl deep ↦
        let lt = pixel-lt x y 4 s f (ground (arith, on)) (ground (arith, on)) (ground arith) in
        rw (putpixel, on, deep)
          (record {
            same_width = refl;
            same_height = refl;
            same_pitch = refl;
            same_bpp = refl;
            beyond = λ k h. ground (arith, lt, h);
          })
    | inr other ↦ elim (Bool-cases (s.bpp == 24)) [
      | inl three ↦
          let lt = pixel-lt x y 3 s f (ground (arith, on)) (ground (arith, on)) (ground arith) in
          rw (putpixel, on, other, three)
            (record {
              same_width = refl;
              same_height = refl;
              same_pitch = refl;
              same_bpp = refl;
              beyond = λ k h. ground (arith, lt, h);
            })
      | inr none_of_these ↦ rw (putpixel, on, other, none_of_these) (Within-refl s)
    ]
  ]
]

pub for_each-Stays :
    (n i : ℕ) (body : ℕ → Terminal → Terminal)
    → ((j : ℕ) → Stays (body j))
    → Stays (for_each n i body)
unfolding for_each
for_each-Stays zero i body h s f = Within-refl s
for_each-Stays (suc n) i body h s f =
    let w = h i s f in Within-trans w (for_each-Stays n (i + 1) body h (body i s) (Within-Fits w f))

draw_dot-Stays : (x y color : ℕ) → Stays (draw_dot x y color)
unfolding draw_dot
draw_dot-Stays x y color =
    for_each-Stays 2 0 _
      (λ sy. for_each-Stays 2 0 _ (λ sx. putpixel-Stays (u32 (x + sx)) (u32 (y + sy)) color))

draw_char-Stays : (font : ℕ → ℕ → ℕ) (c x y : ℕ) → Stays (draw_char font c x y)
unfolding draw_char
draw_char-Stays font c x y =
    for_each-Stays 8 0 _
      (λ row. for_each-Stays 8 0 _ (λ col s f. draw_dot-Stays (x + col * 2) (y + row * 2) _ s f))

-- A step that moves the cursor only.
at_cursor-Within : (x y : ℕ) (s : Terminal) → Within s (at_cursor x y s)
at_cursor-Within x y s = record {
  same_width = refl;
  same_height = refl;
  same_pitch = refl;
  same_bpp = refl;
  beyond = λ k h. refl;
}

pub either : (b : Bool) (s t u : Terminal) → Within s t → Within s u → Within s (if b then t else u)
either true s t u v w = v
either false s t u v w = w

wrap_y-Within : (s : Terminal) → Within s (wrap_y s)
unfolding wrap_y
wrap_y-Within s = either _ s _ _ (at_cursor-Within s.cursor_x 0 s) (Within-refl s)

wrap_x-Within : (s : Terminal) → Within s (wrap_x s)
unfolding wrap_x
wrap_x-Within s = either _ s _ _ (at_cursor-Within 0 _ s) (Within-refl s)

-- A glyph drawn at the cursor once it has moved.
drawn-Within :
    (font : ℕ → ℕ → ℕ) (c x y : ℕ) (s t : Terminal)
    → Fits s
    → Within s t
    → Within s (draw_char font c x y t)
drawn-Within font c x y s t f w = Within-trans w (draw_char-Stays font c x y t (Within-Fits w f))

rub_out-Stays : (font : ℕ → ℕ → ℕ) → Stays (rub_out font)
unfolding rub_out
rub_out-Stays font s f =
    let left = at_cursor (s.cursor_x - 16) s.cursor_y s in
    let up = at_cursor (u32 (s.width + 2 ^ 32 - 16)) (s.cursor_y - 16) s in
    either (leb 16 s.cursor_x) s (draw_char font b' ' left.cursor_x left.cursor_y left) _
      (drawn-Within font b' ' left.cursor_x left.cursor_y s left f
        (at_cursor-Within left.cursor_x left.cursor_y s))
      (either (leb 16 s.cursor_y) s (draw_char font b' ' up.cursor_x up.cursor_y up) s
        (drawn-Within font b' ' up.cursor_x up.cursor_y s up f
          (at_cursor-Within up.cursor_x up.cursor_y s))
        (Within-refl s))

put_glyph-Stays : (font : ℕ → ℕ → ℕ) (c : ℕ) → Stays (put_glyph font c)
unfolding put_glyph
put_glyph-Stays font c s f =
    let placed = wrap_y (wrap_x s) in
    let w = Within-trans (wrap_x-Within s) (wrap_y-Within (wrap_x s)) in
    let drawn = draw_char font c placed.cursor_x placed.cursor_y placed in
    Within-trans (drawn-Within font c placed.cursor_x placed.cursor_y s placed f w)
      (at_cursor-Within (u32 (drawn.cursor_x + 16)) drawn.cursor_y drawn)

term_putc-Stays : (font : ℕ → ℕ → ℕ) (c : ℕ) → Stays (term_putc font c)
unfolding term_putc
term_putc-Stays font c s f =
    let next = at_cursor 0 (u32 (s.cursor_y + 16)) s in
    either _ s _ _ (Within-trans (at_cursor-Within 0 _ s) (wrap_y-Within next)) (
      either _ s _ _ (at_cursor-Within 0 s.cursor_y s) (
        either _ s _ _ (rub_out-Stays font s f)
          (either _ s _ _ (Within-refl s) (put_glyph-Stays font c s f))))

pub term_puts-Stays : (font : ℕ → ℕ → ℕ) (text : List ℕ) → Stays (term_puts font text)
unfolding term_puts
term_puts-Stays font [] s f = Within-refl s
term_puts-Stays font (c ∷ cs) s f =
    let w = term_putc-Stays font c s f in
    Within-trans w (term_puts-Stays font cs (term_putc font c s) (Within-Fits w f))
