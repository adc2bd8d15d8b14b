-- ===== src/Devices/Terminal/Session.antt =====
-- All that the kernel draws with src/drivers/fb_terminal.c, in any order.
use quantum_kernel.Prelude.{
  u32, get_or, ℕ, ◌+◌, ◌*◌, ◌≡◌, refl, ap, Option, none, some, List, [], ◌∷◌, ◌==◌,
}
use quantum_kernel.Devices.Terminal.{
  Terminal, term_puts, term_clear, save_cursor_background, restore_cursor_background,
  draw_cursor_shape, hide_mouse, draw_mouse, term_set_color, term_reset_color, cursor_pattern,
}
use quantum_kernel.Devices.Terminal.Screen.{
  Fits, Within, Within-refl, Within-trans, Within-Fits, Stays, putpixel-Stays, for_each-Stays,
  either, term_puts-Stays,
}

-- Steps on fields that no pixel depends on.
kept-Within :
    (s t : Terminal)
    → t.width ≡ s.width
    → t.height ≡ s.height
    → t.pitch ≡ s.pitch
    → t.bpp ≡ s.bpp
    → t.fb ≡ s.fb
    → Within s t
kept-Within s t a b c d e = record {
  same_width = a;
  same_height = b;
  same_pitch = c;
  same_bpp = d;
  beyond = λ k h. ap (λ (g : ℕ → ℕ). g k) e;
}

term_clear-Stays : Stays term_clear
unfolding term_clear
term_clear-Stays s f =
    Within-trans
      (for_each-Stays s.height 0 _
        (λ y. for_each-Stays s.width 0 _ (λ x. putpixel-Stays x y 0x000b_001f)) s f)
      (kept-Within _ _ refl refl refl refl refl)

save-Stays : (x y : ℕ) → Stays (save_cursor_background x y)
unfolding save_cursor_background
save-Stays x y =
    for_each-Stays 11 0 _
      (λ dy. for_each-Stays 11 0 _ (λ dx s f. kept-Within s _ refl refl refl refl refl))

restore-Stays : (x y : ℕ) → Stays (restore_cursor_background x y)
unfolding restore_cursor_background
restore-Stays x y = for_each-Stays 11 0 _ (λ dy.
    for_each-Stays 11 0 _
      (λ dx s f. putpixel-Stays (u32 (x + dx)) (u32 (y + dy)) (s.cursor_buffer (dy * 11 + dx)) s f))

shape-Stays : (x y : ℕ) → Stays (draw_cursor_shape x y)
unfolding draw_cursor_shape
shape-Stays x y = for_each-Stays 11 0 _ (λ dy. for_each-Stays 11 0 _ (λ dx s f.
    let dot = get_or cursor_pattern (dy * 11 + dx) 0 in
    let black = putpixel-Stays (u32 (x + dx)) (u32 (y + dy)) 0x000000 s f in
    let pink = putpixel-Stays (u32 (x + dx)) (u32 (y + dy)) 0xff44ff s f in
    either (dot == 1) s _ _ black (either (dot == 2) s _ _ pink (Within-refl s))))

hide-Stays : (last : Option (ℕ × ℕ)) → Stays (hide_mouse last)
unfolding hide_mouse
hide-Stays none s f = Within-refl s
hide-Stays (some (x, y)) s f = restore-Stays x y s f

draw_mouse-Stays : (x y : ℕ) → Stays (draw_mouse x y)
unfolding draw_mouse
draw_mouse-Stays x y s f =
    let hidden = hide-Stays s.last_mouse s f in
    let saved =
      Within-trans hidden (save-Stays x y (hide_mouse s.last_mouse s) (Within-Fits hidden f)) in
    let drawn = Within-trans saved (
      shape-Stays x y (save_cursor_background x y (hide_mouse s.last_mouse s))
        (Within-Fits saved f)) in
    Within-trans drawn (kept-Within _ _ refl refl refl refl refl)

-- What the rest of the kernel asks of the terminal.
pub data Request : Type 0 where
  text : List ℕ → Request
  clear : Request
  mouse_at : ℕ → ℕ → Request
  color : ℕ → Request
  default_color : Request

unfoldable pub serve : (ℕ → ℕ → ℕ) → List Request → Terminal → Terminal
serve font [] s = s
serve font (text cs ∷ rs) s = serve font rs (term_puts font cs s)
serve font (clear ∷ rs) s = serve font rs (term_clear s)
serve font (mouse_at x y ∷ rs) s = serve font rs (draw_mouse x y s)
serve font (color fg ∷ rs) s = serve font rs (term_set_color fg s)
serve font (default_color ∷ rs) s = serve font rs (term_reset_color s)

-- Whatever is printed and drawn, in any order and with any font, on a screen whose rows fit its pitch
-- and whose frame buffer ends below 2 ^ 32: the geometry stays, and no byte behind the frame buffer
-- changes.
pub serve-Within :
    (font : ℕ → ℕ → ℕ) (rs : List Request) (s : Terminal) → Fits s → Within s (serve font rs s)
unfolding serve term_set_color term_reset_color
serve-Within font [] s f = Within-refl s
serve-Within font (text cs ∷ rs) s f =
    let w = term_puts-Stays font cs s f in
    Within-trans w (serve-Within font rs (term_puts font cs s) (Within-Fits w f))
serve-Within font (clear ∷ rs) s f =
    let w = term_clear-Stays s f in
    Within-trans w (serve-Within font rs (term_clear s) (Within-Fits w f))
serve-Within font (mouse_at x y ∷ rs) s f =
    let w = draw_mouse-Stays x y s f in
    Within-trans w (serve-Within font rs (draw_mouse x y s) (Within-Fits w f))
serve-Within font (color fg ∷ rs) s f =
    let w = kept-Within s (term_set_color fg s) refl refl refl refl refl in
    Within-trans w (serve-Within font rs (term_set_color fg s) (Within-Fits w f))
serve-Within font (default_color ∷ rs) s f =
    let w = kept-Within s (term_reset_color s) refl refl refl refl refl in
    Within-trans w (serve-Within font rs (term_reset_color s) (Within-Fits w f))
