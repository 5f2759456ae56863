-- ===== src/Gui/Pixels.antt =====
-- The pixels that the loops of gui_fill_rect in gui/framebuffer.c write.
use nanos_os.Common.{
  ℕ, zero, suc, ◌+◌, ◌*◌, ◌/◌, ◌≤◌, ◌<◌, ◌≡◌, ◌≢◌, ◌⊎◌, inl, inr, ◌∙◌, refl, ◌==◌, ==_iff, arith,
  Bool-cases,
}
use nanos_os.Gui.{lcd_w, fill_pairs, fill_row, fill_rows}

fill_pairs_in : (d n c : ℕ) (fb : ℕ → ℕ) (q : ℕ) → d ≤ q → q < d + 2 * n → fill_pairs d n c fb q ≡ c
unfolding fill_pairs
fill_pairs_in d zero c fb q l u = absurd (omega arith)
fill_pairs_in d (suc n) c fb q l u = ground (arith, fill_pairs_in d n c fb q)

fill_pairs_out :
    (d n c : ℕ) (fb : ℕ → ℕ) (q : ℕ) → (q < d) ⊎ (d + 2 * n ≤ q) → fill_pairs d n c fb q ≡ fb q
unfolding fill_pairs
fill_pairs_out d zero c fb q o = refl
fill_pairs_out d (suc n) c fb q o = ground (arith, fill_pairs_out d n c fb q)

fill_row_in : (d w c : ℕ) (fb : ℕ → ℕ) (q : ℕ) → d ≤ q → q < d + w → fill_row d w c fb q ≡ c
unfolding fill_row
fill_row_in d w c fb q l u = ground (arith, fill_pairs_in d (w / 2) c fb q)

fill_row_out : (d w c : ℕ) (fb : ℕ → ℕ) (q : ℕ) → (q < d) ⊎ (d + w ≤ q) → fill_row d w c fb q ≡ fb q
unfolding fill_row
fill_row_out d w c fb q o = ground (arith, fill_pairs_out d (w / 2) c fb q)

pub fill_rows_in :
    (d w h c : ℕ) (fb : ℕ → ℕ) (q j : ℕ)
    → w ≤ lcd_w
    → j < h
    → d + j * lcd_w ≤ q
    → q < d + j * lcd_w + w
    → fill_rows d w h c fb q ≡ c
unfolding fill_rows
fill_rows_in d w zero c fb q j b n l u = absurd (omega arith)
fill_rows_in d w (suc h) c fb q j b n l u = elim (Bool-cases (j == h)) [
  | inl e ↦
      let s : j ≡ h = (==_iff j h).0 e in
      fill_row_in (d + h * lcd_w) w c (fill_rows d w h c fb) q (omega arith) (omega arith)
  | inr e ↦
      let s : j ≢ h = λ p. ground arith in
      fill_row_out (d + h * lcd_w) w c (fill_rows d w h c fb) q (inl (omega arith))
      ∙ fill_rows_in d w h c fb q j b (omega arith) l u
]

pub fill_rows_out :
    (d w h c : ℕ) (fb : ℕ → ℕ) (q : ℕ)
    → ((j : ℕ) → j < h → (q < d + j * lcd_w) ⊎ (d + j * lcd_w + w ≤ q))
    → fill_rows d w h c fb q ≡ fb q
unfolding fill_rows
fill_rows_out d w zero c fb q o = refl
fill_rows_out d w (suc h) c fb q o =
    fill_row_out (d + h * lcd_w) w c (fill_rows d w h c fb) q (o h (omega arith))
    ∙ fill_rows_out d w h c fb q (λ j n. o j (omega arith))
