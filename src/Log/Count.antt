-- ===== src/Log/Count.antt =====
-- The byte count that GET_LOG announces against the bytes that the flush writes.
use smartphone_robot_firmwar.Base.{
  ℕ, zero, suc, ◌+◌, ◌≤◌, ◌<◌, List, [], ◌∷◌, ◌++◌, ◌≡◌, ◌↔◌, ap, ◌∙◌, sym, length, take, drop,
  arith, length-append, take-append-drop, u16,
}
use mathlib.Core.List.{flatten}
use smartphone_robot_firmwar.Log.{
  CircularBufferLog, rp2040_get_byte_count, sum_sizes, rp2040_log_flush, log_buffer_line_count,
}
use smartphone_robot_firmwar.Log.Lines.{IsValid, SizesFit, lines_of, length-lines_of}
use smartphone_robot_firmwar.Log.Order.{rp2040_log_flush_lem}
use smartphone_robot_firmwar.Log.Order.Rotate.{flatten-append}

-- The lines that were never written.
abbrev pub unused : List ℕ → ℕ
unused [] = 0
unused (zero ∷ sizes) = suc (unused sizes)
unused (suc size ∷ sizes) = unused sizes

unused-le : (sizes : List ℕ) → unused sizes ≤ length sizes
unused-le [] = omega arith
unused-le (zero ∷ sizes) = omega (arith, unused-le sizes)
unused-le (suc size ∷ sizes) = omega (arith, unused-le sizes)

sum_sizes-unused :
    (lines : List (List ℕ)) (sizes : List ℕ) (acc : ℕ)
    → SizesFit lines sizes
    → length lines ≡ length sizes
    → u16 (sum_sizes acc sizes + unused sizes) ≡ u16 (acc + length (flatten lines))
unfolding sum_sizes flatten
sum_sizes-unused [] [] acc h e = omega arith
sum_sizes-unused [] (s ∷ sizes) acc h e = absurd (omega arith)
sum_sizes-unused (l ∷ lines) [] acc h e = absurd h
sum_sizes-unused (l ∷ lines) (zero ∷ sizes) acc h e = omega (
  arith,
  length-append l (flatten lines),
  h.0,
  sum_sizes-unused lines sizes (u16 (acc + 0 + 0xffff)) h.1 (omega arith),
)
sum_sizes-unused (l ∷ lines) (suc s ∷ sizes) acc h e = omega (
  arith,
  length-append l (flatten lines),
  h.0,
  sum_sizes-unused lines sizes (u16 (acc + suc s + 0xffff)) h.1 (omega arith),
)

sum_sizes-lt : (sizes : List ℕ) (acc : ℕ) → acc < 0x1_0000 → sum_sizes acc sizes < 0x1_0000
unfolding sum_sizes
sum_sizes-lt [] acc h = h
sum_sizes-lt (s ∷ sizes) acc h = sum_sizes-lt sizes (u16 (acc + s + 0xffff)) (omega arith)

length-rotated :
    (n : ℕ) (lines : List (List ℕ))
    → length (flatten (drop n lines ++ take n lines)) ≡ length (flatten lines)
length-rotated n lines = omega (
  arith,
  ap length (flatten-append (drop n lines) (take n lines)),
  ap length (flatten-append (take n lines) (drop n lines)),
  length-append (flatten (drop n lines)) (flatten (take n lines)),
  length-append (flatten (take n lines)) (flatten (drop n lines)),
  ap (λ ls. length (flatten ls)) (take-append-drop n lines),
)

-- The announced count, with one added for each line never written, is the number of bytes that the
-- flush writes, both modulo 65536; so the count is right exactly where no line is unused.
pub rp2040_get_byte_count_lem :
    (b : CircularBufferLog)
    → IsValid b
    → (u16 (rp2040_get_byte_count b + unused b.log_array_line_size)
        ≡ u16 (length (rp2040_log_flush b).0))
      × ((rp2040_get_byte_count b ≡ u16 (length (rp2040_log_flush b).0))
          ↔ (unused b.log_array_line_size ≡ 0))
unfolding rp2040_get_byte_count
rp2040_get_byte_count_lem b v =
    (counted, (λ e. omega (arith, counted, few, fits), λ e. omega (arith, counted, fits)))
  where
    sizes : List ℕ
    sizes = b.log_array_line_size

    fits : sum_sizes 0 sizes < 0x1_0000
    fits = sum_sizes-lt sizes 0 (omega arith)

    few : unused sizes ≤ log_buffer_line_count
    few = omega (arith, unused-le sizes, v.sizes)

    written : length (rp2040_log_flush b).0 ≡ length (flatten (lines_of b))
    written = ap (λ r. length (r.0)) (rp2040_log_flush_lem b v) ∙ length-rotated b.head (lines_of b)

    counted : u16 (sum_sizes 0 sizes + unused sizes) ≡ u16 (length (rp2040_log_flush b).0)
    counted =
        sum_sizes-unused (lines_of b) sizes 0 v.fit (length-lines_of b v ∙ sym v.sizes)
        ∙ ap u16 (omega (arith, written))
