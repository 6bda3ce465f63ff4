-- ===== src/Log/Order.antt =====
-- The order in which the log buffer keeps its lines, and what `rp2040_log_flush` writes.
pub mod Rotate
use Rotate.*
use smartphone_robot_firmwar.Base.{
  ℕ, zero, suc, ◌+◌, ◌-◌, ◌%◌, ◌≤◌, ◌<◌, List, [], ◌∷◌, ◌++◌, ◌≡◌, refl, ap, ◌∙◌, sym, length,
  get_or, set, take, drop, arith, append_assoc, length-drop,
}
use mathlib.Core.List.{flatten}
use smartphone_robot_firmwar.Log.{
  CircularBufferLog, rp2040_log, rp2040_log_flush, flush_loop, printf_precision,
  log_buffer_line_count,
}
use smartphone_robot_firmwar.Log.Lines.{
  NoNul, truncated, lines_of, IsValid, lines_of-rp2040_log, length-lines_of, get_or-printed_lines,
}

-- The lines from the oldest to the newest. A line that was never written is empty.
abbrev pub contents : CircularBufferLog → List (List ℕ)
contents b = drop b.head (lines_of b) ++ take b.head (lines_of b)

head-rp2040_log :
    (text : List ℕ) (b : CircularBufferLog)
    → IsValid b
    → (rp2040_log text b).head ≡ (b.head + 1) % log_buffer_line_count
unfolding rp2040_log
head-rp2040_log text b v = ground arith

-- A call of `rp2040_log` drops the oldest line and appends the text, cut to 127 characters.
pub contents-rp2040_log :
    (text : List ℕ) (b : CircularBufferLog)
    → NoNul text
    → IsValid b
    → contents (rp2040_log text b) ≡ drop 1 (contents b) ++ (truncated text ∷ [])
contents-rp2040_log text b h v =
    rw (lines_of-rp2040_log text b h, head-rp2040_log text b v, v.met)
      (rotate-set (lines_of b) log_buffer_line_count b.head (truncated text) (length-lines_of b v)
        v.head_in)

-- The buffer with another head.
abbrev at_head : CircularBufferLog → ℕ → CircularBufferLog
at_head b h = record b { head = h }

abbrev advance : CircularBufferLog → CircularBufferLog
advance b = at_head b ((b.head + 1) % log_buffer_line_count)

-- What one round writes.
abbrev head_line : CircularBufferLog → List ℕ
head_line b =
    printf_precision (get_or b.log_array_line_size b.head 0) (get_or b.log_array b.head [])

next_line :
    (b : CircularBufferLog) (h : ℕ)
    → IsValid b
    → h < log_buffer_line_count
    → drop h (lines_of b) ≡ head_line (at_head b h) ∷ drop (suc h) (lines_of b)
next_line b h v hh =
    drop_cons (lines_of b) h [] (omega (arith, length-lines_of b v))
    ∙ ap (λ l. l ∷ drop (suc h) (lines_of b))
        (get_or-printed_lines b.log_array b.log_array_line_size h (v.rows ∙ sym v.sizes)
          (omega (arith, v.rows)))

-- Rounds that do not pass the end of the array.
flush_segment :
    (b : CircularBufferLog) (n h : ℕ)
    → IsValid b
    → h < log_buffer_line_count
    → h + n ≤ log_buffer_line_count
    → flush_loop n (at_head b h)
      ≡ (flatten (take n (drop h (lines_of b))), at_head b ((h + n) % log_buffer_line_count))
unfolding flush_loop flatten
flush_segment b zero h v hh hn = ground arith
flush_segment b (suc zero) h v hh hn = rw (next_line b h v hh)
flush_segment b (suc (suc n)) h v hh hn =
    ap (λ r. (head_line (at_head b h) ++ r.0, r.1))
      (ap (λ k. flush_loop (suc n) (at_head b k)) (omega arith)
        ∙ flush_segment b (suc n) (suc h) v (omega arith) (omega arith))
    ∙ rw (next_line b h v hh) (
        ap
          (λ k. (
            flatten (take (suc (suc n)) (head_line (at_head b h) ∷ drop (suc h) (lines_of b))),
            at_head b (k % log_buffer_line_count),
          ))
          (omega arith))

flush_loop-add :
    (m n k : ℕ) (b : CircularBufferLog)
    → k ≡ m + n
    → flush_loop k b ≡ (
      (flush_loop m b).0 ++ (flush_loop n (flush_loop m b).1).0,
      (flush_loop n (flush_loop m b).1).1,
    )
unfolding flush_loop
flush_loop-add zero n k b e = let e' : k ≡ n = omega arith in rw e'
flush_loop-add (suc m) n zero b e = absurd (omega arith)
flush_loop-add (suc m) n (suc k) b e =
    let here = head_line b in
    rw (flush_loop-add m n k (advance b) (omega arith)) (
      ap (λ out. (out, (flush_loop n (flush_loop m (advance b)).1).1))
        (sym (append_assoc here (flush_loop m (advance b)).0 _)))

-- A flush writes the lines from the oldest to the newest, and leaves the buffer as it was.
pub rp2040_log_flush_lem :
    (b : CircularBufferLog) → IsValid b → rp2040_log_flush b ≡ (flatten (contents b), b)
unfolding rp2040_log_flush
rp2040_log_flush_lem b v =
    flush_loop-add to_end b.head log_buffer_line_count b (omega arith)
    ∙ rw (flush_segment b to_end b.head v v.head_in (omega arith), end_is_start)
        (rw (flush_segment b b.head 0 v (omega arith) (omega arith), rest_is_all, back_at_head)
          (ap (λ out. (out, b))
            (sym (flatten-append (drop b.head (lines_of b)) (take b.head (lines_of b))))))
  where
    to_end : ℕ
    to_end = log_buffer_line_count - b.head

    end_is_start : (b.head + to_end) % log_buffer_line_count ≡ 0
    end_is_start = omega arith

    back_at_head : (0 + b.head) % log_buffer_line_count ≡ b.head
    back_at_head = omega arith

    rest_is_all : take to_end (drop b.head (lines_of b)) ≡ drop b.head (lines_of b)
    rest_is_all =
        take_all to_end (drop b.head (lines_of b))
          (omega (arith, length-drop b.head (lines_of b), length-lines_of b v))
