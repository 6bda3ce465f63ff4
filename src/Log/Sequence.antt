-- ===== src/Log/Sequence.antt =====
-- Any sequence of calls of `rp2040_log`, and the flush after it.
use smartphone_robot_firmwar.Base.{
  ℕ, suc, ◌<◌, List, [], ◌∷◌, ◌++◌, map, ◌≡◌, refl, ap, ◌∙◌, sym, length, take, drop, arith,
  append_assoc, append-nil, length-append, length-take, length-drop,
}
use mathlib.Core.List.{flatten}
use smartphone_robot_firmwar.Log.{
  CircularBufferLog, rp2040_log, rp2040_log_flush, log_buffer_line_count,
}
use smartphone_robot_firmwar.Log.Lines.{
  NoNul, truncated, IsValid, rp2040_log-IsValid, lines_of, length-lines_of,
}
use smartphone_robot_firmwar.Log.Order.{contents, contents-rp2040_log, rp2040_log_flush_lem}

-- The calls in order, the earliest first.
abbrev pub rp2040_log_all : List (List ℕ) → CircularBufferLog → CircularBufferLog
rp2040_log_all [] b = b
rp2040_log_all (text ∷ texts) b = rp2040_log_all texts (rp2040_log text b)

abbrev pub AllNoNul : List (List ℕ) → Type 0
AllNoNul [] = Unit
AllNoNul (text ∷ texts) = NoNul text × AllNoNul texts

length-contents : (b : CircularBufferLog) → IsValid b → length (contents b) ≡ log_buffer_line_count
length-contents b v = omega (
  arith,
  length-append (drop b.head (lines_of b)) (take b.head (lines_of b)),
  length-drop b.head (lines_of b),
  length-take b.head (lines_of b),
  length-lines_of b v,
  v.head_in,
)

drop_later {ℓ} :
    {A : Type ℓ} (n : ℕ) (xs ys : List A)
    → 0 < length xs
    → drop n (drop 1 xs ++ ys) ≡ drop (suc n) (xs ++ ys)
drop_later n [] ys h = absurd (omega arith)
drop_later n (x ∷ xs) ys h = refl

pub rp2040_log_all-IsValid :
    (texts : List (List ℕ)) (b : CircularBufferLog)
    → AllNoNul texts
    → IsValid b
    → IsValid (rp2040_log_all texts b)
rp2040_log_all-IsValid [] b h v = v
rp2040_log_all-IsValid (text ∷ texts) b h v =
    rp2040_log_all-IsValid texts (rp2040_log text b) h.1 (rp2040_log-IsValid text b h.0 v)

contents-rp2040_log_all :
    (texts : List (List ℕ)) (b : CircularBufferLog)
    → AllNoNul texts
    → IsValid b
    → contents (rp2040_log_all texts b) ≡ drop (length texts) (contents b ++ map truncated texts)
contents-rp2040_log_all [] b h v = sym (append-nil (contents b))
contents-rp2040_log_all (text ∷ texts) b h v =
    contents-rp2040_log_all texts (rp2040_log text b) h.1 (rp2040_log-IsValid text b h.0 v)
    ∙ rw (contents-rp2040_log text b h.0 v, append_assoc)
        (drop_later (length texts) (contents b) (map truncated (text ∷ texts))
          (omega (arith, length-contents b v)))

-- After any calls of `rp2040_log` on texts without NUL, a flush writes, oldest first, the newest
-- 1028 among the lines held before and the texts, each text cut to 127 characters, and leaves the
-- buffer unchanged and valid.
pub flush-rp2040_log_all :
    (texts : List (List ℕ)) (b : CircularBufferLog)
    → AllNoNul texts
    → IsValid b
    → (rp2040_log_flush (rp2040_log_all texts b) ≡ (
      flatten (drop (length texts) (contents b ++ map truncated texts)),
      rp2040_log_all texts b,
    ))
      × (length (drop (length texts) (contents b ++ map truncated texts)) ≡ log_buffer_line_count)
      × IsValid (rp2040_log_all texts b)
flush-rp2040_log_all texts b h v = (
  rp2040_log_flush_lem after valid
      ∙ ap (λ l. (flatten l, after)) (contents-rp2040_log_all texts b h v),
  sym (ap length (contents-rp2040_log_all texts b h v)) ∙ length-contents after valid,
  valid,
)
  where
    after : CircularBufferLog
    after = rp2040_log_all texts b

    valid : IsValid after
    valid = rp2040_log_all-IsValid texts b h v
