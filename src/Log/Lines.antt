-- ===== src/Log/Lines.antt =====
-- The lines that the log buffer holds, in the order of the array, and its invariant.
use smartphone_robot_firmwar.Base.{
  ℕ, zero, suc, ◌+◌, ◌-◌, ◌≤◌, ◌<◌, List, [], ◌∷◌, ◌++◌, ◌≡◌, ◌≢◌, refl, ap, ◌∙◌, sym, ltb,
  if◌then◌else◌, length, get_or, set, take, replicate, length-set, length-take, length-replicate,
  arith, Bool-cases, inl, inr, false, ltb→lt,
}
use smartphone_robot_firmwar.Log.{
  CircularBufferLog, boot, rp2040_log_init, vsnprintf, until_nul, printf_precision, rp2040_log,
  log_buffer_line_count, log_buffer_char_limit,
}

-- No character of a text is NUL.
abbrev pub NoNul : List ℕ → Type 0
NoNul [] = Unit
NoNul (c ∷ cs) = (c ≢ 0) × NoNul cs

NoNul-take : (n : ℕ) (text : List ℕ) → NoNul text → NoNul (take n text)
NoNul-take zero text h = tt
NoNul-take (suc n) [] h = tt
NoNul-take (suc n) (c ∷ cs) h = (h.0, NoNul-take n cs h.1)

-- A line reads back as the text before its NUL.
printf-text :
    (xs rest : List ℕ)
    → NoNul xs
    → until_nul (take (suc (length xs)) ((xs ++ (0 ∷ [])) ++ rest)) ≡ xs
unfolding until_nul
printf-text [] rest h = refl
printf-text (x ∷ xs) rest h = ground (arith, printf-text xs rest h.1)

-- What a call of `rp2040_log` makes of a text.
abbrev pub truncated : List ℕ → List ℕ
truncated text = take (log_buffer_char_limit - 1) text

-- The size stored for a text under a limit of `limit` characters.
abbrev size_under : ℕ → List ℕ → ℕ
size_under limit text = if ltb limit (length text + 1) then limit else length text + 1

abbrev pub stored_size : List ℕ → ℕ
stored_size text = size_under log_buffer_char_limit text

take_all {ℓ} : {A : Type ℓ} (n : ℕ) (xs : List A) → length xs ≤ n → take n xs ≡ xs
take_all zero [] h = refl
take_all zero (x ∷ xs) h = absurd (omega arith)
take_all (suc n) [] h = refl
take_all (suc n) (x ∷ xs) h = ap (λ ys. x ∷ ys) (take_all n xs (omega arith))

size_under-take :
    (k : ℕ) (text : List ℕ)
    → (take (size_under (suc k) text - 1) text ≡ take k text)
      × (size_under (suc k) text ≡ suc (length (take k text)))
size_under-take k text = elim (Bool-cases (ltb (suc k) (length text + 1))) [
  | inl long ↦
      rw long
        (ap (λ n. take n text) (omega arith), omega (arith, length-take k text, ltb→lt _ _ long))
  | inr short ↦ rw short (
    ap (λ n. take n text) (omega arith)
        ∙ take_all (length text) text (omega arith)
        ∙ sym (take_all k text (fits short)),
    omega (arith, ap length (take_all k text (fits short))),
  )
]
  where
    fits : ltb (suc k) (length text + 1) ≡ false → length text ≤ k
    fits short = ground arith

stored_text : (text : List ℕ) → take (stored_size text - 1) text ≡ truncated text
stored_text text = (size_under-take 127 text).0

pub stored_size_lem : (text : List ℕ) → stored_size text ≡ suc (length (truncated text))
stored_size_lem text = (size_under-take 127 text).1

printf-vsnprintf :
    (cells text : List ℕ)
    → NoNul text
    → printf_precision (stored_size text) (vsnprintf cells (stored_size text) text) ≡ truncated text
unfolding printf_precision vsnprintf
printf-vsnprintf cells text h =
    rw (stored_text text, stored_size_lem text) (printf-text _ _ (NoNul-take 127 text h))

-- The lines in the order of the array, as `printf` would write them.
pub printed_lines : List (List ℕ) → List ℕ → List (List ℕ)
printed_lines [] sizes = []
printed_lines (cells ∷ rows) [] = []
printed_lines (cells ∷ rows) (size ∷ sizes) = printf_precision size cells ∷ printed_lines rows sizes

pub printed_lines-set :
    (rows : List (List ℕ)) (sizes : List ℕ) (i : ℕ) (cells : List ℕ) (size : ℕ)
    → printed_lines (set rows i cells) (set sizes i size)
      ≡ set (printed_lines rows sizes) i (printf_precision size cells)
unfolding printed_lines
printed_lines-set [] sizes i cells size = refl
printed_lines-set (row ∷ rows) [] zero cells size = refl
printed_lines-set (row ∷ rows) [] (suc i) cells size = refl
printed_lines-set (row ∷ rows) (s ∷ sizes) zero cells size = refl
printed_lines-set (row ∷ rows) (s ∷ sizes) (suc i) cells size =
    ap (λ l. printf_precision s row ∷ l) (printed_lines-set rows sizes i cells size)

pub length-printed_lines :
    (rows : List (List ℕ)) (sizes : List ℕ)
    → length rows ≡ length sizes
    → length (printed_lines rows sizes) ≡ length rows
unfolding printed_lines
length-printed_lines [] sizes e = refl
length-printed_lines (row ∷ rows) [] e = omega arith
length-printed_lines (row ∷ rows) (s ∷ sizes) e =
    ap suc (length-printed_lines rows sizes (omega arith))

pub get_or-printed_lines :
    (rows : List (List ℕ)) (sizes : List ℕ) (i : ℕ)
    → length rows ≡ length sizes
    → i < length rows
    → get_or (printed_lines rows sizes) i []
      ≡ printf_precision (get_or sizes i 0) (get_or rows i [])
unfolding printed_lines
get_or-printed_lines [] sizes i e h = absurd (omega arith)
get_or-printed_lines (row ∷ rows) [] i e h = absurd (omega arith)
get_or-printed_lines (row ∷ rows) (s ∷ sizes) zero e h = refl
get_or-printed_lines (row ∷ rows) (s ∷ sizes) (suc i) e h =
    get_or-printed_lines rows sizes i (omega arith) (omega arith)

-- Each stored size is one more than the characters of its line, or the line is unused.
abbrev pub SizesFit : List (List ℕ) → List ℕ → Type 0
SizesFit [] sizes = Unit
SizesFit (line ∷ lines) [] = ⊥
SizesFit (line ∷ lines) (size ∷ sizes) = (length line ≡ size - 1) × SizesFit lines sizes

SizesFit-set :
    (lines : List (List ℕ)) (sizes : List ℕ) (i : ℕ) (line : List ℕ)
    → SizesFit lines sizes
    → SizesFit (set lines i line) (set sizes i (suc (length line)))
SizesFit-set [] sizes i line h = tt
SizesFit-set (l ∷ lines) [] i line h = absurd h
SizesFit-set (l ∷ lines) (s ∷ sizes) zero line h = (omega arith, h.1)
SizesFit-set (l ∷ lines) (s ∷ sizes) (suc i) line h = (h.0, SizesFit-set lines sizes i line h.1)

abbrev pub lines_of : CircularBufferLog → List (List ℕ)
lines_of b = printed_lines b.log_array b.log_array_line_size

-- The two indices are one from the start, and both arrays keep their length.
pub record IsValid (b : CircularBufferLog) : Type 0 where
  pub rows : length b.log_array ≡ log_buffer_line_count
  pub sizes : length b.log_array_line_size ≡ log_buffer_line_count
  pub head_in : b.head < log_buffer_line_count
  pub met : b.tail ≡ b.head
  pub fit : SizesFit (lines_of b) b.log_array_line_size

unused-fit :
    (n : ℕ) (cells : List ℕ)
    → SizesFit (printed_lines (replicate n cells) (replicate n 0)) (replicate n 0)
unfolding printed_lines printf_precision until_nul
unused-fit zero cells = tt
unused-fit (suc n) cells = (refl, unused-fit n cells)

pub boot-IsValid : IsValid (rp2040_log_init boot)
unfolding boot rp2040_log_init
boot-IsValid = record {
  rows = length-replicate log_buffer_line_count (replicate {A = ℕ} log_buffer_char_limit 0);
  sizes = length-replicate {A = ℕ} log_buffer_line_count 0;
  head_in = omega arith;
  met = refl;
  fit = unused-fit log_buffer_line_count _;
}

-- The array of lines after a call.
pub lines_of-rp2040_log :
    (text : List ℕ) (b : CircularBufferLog)
    → NoNul text
    → lines_of (rp2040_log text b) ≡ set (lines_of b) b.tail (truncated text)
unfolding rp2040_log
lines_of-rp2040_log text b h =
    printed_lines-set b.log_array b.log_array_line_size b.tail _ _
    ∙ ap (set (lines_of b) b.tail) (printf-vsnprintf _ text h)

-- A call keeps the invariant.
pub rp2040_log-IsValid :
    (text : List ℕ) (b : CircularBufferLog) → NoNul text → IsValid b → IsValid (rp2040_log text b)
unfolding rp2040_log
rp2040_log-IsValid text b h v = record {
  rows = length-set b.log_array b.tail _ ∙ v.rows;
  sizes = length-set b.log_array_line_size b.tail _ ∙ v.sizes;
  head_in = ground (arith, v.head_in);
  met = ground (arith, v.met);
  fit =
      rw (lines_of-rp2040_log text b h, stored_size_lem text)
        (SizesFit-set (lines_of b) b.log_array_line_size b.tail (truncated text) v.fit);
}

pub length-lines_of :
    (b : CircularBufferLog) → IsValid b → length (lines_of b) ≡ log_buffer_line_count
length-lines_of b v =
    length-printed_lines b.log_array b.log_array_line_size (v.rows ∙ sym v.sizes) ∙ v.rows
