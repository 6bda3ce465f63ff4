-- ===== src/Log.antt =====
-- src/rp2040_log.c and include/rp2040_log.h: the circular buffer of log lines, in the build without
-- LOGGER_UART. A function that updates the static `log_buffer` takes it and returns the new one.
-- The mutex around it is the board's; `text` is what `format` and its arguments expand to.
pub mod Lines
pub mod Order
pub mod Count
pub mod Sequence
use smartphone_robot_firmwar.Base.{
  ℕ, zero, suc, ◌+◌, ◌-◌, ◌%◌, List, [], ◌∷◌, ◌++◌, ◌==◌, ltb, if◌then◌else◌, length, get_or, set,
  take, drop, replicate, u16,
}

abbrev pub log_buffer_line_count : ℕ
log_buffer_line_count = 1028

abbrev pub log_buffer_char_limit : ℕ
log_buffer_char_limit = 128

-- `lock` is never used.
pub record CircularBufferLog : Type 0 where
  pub log_array : List (List ℕ)
  pub log_array_line_size : List ℕ
  pub head : ℕ
  pub tail : ℕ

-- The static memory before any code has run.
pub boot : CircularBufferLog
boot = record {
  log_array = replicate log_buffer_line_count (replicate log_buffer_char_limit 0);
  log_array_line_size = replicate log_buffer_line_count 0;
  head = 0;
  tail = 0;
}

pub rp2040_log_init : CircularBufferLog → CircularBufferLog
rp2040_log_init b = record b { head = 0; tail = 0 }

-- `vsnprintf(cells, len, ...)` with `0 < len`: at most `len - 1` characters and a NUL.
pub vsnprintf : List ℕ → ℕ → List ℕ → List ℕ
vsnprintf cells len text = (take (len - 1) text ++ (0 ∷ [])) ++ drop len cells

until_nul : List ℕ → List ℕ
until_nul [] = []
until_nul (c ∷ cs) = if c == 0 then [] else c ∷ until_nul cs

-- What `printf("%.*s", size, cells)` writes.
pub printf_precision : ℕ → List ℕ → List ℕ
printf_precision size cells = until_nul (take size cells)

pub rp2040_log : List ℕ → CircularBufferLog → CircularBufferLog
rp2040_log text b =
    let needed = length text + 1 in
    let len = if ltb log_buffer_char_limit needed then log_buffer_char_limit else needed in
    record b {
      log_array = set b.log_array b.tail (vsnprintf (get_or b.log_array b.tail []) len text);
      log_array_line_size = set b.log_array_line_size b.tail len;
      head = if b.tail == b.head then (b.head + 1) % log_buffer_line_count else b.head;
      tail = (b.tail + 1) % log_buffer_line_count;
    }

-- `byte_count += size - 1` in a `uint16_t`; an unused line has size 0, so its -1 wraps.
sum_sizes : ℕ → List ℕ → ℕ
sum_sizes byte_count [] = byte_count
sum_sizes byte_count (size ∷ sizes) = sum_sizes (u16 (byte_count + size + 0xffff)) sizes

pub rp2040_get_byte_count : CircularBufferLog → ℕ
unfolding sum_sizes
rp2040_get_byte_count b = sum_sizes 0 b.log_array_line_size

-- What the loop writes in `rounds` rounds, and the buffer that it leaves.
flush_loop : ℕ → CircularBufferLog → List ℕ × CircularBufferLog
flush_loop zero b = ([], b)
flush_loop (suc rounds) b =
    let line =
      printf_precision (get_or b.log_array_line_size b.head 0) (get_or b.log_array b.head []) in
    let rest = flush_loop rounds (record b { head = (b.head + 1) % log_buffer_line_count }) in
    (line ++ rest.0, rest.1)

pub rp2040_log_flush : CircularBufferLog → List ℕ × CircularBufferLog
rp2040_log_flush b = flush_loop log_buffer_line_count b
