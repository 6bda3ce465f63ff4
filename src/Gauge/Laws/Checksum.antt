-- ===== src/Gauge/Laws/Checksum.antt =====
-- src/bq27742_g1.c: the checksum of a data flash block and the transfers that carry it.
use smartphone_robot_firmwar.Base.{
  ℕ, zero, suc, ◌+◌, ◌%◌, ◌≤◌, ◌<◌, true, false, List, [], ◌∷◌, ◌++◌, length, ◌==◌, if◌then◌else◌,
  ◌≡◌, ◌≢◌, refl, ◌∙◌, ap, sym, arith, take, get_or, map, u8,
}
use smartphone_robot_firmwar.Board.Sdk.{Event, i2c0, Arg}
use smartphone_robot_firmwar.Board.{Hardware, World, ok, ◌>>=◌, logged, rp2040_log}
use smartphone_robot_firmwar.Board.Bus.{BusAcks, after, write_acked, read_acked}
use smartphone_robot_firmwar.Gauge.Transfer.{
  bq27742_g1_addr, bq27742_g1_write_byte, bq27742_g1_read_bytes,
}
use smartphone_robot_firmwar.Gauge.DataFlash.{
  df_block_len, sum_bytes, bq27742_g1_data_flash_checksum, select_block,
  bq27742_g1_read_data_flash_block, bq27742_g1_write_data_flash_block,
}

-- The sum of all bytes, without wrap-around.
abbrev pub total : List ℕ → ℕ
total [] = 0
total (b ∷ bs) = b + total bs

sum_bytes_lem : (sum : ℕ) (bs : List ℕ) → sum < 256 → sum_bytes sum bs ≡ (sum + total bs) % 256
unfolding sum_bytes
sum_bytes_lem sum [] h = omega arith
sum_bytes_lem sum (b ∷ bs) h = sum_bytes_lem (u8 (sum + b)) bs (omega arith) ∙ omega arith

-- A block with its checksum adds up to 255 in a byte, and the checksum is a byte.
pub checksum_total :
    (block_data : List ℕ)
    → ((total (take df_block_len block_data) + bq27742_g1_data_flash_checksum block_data) % 256
        ≡ 255)
      × (bq27742_g1_data_flash_checksum block_data < 256)
unfolding bq27742_g1_data_flash_checksum
checksum_total block_data =
    rw (sum_bytes_lem 0 (take df_block_len block_data) (omega arith)) (omega arith, omega arith)

total-++ : (xs ys : List ℕ) → total (xs ++ ys) ≡ total xs + total ys
total-++ [] ys = omega arith
total-++ (x ∷ xs) ys = rw (total-++ xs ys) (omega arith)

take-all : (n : ℕ) (xs : List ℕ) → length xs ≤ n → take n xs ≡ xs
take-all zero [] h = refl
take-all (suc n) [] h = refl
take-all zero (x ∷ xs) h = ground arith
take-all (suc n) (x ∷ xs) h = ap (λ l. x ∷ l) (take-all n xs (omega arith))

length-middle :
    (front back : List ℕ) (b b' : ℕ) → length (front ++ b ∷ back) ≡ length (front ++ b' ∷ back)
length-middle [] back b b' = refl
length-middle (x ∷ front) back b b' = ap suc (length-middle front back b b')

-- No damage to a single byte of a block goes unnoticed: where two blocks of at most 32 bytes differ in
-- exactly one of their bytes, their checksums differ.
pub checksum-detects :
    (front back : List ℕ) (b b' : ℕ)
    → b < 256
    → b' < 256
    → b ≢ b'
    → length (front ++ b ∷ back) ≤ df_block_len
    → bq27742_g1_data_flash_checksum (front ++ b ∷ back)
      ≢ bq27742_g1_data_flash_checksum (front ++ b' ∷ back)
checksum-detects front back b b' hb hb' ne fits same = ne (
    detect (total front) (total back) b b' (bq27742_g1_data_flash_checksum (front ++ b ∷ back)) hb
      hb' (sums b fits) (rw same (sums b' (rw (sym (length-middle front back b b')) fits))))
  where
    sums :
        (c : ℕ)
        → length (front ++ c ∷ back) ≤ df_block_len
        → ((total front + (c + total back)) + bq27742_g1_data_flash_checksum (front ++ c ∷ back))
            % 256
          ≡ 255
    sums c h =
        ap (λ n. (n + bq27742_g1_data_flash_checksum (front ++ c ∷ back)) % 256)
          (sym (ap total (take-all df_block_len _ h) ∙ total-++ front (c ∷ back)))
        ∙ (checksum_total (front ++ c ∷ back)).0

    detect :
        (x y c c' s : ℕ)
        → c < 256
        → c' < 256
        → ((x + (c + y)) + s) % 256 ≡ 255
        → ((x + (c' + y)) + s) % 256 ≡ 255
        → c ≡ c'
    detect x y c c' s hc hc' h h' = omega arith

-- The calls that select a block.
abbrev pub selecting : ℕ → ℕ → List Event → List Event
selecting subclass block t =
    Event.sleep_ms 1
    ∷ Event.i2c_write_timeout_us i2c0 bq27742_g1_addr (0x3f ∷ block ∷ []) false
    ∷ Event.i2c_write_timeout_us i2c0 bq27742_g1_addr (0x3e ∷ subclass ∷ []) false
    ∷ Event.i2c_write_timeout_us i2c0 bq27742_g1_addr (0x61 ∷ 0x00 ∷ []) false
    ∷ t

-- The calls that read `len` bytes from a register.
abbrev pub reading : ℕ → ℕ → List Event → List Event
reading command len t =
    Event.i2c_read_timeout_us i2c0 bq27742_g1_addr len false
    ∷ Event.i2c_write_timeout_us i2c0 bq27742_g1_addr (command ∷ []) true
    ∷ t

module _ (hw : Hardware) (acks : BusAcks hw) where
  -- On a bus that acknowledges, a block is read by selecting it, reading 32 bytes and the checksum
  -- register; the result is the bytes and whether that register holds their checksum, and a mismatch
  -- is logged.
  pub bq27742_g1_read_data_flash_block_lem :
      (subclass block : ℕ) (w : World)
      → bq27742_g1_read_data_flash_block hw subclass block w ≡ (
          let t1 = reading 0x40 df_block_len (selecting subclass block w.trace) in
          let block_data = map (λ b. u8 b) (hw.read_bytes t1) in
          let t2 = reading 0x60 1 t1 in
          let checksum = get_or (map (λ b. u8 b) (hw.read_bytes t2)) 0 0 in
          let calculated = bq27742_g1_data_flash_checksum block_data in
          let w2 = record w { trace = t2 } in
          if checksum == calculated
          then ok (true, block_data) w2
          else ok
              (false, block_data)
              (after
                (logged hw
                  "ERROR: BQ27742-G1 data flash checksum mismatch read=0x%02x calculated=0x%02x\n"
                  (Arg.num checksum ∷ Arg.num calculated ∷ [])
                  (after w2 Event.mutex_enter_blocking))
                Event.mutex_exit))
  unfolding bq27742_g1_read_data_flash_block select_block bq27742_g1_write_byte
      bq27742_g1_read_bytes rp2040_log
  bq27742_g1_read_data_flash_block_lem subclass block w =
      simp (bq27742_g1_read_data_flash_block, ◌>>=◌, write_acked hw acks, read_acked hw acks)
        (ground arith)

  -- On a bus that acknowledges, a block is written by selecting it, sending its first 32 bytes to the data
  -- register and then their checksum to the checksum register.
  pub bq27742_g1_write_data_flash_block_lem :
      (subclass block : ℕ) (block_data : List ℕ) (w : World)
      → bq27742_g1_write_data_flash_block hw subclass block block_data w
        ≡ ok tt (record w {
          trace =
              Event.i2c_write_timeout_us i2c0 bq27742_g1_addr
                (0x60 ∷ bq27742_g1_data_flash_checksum block_data ∷ [])
                false
              ∷ Event.i2c_write_timeout_us i2c0 bq27742_g1_addr
                  (0x40 ∷ take df_block_len block_data)
                  false
              ∷ selecting subclass block w.trace;
        })
  unfolding bq27742_g1_write_data_flash_block select_block bq27742_g1_write_byte
  bq27742_g1_write_data_flash_block_lem subclass block block_data w =
      simp (bq27742_g1_write_data_flash_block, ◌>>=◌, write_acked hw acks)
