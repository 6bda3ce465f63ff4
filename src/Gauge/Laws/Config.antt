-- ===== src/Gauge/Laws/Config.antt =====
-- The configuration that `bq27742_g1_configure_host_interrupts` writes.
use smartphone_robot_firmwar.Base.{
  ℕ, zero, suc, ◌*◌, ◌/◌, ◌%◌, ◌^◌, ◌≤◌, ◌<◌, true, false, ◌&&◌, ◌||◌, List, [], ◌∷◌, bit_and,
  bit_or, ◌==◌, not, get_or, length, if◌then◌else◌, u8, u16, ◌≡◌, ◌⊎◌, inl, inr, refl, ap, ◌∙◌, sym,
  ltb, arith,
}
use smartphone_robot_firmwar.Bits.{
  testbit, testbit-bit_or, testbit-bit_and, testbit-mod, testbit-ext, bit_or-high_low, bit_and-ones,
}
use smartphone_robot_firmwar.BitOps.{bit_not}
use smartphone_robot_firmwar.BitOps.Laws.{testbit-single, testbit-bit_not}
use smartphone_robot_firmwar.Board.{Hardware, World, rp2040_log}
use native.Mathlib.Nat.{one-mul}
use smartphone_robot_firmwar.Gauge.HostConfig.{
  ByteOrder, big, little, word_at, byte_order, new_pack_config, new_pack_config_c, configured,
  configure_block, hostie_mask, hostipu_mask, pack_config_c_offset,
}

testbit-u16 : (a i : ℕ) → testbit (u16 a) i ≡ (ltb i 16 && testbit a i)
testbit-u16 a i = testbit-mod 16 a i

testbit-power : (k i : ℕ) → testbit (2 ^ k) i ≡ (i == k)
testbit-power k i = ap (λ n. testbit n i) (sym (one-mul (2 ^ k))) ∙ testbit-single k i

-- `a &= ~(1 << k)` in `width` bits.
testbit-cleared :
    (width a k i : ℕ)
    → width ≤ 32
    → 2 ^ k < 2 ^ 32
    → testbit (bit_and a (bit_not (2 ^ k)) % 2 ^ width) i
      ≡ (ltb i width && (if i == k then false else testbit a i))
testbit-cleared width a k i hw hk = ground (
  arith,
  testbit-mod width (bit_and a (bit_not (2 ^ k))) i,
  testbit-bit_and a (bit_not (2 ^ k)) i,
  testbit-bit_not (2 ^ k) i,
  testbit-power k i,
)

-- The new PackConfiguration has HOSTIE set and HOSTIPU and HOSTIPOL clear, and every other of its 16
-- bits as before; the new PackConfigurationC has BTP_EN clear and its other 7 bits as before.
pub new_pack_config_bits :
    (old old_c i : ℕ)
    → (testbit (new_pack_config old) i ≡ (
        ltb i 16
        && (if i == 12 then true else if i == 13 || i == 14 then false else testbit old i)))
      × (testbit (new_pack_config_c old_c) i
          ≡ (ltb i 8 && (if i == 0 then false else testbit old_c i)))
unfolding new_pack_config new_pack_config_c
new_pack_config_bits old old_c i = (
  ground (
    arith,
    testbit-cleared 16 (u16 (bit_and (u16 (bit_or old hostie_mask)) (bit_not hostipu_mask))) 13 i,
    testbit-cleared 16 (u16 (bit_or old hostie_mask)) 14 i,
    testbit-u16 (bit_or old hostie_mask) i,
    testbit-bit_or old hostie_mask i,
    testbit-power 12 i,
  ),
  testbit-cleared 8 old_c 0 i (omega arith) (omega arith),
)

new_pack_config-lt : (old : ℕ) → new_pack_config old < 2 ^ 16
unfolding new_pack_config
new_pack_config-lt old = omega arith

new_pack_config_c-lt : (old : ℕ) → new_pack_config_c old < 2 ^ 8
unfolding new_pack_config_c
new_pack_config_c-lt old = omega arith

new_pack_config_idem : (old : ℕ) → new_pack_config (new_pack_config old) ≡ new_pack_config old
new_pack_config_idem old =
    testbit-ext 16 (new_pack_config (new_pack_config old)) (new_pack_config old)
      (new_pack_config-lt (new_pack_config old)) (new_pack_config-lt old)
      (λ i hi. ground (
        arith,
        (new_pack_config_bits (new_pack_config old) 0 i).0,
        (new_pack_config_bits old 0 i).0,
      ))

new_pack_config_c_idem :
    (old : ℕ) → new_pack_config_c (new_pack_config_c old) ≡ new_pack_config_c old
new_pack_config_c_idem old =
    testbit-ext 8 (new_pack_config_c (new_pack_config_c old)) (new_pack_config_c old)
      (new_pack_config_c-lt (new_pack_config_c old)) (new_pack_config_c-lt old)
      (λ i hi. ground (
        arith,
        (new_pack_config_bits 0 (new_pack_config_c old) i).1,
        (new_pack_config_bits 0 old i).1,
      ))

byte_order_cases :
    (pack_config : ℕ) (block : List ℕ)
    → (byte_order pack_config block ≡ big) ⊎ (byte_order pack_config block ≡ little)
unfolding byte_order
byte_order_cases pack_config block = ground arith

-- Where either order of the two bytes gives the value read by command, so does the chosen order.
pub byte_order_agrees :
    (pack_config : ℕ) (block : List ℕ)
    → (word_at block big ≡ pack_config) ⊎ (word_at block little ≡ pack_config)
    → word_at block (byte_order pack_config block) ≡ pack_config
unfolding byte_order
byte_order_agrees pack_config block h = ground arith

-- A word taken apart and put together again.
join_bytes :
    (n : ℕ)
    → n < 2 ^ 16
    → u16 (bit_or (u8 (bit_and (n / 2 ^ 8) 0xff) * 2 ^ 8) (u8 (bit_and n 0xff))) ≡ n
join_bytes n h = omega (
  arith,
  bit_and-ones (n / 2 ^ 8) 8,
  bit_and-ones n 8,
  bit_or-high_low 8 (u8 (bit_and (n / 2 ^ 8) 0xff)) (u8 (bit_and n 0xff)) (omega arith),
)

-- What `configured` does in a byte order `o`.
abbrev Configures : ByteOrder → List ℕ → ℕ → Type 0
Configures o block j =
    (word_at (configured o block) o ≡ new_pack_config (word_at block o))
    × (get_or (configured o block) pack_config_c_offset 0
        ≡ new_pack_config_c (get_or block pack_config_c_offset 0))
    × (length (configured o block) ≡ length block)
    × ((get_or (configured o block) j 0 ≡ get_or block j 0) ⊎ (j ≡ 0) ⊎ (j ≡ 1) ⊎ (j ≡ 3))

outside :
    (a b a' b' c d d' : ℕ) (rest : List ℕ) (j : ℕ)
    → (get_or (a' ∷ b' ∷ c ∷ d' ∷ rest) j 0 ≡ get_or (a ∷ b ∷ c ∷ d ∷ rest) j 0)
      ⊎ (j ≡ 0)
      ⊎ (j ≡ 1)
      ⊎ (j ≡ 3)
outside a b a' b' c d d' rest zero = inr (inl refl)
outside a b a' b' c d d' rest (suc zero) = inr (inr (inl refl))
outside a b a' b' c d d' rest (suc (suc zero)) = inl refl
outside a b a' b' c d d' rest (suc (suc (suc zero))) = inr (inr (inr refl))
outside a b a' b' c d d' rest (suc (suc (suc (suc j)))) = inl refl

configured_head :
    (a b c d : ℕ) (rest : List ℕ) (o : ByteOrder) (j : ℕ)
    → (o ≡ big) ⊎ (o ≡ little)
    → Configures o (a ∷ b ∷ c ∷ d ∷ rest) j
unfolding configured
configured_head a b c d rest o j (inl e) = rw e (
  join_bytes (new_pack_config (word_at (a ∷ b ∷ []) big)) (new_pack_config-lt _),
  refl,
  refl,
  outside a b _ _ c d _ rest j,
)
configured_head a b c d rest o j (inr e) = rw e (
  join_bytes (new_pack_config (word_at (a ∷ b ∷ []) little)) (new_pack_config-lt _),
  refl,
  refl,
  outside a b _ _ c d _ rest j,
)

configured_either :
    (block : List ℕ) (o : ByteOrder) (j : ℕ)
    → 4 ≤ length block
    → (o ≡ big) ⊎ (o ≡ little)
    → Configures o block j
configured_either [] o j h e = absurd (omega arith)
configured_either (a ∷ []) o j h e = absurd (omega arith)
configured_either (a ∷ b ∷ []) o j h e = absurd (omega arith)
configured_either (a ∷ b ∷ c ∷ []) o j h e = absurd (omega arith)
configured_either (a ∷ b ∷ c ∷ d ∷ rest) o j h e = configured_head a b c d rest o j e

-- The block to be written reads, in the chosen byte order, as the new configuration, and differs from
-- the block that was read at most at the offsets 0, 1 and 3.
pub configured_lem :
    (pack_config : ℕ) (block : List ℕ) (j : ℕ)
    → 4 ≤ length block
    → (let o = byte_order pack_config block in
        (word_at (configured o block) o ≡ new_pack_config (word_at block o))
        × (get_or (configured o block) pack_config_c_offset 0
            ≡ new_pack_config_c (get_or block pack_config_c_offset 0))
        × (length (configured o block) ≡ length block)
        × ((get_or (configured o block) j 0 ≡ get_or block j 0) ⊎ (j ≡ 0) ⊎ (j ≡ 1) ⊎ (j ≡ 3)))
configured_lem pack_config block j h =
    configured_either block (byte_order pack_config block) j h (byte_order_cases pack_config block)

already_configured :
    (hw : Hardware) (pack_config : ℕ) (block : List ℕ) (w : World)
    → (word_at block big ≡ pack_config) ⊎ (word_at block little ≡ pack_config)
    → new_pack_config pack_config ≡ pack_config
    → new_pack_config_c (get_or block pack_config_c_offset 0) ≡ get_or block pack_config_c_offset 0
    → configure_block hw pack_config block w
      ≡ rp2040_log hw "BQ27742-G1 RC2 host interrupts already configured\n" [] w
unfolding configure_block
already_configured hw pack_config block w h same same_c =
    rw (byte_order_agrees pack_config block h, same, same_c)
      (rw (verified, self pack_config, self (get_or block pack_config_c_offset 0)))
  where
    verified :
        (not (word_at block little == pack_config) && not (word_at block big == pack_config))
        ≡ false
    verified = ground arith

    self : (n : ℕ) → (n == n) ≡ true
    self n = ground arith

-- A block that was configured is recognised: once the gauge reports the configuration by command, in
-- the byte order that was chosen before, a second run only logs and writes nothing.
pub configure_block-configured :
    (hw : Hardware) (pack_config : ℕ) (block : List ℕ) (w : World)
    → 4 ≤ length block
    → (let o = byte_order pack_config block in
        configure_block hw (word_at (configured o block) o) (configured o block) w
        ≡ rp2040_log hw "BQ27742-G1 RC2 host interrupts already configured\n" [] w)
configure_block-configured hw pack_config block w h =
    already_configured hw (word_at block' o) block' w
      (ground (arith, byte_order_cases pack_config block))
      (rw c.0 (new_pack_config_idem (word_at block o)))
      (rw c.1 (new_pack_config_c_idem (get_or block pack_config_c_offset 0)))
  where
    o : ByteOrder
    o = byte_order pack_config block

    block' : List ℕ
    block' = configured o block

    c : Configures o block 0
    c = configured_lem pack_config block 0 h
