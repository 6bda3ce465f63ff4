-- ===== src/Usb/Laws/Config.antt =====
-- src/max77958.c and include/max77958.h: the configuration byte gives back the configuration.
use smartphone_robot_firmwar.Base.{
  ℕ, ◌^◌, Bool, true, false, ◌&&◌, not, ◌==◌, bit_and, if◌then◌else◌, ◌≡◌, refl, arith,
}
use smartphone_robot_firmwar.Usb.Config.{
  TypecMode, typec_mode_src, typec_mode_snk, typec_mode_drp, CustomerConfig,
  max77958_build_customer_config_value, typec_bits,
}

-- The fields of the byte, as max77958.h places them: bits 4 and 5 are the mode.
abbrev is_on : ℕ → ℕ → Bool
is_on value bit = not (bit_and value (2 ^ bit) == 0)

unfoldable pub config_from : ℕ → CustomerConfig
config_from value = record {
  dbg_src_enable = is_on value 0;
  dbg_snk_enable = is_on value 1;
  audio_acc_enable = is_on value 2;
  trysnk_enable = is_on value 3;
  typec_mode =
      if is_on value 5
      then typec_mode_drp
      else if is_on value 4
      then typec_mode_snk
      else typec_mode_src;
  mem_update_customer = is_on value 6;
  moisture_enable = is_on value 7;
}

-- A test of every Boolean and of every mode.
abbrev both : (Bool → Bool) → Bool
both f = f true && f false

abbrev all_modes : (TypecMode → Bool) → Bool
all_modes f = f typec_mode_src && (f typec_mode_snk && f typec_mode_drp)

and-left : (a b : Bool) → (a && b) ≡ true → a ≡ true
and-left true b h = refl
and-left false b h = h

and-right : (a b : Bool) → (a && b) ≡ true → b ≡ true
and-right true b h = h
and-right false b h = ground arith

both-at : (f : Bool → Bool) → both f ≡ true → (b : Bool) → f b ≡ true
both-at f h true = and-left (f true) (f false) h
both-at f h false = and-right (f true) (f false) h

all_modes-at : (f : TypecMode → Bool) → all_modes f ≡ true → (m : TypecMode) → f m ≡ true
all_modes-at f h typec_mode_src = and-left (f typec_mode_src) _ h
all_modes-at f h typec_mode_snk = and-left (f typec_mode_snk) _ (and-right (f typec_mode_src) _ h)
all_modes-at f h typec_mode_drp = and-right (f typec_mode_snk) _ (and-right (f typec_mode_src) _ h)

-- Equality as a test.
abbrev same_bool : Bool → Bool → Bool
same_bool a b = if a then b else not b

same_mode : TypecMode → TypecMode → Bool
same_mode typec_mode_src typec_mode_src = true
same_mode typec_mode_snk typec_mode_snk = true
same_mode typec_mode_drp typec_mode_drp = true
same_mode _ _ = false

same_bool-eq : (a b : Bool) → same_bool a b ≡ true → a ≡ b
same_bool-eq true true h = refl
same_bool-eq true false h = ground arith
same_bool-eq false true h = ground arith
same_bool-eq false false h = refl

same_mode-eq : (a b : TypecMode) → same_mode a b ≡ true → a ≡ b
unfolding same_mode
same_mode-eq typec_mode_src typec_mode_src h = refl
same_mode-eq typec_mode_snk typec_mode_snk h = refl
same_mode-eq typec_mode_drp typec_mode_drp h = refl
same_mode-eq _ _ h = ground arith

abbrev config : TypecMode → Bool → Bool → Bool → Bool → Bool → Bool → CustomerConfig
config mode src snk audio try mem moisture = record {
  dbg_src_enable = src;
  dbg_snk_enable = snk;
  audio_acc_enable = audio;
  trysnk_enable = try;
  typec_mode = mode;
  mem_update_customer = mem;
  moisture_enable = moisture;
}

abbrev given_back : CustomerConfig → CustomerConfig
given_back c = config_from (max77958_build_customer_config_value c)

-- A test of every configuration, a field at a time.
module _ (f : CustomerConfig → Bool) where
  abbrev every_moisture : TypecMode → Bool → Bool → Bool → Bool → Bool → Bool
  every_moisture mode src snk audio try mem = both (λ b. f (config mode src snk audio try mem b))

  abbrev every_mem : TypecMode → Bool → Bool → Bool → Bool → Bool
  every_mem mode src snk audio try = both (λ b. every_moisture mode src snk audio try b)

  abbrev every_try : TypecMode → Bool → Bool → Bool → Bool
  every_try mode src snk audio = both (λ b. every_mem mode src snk audio b)

  abbrev every_audio : TypecMode → Bool → Bool → Bool
  every_audio mode src snk = both (λ b. every_try mode src snk b)

  abbrev every_snk : TypecMode → Bool → Bool
  every_snk mode src = both (λ b. every_audio mode src b)

  abbrev every : Bool
  every = all_modes (λ mode. both (λ b. every_snk mode b))

  every-at : every ≡ true → (c : CustomerConfig) → f c ≡ true
  every-at h c =
      let m = c.typec_mode in
      let s = c.dbg_src_enable in
      let k = c.dbg_snk_enable in
      let a = c.audio_acc_enable in
      let t = c.trysnk_enable in
      let e = c.mem_update_customer in
      both-at (λ b. f (config m s k a t e b))
        (both-at (λ b. every_moisture m s k a t b)
          (both-at (λ b. every_mem m s k a b)
            (both-at (λ b. every_try m s k b)
              (both-at (λ b. every_audio m s b)
                (both-at (λ b. every_snk m b)
                  (all_modes-at (λ mode. both (λ b. every_snk mode b)) h m) s)
                k)
              a)
            t)
          e)
        c.moisture_enable

-- A Boolean field that is given back by every configuration.
given_back-field :
    (field : CustomerConfig → Bool)
    → every (λ c. same_bool (field (given_back c)) (field c)) ≡ true
    → (c : CustomerConfig) → field (given_back c) ≡ field c
given_back-field field h c =
    same_bool-eq (field (given_back c)) (field c)
      (every-at (λ c. same_bool (field (given_back c)) (field c)) h c)

given_back-mode : (c : CustomerConfig) → (given_back c).typec_mode ≡ c.typec_mode
unfolding config_from max77958_build_customer_config_value typec_bits same_mode
given_back-mode c =
    same_mode-eq (given_back c).typec_mode c.typec_mode
      (every-at (λ c. same_mode (given_back c).typec_mode c.typec_mode) refl c)

-- Every customer configuration can be read back, all seven fields, from the byte that
-- max77958_build_customer_config_value makes of it.
pub config_from-max77958_build_customer_config_value :
    (c : CustomerConfig) → config_from (max77958_build_customer_config_value c) ≡ c
unfolding config_from max77958_build_customer_config_value typec_bits same_mode
config_from-max77958_build_customer_config_value c = λ i. record {
  dbg_src_enable = given_back-field (λ d. d.dbg_src_enable) refl c i;
  dbg_snk_enable = given_back-field (λ d. d.dbg_snk_enable) refl c i;
  audio_acc_enable = given_back-field (λ d. d.audio_acc_enable) refl c i;
  trysnk_enable = given_back-field (λ d. d.trysnk_enable) refl c i;
  typec_mode = given_back-mode c i;
  mem_update_customer = given_back-field (λ d. d.mem_update_customer) refl c i;
  moisture_enable = given_back-field (λ d. d.moisture_enable) refl c i;
}
