-- ===== src/Tests/Voltage.antt =====
-- The direction bits at a concrete arithmetic, with thousandths of a volt for C's floating-point numbers.
use smartphone_robot_firmwar.Base.{
  ℕ, suc, ◌-◌, ◌*◌, ◌/◌, ◌^◌, ltb, ℤ, pos, negsuc, Bool, true, false, if◌then◌else◌,
}
use smartphone_robot_firmwar.Motor.Voltage.{Floats}

abbrev thousandths : ℤ → ℕ → ℤ
thousandths (pos n) k = pos (n * 10 ^ (3 - k))
thousandths (negsuc n) k = negsuc (suc n * 10 ^ (3 - k) - 1)

abbrev less : ℤ → ℤ → Bool
less (pos a) (pos b) = ltb a b
less (pos a) (negsuc b) = false
less (negsuc a) (pos b) = true
less (negsuc a) (negsuc b) = ltb b a

abbrev magnitude : ℤ → ℕ
magnitude (pos n) = n
magnitude (negsuc n) = suc n

abbrev pub fixed_point : Floats
fixed_point = record {
  Number = ℤ;
  decimal = thousandths;
  as_float = λ a. a;
  less = less;
  less_eq = λ a b. if less b a then false else true;
  fabs = λ a. pos (magnitude a);
  times = λ a b. pos (magnitude a * magnitude b / 1000);
  divided = λ a b. pos (magnitude a * 1000 / magnitude b);
  minus = λ a b. pos (magnitude a - magnitude b);
  as_int16 = λ a. magnitude a / 1000;
}
