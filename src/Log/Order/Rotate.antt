-- ===== src/Log/Order/Rotate.antt =====
-- Lists read from an index round to it again.
use smartphone_robot_firmwar.Base.{
  ℕ, zero, suc, ◌+◌, ◌%◌, ◌≤◌, ◌<◌, List, [], ◌∷◌, ◌++◌, ◌≡◌, refl, ap, ◌∙◌, sym, length, get_or,
  set, take, drop, arith, append-nil, append_assoc, length-set,
}
use mathlib.Core.List.{flatten}
use native.Mathlib.Decide.{dec_lt}
use native.Mathlib.Nat.{mod-eq_of_lt}

stays : (i n : ℕ) → i + 1 < n → (i + 1) % n ≡ suc i
stays i n h = mod-eq_of_lt h ∙ omega arith

wraps : (i n : ℕ) → i < n → ¬ (i + 1 < n) → (i + 1) % n ≡ 0
wraps i n h p = grind arith

module _ {ℓ} {A : Type ℓ} where
  pub drop-suc-set : (xs : List A) (i : ℕ) (v : A) → drop (suc i) (set xs i v) ≡ drop (suc i) xs
  drop-suc-set [] i v = refl
  drop-suc-set (x ∷ xs) zero v = refl
  drop-suc-set (x ∷ xs) (suc i) v = drop-suc-set xs i v

  pub take-suc-set :
      (xs : List A) (i : ℕ) (v : A)
      → i < length xs
      → take (suc i) (set xs i v) ≡ take i xs ++ (v ∷ [])
  take-suc-set [] i v h = absurd (omega arith)
  take-suc-set (x ∷ xs) zero v h = refl
  take-suc-set (x ∷ xs) (suc i) v h = ap (λ ys. x ∷ ys) (take-suc-set xs i v (omega arith))

  pub drop_cons :
      (xs : List A) (i : ℕ) (d : A) → i < length xs → drop i xs ≡ get_or xs i d ∷ drop (suc i) xs
  drop_cons [] i d h = absurd (omega arith)
  drop_cons (x ∷ xs) zero d h = refl
  drop_cons (x ∷ xs) (suc i) d h = drop_cons xs i d (omega arith)

  pub take_all : (n : ℕ) (xs : List A) → length xs ≤ n → take n xs ≡ xs
  take_all zero [] h = refl
  take_all zero (x ∷ xs) h = absurd (omega arith)
  take_all (suc n) [] h = refl
  take_all (suc n) (x ∷ xs) h = ap (λ ys. x ∷ ys) (take_all n xs (omega arith))

  pub drop_all : (n : ℕ) (xs : List A) → length xs ≤ n → drop n xs ≡ []
  drop_all zero [] h = refl
  drop_all zero (x ∷ xs) h = absurd (omega arith)
  drop_all (suc n) [] h = refl
  drop_all (suc n) (x ∷ xs) h = drop_all n xs (omega arith)

  drop_one-append :
      (xs : List A) (i : ℕ) (ys : List A)
      → i < length xs
      → drop 1 (drop i xs ++ ys) ≡ drop (suc i) xs ++ ys
  drop_one-append [] i ys h = absurd (omega arith)
  drop_one-append (x ∷ xs) zero ys h = refl
  drop_one-append (x ∷ xs) (suc i) ys h = drop_one-append xs i ys (omega arith)

  rotate-set_inside :
      (xs : List A) (i : ℕ) (v : A)
      → i < length xs
      → drop (suc i) (set xs i v) ++ take (suc i) (set xs i v)
        ≡ drop 1 (drop i xs ++ take i xs) ++ (v ∷ [])
  rotate-set_inside xs i v h =
      rw (drop-suc-set xs i v, take-suc-set xs i v h, drop_one-append xs i (take i xs) h)
        (sym (append_assoc (drop (suc i) xs) (take i xs) (v ∷ [])))

  -- Writing at the index and moving past it drops the first element and appends the new one.
  pub rotate-set :
      (xs : List A) (n i : ℕ) (v : A)
      → length xs ≡ n
      → i < n
      → (let j = (i + 1) % n in drop j (set xs i v) ++ take j (set xs i v))
        ≡ drop 1 (drop i xs ++ take i xs) ++ (v ∷ [])
  rotate-set xs n i v e h = elim (dec_lt (i + 1) n) [
    | yes p ↦ rw (stays i n p) (rotate-set_inside xs i v (omega arith))
    | no p ↦ rw (wraps i n h p) (
        append-nil (set xs i v)
        ∙ sym (take_all (suc i) (set xs i v) (omega (arith, length-set xs i v)))
        ∙ sym (
            ap (λ ys. ys ++ take (suc i) (set xs i v))
              (drop_all (suc i) (set xs i v) (omega (arith, length-set xs i v))))
        ∙ rotate-set_inside xs i v (omega arith))
  ]

pub flatten-append {ℓ} :
    {A : Type ℓ} (xss yss : List (List A)) → flatten (xss ++ yss) ≡ flatten xss ++ flatten yss
unfolding flatten
flatten-append [] yss = refl
flatten-append (xs ∷ xss) yss =
    ap (λ ys. xs ++ ys) (flatten-append xss yss) ∙ sym (append_assoc xs (flatten xss) (flatten yss))
