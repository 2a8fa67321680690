-- ===== src/UaGate/Scan.antt =====
-- services/ua_gate.py: the scan for products does not depend on its fuel.
use request_o_matic.Base.{
  ℕ, zero, suc, ◌≤◌, ◌≡◌, refl, Bool, true, false, [], ◌∷◌, arith, length, ap, ◌&&◌, ◌==◌,
  if◌then◌else◌,
}
use request_o_matic.Text.{Text, span}
use request_o_matic.UaGate.{
  is_product_char, is_digit, version_run, close_product, next_product, find_products, found,
}

length-version_run : (s : Text) → length (version_run s).1 ≤ length s
unfolding version_run
length-version_run [] = omega arith
length-version_run (c ∷ []) = ground arith
length-version_run (c ∷ d ∷ s) = ground (arith, length-version_run (d ∷ s))

bound_if :
    {A : Type 0} (b : Bool) (p q : A × Text) (n : ℕ)
    → length p.1 ≤ n
    → length q.1 ≤ n
    → length (if b then p else q).1 ≤ n
bound_if true p q n h k = h
bound_if false p q n h k = k

length-close_product : (product s : Text) → length (close_product product s).1 ≤ length s
unfolding close_product
length-close_product product [] = omega arith
length-close_product product (c ∷ []) = omega arith
length-close_product product (c ∷ d ∷ s) =
    let run = length-version_run (d ∷ s) in
    bound_if (c == b'/' && is_digit d) _ _ (length (c ∷ d ∷ s)) (omega (arith, run)) (omega arith)

length-span : (p : ℕ → Bool) (s : Text) → length (span p s).1 ≤ length s
unfolding span
length-span p [] = omega arith
length-span p (c ∷ s) = ground (arith, length-span p s)

length-next_product : (c : ℕ) (s : Text) → length (next_product c s).1 ≤ length s
unfolding next_product
length-next_product c s =
    let run = length-span is_product_char s in
    let closed = length-close_product (c ∷ (span is_product_char s).0) (span is_product_char s).1 in
    bound_if (is_product_char c) _ _ (length s) (omega (arith, run, closed)) (omega arith)

-- Any two amounts of fuel that reach the length of the text find the same products: the length, which
-- the gate gives, is enough.
pub find_products_enough :
    (n m : ℕ) (s : Text) → length s ≤ n → length s ≤ m → find_products n s ≡ find_products m s
unfolding find_products
find_products_enough zero zero [] h k = refl
find_products_enough zero (suc m) [] h k = refl
find_products_enough (suc n) zero [] h k = refl
find_products_enough (suc n) (suc m) [] h k = refl
find_products_enough zero m (c ∷ s) h k = absurd (omega (arith, h))
find_products_enough (suc n) zero (c ∷ s) h k = absurd (omega (arith, k))
find_products_enough (suc n) (suc m) (c ∷ s) h k = ap (found (next_product c s).0) (
    find_products_enough n m (next_product c s).1 (omega (arith, h, length-next_product c s))
      (omega (arith, k, length-next_product c s)))
