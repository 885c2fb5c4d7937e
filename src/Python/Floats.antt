-- ===== src/Python/Floats.antt =====
-- Python's float, as a type with the operations that the code uses.
use wasteless.Common.{ℕ, ◌≡◌, Bool, true, false}
use wasteless.Common.Int.{ℤ, leb_ℤ, ltb_ℤ}

pub record Numbers (F : Type 0) : Type 0 where
  -- an int where a float is compared or computed with
  pub of_int : ℤ → F
  -- the literal m / 10 ^ k: `decimal 8 1` is 0.8
  pub decimal : ℕ → ℕ → F
  pub lt : F → F → Bool
  pub le : F → F → Bool
  pub add : F → F → F
  pub sub : F → F → F
  pub mul : F → F → F
  pub div : F → F → F
  pub absolute : F → F

-- Python compares ints exactly, also as floats of this size.
pub record ComparesInts {F : Type 0} (n : Numbers F) : Type 0 where
  pub le_int : (a b : ℤ) → n.le (n.of_int a) (n.of_int b) ≡ leb_ℤ a b
  pub lt_int : (a b : ℤ) → n.lt (n.of_int a) (n.of_int b) ≡ ltb_ℤ a b

-- The documented order of floats, of which none is NaN.
pub record IsOrdered {F : Type 0} (n : Numbers F) : Type 0 where
  pub le_refl : (a : F) → n.le a a ≡ true
  pub le_trans : (a b c : F) → n.le a b ≡ true → n.le b c ≡ true → n.le a c ≡ true
  pub lt_le : (a b : F) → n.lt a b ≡ true → n.le a b ≡ true
  pub not_lt_le : (a b : F) → n.lt a b ≡ false → n.le b a ≡ true
