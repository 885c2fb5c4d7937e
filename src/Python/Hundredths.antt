-- ===== src/Python/Hundredths.antt =====
-- Floats with two decimals as whole numbers of hundredths: an instance for tests and examples.
use Prim.Native.Nat.{◌/◌, ◌^◌}
use wasteless.Common.{ℕ, suc, ◌+◌, ◌-◌, ◌*◌, ◌≡◌, true, false, arith, if◌then◌else◌}
use wasteless.Common.Int.{ℤ, pos, negsuc, pos_part, neg_part, leb_ℤ, ltb_ℤ}
use wasteless.Python.Floats.{Numbers, ComparesInts, IsOrdered}
use wasteless.Common.{leb}

abbrev sub_ℕ : ℕ → ℕ → ℤ
sub_ℕ a b = if leb b a then pos (a - b) else negsuc (b - a - 1)

abbrev plus : ℤ → ℤ → ℤ
plus a b = sub_ℕ (pos_part a + pos_part b) (neg_part a + neg_part b)

abbrev minus : ℤ → ℤ → ℤ
minus a b = sub_ℕ (pos_part a + neg_part b) (neg_part a + pos_part b)

abbrev scaled : ℕ → ℤ → ℤ
scaled k a = sub_ℕ (pos_part a * k) (neg_part a * k)

-- towards zero, on magnitudes
abbrev quotient : ℤ → ℕ → ℤ
quotient a k = sub_ℕ (pos_part a / k) (neg_part a / k)

abbrev times : ℤ → ℤ → ℤ
times a b =
    quotient
      (sub_ℕ (pos_part a * pos_part b + neg_part a * neg_part b)
        (pos_part a * neg_part b + neg_part a * pos_part b))
      100

abbrev over : ℤ → ℤ → ℤ
over a (pos b) = quotient (scaled 100 a) b
over a (negsuc b) = quotient (scaled 100 (minus (pos 0) a)) (suc b)

abbrev magnitude : ℤ → ℤ
magnitude a = pos (pos_part a + neg_part a)

instance abbrev pub hundredths : Numbers ℤ
hundredths = record {
  of_int = scaled 100;
  decimal = λ m k. pos (m * 100 / 10 ^ k);
  lt = ltb_ℤ;
  le = leb_ℤ;
  add = plus;
  sub = minus;
  mul = times;
  div = over;
  absolute = magnitude;
}

le_scaled : (a b : ℤ) → leb_ℤ (scaled 100 a) (scaled 100 b) ≡ leb_ℤ a b
le_scaled (pos a) (pos b) = ground arith
le_scaled (pos a) (negsuc b) = ground arith
le_scaled (negsuc a) (pos b) = ground arith
le_scaled (negsuc a) (negsuc b) = ground arith

lt_scaled : (a b : ℤ) → ltb_ℤ (scaled 100 a) (scaled 100 b) ≡ ltb_ℤ a b
lt_scaled (pos a) (pos b) = ground arith
lt_scaled (pos a) (negsuc b) = ground arith
lt_scaled (negsuc a) (pos b) = ground arith
lt_scaled (negsuc a) (negsuc b) = ground arith

pub hundredths-ComparesInts : ComparesInts hundredths
hundredths-ComparesInts = record { le_int = le_scaled; lt_int = lt_scaled }

le_refl : (a : ℤ) → leb_ℤ a a ≡ true
le_refl (pos a) = ground arith
le_refl (negsuc a) = ground arith

le_trans : (a b c : ℤ) → leb_ℤ a b ≡ true → leb_ℤ b c ≡ true → leb_ℤ a c ≡ true
le_trans (pos a) (pos b) (pos c) h k = ground arith
le_trans (pos a) (pos b) (negsuc c) h k = ground arith
le_trans (pos a) (negsuc b) c h k = ground arith
le_trans (negsuc a) (pos b) (pos c) h k = ground arith
le_trans (negsuc a) (pos b) (negsuc c) h k = ground arith
le_trans (negsuc a) (negsuc b) (pos c) h k = ground arith
le_trans (negsuc a) (negsuc b) (negsuc c) h k = ground arith

lt_le : (a b : ℤ) → ltb_ℤ a b ≡ true → leb_ℤ a b ≡ true
lt_le (pos a) (pos b) h = ground arith
lt_le (pos a) (negsuc b) h = ground arith
lt_le (negsuc a) (pos b) h = ground arith
lt_le (negsuc a) (negsuc b) h = ground arith

not_lt_le : (a b : ℤ) → ltb_ℤ a b ≡ false → leb_ℤ b a ≡ true
not_lt_le (pos a) (pos b) h = ground arith
not_lt_le (pos a) (negsuc b) h = ground arith
not_lt_le (negsuc a) (pos b) h = ground arith
not_lt_le (negsuc a) (negsuc b) h = ground arith

pub hundredths-IsOrdered : IsOrdered hundredths
hundredths-IsOrdered = record {
  le_refl = le_refl;
  le_trans = le_trans;
  lt_le = lt_le;
  not_lt_le = not_lt_le;
}
