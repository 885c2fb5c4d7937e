-- ===== src/LogBuffer/Polls.antt =====
-- Entries with consecutive ids, and what a poll without filters and a wide limit leaves of them.
use wasteless.Common.{
  ℕ, suc, zero, ◌+◌, ◌-◌, ◌≤◌, String, ◌≡◌, refl, ap, inl, inr, true, List, [], ◌∷◌, ◌++◌, leb,
  ◌==◌, keep, drop, length, arith, Bool-cases,
}
use wasteless.LogBuffer.{Entry, last_of, matches}

-- The ids are consecutive, from `k` on.
abbrev pub IsNumbered : ℕ → List Entry → Type 0
IsNumbered k [] = Unit
IsNumbered k (x ∷ xs) = (x.id ≡ k) × IsNumbered (suc k) xs

pub append-IsNumbered :
    (k : ℕ) (xs : List Entry) (x : Entry)
    → IsNumbered k xs
    → x.id ≡ k + length xs
    → IsNumbered k (xs ++ x ∷ [])
append-IsNumbered k [] x h e = (omega (arith, e), tt)
append-IsNumbered k (y ∷ ys) x (here, later) e =
    (here, append-IsNumbered (suc k) ys x later (omega (arith, e)))

pub drop-IsNumbered : (n k : ℕ) (xs : List Entry) → IsNumbered k xs → IsNumbered (k + n) (drop n xs)
drop-IsNumbered zero k xs h = rw (plus_zero k) h
  where
    plus_zero : (k : ℕ) → k + 0 ≡ k
    plus_zero k = omega arith
drop-IsNumbered (suc n) k [] h = tt
drop-IsNumbered (suc n) k (x ∷ xs) (here, later) =
    rw (shift k n) (drop-IsNumbered n (suc k) xs later)
  where
    shift : (k n : ℕ) → k + suc n ≡ suc k + n
    shift k n = omega arith

zero_leb : (a : ℕ) → leb 0 a ≡ true
zero_leb a = ground arith

pub keep_all : (lower : String → String) (xs : List Entry) → keep (matches lower 0 "") xs ≡ xs
keep_all lower [] = refl
keep_all lower (x ∷ xs) = rw (zero_leb x.levelno) (ap (λ ys. x ∷ ys) (keep_all lower xs))

pub last_of-all : (limit : ℕ) (xs : List Entry) → length xs ≤ limit → last_of limit xs ≡ xs
last_of-all limit xs h = elim (Bool-cases (limit == 0)) [
  | inl none_asked ↦ rw none_asked
  | inr some_asked ↦ rw (some_asked, fits (length xs) limit h)
]
  where
    fits : (a b : ℕ) → a ≤ b → a - b ≡ 0
    fits a b h = omega (arith, h)
