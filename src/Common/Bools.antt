-- ===== src/Common/Bools.antt =====
-- Facts on the Boolean connectives, to take a test apart.
use mathlib.Core.Path.{◌≡◌, refl}
use mathlib.Core.Bool.{Bool, true, false, not, ◌&&◌, ◌||◌}

pub or-false-left : (a b : Bool) → (a || b) ≡ false → a ≡ false
or-false-left false b h = refl
or-false-left true b h = h

pub or-false-right : (a b : Bool) → (a || b) ≡ false → b ≡ false
or-false-right false b h = h
or-false-right true b h = cc

pub or-right : (a b : Bool) → b ≡ true → (a || b) ≡ true
or-right true b h = refl
or-right false b h = h

pub and-true-left : (a b : Bool) → (a && b) ≡ true → a ≡ true
and-true-left true b h = refl
and-true-left false b h = h

pub and-true-right : (a b : Bool) → (a && b) ≡ true → b ≡ true
and-true-right true b h = h
and-true-right false b h = cc

pub not-true : (a : Bool) → not a ≡ true → a ≡ false
not-true false h = refl
not-true true h = cc
