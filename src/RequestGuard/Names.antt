-- ===== src/RequestGuard/Names.antt =====
-- ui/utils/security.py, `hostname`: the name in a Host header and in an Origin.
use wasteless.Common.{
  ◌≡◌, refl, ap, ◌∙◌, ℕ, suc, String, Bool, true, false, not, ◌&&◌, Option, none, some, ◌==◌, all,
  and-true-left, and-true-right, not-true,
}
use wasteless.Python.{
  contains, codes, is_space, strip, strip_left, strip_right, stripped, joined, count_code, Result,
  ok,
}
use wasteless.RequestGuard.{has_separator, before, without_port, hostname}
use Prim.Native.Char.{Char, code}

-- A character of a name, or of a port.
abbrev is_plain : ℕ → Bool
is_plain c = not (is_space c) && not (c == b':') && not (c == b'[') && not (c == b'/')

abbrev pub IsPlain : String → Type 0
IsPlain s = all is_plain (codes s) ≡ true

-- `name` or `name:port`
abbrev pub authority : String → Option String → String
authority name none = name
authority name (some port) = joined name (joined ":" port)

abbrev pub IsPlainPort : Option String → Type 0
IsPlainPort none = Unit {0}
IsPlainPort (some port) = IsPlain port

parts :
    (a b c d : Bool)
    → (not a && not b && not c && not d) ≡ true
    → (a ≡ false) × (b ≡ false) × (c ≡ false) × (d ≡ false)
parts false false false false h = (refl, refl, refl, refl)
parts true b c d h = cc
parts false true c d h = cc
parts false false true d h = cc
parts false false false true h = cc

-- Neither a space nor a slash, which holds of the colon, too.
abbrev is_inner : ℕ → Bool
is_inner c = not (is_space c) && not (c == b'/')

abbrev IsInner : String → Type 0
IsInner s = all is_inner (codes s) ≡ true

-- What a plain character is not.
IsPlain-head :
    (c : Char) (s : String)
    → IsPlain (String.◌∷◌ c s)
    → (is_space (code c) ≡ false)
      × ((code c == b':') ≡ false)
      × ((code c == b'[') ≡ false)
      × ((code c == b'/') ≡ false)
      × IsPlain s
IsPlain-head c s h =
    let (space, colon, bracket, slash) =
      parts (is_space (code c)) (code c == b':') (code c == b'[') (code c == b'/')
        (and-true-left (is_plain (code c)) (all is_plain (codes s)) h) in
    (space, colon, bracket, slash, and-true-right (is_plain (code c)) (all is_plain (codes s)) h)

IsInner-head :
    (c : Char) (s : String)
    → IsInner (String.◌∷◌ c s)
    → (is_space (code c) ≡ false) × ((code c == b'/') ≡ false) × IsInner s
IsInner-head c s h =
    let here = and-true-left (is_inner (code c)) (all is_inner (codes s)) h in
    (
      not-true (is_space (code c))
          (and-true-left (not (is_space (code c))) (not (code c == b'/')) here),
      not-true (code c == b'/')
          (and-true-right (not (is_space (code c))) (not (code c == b'/')) here),
      and-true-right (is_inner (code c)) (all is_inner (codes s)) h,
    )

IsInner-all : (s : String) → IsPlain s → IsInner s
IsInner-all String.[] h = refl
IsInner-all (String.◌∷◌ c s) h =
    let (space, _, _, slash, rest) = IsPlain-head c s h in rw (space, slash) (IsInner-all s rest)

IsInner-joined : (s t : String) → IsInner s → IsInner t → IsInner (joined s t)
IsInner-joined String.[] t h k = k
IsInner-joined (String.◌∷◌ c s) t h k =
    let (space, slash, rest) = IsInner-head c s h in rw (space, slash) (IsInner-joined s t rest k)

authority-IsInner :
    (name : String) (port : Option String)
    → IsPlain name
    → IsPlainPort port
    → IsInner (authority name port)
authority-IsInner name none h k = IsInner-all name h
authority-IsInner name (some port) h k =
    IsInner-joined name (joined ":" port) (IsInner-all name h)
      (IsInner-joined ":" port refl (IsInner-all port k))

strip_left_inner : (s : String) → IsInner s → strip_left s ≡ s
unfolding strip_left
strip_left_inner String.[] h = refl
strip_left_inner (String.◌∷◌ c s) h = rw (IsInner-head c s h).0 refl

stripped_inner : (c : Char) (s : String) → is_space (code c) ≡ false → stripped c s ≡ String.◌∷◌ c s
stripped_inner c String.[] h = rw h refl
stripped_inner c (String.◌∷◌ d s) h = refl

strip_right_inner : (s : String) → IsInner s → strip_right s ≡ s
unfolding strip_right
strip_right_inner String.[] h = refl
strip_right_inner (String.◌∷◌ c s) h =
    let (space, _, rest) = IsInner-head c s h in
    ap (stripped c) (strip_right_inner s rest) ∙ stripped_inner c s space

strip_inner : (s : String) → IsInner s → strip s ≡ s
strip_inner s h = ap strip_right (strip_left_inner s h) ∙ strip_right_inner s h

and-false : (a : Bool) → (a && false) ≡ false
and-false true = refl
and-false false = refl

no_separator : (s : String) → IsInner s → has_separator (codes s) ≡ false
unfolding contains
no_separator String.[] h = refl
no_separator (String.◌∷◌ c String.[]) h = rw (and-false (code c == b':')) refl
no_separator (String.◌∷◌ c (String.◌∷◌ d s)) h =
    let (_, _, rest) = IsInner-head c (String.◌∷◌ d s) h in
    let (_, slash, _) = IsInner-head d s rest in
    let later = no_separator (String.◌∷◌ d s) rest in rw (slash, and-false (code c == b':')) later

count_plain : (s : String) → IsPlain s → count_code b':' (codes s) ≡ 0
unfolding count_code
count_plain String.[] h = refl
count_plain (String.◌∷◌ c s) h =
    let (_, colon, _, _, rest) = IsPlain-head c s h in rw colon (count_plain s rest)

count_one :
    (s t : String) → IsPlain s → IsPlain t → count_code b':' (codes (joined s (joined ":" t))) ≡ 1
unfolding count_code
count_one String.[] t h k = ap suc (count_plain t k)
count_one (String.◌∷◌ c s) t h k =
    let (_, colon, _, _, rest) = IsPlain-head c s h in rw colon (count_one s t rest k)

before_plain : (s t : String) → IsPlain s → before b':' (joined s (joined ":" t)) ≡ s
unfolding before
before_plain String.[] t h = refl
before_plain (String.◌∷◌ c s) t h =
    let (_, colon, _, _, rest) = IsPlain-head c s h in
    rw colon (ap (String.◌∷◌ c) (before_plain s t rest))

without_port_plain :
    (name : String) (port : Option String)
    → IsPlain name
    → IsPlainPort port
    → without_port (authority name port) ≡ name
without_port_plain String.[] none h k = refl
without_port_plain String.[] (some port) h k = rw (count_one "" port h k) (before_plain "" port h)
without_port_plain (String.◌∷◌ c s) none h k =
    let (_, _, bracket, _, rest) = IsPlain-head c s h in
    rw (bracket, count_plain (String.◌∷◌ c s) h) refl
without_port_plain (String.◌∷◌ c s) (some port) h k =
    let (_, _, bracket, _, rest) = IsPlain-head c s h in
    rw (bracket, count_one (String.◌∷◌ c s) port h k) (before_plain (String.◌∷◌ c s) port h)

module _ (urlsplit : String → Result String) (lower : String → String) where
  hostname_at :
      (location name : String) (port : Option String)
      → lower (strip location) ≡ authority name port
      → IsPlain name
      → IsPlainPort port
      → ok (without_port (lower (strip location))) ≡ ok name
  hostname_at location name port is h k =
      ap (λ x. ok (without_port x)) is ∙ ap ok (without_port_plain name port h k)

  -- `hostname` gives the name, in small letters, of a Host header `name` or `name:port`, and of an
  -- Origin that has this text as its netloc. It is assumed that the name and the port, and what they
  -- are in small letters, have no space, colon, opening bracket or slash.
  pub hostname-authority :
      (name name' origin : String) (port port' : Option String)
      → IsPlain name
      → IsPlainPort port
      → IsPlain name'
      → IsPlainPort port'
      → lower (authority name port) ≡ authority name' port'
      → has_separator (codes origin) ≡ true
      → urlsplit origin ≡ ok (authority name port)
      → (hostname urlsplit lower (authority name port) ≡ ok name')
        × (hostname urlsplit lower origin ≡ ok name')
  unfolding hostname
  hostname-authority name name' origin port port' h k h' k' small is_url split =
      let inside = authority-IsInner name port h k in
      let bare =
        hostname_at (authority name port) name' port'
          (ap lower (strip_inner (authority name port) inside) ∙ small) h' k' in
      (rw (no_separator (authority name port) inside) bare, rw (is_url, split) bare)
