-- ===== src/RequestGuard.antt =====
-- ui/utils/security.py: the guard against cross-origin writes.
--
-- `urlsplit` gives the netloc of a URL, or raises a ValueError, and `lower` is Python's str.lower;
-- both are arguments. A set of hosts is a list, of which only the members count. The application
-- behind the guard, `call_next`, may do anything to its state, and return or raise.
pub mod Names
pub mod Reached
mod Tests
use wasteless.Common.{
  is_in, ℕ, String, Bool, true, false, not, ◌&&◌, ◌||◌, List, [], ◌∷◌, any, ◌==◌, str_eq,
  if◌then◌else◌,
}
use wasteless.Python.{contains, codes, strip, count_code, Result, ok, raised, ◌>>=◌}
use Prim.Native.Char.{Char, code}

-- The two variables, empty where they are not set.
pub record Settings : Type 0 where
  pub wasteless_host : String
  pub wasteless_trusted_hosts : String

-- A request with the two headers that the guard reads, empty where they are missing.
pub record Request : Type 0 where
  pub method : String
  pub host : String
  pub origin : String

pub data Response (A : Type 0) : Type 0 where
  -- the status 403
  blocked : Response A
  answered : A → Response A

abbrev pub write_methods : List String
write_methods = "POST" ∷ "PUT" ∷ "PATCH" ∷ "DELETE" ∷ []

-- _LOOPBACK_HOSTS
abbrev pub loopback_hosts : List String
loopback_hosts = "localhost" ∷ "127.0.0.1" ∷ "::1" ∷ "testserver" ∷ []

-- `"://" in value`
abbrev pub has_separator : List ℕ → Bool
has_separator = contains (codes "://")

-- The text before the first such character, which is all of it where there is none.
unfoldable pub before : ℕ → String → String
before c String.[] = String.[]
before c (String.◌∷◌ d s) =
    let rest = before c s in if code d == c then String.[] else String.◌∷◌ d rest

-- `s[:-1]`
abbrev pub but_last : String → String
but_last String.[] = String.[]
but_last (String.◌∷◌ c String.[]) = String.[]
but_last (String.◌∷◌ c (String.◌∷◌ d s)) = String.◌∷◌ c (but_last (String.◌∷◌ d s))

-- `value[1 : value.find("]")]` for the text `s` behind the bracket: `find` gives -1 where there is
-- no other bracket.
abbrev pub in_brackets : String → String
in_brackets s = if any (◌==◌ b']') (codes s) then before b']' s else but_last s

-- With one colon, `rsplit(":", 1)[0]` is what stands before it.
abbrev pub without_port : String → String
without_port String.[] = String.[]
without_port (String.◌∷◌ c s) =
    if code c == b'['
    then in_brackets s
    else if count_code b':' (codes (String.◌∷◌ c s)) == 1
    then before b':' (String.◌∷◌ c s)
    else String.◌∷◌ c s

abbrev pub on_first : Char → List String → List String
on_first c [] = String.◌∷◌ c String.[] ∷ []
on_first c (s ∷ ss) = String.◌∷◌ c s ∷ ss

-- `s.split(",")`
unfoldable pub split_at : ℕ → String → List String
split_at c String.[] = "" ∷ []
split_at c (String.◌∷◌ d s) =
    let rest = split_at c s in if code d == c then "" ∷ rest else on_first d rest

abbrev pub with_bind : List String → String → List String
with_bind hosts bind =
    if not (str_eq bind "") && not (str_eq bind "0.0.0.0") then bind ∷ hosts else hosts

abbrev pub with_extra : List String → String → List String
with_extra hosts extra = if not (str_eq extra "") then extra ∷ hosts else hosts

module _ {A S : Type 0} where
  abbrev pub response : Result A × S → Result (Response A) × S
  response (raised e, s) = (raised e, s)
  response (ok a, s) = (ok (answered a), s)

  abbrev pub guarded : Result Bool → (S → Result A × S) → S → Result (Response A) × S
  guarded (raised e) call_next s = (raised e, s)
  guarded (ok false) call_next s = (ok blocked, s)
  guarded (ok true) call_next s = response (call_next s)

module _ (urlsplit : String → Result String) (lower : String → String) where
  abbrev pub netloc : String → Result String
  netloc value = if has_separator (codes value) then urlsplit value else ok value

  unfoldable pub hostname : String → Result String
  hostname value = do location ← netloc value; ok (without_port (lower (strip location)))

  unfoldable pub add_extras : List String → List String → Result (List String)
  add_extras hosts [] = ok hosts
  add_extras hosts (extra ∷ extras) = do
    name ← hostname extra
    add_extras (with_extra hosts name) extras

  unfoldable pub trusted_write_hosts : Settings → Result (List String)
  trusted_write_hosts env = do
    bind ← hostname env.wasteless_host
    add_extras (with_bind loopback_hosts bind) (split_at b',' env.wasteless_trusted_hosts)

  abbrev pub is_origin_ok : List String → String → Result Bool
  is_origin_ok trusted origin =
      if str_eq origin "" then ok true else (do name ← hostname origin; ok (is_in trusted name))

  -- `host_ok and origin_ok` of a write
  unfoldable pub is_allowed : Settings → Request → Result Bool
  is_allowed env request = do
    trusted ← trusted_write_hosts env
    name ← hostname request.host
    origin_ok ← is_origin_ok trusted request.origin
    ok (is_in trusted name && origin_ok)

  module _ {A S : Type 0} where
    unfoldable pub block_cross_origin_writes :
        Settings → Request → (S → Result A × S) → S → Result (Response A) × S
    block_cross_origin_writes env request call_next s =
        if is_in write_methods request.method
        then guarded (is_allowed env request) call_next s
        else response (call_next s)
