-- ===== src/RequestGuard/Tests.antt =====
-- Requests for ui/utils/security.py.
use mathlib.Core.Bool.{false≢true}
use wasteless.Common.{◌≡◌, ◌≢◌, refl, ap, ℕ, String, true, some, List, [], ◌∷◌, is_empty}
use wasteless.Python.{contains, Result, ok, codes, strip_left, strip_right, count_code}
use wasteless.RequestGuard.{
  Settings, Request, blocked, has_separator, before, split_at, hostname, add_extras,
  trusted_write_hosts, is_allowed, block_cross_origin_writes,
}
use wasteless.RequestGuard.Names.{hostname-authority}
use wasteless.RequestGuard.Reached.{NamesDeclared, block_cross_origin_writes_reached}

abbrev behind_proxy : Settings
behind_proxy = record { wasteless_host = "0.0.0.0"; wasteless_trusted_hosts = "costs.example,ops" }

-- The netloc of the one URL of these tests.
abbrev split : String → Result String
split url = ok "costs.example:443"

abbrev write : Request
write = record { method = "POST"; host = "localhost:8888"; origin = "https://costs.example:443" }

abbrev log : List ℕ → Result ℕ × List ℕ
log s = (ok 200, 1 ∷ s)

reached : (block_cross_origin_writes split (λ s. s) behind_proxy write log []).1 ≢ []
unfolding block_cross_origin_writes is_allowed trusted_write_hosts add_extras hostname contains
    before split_at strip_left strip_right count_code
reached h = false≢true (ap is_empty h)

block_cross_origin_writes_reached_example : NamesDeclared split (λ s. s) behind_proxy write
block_cross_origin_writes_reached_example =
    block_cross_origin_writes_reached split (λ s. s) behind_proxy write log [] refl reached

is_url : has_separator (codes "https://costs.example:443") ≡ true
unfolding contains
is_url = refl

hostname-authority_example :
    (hostname split (λ s. s) "costs.example:443" ≡ ok "costs.example")
    × (hostname split (λ s. s) "https://costs.example:443" ≡ ok "costs.example")
hostname-authority_example =
    hostname-authority split (λ s. s) "costs.example" "costs.example" "https://costs.example:443"
      (some "443") (some "443") refl refl refl refl refl is_url refl

-- What the guard refuses: a name that resolves to this machine, and a page of another site.
abbrev rebound : Request
rebound = record { method = "DELETE"; host = "evil.example:8888"; origin = "" }

rebound_blocked :
    block_cross_origin_writes split (λ s. s) behind_proxy rebound log [] ≡ (ok blocked, [])
unfolding block_cross_origin_writes is_allowed trusted_write_hosts add_extras hostname contains
    before split_at strip_left strip_right count_code
rebound_blocked = refl

-- What stands behind a closing bracket is not read.
bracketed : hostname split (λ s. s) "[::1]:8888" ≡ ok "::1"
unfolding hostname contains before strip_left strip_right count_code
bracketed = refl
