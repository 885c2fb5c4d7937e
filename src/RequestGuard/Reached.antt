-- ===== src/RequestGuard/Reached.antt =====
-- ui/utils/security.py: which writes reach the application.
use wasteless.Common.{
  is_in, ◌≡◌, ◌≢◌, ◌⊎◌, inl, inr, refl, sym, ap, ◌∙◌, String, Bool, true, false, not, ◌&&◌, ◌||◌,
  List, [], ◌∷◌, str_eq, eq_iff, Bool-cases, and-true-left, and-true-right, or-right, not-true,
}
use wasteless.Python.{Result, ok, raised, ok_inj, >>=-eq-ok}
use wasteless.RequestGuard.{
  Settings, Request, loopback_hosts, write_methods, split_at, with_bind, with_extra, hostname,
  add_extras, trusted_write_hosts, is_origin_ok, is_allowed, guarded, block_cross_origin_writes,
}

guarded_reached :
    {A S : Type 0} (allowed : Result Bool) (call_next : S → Result A × S) (s : S)
    → (guarded allowed call_next s).1 ≢ s
    → allowed ≡ ok true
guarded_reached (raised e) call_next s h = absurd (h refl)
guarded_reached (ok false) call_next s h = absurd (h refl)
guarded_reached (ok true) call_next s h = refl

module _ (urlsplit : String → Result String) (lower : String → String) where
  -- The name is a local one, that of WASTELESS_HOST, unless it is the wildcard, or that of an entry
  -- of WASTELESS_TRUSTED_HOSTS.
  pub data IsDeclared (env : Settings) (h : String) : Type 0 where
    local : is_in loopback_hosts h ≡ true → IsDeclared env h
    bound :
        hostname urlsplit lower env.wasteless_host ≡ ok h
        → str_eq h "" ≡ false
        → str_eq h "0.0.0.0" ≡ false
        → IsDeclared env h
    listed :
        (extra : String)
        → is_in (split_at b',' env.wasteless_trusted_hosts) extra ≡ true
        → hostname urlsplit lower extra ≡ ok h
        → str_eq h "" ≡ false
        → IsDeclared env h

  -- What one entry gives.
  abbrev IsExtra : List String → String → Type 0
  IsExtra extras h =
      (extra : String) × (is_in extras extra ≡ true)
      × (hostname urlsplit lower extra ≡ ok h)
      × (str_eq h "" ≡ false)

  in_extra :
      (hosts : List String) (name h : String)
      → is_in (with_extra hosts name) h ≡ true
      → (is_in hosts h ≡ true) ⊎ ((h ≡ name) × (str_eq h "" ≡ false))
  in_extra hosts name h found = elim (Bool-cases (str_eq name "")) [
    | inl empty ↦ inl (rw empty at found)
    | inr given ↦ elim (Bool-cases (str_eq h name)) [
      | inl same ↦ let is = (eq_iff h name).0 same in inr (is, rw is given)
      | inr other ↦ inl (rw (given, other) at found)
    ]
  ]

  later-IsExtra :
      (extra : String) (extras : List String) (h : String)
      → IsExtra extras h
      → IsExtra (extra ∷ extras) h
  later-IsExtra extra extras h (e, there, is, given) =
      (e, or-right (str_eq e extra) (is_in extras e) there, is, given)

  in_extras :
      (hosts extras out : List String) (h : String)
      → add_extras urlsplit lower hosts extras ≡ ok out
      → is_in out h ≡ true
      → (is_in hosts h ≡ true) ⊎ IsExtra extras h
  unfolding add_extras
  in_extras hosts [] out h e found = inl (ap (λ x. is_in x h) (ok_inj e) ∙ found)
  in_extras hosts (extra ∷ extras) out h e found =
      let (name, named, later) = >>=-eq-ok (hostname urlsplit lower extra) _ e in
      elim (in_extras (with_extra hosts name) extras out h later found) [
        | inr before ↦ inr (later-IsExtra extra extras h before)
        | inl there ↦ elim (in_extra hosts name h there) [
          | inl old ↦ inl old
          | inr (is, given) ↦ inr (
            extra,
            ap (λ b. b || is_in extras extra) ((eq_iff extra extra).1 refl),
            named ∙ ap ok (sym is),
            given,
          )
        ]
      ]

  in_bind :
      (env : Settings) (bind h : String)
      → hostname urlsplit lower env.wasteless_host ≡ ok bind
      → is_in (with_bind loopback_hosts bind) h ≡ true
      → IsDeclared env h
  in_bind env bind h named found =
      elim (Bool-cases (not (str_eq bind "") && not (str_eq bind "0.0.0.0"))) [
        | inr unused ↦ local (rw unused at found)
        | inl used ↦ elim (Bool-cases (str_eq h bind)) [
          | inl same ↦
              let is = (eq_iff h bind).0 same in
              bound (named ∙ ap ok (sym is)) (rw is (not-true _ (and-true-left _ _ used)))
                (rw is (not-true _ (and-true-right (not (str_eq bind "")) _ used)))
          | inr other ↦ local (rw (used, other) at found)
        ]
      ]

  trusted-IsDeclared :
      (env : Settings) (trusted : List String) (h : String)
      → trusted_write_hosts urlsplit lower env ≡ ok trusted
      → is_in trusted h ≡ true
      → IsDeclared env h
  unfolding trusted_write_hosts
  trusted-IsDeclared env trusted h e found =
      let (bind, named, later) = >>=-eq-ok (hostname urlsplit lower env.wasteless_host) _ e in
      elim (in_extras (with_bind loopback_hosts bind) (split_at b',' env.wasteless_trusted_hosts)
        trusted h later found) [
          | inl there ↦ in_bind env bind h named there
          | inr (extra, there, is, given) ↦ listed extra there is given
        ]

  -- What the two headers of a request say of where it comes from.
  pub record NamesDeclared (env : Settings) (request : Request) : Type 0 where
    host_name : String
    host_is : hostname urlsplit lower request.host ≡ ok host_name
    host_declared : IsDeclared env host_name
    origin_declared :
        (request.origin ≡ "")
        ⊎ ((name : String) × (hostname urlsplit lower request.origin ≡ ok name)
            × IsDeclared env name)

  origin-IsDeclared :
      (env : Settings) (trusted : List String) (origin : String)
      → trusted_write_hosts urlsplit lower env ≡ ok trusted
      → is_origin_ok urlsplit lower trusted origin ≡ ok true
      → (origin ≡ "")
        ⊎ ((name : String) × (hostname urlsplit lower origin ≡ ok name) × IsDeclared env name)
  origin-IsDeclared env trusted origin e h = elim (Bool-cases (str_eq origin "")) [
    | inl missing ↦ inl ((eq_iff origin "").0 missing)
    | inr given ↦
        let (name, named, there) = >>=-eq-ok (hostname urlsplit lower origin) _ (rw given at h) in
        inr (name, named, trusted-IsDeclared env trusted name e (ok_inj there))
  ]

  allowed-NamesDeclared :
      (env : Settings) (request : Request)
      → is_allowed urlsplit lower env request ≡ ok true
      → NamesDeclared env request
  unfolding is_allowed
  allowed-NamesDeclared env request h =
      let (trusted, e, later) = >>=-eq-ok (trusted_write_hosts urlsplit lower env) _ h in
      let (name, named, last) = >>=-eq-ok (hostname urlsplit lower request.host) _ later in
      let (origin_ok, checked, both) =
        >>=-eq-ok (is_origin_ok urlsplit lower trusted request.origin) _ last in
      let two = ok_inj both in
      record {
        host_name = name;
        host_is = named;
        host_declared =
            trusted-IsDeclared env trusted name e
              (and-true-left (is_in trusted name) origin_ok two);
        origin_declared =
            origin-IsDeclared env trusted request.origin e
              (checked ∙ ap ok (and-true-right (is_in trusted name) origin_ok two));
      }

  module _ {A S : Type 0} where
    -- A write that changes anything has passed the guard with a Host, and an Origin if it has one,
    -- whose names are local, or those of the two settings, whatever the application behind the guard
    -- does, and whether it returns or raises.
    pub block_cross_origin_writes_reached :
        (env : Settings) (request : Request) (call_next : S → Result A × S) (s : S)
        → is_in write_methods request.method ≡ true
        → (block_cross_origin_writes urlsplit lower env request call_next s).1 ≢ s
        → NamesDeclared env request
    unfolding block_cross_origin_writes
    block_cross_origin_writes_reached env request call_next s write h =
        allowed-NamesDeclared env request
          (guarded_reached (is_allowed urlsplit lower env request) call_next s (rw write at h))
