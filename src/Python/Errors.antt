-- ===== src/Python/Errors.antt =====
-- Exceptions. `SafeguardException` has its own handler in the source; `error` is any other.
use wasteless.Common.{String, ◌≡◌, refl, ◌⊎◌, inl, inr, Bool, true, false}

-- The statements that raise a SafeguardException, or that write the same kind of reason.
pub data Refusal : Type 0 where
  auto_disabled whitelisted too_young low_confidence not_idle outside_days outside_hours
        max_instances :
      Refusal
  action_disabled no_longer_wasteful : Refusal
  -- `Safeguard check failed: None`
  unexplained : Refusal
  -- `Safeguard check failed: {reason}`
  check_failed : Refusal → Refusal

-- Every other exception.
pub data Failure : Type 0 where
  type_error attribute_error key_error invalid_config : Failure
  -- `Instance not found`, `… not found in {region}`
  resource_not_found : Failure
  -- `Recommendation not found in database`
  recommendation_not_found : Failure
  -- `Instance is {state}, cannot start (must be stopped)`
  not_stopped : Failure
  -- what boto3 raised, with its text
  aws : String → Failure
  -- what psycopg2 raised, with its text
  database : String → Failure
  -- `current transaction is aborted`, which PostgreSQL answers until a rollback
  in_failed_transaction : Failure
  -- the summary of AMI deregistration
  snapshots_left : Failure
  -- TerraformMappingError
  not_a_directory unbalanced_braces : Failure
  -- TerraformEditError
  no_such_file invalid_range attribute_not_found : Failure
  -- TerraformPRError
  dangling_references validation_failed command_failed : Failure
  os_error index_error zero_division value_error : Failure
  -- FinOpsInvariantError
  invariant_violated : Failure

pub data Exn : Type 0 where
  safeguard : Refusal → Exn
  error : Failure → Exn

-- What a Python call comes to.
pub data Result {ℓ} (A : Type ℓ) : Type ℓ where
  raised : Exn → Result A
  ok : A → Result A

-- `if b: raise e`
abbrev pub raise_if : Bool → Exn → Result (Unit {0})
raise_if true e = raised e
raise_if false e = ok tt

infixl 5 ◌>>=◌ ◌>>◌
-- The statements after a call, which an exception skips.
abbrev pub ◌>>=◌ {κ ℓ} : {B : Type κ} {A : Type ℓ} → Result A → (A → Result B) → Result B
raised e >>= next = raised e
ok x >>= next = next x

abbrev pub ◌>>◌ {ℓ κ} : {A : Type ℓ} {B : Type κ} → Result A → Result B → Result B
first >> second = first >>= λ _. second

pub ok_inj {ℓ} : {A : Type ℓ} {a b : A} → ok a ≡ ok b → a ≡ b
ok_inj h = cc

pub >>=-eq-ok {κ ℓ} :
    {B : Type κ} {A : Type ℓ} (call : Result A) (next : A → Result B) {out : B}
    → (call >>= next) ≡ ok out
    → (x : A) × (call ≡ ok x) × (next x ≡ ok out)
>>=-eq-ok (raised e) next h = cc
>>=-eq-ok (ok x) next h = (x, refl, h)

pub >>-eq-ok {ℓ} :
    {B : Type ℓ} (m : Result (Unit {0})) (k : Result B) {b : B}
    → (m >> k) ≡ ok b
    → (m ≡ ok tt) × (k ≡ ok b)
>>-eq-ok (ok _) k h = (refl, h)
>>-eq-ok (raised e) k h = cc

pub Result-cases {ℓ} :
    {A : Type ℓ} (m : Result A) → ((a : A) × (m ≡ ok a)) ⊎ ((e : Exn) × (m ≡ raised e))
Result-cases (ok a) = inl (a, refl)
Result-cases (raised e) = inr (e, refl)
