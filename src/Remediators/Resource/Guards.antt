-- ===== src/Remediators/Resource/Guards.antt =====
-- What has been checked when `remediate` goes on to act.
use wasteless.Common.{
  ℕ, String, ◌≡◌, refl, Bool, true, false, not, Option, none, some, if◌then◌else◌,
}
use wasteless.Python.{Numbers, Result, ok, raised, Exn, error, resource_not_found}
use wasteless.Safeguards.{
  Clock, is_action_enabled, is_whitelisted, is_auto_remediation_enabled, check_confidence_score,
  check_schedule,
}
use wasteless.Store.{find_joined}
use wasteless.Remediators.{Environment, World}
use wasteless.Remediators.Rules.{Post, returns, bind_rule, lift_rule, lift_last, execute_rule}
use wasteless.Remediators.Kinds.{
  Kind, action_type, Description, State, state_of, tags_of, in_use, verify_still_wasteful,
}
use wasteless.Remediators.Resource.{
  confidence_of, found, flag, get_recommendation_confidence, check_safe,
}

-- Neither a row nor a request has been added.
pub record IsSame {F : Type 0} (w w' : World F) : Type 0 where
  pub store : w'.store ≡ w.store
  pub writes : w'.writes ≡ w.writes

found-eq-ok :
    (k : Kind) (clock : Clock) (answer : Option (Description k)) {state : State k}
    → found k clock answer ≡ ok state
    → (d : Description k) × (answer ≡ some d) × (state_of k clock d ≡ some state)
found-eq-ok k clock none e = cc
found-eq-ok k clock (some d) e = (d, refl, go (state_of k clock d) e)
  where
    go :
        (o : Option (State k)) {state : State k}
        → (elim o [ none ↦ raised (error resource_not_found) | some s ↦ ok s ]) ≡ ok state
        → o ≡ some state
    go none e' = cc
    go (some s) e' = cc

flag-eq-ok : (b : Bool) (e : Exn) {u : Unit {0}} → flag b e ≡ ok u → b ≡ false
flag-eq-ok true e h = cc
flag-eq-ok false e h = refl

not-eq-false : (b : Bool) → not b ≡ false → b ≡ true
not-eq-false true h = refl
not-eq-false false h = cc

module _ {F : Type 0} ⦃n : Numbers F⦄ (env : Environment F) (k : Kind) (resource_id : String)
    (rec_id : ℕ) (live : Result (Option (Description k))) where
  -- The live resource is still waste, and the configuration lets this action touch it.
  pub record IsCleared (w : World F) (state : State k) : Type 0 where
    pub description : Description k
    pub exists : live ≡ ok (some description)
    pub read : state_of k env.clock description ≡ some state
    pub unused : in_use k state ≡ false
    pub switched_on : is_action_enabled env.config (action_type k) ≡ ok true
    pub score : F
    pub known : confidence_of (find_joined rec_id w.store) ≡ ok score
    pub sure_enough : check_confidence_score env.config score ≡ ok tt
    pub unlisted : is_whitelisted env.config resource_id (tags_of k state) ≡ ok false
    pub in_schedule : check_schedule env.config env.clock ≡ ok tt
    pub automated :
        (if env.dry_run then ok true else is_auto_remediation_enabled env.config) ≡ ok true

  confidence-Post :
      (w : World F)
      → Post
          (λ x w'. IsSame w w' × (confidence_of (find_joined rec_id w.store) ≡ ok x))
          (IsSame w)
          (get_recommendation_confidence env rec_id w)
  unfolding get_recommendation_confidence
  confidence-Post w =
      let same : IsSame w w = record { store = refl; writes = refl } in
      execute_rule env _ _ w same (record { store = refl; writes = refl })
        (lift_last _ w same (λ x e. (same, e)))

  pub check_safe-Post :
      (w : World F)
      → Post
          (λ state w'. IsSame w w' × IsCleared w state)
          (IsSame w)
          (check_safe env k resource_id rec_id live w)
  unfolding check_safe verify_still_wasteful
  check_safe-Post w =
      let same : IsSame w w = record { store = refl; writes = refl } in
      lift_rule live _ w same λ answer described.
        lift_rule (found k env.clock answer) _ w same λ state e₁.
          lift_rule (flag (in_use k state) _) _ w same λ _ e₂.
            lift_rule (is_action_enabled env.config (action_type k)) _ w same λ enabled e₃.
              lift_rule (flag (not enabled) _) _ w same λ _ e₄.
                bind_rule (get_recommendation_confidence env rec_id) _ w (confidence-Post w)
                  λ score w' (same', e₅).
                    lift_rule (is_whitelisted env.config resource_id (tags_of k state)) _ w' same'
                      λ listed e₆. lift_rule (flag listed _) _ w' same' λ _ e₇.
                        lift_rule (check_confidence_score env.config score) _ w' same' λ _ e₈.
                          lift_rule (check_schedule env.config env.clock) _ w' same' λ _ e₉.
                            lift_rule
                              (if env.dry_run
                                then ok true
                                else is_auto_remediation_enabled env.config)
                              _ w' same'
                              λ auto e₁₀. lift_rule (flag (not auto) _) _ w' same' λ _ e₁₁.
                                let (d, there, read) = found-eq-ok k env.clock answer e₁ in
                                returns (
                                  same',
                                  record {
                                    description = d;
                                    exists = cc (described, there);
                                    read = read;
                                    unused = flag-eq-ok _ _ e₂;
                                    switched_on = cc (not-eq-false enabled (flag-eq-ok _ _ e₄), e₃);
                                    score = score;
                                    known = e₅;
                                    sure_enough = e₈;
                                    unlisted = cc (flag-eq-ok _ _ e₇, e₆);
                                    in_schedule = e₉;
                                    automated = cc (not-eq-false auto (flag-eq-ok _ _ e₁₁), e₁₀);
                                  },
                                )
