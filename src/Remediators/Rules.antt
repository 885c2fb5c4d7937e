-- ===== src/Remediators/Rules.antt =====
-- A postcondition of an action, whatever the database and AWS answer, and a rule for each part that
-- an action is made of. A rule is read from its conclusion: to prove the postcondition of a first
-- step and the rest, prove it where the step fails and, behind the step, of the rest.
use wasteless.Common.{◌≡◌, refl, String, Bool, true, false, Option, none, some, if◌then◌else◌}
use wasteless.Python.{error, in_failed_transaction, Exn, Result, ok, raised}
use wasteless.Remediators.{
  Statement, Write, Environment, World, Action, lift, ◌>>=◌, execute, request, answered, replied,
  sent,
}

-- `Q` of the value and the world where the action returns, `E` of the world where it raises.
pub data Post {F A : Type 0} (Q : A → World F → Type 0) (E : World F → Type 0)
    : Result A × World F → Type 0 where
  returns : {a : A} {w : World F} → Q a w → Post Q E (ok a, w)
  raises : {e : Exn} {w : World F} → E w → Post Q E (raised e, w)

module _ {F A : Type 0} {Q : A → World F → Type 0} {E : World F → Type 0} where
  pub Post-ok : {a : A} {w : World F} → Post Q E (ok a, w) → Q a w
  Post-ok (returns h) = h

  pub Post-raised : {e : Exn} {w : World F} → Post Q E (raised e, w) → E w
  Post-raised (raises h) = h

module _ {F A : Type 0} {Q R : A → World F → Type 0} {D E : World F → Type 0} where
  pub weaken :
      (r : Result A × World F)
      → Post Q D r
      → ((a : A) (w : World F) → Q a w → R a w)
      → ((w : World F) → D w → E w)
      → Post R E r
  weaken (ok a, w) (returns h) f g = returns (f a w h)
  weaken (raised e, w) (raises h) f g = raises (g w h)

module _ {F A : Type 0} {R : A → World F → Type 0} {E : World F → Type 0} where
  pub lift_last :
      (r : Result A) (w : World F) → E w → ((a : A) → r ≡ ok a → R a w) → Post R E (lift r w)
  lift_last (ok a) w h k = returns (k a refl)
  lift_last (raised e) w h k = raises h

  pub if_last :
      (b : Bool) (m m' : Action F A) (w : World F)
      → Post R E (m w)
      → Post R E (m' w)
      → Post R E ((if b then m else m') w)
  if_last true m m' w h k = h
  if_last false m m' w h k = k

module _ {F A B : Type 0} {R : B → World F → Type 0} {E : World F → Type 0} where
  pub bind_rule :
      {Q : A → World F → Type 0} (r : Action F A) (f : A → Action F B) (w : World F)
      → Post Q E (r w)
      → ((a : A) (w' : World F) → Q a w' → Post R E (f a w'))
      → Post R E ((r >>= f) w)
  bind_rule {Q} r f w h k = go (r w) h
    where
      go : (p : Result A × World F) → Post Q E p → Post R E (((λ _. p) >>= f) w)
      go (ok a, w') (returns h') = k a w' h'
      go (raised e, w') (raises h') = raises h'

  pub lift_rule :
      (r : Result A) (f : A → Action F B) (w : World F)
      → E w
      → ((a : A) → r ≡ ok a → Post R E (f a w))
      → Post R E ((lift r >>= f) w)
  lift_rule (ok a) f w h k = k a refl
  lift_rule (raised e) f w h k = raises h

  pub if_rule :
      (b : Bool) (m m' : Action F A) (f : A → Action F B) (w : World F)
      → (b ≡ true → Post R E ((m >>= f) w))
      → (b ≡ false → Post R E ((m' >>= f) w))
      → Post R E (((if b then m else m') >>= f) w)
  if_rule true m m' f w h k = h refl
  if_rule false m m' f w h k = k refl

module _ {F B : Type 0} {R : B → World F → Type 0} {E : World F → Type 0} where
  answered_rule :
      (o : Option String) (f : Unit {0} → Action F B) (w : World F)
      → E (record w { aborted = true })
      → Post R E (f tt w)
      → Post R E ((answered o >>= f) w)
  answered_rule none f w h k = k
  answered_rule (some text) f w h k = raises h

  pub execute_rule :
      (env : Environment F) (s : Statement) (f : Unit {0} → Action F B) (w : World F)
      → E w
      → E (record w { aborted = true })
      → Post R E (f tt w)
      → Post R E ((execute env s >>= f) w)
  unfolding execute
  execute_rule env s f w same failed k = go w.aborted
    where
      go :
          (b : Bool)
          → Post R E (
              ((λ v.
                    if b
                    then (raised (error in_failed_transaction), v)
                    else answered (env.db v s) v)
                  >>= f)
                w)
      go true = raises same
      go false = answered_rule (env.db w s) f w failed k

  replied_rule :
      (o : Option String) (f : Unit {0} → Action F B) (w : World F)
      → E w
      → Post R E (f tt w)
      → Post R E ((replied o >>= f) w)
  replied_rule none f w h k = k
  replied_rule (some text) f w h k = raises h

  pub request_rule :
      (env : Environment F) (x : Write) (f : Unit {0} → Action F B) (w : World F)
      → E (sent x w)
      → Post R E (f tt (sent x w))
      → Post R E ((request env x >>= f) w)
  unfolding request
  request_rule env x f w h k = replied_rule (env.answer w x) f (sent x w) h k

module _ {F : Type 0} {R : Unit {0} → World F → Type 0} {E : World F → Type 0} where
  replied_last : (o : Option String) (w : World F) → E w → R tt w → Post R E (replied o w)
  replied_last none w h k = returns k
  replied_last (some text) w h k = raises h

  pub request_last :
      (env : Environment F) (x : Write) (w : World F)
      → E (sent x w)
      → R tt (sent x w)
      → Post R E (request env x w)
  unfolding request
  request_last env x w h k = replied_last (env.answer w x) (sent x w) h k
