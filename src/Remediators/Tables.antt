-- ===== src/Remediators/Tables.antt =====
-- The tables under a run: every id is below the next one, and an update of the newest row by its id
-- leaves the others alone.
use wasteless.Common.{
  ℕ, ◌<◌, ◌≤◌, String, ◌≡◌, refl, ap, ◌∙◌, some, List, [], ◌∷◌, ◌==◌, ==_iff, eq_iff, All, arith,
  update_where, Bool-cases, inl, inr,
}
use wasteless.Store.{Store, ActionRow, Rollback}
use wasteless.Remediators.Resource.{newest_rollback, attach_to_newest}

-- The ids of both tables are below the next value of their SERIAL column.
pub record IsFresh {F : Type 0} (s : Store F) : Type 0 where
  pub actions : All (λ (a : ActionRow). a.id < s.next_action) s.actions_log
  pub rollbacks : All (λ (r : Rollback). r.id < s.next_rollback) s.rollbacks

module _ {ℓ} {A : Type ℓ} (id_of : A → ℕ) where
  pub update_others :
      (f : A → A) (k : ℕ) (xs : List A)
      → All (λ x. id_of x < k) xs
      → update_where (λ x. id_of x == k) f xs ≡ xs
  update_others f k [] h = refl
  update_others f k (x ∷ xs) (here, later) = elim (Bool-cases (id_of x == k)) [
    | inl same ↦ absurd (omega (arith, (==_iff (id_of x) k).0 same))
    | inr other ↦ rw (other, update_others f k xs later)
  ]

  pub update_newest :
      (f : A → A) (k : ℕ) (x : A) (xs : List A)
      → id_of x ≡ k
      → All (λ x. id_of x < k) xs
      → update_where (λ x. id_of x == k) f (x ∷ xs) ≡ f x ∷ xs
  update_newest f k x xs e h = rw ((==_iff (id_of x) k).1 e, update_others f k xs h)

newest-lt :
    (id kind : String) (k : ℕ) (rs : List Rollback)
    → All (λ r. r.id < k) rs
    → newest_rollback id kind rs ≤ k
unfolding newest_rollback
newest-lt id kind k [] h = omega arith
newest-lt id kind k (r ∷ rs) (here, later) = ground (arith, newest-lt id kind k rs later)

-- The newest rollback row of a resource is the one just inserted.
pub newest-inserted :
    (id kind : String) (r : Rollback) (rs : List Rollback)
    → r.resource_id ≡ id
    → r.resource_type ≡ kind
    → All (λ x. x.id < r.id) rs
    → newest_rollback id kind (r ∷ rs) ≡ r.id
unfolding newest_rollback
newest-inserted id kind r rs same_id same_kind h =
    rw ((eq_iff _ _).1 same_id, (eq_iff _ _).1 same_kind)
      (omega (arith, newest-lt id kind r.id rs h))

pub attach-inserted :
    (id kind snapshot_id : String) (r : Rollback) (rs : List Rollback)
    → r.resource_id ≡ id
    → r.resource_type ≡ kind
    → All (λ x. x.id < r.id) rs
    → attach_to_newest id kind snapshot_id (r ∷ rs)
      ≡ record r { rollback_ebs_snapshot_id = some snapshot_id } ∷ rs
unfolding attach_to_newest
attach-inserted id kind snapshot_id r rs same_id same_kind h =
    let f = λ (x : Rollback). record x { rollback_ebs_snapshot_id = some snapshot_id } in
    ap (λ m. update_where (λ (x : Rollback). x.id == m) f (r ∷ rs))
      (newest-inserted id kind r rs same_id same_kind h)
    ∙ update_newest (λ (x : Rollback). x.id) f r.id r rs refl h
