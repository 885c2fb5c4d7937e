-- ===== src/Detection/Statuses.antt =====
-- src/detectors: what a detection leaves of the recommendations that there are.
use wasteless.Common.{
  ◌≡◌, refl, sym, ap, ◌∙◌, subst, inl, inr, ◌⊎◌, ℕ, Bool, true, false, ◌&&◌, Option, none, some,
  List, [], ◌∷◌, first, update_where, Bool-cases, if◌then◌else◌, and-true-right,
}
use wasteless.Python.{Numbers, Exn, Result, ok, raised}
use wasteless.Store.{Status, pending}
use wasteless.Detection.{Detected, Advice, Tables, Item}
use wasteless.Detection.Saving.{
  has_key, Detector, Faults, is_open, is_for, resynced, on_known, upsert_recommendation,
  on_conflict, upsert_waste, keep_id, save_each, committed, save, count_one, recommend_each,
  recommend, recommended, run,
}

module _ {F : Type 0} ⦃n : Numbers F⦄ (d : Detector F) where
  -- What may become of a recommendation: one whose status is not open stays as it is, and one that
  -- is open stays pending, or becomes so.
  pub record IsKept (r r' : Advice F) : Type 0 where
    pub same_waste : r'.waste_id ≡ r.waste_id
    pub settled : is_open d r.status ≡ false → r' ≡ r
    pub open_next : (r'.status ≡ r.status) ⊎ (r'.status ≡ pending)

  -- The recommendations of before in their order, with new ones, which are pending, among them.
  pub data Grows : List (Advice F) → List (Advice F) → Type 0 where
    done : Grows [] []
    row :
        {r r' : Advice F} {rs rs' : List (Advice F)}
        → IsKept r r'
        → Grows rs rs'
        → Grows (r ∷ rs) (r' ∷ rs')
    new :
        {r : Advice F} {rs rs' : List (Advice F)}
        → r.status ≡ pending
        → Grows rs rs'
        → Grows rs (r ∷ rs')

  IsKept-refl : (r : Advice F) → IsKept r r
  IsKept-refl r = record { same_waste = refl; settled = λ h. refl; open_next = inl refl }

  pub Grows-refl : (rs : List (Advice F)) → Grows rs rs
  Grows-refl [] = done
  Grows-refl (r ∷ rs) = row (IsKept-refl r) (Grows-refl rs)

  either_way :
      {a b c : Status} → (b ≡ a) ⊎ (b ≡ pending) → (c ≡ b) ⊎ (c ≡ pending) → (c ≡ a) ⊎ (c ≡ pending)
  either_way h (inr p) = inr p
  either_way (inl e) (inl f) = inl (f ∙ e)
  either_way (inr p) (inl f) = inr (f ∙ p)

  IsKept-trans : {r r' r'' : Advice F} → IsKept r r' → IsKept r' r'' → IsKept r r''
  IsKept-trans {r} {r'} {r''} a b = record {
    same_waste = b.same_waste ∙ a.same_waste;
    settled =
        λ h. let e = a.settled h in b.settled (ap (λ (x : Advice F). is_open d x.status) e ∙ h) ∙ e;
    open_next = either_way a.open_next b.open_next;
  }

  still_pending : {a b : Status} → a ≡ pending → (b ≡ a) ⊎ (b ≡ pending) → b ≡ pending
  still_pending h (inl e) = e ∙ h
  still_pending h (inr p) = p

  Grows-after :
      {ys zs : List (Advice F)} → Grows ys zs → {xs : List (Advice F)} → Grows xs ys → Grows xs zs
  Grows-after (new p h) g = new p (Grows-after h g)
  Grows-after done g = g
  Grows-after (row l h) (row k g) = row (IsKept-trans k l) (Grows-after h g)
  Grows-after (row l h) (new p g) = new (still_pending p l.open_next) (Grows-after h g)

  pub Grows-trans : {xs ys zs : List (Advice F)} → Grows xs ys → Grows ys zs → Grows xs zs
  Grows-trans g h = Grows-after h g

  revived :
      (b : Bool) (s : Status)
      → ((if b then pending else s) ≡ s) ⊎ ((if b then pending else s) ≡ pending)
  revived true s = inr refl
  revived false s = inl refl

  resynced-IsKept :
      (item : Item F) (r : Advice F) → is_open d r.status ≡ true → IsKept r (resynced d item r)
  resynced-IsKept item r opened = record {
    same_waste = refl;
    settled = λ h. cc (opened, h);
    open_next = revived d.revives r.status;
  }

  update-Grows :
      (waste_id : ℕ) (item : Item F) (rs : List (Advice F))
      → Grows rs (update_where (λ r. is_for waste_id r && is_open d r.status) (resynced d item) rs)
  update-Grows waste_id item [] = done
  update-Grows waste_id item (r ∷ rs) =
      let rest = update-Grows waste_id item rs in
      elim (Bool-cases (is_for waste_id r && is_open d r.status)) [
        | inl here ↦
            let opened = and-true-right (is_for waste_id r) (is_open d r.status) here in
            rw here (row (resynced-IsKept item r opened) rest)
        | inr other ↦ rw other (row (IsKept-refl r) rest)
      ]

  known-Grows :
      (waste_id : ℕ) (item : Item F) (found : Option (Advice F)) (rs : List (Advice F))
      → Grows rs (on_known d waste_id item found rs)
  known-Grows waste_id item none rs = new refl (Grows-refl rs)
  known-Grows waste_id item (some r) rs = update-Grows waste_id item rs

  pub upsert_recommendation-Grows :
      (waste_id : ℕ) (item : Item F) (rs : List (Advice F))
      → Grows rs (upsert_recommendation d waste_id item rs)
  unfolding upsert_recommendation
  upsert_recommendation-Grows waste_id item rs = known-Grows waste_id item _ rs

  -- The recommendations of what a loop comes to, when it goes through.
  abbrev pub LoopGrows : {A : Type 0} → List (Advice F) → Result (A × Tables F) → Type 0
  LoopGrows rs (raised e) = Unit
  LoopGrows rs (ok (a, t)) = Grows rs t.recommendations

  pub counted-LoopGrows :
      (rs : List (Advice F)) (faults : Faults) (r : Result (ℕ × Tables F))
      → LoopGrows rs r
      → LoopGrows rs (count_one d faults r)
  counted-LoopGrows rs faults (raised e) h = tt
  counted-LoopGrows rs faults (ok (a, t)) h = h

  pub if-LoopGrows :
      {A : Type 0} (b : Bool) (e : Exn) (rs : List (Advice F)) (r : Result (A × Tables F))
      → LoopGrows rs r
      → LoopGrows rs (if b then raised e else r)
  if-LoopGrows true e rs r h = tt
  if-LoopGrows false e rs r h = h

  pub from-LoopGrows :
      {A : Type 0} (rs rs' : List (Advice F)) (r : Result (A × Tables F))
      → Grows rs rs'
      → LoopGrows rs' r
      → LoopGrows rs r
  from-LoopGrows rs rs' (raised e) g h = tt
  from-LoopGrows rs rs' (ok (a, t)) g h = Grows-trans g h

  module _ (faults : Faults) where
    pub committed-Grows :
        {A : Type 0} (t : Tables F) (r : Result (A × Tables F))
        → LoopGrows t.recommendations r
        → Grows t.recommendations (committed d faults t r).1.recommendations
    committed-Grows t (raised e) h = Grows-refl t.recommendations
    committed-Grows t (ok (a, u)) h = elim (Bool-cases faults.commit_fails) [
      | inl fails ↦ rw fails (Grows-refl t.recommendations)
      | inr works ↦ rw works h
    ]

    kept-LoopGrows :
        (rs : List (Advice F)) (id : ℕ) (r : Result (List ℕ × Tables F))
        → LoopGrows rs r
        → LoopGrows rs (keep_id d faults id r)
    kept-LoopGrows rs id (raised e) h = tt
    kept-LoopGrows rs id (ok (a, t)) h = h

    conflict_same :
        (today : ℕ) (item : Item F) (found : Option (Detected F)) (t : Tables F)
        → t.recommendations ≡ (on_conflict d today item found t).1.recommendations
    conflict_same today item none t = refl
    conflict_same today item (some w) t = refl

    save_each-LoopGrows :
        (today : ℕ) (items : List (Item F)) (t : Tables F)
        → LoopGrows t.recommendations (save_each d faults today items t)
    unfolding save_each upsert_waste
    save_each-LoopGrows today [] t = Grows-refl t.recommendations
    save_each-LoopGrows today (item ∷ items) t =
        let found = first (has_key d item.resource_id) t.wastes in
        let u = (on_conflict d today item found t).1 in
        let same = conflict_same today item found t in
        if-LoopGrows (faults.insert_fails item.resource_id) _ t.recommendations _ (
          kept-LoopGrows t.recommendations (on_conflict d today item found t).0 _ (
            subst (λ rs. LoopGrows rs (save_each d faults today items u)) (sym same)
              (save_each-LoopGrows today items u)))

    pub save-Grows :
        (today : ℕ) (items : List (Item F)) (t : Tables F)
        → Grows t.recommendations (save d faults today items t).1.recommendations
    unfolding save
    save-Grows today [] t = Grows-refl t.recommendations
    save-Grows today (item ∷ items) t =
        committed-Grows t _ (save_each-LoopGrows today (item ∷ items) t)

    recommend_each-LoopGrows :
        (ids : List ℕ) (items : List (Item F)) (t : Tables F)
        → LoopGrows t.recommendations (recommend_each d faults ids items t)
    unfolding recommend_each
    recommend_each-LoopGrows [] items t = Grows-refl t.recommendations
    recommend_each-LoopGrows (id ∷ ids) [] t = Grows-refl t.recommendations
    recommend_each-LoopGrows (id ∷ ids) (item ∷ items) t =
        let rs = upsert_recommendation d id item t.recommendations in
        let u = record t { recommendations = rs } in
        if-LoopGrows (faults.insert_fails item.resource_id) _ t.recommendations _ (
          counted-LoopGrows t.recommendations faults (recommend_each d faults ids items u) (
            from-LoopGrows t.recommendations rs (recommend_each d faults ids items u)
              (upsert_recommendation-Grows id item t.recommendations)
              (recommend_each-LoopGrows ids items u)))

    recommend-Grows :
        (ids : List ℕ) (items : List (Item F)) (t : Tables F)
        → Grows t.recommendations (recommend d faults ids items t).1.recommendations
    unfolding recommend
    recommend-Grows [] items t = Grows-refl t.recommendations
    recommend-Grows (id ∷ ids) items t =
        committed-Grows t _ (recommend_each-LoopGrows (id ∷ ids) items t)

    recommended-Grows :
        (rs : List (Advice F)) (items : List (Item F)) (x : Result (List ℕ) × Tables F)
        → Grows rs x.1.recommendations
        → Grows rs (recommended d faults items x).1.recommendations
    recommended-Grows rs items (raised e, t) g = g
    recommended-Grows rs items (ok ids, t) g = Grows-trans g (recommend-Grows ids items t)

  -- A run of a detector over Steampipe keeps every recommendation and its place, whichever
  -- statements or commits of `save` fail, and whichever of `recommend`: one that is not pending
  -- stays as it is, one that is pending stays so, and what is new is pending.
  pub run-Grows :
      (saving recommending : Faults) (today : ℕ) (items : List (Item F)) (t : Tables F)
      → Grows t.recommendations (run d saving recommending today items t).1.recommendations
  unfolding run
  run-Grows saving recommending today [] t = Grows-refl t.recommendations
  run-Grows saving recommending today (item ∷ items) t =
      recommended-Grows recommending t.recommendations (item ∷ items)
        (save d saving today (item ∷ items) t) (save-Grows saving today (item ∷ items) t)
