-- ===== src/Terraform/Owners.antt =====
-- src/remediators/terraform_mapper.py, `_index_module`: which resource an identifier leads to.
use wasteless.Common.{
  ◌≡◌, subst, refl, sym, ap, ◌∙◌, inl, inr, String, Bool, true, false, not, ◌&&◌, ◌||◌, Option,
  none, some, List, [], ◌∷◌, str_eq, eq_iff, arith, any, Bool-cases, if◌then◌else◌,
}
use wasteless.Terraform.Mapper.{
  Entry, Module, Modules, node, nil, cons, TerraformResource, Index, find_by_id, setdefault,
  add_ids, resource_of, index_resources, index_module, index_modules, address_of, index_of,
}

abbrev pub names : String → Option String → Bool
names id none = false
names id (some i) = not (str_eq i "") && str_eq i id

-- Whether a resource is managed by Terraform and has the identifier.
abbrev pub owns : String → Entry → Bool
owns id e = str_eq e.mode "managed" && any (names id) e.ids

abbrev pub or_next : Option TerraformResource → Option TerraformResource → Option TerraformResource
or_next none next = next
or_next (some r) next = some r

-- The first resource of the list that has the identifier.
abbrev pub owner_in : String → String → List Entry → Option TerraformResource
owner_in id path [] = none
owner_in id path (e ∷ es) = if owns id e then some (resource_of path e) else owner_in id path es

mutual
  -- The first resource that has it, those of a module before those of its children.
  pub owner : String → String → Module → Option TerraformResource
  owner id path (node address resources children) =
      or_next (owner_in id path resources) (owner_below id children)

  pub owner_below : String → Modules → Option TerraformResource
  owner_below id nil = none
  owner_below id (cons m ms) = or_next (owner id (address_of m) m) (owner_below id ms)

module _ (id : String) where
  or_next_assoc :
      (a b c : Option TerraformResource) → or_next (or_next a b) c ≡ or_next a (or_next b c)
  or_next_assoc none b c = refl
  or_next_assoc (some r) b c = refl

  or_next-none : (a : Option TerraformResource) → or_next a none ≡ a
  or_next-none none = refl
  or_next-none (some r) = refl

  find_by_id-setdefault :
      (j : String) (r : TerraformResource) (index : Index)
      → find_by_id id (setdefault j r index)
        ≡ or_next (find_by_id id index) (if str_eq j id then some r else none)
  unfolding find_by_id setdefault
  find_by_id-setdefault j r [] = refl
  find_by_id-setdefault j r ((i, q) ∷ index) =
      ground (arith, find_by_id-setdefault j r index, eq_iff i j, eq_iff i id, eq_iff j id)

  add_one :
      (i : String) (r : TerraformResource) (index : Index)
      → find_by_id id (if str_eq i "" then index else setdefault i r index)
        ≡ or_next (find_by_id id index) (if names id (some i) then some r else none)
  add_one i r index = elim (Bool-cases (str_eq i "")) [
    | inl blank ↦ rw blank (sym (or_next-none (find_by_id id index)))
    | inr given ↦ rw given (find_by_id-setdefault i r index)
  ]

  either :
      (a b : Bool) (r : TerraformResource)
      → or_next (if a then some r else none) (if b then some r else none)
        ≡ (if a || b then some r else none)
  either true b r = refl
  either false b r = refl

  find_by_id-add_ids :
      (ids : List (Option String)) (r : TerraformResource) (index : Index)
      → find_by_id id (add_ids ids r index)
        ≡ or_next (find_by_id id index) (if any (names id) ids then some r else none)
  unfolding add_ids
  find_by_id-add_ids [] r index = sym (or_next-none (find_by_id id index))
  find_by_id-add_ids (none ∷ ids) r index = find_by_id-add_ids ids r index
  find_by_id-add_ids (some i ∷ ids) r index =
      let added = if str_eq i "" then index else setdefault i r index in
      find_by_id-add_ids ids r added
      ∙ ap (λ o. or_next o (if any (names id) ids then some r else none)) (add_one i r index)
      ∙ or_next_assoc (find_by_id id index) _ _
      ∙ ap (or_next (find_by_id id index)) (either (names id (some i)) (any (names id) ids) r)

  index_one :
      (path : String) (e : Entry) (index : Index)
      → find_by_id id
          (if str_eq e.mode "managed" then add_ids e.ids (resource_of path e) index else index)
        ≡ or_next (find_by_id id index) (if owns id e then some (resource_of path e) else none)
  index_one path e index = elim (Bool-cases (str_eq e.mode "managed")) [
    | inl managed ↦ rw managed (find_by_id-add_ids e.ids (resource_of path e) index)
    | inr other ↦ rw other (sym (or_next-none (find_by_id id index)))
  ]

  or_owner :
      (b : Bool) (r : TerraformResource) (next : Option TerraformResource)
      → or_next (if b then some r else none) next ≡ (if b then some r else next)
  or_owner true r next = refl
  or_owner false r next = refl

  find_by_id-index_resources :
      (path : String) (es : List Entry) (index : Index)
      → find_by_id id (index_resources path es index)
        ≡ or_next (find_by_id id index) (owner_in id path es)
  unfolding index_resources
  find_by_id-index_resources path [] index = sym (or_next-none (find_by_id id index))
  find_by_id-index_resources path (e ∷ es) index =
      let added =
        if str_eq e.mode "managed" then add_ids e.ids (resource_of path e) index else index in
      find_by_id-index_resources path es added
      ∙ ap (λ o. or_next o (owner_in id path es)) (index_one path e index)
      ∙ or_next_assoc (find_by_id id index) _ _
      ∙ ap (or_next (find_by_id id index))
          (or_owner (owns id e) (resource_of path e) (owner_in id path es))

  mutual
    unfolding index_module index_modules owner owner_below

    find_by_id-index_module :
        (m : Module) (path : String) (index : Index)
        → find_by_id id (index_module m path index)
          ≡ or_next (find_by_id id index) (owner id path m)
    find_by_id-index_module (node address resources children) path index =
        find_by_id-index_modules children (index_resources path resources index)
        ∙ ap (λ o. or_next o (owner_below id children))
            (find_by_id-index_resources path resources index)
        ∙ or_next_assoc (find_by_id id index) _ _

    find_by_id-index_modules :
        (ms : Modules) (index : Index)
        → find_by_id id (index_modules ms index) ≡ or_next (find_by_id id index) (owner_below id ms)
    find_by_id-index_modules nil index = sym (or_next-none (find_by_id id index))
    find_by_id-index_modules (cons m ms) index =
        find_by_id-index_modules ms (index_module m (address_of m) index)
        ∙ ap (λ o. or_next o (owner_below id ms)) (find_by_id-index_module m (address_of m) index)
        ∙ or_next_assoc (find_by_id id index) _ _

  -- The index that is built of a state finds under an identifier the first managed resource that has
  -- it, in the order of the modules, those of a module before those of its children: an identifier
  -- that is empty, or that a later resource has too, changes nothing.
  pub find_by_id-index_of : (root : Module) → find_by_id id (index_of root) ≡ owner id "" root
  unfolding index_of find_by_id
  find_by_id-index_of root = find_by_id-index_module root "" []

-- What no place was set for.
abbrev IsFresh : Option TerraformResource → Type 0
IsFresh none = Unit
IsFresh (some r) = r.place ≡ none

or_next-IsFresh : (a b : Option TerraformResource) → IsFresh a → IsFresh b → IsFresh (or_next a b)
or_next-IsFresh none b p q = q
or_next-IsFresh (some r) b p q = p

owner_in-IsFresh : (id path : String) (es : List Entry) → IsFresh (owner_in id path es)
owner_in-IsFresh id path [] = tt
owner_in-IsFresh id path (e ∷ es) = elim (Bool-cases (owns id e)) [
  | inl here ↦ rw here refl
  | inr other ↦ rw other (owner_in-IsFresh id path es)
]

mutual
  unfolding owner owner_below

  owner-IsFresh : (id path : String) (m : Module) → IsFresh (owner id path m)
  owner-IsFresh id path (node address resources children) =
      or_next-IsFresh (owner_in id path resources) (owner_below id children)
        (owner_in-IsFresh id path resources) (owner_below-IsFresh id children)

  owner_below-IsFresh : (id : String) (ms : Modules) → IsFresh (owner_below id ms)
  owner_below-IsFresh id nil = tt
  owner_below-IsFresh id (cons m ms) =
      or_next-IsFresh (owner id (address_of m) m) (owner_below id ms)
        (owner-IsFresh id (address_of m) m) (owner_below-IsFresh id ms)

-- A new index has no places.
pub index_of_fresh :
    (id : String) (root : Module) (r : TerraformResource)
    → find_by_id id (index_of root) ≡ some r
    → r.place ≡ none
index_of_fresh id root r h =
    subst IsFresh (sym (find_by_id-index_of id root) ∙ h) (owner-IsFresh id "" root)
