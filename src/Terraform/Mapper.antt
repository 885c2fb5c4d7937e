-- ===== src/Terraform/Mapper.antt =====
-- src/remediators/terraform_mapper.py: the index of a state, and the block of a resource.
--
-- A state is what `terraform show -json` says of the root module; an entry of `values` that is no
-- text, or is empty, is none.
use wasteless.Common.{
  ℕ, suc, ◌+◌, String, Bool, false, ◌&&◌, Option, none, some, List, [], ◌∷◌, str_eq, ◌==◌,
  if◌then◌else◌,
}
use wasteless.Python.{
  Result, ok, raised, error, ◌>>=◌, not_a_directory, unbalanced_braces, codes, count_code,
}
use wasteless.Terraform.{Content, missing, unreadable, lines, Checkout, Patterns}

-- A resource of the state. `ids` are the values under `id` and SECONDARY_ID_ATTRIBUTES, in order.
pub record Entry : Type 0 where
  pub mode : String
  pub address : String
  pub type : String
  pub name : String
  -- `str(values.get("id", ""))`
  pub id : String
  pub ids : List (Option String)

mutual
  pub data Module : Type 0 where
    node : String → List Entry → Modules → Module

  pub data Modules : Type 0 where
    nil : Modules
    cons : Module → Modules → Modules

pub record TerraformResource : Type 0 where
  pub address : String
  pub resource_type : String
  pub name : String
  pub resource_id : String
  pub module_path : String
  -- `file`, `start_line` and `end_line`, which are set together
  pub place : Option (String × ℕ × ℕ)

abbrev pub Index : Type 0
Index = List (String × TerraformResource)

-- `self._by_id.get`
unfoldable pub find_by_id : String → Index → Option TerraformResource
find_by_id id [] = none
find_by_id id ((j, r) ∷ index) = if str_eq j id then some r else find_by_id id index

-- `self._by_id.setdefault(value, resource)`; a new key is added at the end
unfoldable pub setdefault : String → TerraformResource → Index → Index
setdefault id r [] = (id, r) ∷ []
setdefault id r ((j, q) ∷ index) =
    if str_eq j id then (j, q) ∷ index else (j, q) ∷ setdefault id r index

unfoldable pub add_ids : List (Option String) → TerraformResource → Index → Index
add_ids [] r index = index
add_ids (none ∷ ids) r index = add_ids ids r index
add_ids (some id ∷ ids) r index =
    add_ids ids r (if str_eq id "" then index else setdefault id r index)

abbrev pub resource_of : String → Entry → TerraformResource
resource_of path e = record {
  address = e.address;
  resource_type = e.type;
  name = e.name;
  resource_id = e.id;
  module_path = path;
  place = none;
}

unfoldable pub index_resources : String → List Entry → Index → Index
index_resources path [] index = index
index_resources path (e ∷ es) index =
    index_resources path es
      (if str_eq e.mode "managed" then add_ids e.ids (resource_of path e) index else index)

unfoldable mutual
  -- `_index_module`, which goes on with the address of each child module as its path
  pub index_module : Module → String → Index → Index
  index_module (node address resources children) path index =
      index_modules children (index_resources path resources index)

  pub index_modules : Modules → Index → Index
  index_modules nil index = index
  index_modules (cons m ms) index = index_modules ms (index_module m (address_of m) index)

  pub address_of : Module → String
  address_of (node address resources children) = address

-- `TerraformMapper(state)`
unfoldable pub index_of : Module → Index
index_of root = index_module root "" []

abbrev pub opens : String → ℕ
opens line = count_code b'{' (codes line)

abbrev pub closes : String → ℕ
closes line = count_code b'}' (codes line)

abbrev pub longer : Option ℕ → Option ℕ
longer none = none
longer (some n) = some (suc n)

-- The inner loop of `locate_block`: how many lines it takes until `depth`, which is kept as the
-- braces opened and closed so far, is 0.
unfoldable pub block_length : ℕ → ℕ → List String → Option ℕ
block_length opened closed [] = none
block_length opened closed (line ∷ rest) =
    let n = block_length (opened + opens line) (closed + closes line) rest in
    if opened + opens line == closed + closes line then some 1 else longer n

-- A line is the header of the block, or the search goes on.
abbrev pub is_header : String → String → Option (String × String) → Bool
is_header type name none = false
is_header type name (some (t, n)) = str_eq t type && str_eq n name

module _ (p : Patterns) where
  -- The loop over the lines, of which `before` went before; a range is that of the lines from
  -- `start_line` to `end_line`.
  unfoldable pub find_block : String → String → ℕ → List String → Result (Option (ℕ × ℕ))
  find_block type name before [] = ok none
  find_block type name before (line ∷ rest) =
      let later = find_block type name (suc before) rest in
      if is_header type name (p.header (p.chomp line))
      then elim (block_length 0 0 (line ∷ rest)) [
        | none ↦ raised (error unbalanced_braces)
        | some n ↦ ok (some (suc before, before + n))
      ]
      else later

  abbrev pub blocks_in : String → String → Content → Result (Option (ℕ × ℕ))
  blocks_in type name missing = ok none
  blocks_in type name unreadable = ok none
  blocks_in type name (lines ls) = find_block type name 0 ls

  abbrev pub in_file :
      String
      → Result (Option (String × ℕ × ℕ))
      → Result (Option (ℕ × ℕ))
      → Result (Option (String × ℕ × ℕ))
  in_file file later (raised e) = raised e
  in_file file later (ok none) = later
  in_file file later (ok (some (s, e))) = ok (some (file, s, e))

  unfoldable pub locate_in :
      String → String → (String → Content) → List String → Result (Option (String × ℕ × ℕ))
  locate_in type name content [] = ok none
  locate_in type name content (file ∷ files) =
      in_file file (locate_in type name content files) (blocks_in type name (content file))

  unfoldable pub locate_block : Checkout → String → String → Result (Option (String × ℕ × ℕ))
  locate_block dir type name =
      if dir.is_dir
      then locate_in type name dir.content dir.names
      else raised (error not_a_directory)

  -- `if location`
  abbrev pub set_place : Option (String × ℕ × ℕ) → TerraformResource → TerraformResource
  set_place none r = r
  set_place (some place) r = record r { place = some place }

  -- `locate` also leaves the place in the index, which no later call reads here.
  abbrev pub placed : Checkout → TerraformResource → Result (Option TerraformResource)
  placed dir r =
      if str_eq r.module_path ""
      then (locate_block dir r.resource_type r.name >>= λ place. ok (some (set_place place r)))
      else ok (some r)

  unfoldable pub locate : Index → String → Checkout → Result (Option TerraformResource)
  locate index id dir = elim (find_by_id id index) [ none ↦ ok none | some r ↦ placed dir r ]
