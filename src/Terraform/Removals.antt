-- ===== src/Terraform/Removals.antt =====
-- src/remediators/terraform_pr.py, `propose_removal`: what stands behind a pull request.
use wasteless.Common.{
  ◌≡◌, refl, inl, inr, ℕ, leb, String, true, Option, none, some, List, [], ◌∷◌, str_eq, eq_iff,
  arith, length, Bool-cases,
}
use wasteless.Python.{Result, ok, raised, ◌>>=◌}
use wasteless.Terraform.{lines, Checkout, Patterns}
use wasteless.Terraform.Mapper.{
  Module, TerraformResource, index_of, find_by_id, locate_block, locate, set_place, placed,
}
use wasteless.Terraform.Editor.{
  BlockEdit, check_range, without_lines, write_text, remove_block, find_references,
}
use wasteless.Terraform.Proposal.{
  Tools, after_edit, after_search, at_place, after_locate, remove_resource,
}
use wasteless.Terraform.Blocks.{IsBlock, locate_block-Located}
use wasteless.Terraform.Owners.{index_of_fresh}

-- Lines of a block are within the file, so that the edit of a place that was located goes through.
remove_block_lem :
    (p : Patterns) (type name file : String) (s e : ℕ) (ls : List String) (dir : Checkout)
    → dir.content file ≡ lines ls
    → IsBlock p type name ls s e
    → remove_block file s e dir
      ≡ ok (
        record { file = file; old_lines = ls; new_lines = without_lines s e ls },
        write_text file (without_lines s e ls) dir,
      )
unfolding remove_block check_range
remove_block_lem p type name file s e ls dir is b =
    let starts : leb 1 s ≡ true = ground (arith, b.starts) in
    let ends : leb s e ≡ true = ground (arith, b.ends) in
    let within : leb e (length ls) ≡ true = ground (arith, b.within) in
    rw (is, starts, ends, within) refl

-- `dir'` is `dir` without the block of the resource that owns the identifier, and it is safe to be
-- so: the block is found in the root module, nothing refers to the resource from outside of it, and
-- Terraform accepts what is left.
pub record IsRemoved (t : Tools) (id : String) (root : Module) (dir dir' : Checkout) : Type 0 where
  pub r : TerraformResource
  pub file : String
  pub s : ℕ
  pub e : ℕ
  pub ls : List String
  pub found : find_by_id id (index_of root) ≡ some r
  pub in_root : r.module_path ≡ ""
  pub there : dir.content file ≡ lines ls
  pub is_block : IsBlock t.patterns r.resource_type r.name ls s e
  pub unreferenced :
      find_references t.patterns dir r.resource_type r.name (some (file, s, e)) ≡ ok []
  pub becomes : dir' ≡ write_text file (without_lines s e ls) dir
  pub validated : t.validates dir' ≡ true

module _ (t : Tools) (id : String) (root : Module) (dir : Checkout) where
  abbrev Ends : Result (Option (TerraformResource × BlockEdit)) × Checkout → Type 0
  Ends x =
      (found : TerraformResource × BlockEdit) → x.0 ≡ ok (some found) → IsRemoved t id root dir x.1

  edit-Ends :
      (r r' : TerraformResource) (file : String) (s e : ℕ) (ls : List String)
      → find_by_id id (index_of root) ≡ some r
      → r.module_path ≡ ""
      → dir.content file ≡ lines ls
      → IsBlock t.patterns r.resource_type r.name ls s e
      → find_references t.patterns dir r.resource_type r.name (some (file, s, e)) ≡ ok []
      → Ends (after_edit t r' dir (remove_block file s e dir))
  edit-Ends r r' file s e ls found in_root there b unreferenced =
      rw (remove_block_lem t.patterns r.resource_type r.name file s e ls dir there b) (λ out h.
        elim (Bool-cases (t.validates (write_text file (without_lines s e ls) dir))) [
          | inl good ↦ record {
            r = r;
            file = file;
            s = s;
            e = e;
            ls = ls;
            found = found;
            in_root = in_root;
            there = there;
            is_block = b;
            unreferenced = unreferenced;
            becomes = refl;
            validated = good;
          }
          | inr bad ↦ cc (rw bad at h)
        ])

  search-Ends :
      (r r' : TerraformResource) (file : String) (s e : ℕ) (ls : List String)
      (refs : Result (List (String × ℕ)))
      → find_by_id id (index_of root) ≡ some r
      → r.module_path ≡ ""
      → dir.content file ≡ lines ls
      → IsBlock t.patterns r.resource_type r.name ls s e
      → find_references t.patterns dir r.resource_type r.name (some (file, s, e)) ≡ refs
      → Ends (after_search t r' (file, s, e) dir refs)
  search-Ends r r' file s e ls (raised x) found in_root there b is = λ out h. cc
  search-Ends r r' file s e ls (ok (x ∷ xs)) found in_root there b is = λ out h. cc
  search-Ends r r' file s e ls (ok []) found in_root there b is =
      edit-Ends r r' file s e ls found in_root there b is

  place-Ends :
      (r : TerraformResource) (place : Option (String × ℕ × ℕ))
      → find_by_id id (index_of root) ≡ some r
      → r.module_path ≡ ""
      → locate_block t.patterns dir r.resource_type r.name ≡ ok place
      → Ends (at_place t (set_place t.patterns place r) dir (set_place t.patterns place r).place)
  place-Ends r none found in_root is =
      let fresh = index_of_fresh id root r found in rw fresh (λ out h. cc)
  place-Ends r (some (file, s, e)) found in_root is =
      let (ls, there, b) =
        locate_block-Located t.patterns r.resource_type r.name dir (file, s, e) is in
      search-Ends r (record r { place = some (file, s, e) }) file s e ls
        (find_references t.patterns dir r.resource_type r.name (some (file, s, e))) found in_root
        there b refl

  located-Ends :
      (r : TerraformResource) (place : Result (Option (String × ℕ × ℕ)))
      → find_by_id id (index_of root) ≡ some r
      → r.module_path ≡ ""
      → locate_block t.patterns dir r.resource_type r.name ≡ place
      → Ends (after_locate t dir (place >>= λ x. ok (some (set_place t.patterns x r))))
  located-Ends r (raised x) found in_root is = λ out h. cc
  located-Ends r (ok place) found in_root is = place-Ends r place found in_root is

  placed-Ends :
      (r : TerraformResource)
      → find_by_id id (index_of root) ≡ some r
      → Ends (after_locate t dir (placed t.patterns dir r))
  placed-Ends r found = elim (Bool-cases (str_eq r.module_path "")) [
    | inl in_root ↦ rw in_root (located-Ends r _ found ((eq_iff r.module_path "").0 in_root) refl)
    | inr child ↦ let fresh = index_of_fresh id root r found in rw child (rw fresh (λ out h. cc))
  ]

  found-Ends :
      (o : Option TerraformResource)
      → find_by_id id (index_of root) ≡ o
      → Ends (after_locate t dir (elim o [ none ↦ ok none | some r ↦ placed t.patterns dir r ]))
  found-Ends none found = λ out h. cc
  found-Ends (some r) found = placed-Ends r found

  pub remove_resource-IsRemoved : Ends (remove_resource t (index_of root) id dir)
  unfolding remove_resource locate
  remove_resource-IsRemoved = found-Ends _ refl
