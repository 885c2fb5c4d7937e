-- ===== src/Terraform/Proposal.antt =====
-- src/remediators/terraform_pr.py: the pull request that removes a resource. Its title and its body
-- are left out.
use wasteless.Common.{ℕ, String, Bool, Option, none, some, List, [], ◌∷◌, if◌then◌else◌}
use wasteless.Python.{
  Result, ok, raised, error, dangling_references, validation_failed, command_failed, index_error,
  joined, ◌>>=◌,
}
use wasteless.Terraform.{Checkout, Patterns}
use wasteless.Terraform.Mapper.{TerraformResource, Module, Index, index_of, locate}
use wasteless.Terraform.Editor.{BlockEdit, find_references, remove_block}

-- The commands that `_run` runs, with the branch where they name it.
pub data Command : Type 0 where
  clone init add_all commit : Command
  checkout push create_pr : String → Command

pub record Tools : Type 0 where
  pub patterns : Patterns
  pub dry_run : Bool
  -- whether a command ends with another code than 0
  pub fails : Command → Bool
  -- the clone, and what `terraform show -json` says of a checkout
  pub cloned : Checkout
  pub show : Checkout → Result Module
  -- whether `terraform validate` ends with the code 0
  pub validates : Checkout → Bool
  -- the lines that `gh pr create` prints
  pub printed : List String

pub record PrProposal : Type 0 where
  pub resource_id : String
  pub address : String
  pub branch : String
  pub diff : BlockEdit
  pub dry_run : Bool
  pub pr_url : Option String

-- The commands run so far, newest first.
abbrev pub Log : Type 0
Log = List Command

-- `[-1]`
abbrev pub last_line : List String → Result String
last_line [] = raised (error index_error)
last_line (line ∷ []) = ok line
last_line (line ∷ next ∷ rest) = last_line (next ∷ rest)

-- `f"wasteless/remove-{resource_id}"`
abbrev pub branch_of : String → String
branch_of resource_id = joined "wasteless/remove-" resource_id

abbrev pub steps : String → List Command
steps branch = checkout branch ∷ add_all ∷ commit ∷ push branch ∷ create_pr branch ∷ []

module _ (t : Tools) where
  -- Calls of `_run`, one behind the other.
  unfoldable pub run_all : List Command → Log → Result (Unit {0}) × Log
  run_all [] log = (ok tt, log)
  run_all (c ∷ cs) log =
      let rest = run_all cs (c ∷ log) in
      if t.fails c then (raised (error command_failed), c ∷ log) else rest

  abbrev pub after_edit :
      TerraformResource
      → Checkout
      → Result (BlockEdit × Checkout)
      → Result (Option (TerraformResource × BlockEdit)) × Checkout
  after_edit r dir (raised e) = (raised e, dir)
  after_edit r dir (ok (edit, dir')) =
      (if t.validates dir' then ok (some (r, edit)) else raised (error validation_failed), dir')

  abbrev pub after_search :
      TerraformResource
      → String × ℕ × ℕ
      → Checkout
      → Result (List (String × ℕ))
      → Result (Option (TerraformResource × BlockEdit)) × Checkout
  after_search r place dir (raised e) = (raised e, dir)
  after_search r place dir (ok (x ∷ xs)) = (raised (error dangling_references), dir)
  after_search r (file, start_line, end_line) dir (ok []) =
      after_edit r dir (remove_block file start_line end_line dir)

  abbrev pub at_place :
      TerraformResource
      → Checkout
      → Option (String × ℕ × ℕ)
      → Result (Option (TerraformResource × BlockEdit)) × Checkout
  at_place r dir none = (ok none, dir)
  at_place r dir (some place) =
      after_search r place dir (find_references t.patterns dir r.resource_type r.name (some place))

  abbrev pub after_locate :
      Checkout
      → Result (Option TerraformResource)
      → Result (Option (TerraformResource × BlockEdit)) × Checkout
  after_locate dir (raised e) = (raised e, dir)
  after_locate dir (ok none) = (ok none, dir)
  after_locate dir (ok (some r)) = at_place r dir r.place

  -- From the search of the resource to the validation, with the working copy behind them.
  unfoldable pub remove_resource :
      Index → String → Checkout → Result (Option (TerraformResource × BlockEdit)) × Checkout
  remove_resource index resource_id dir = after_locate dir (locate t.patterns index resource_id dir)

  abbrev pub proposal_of :
      String → TerraformResource → BlockEdit → Option String → Option PrProposal
  proposal_of resource_id r edit url = some (record {
    resource_id = resource_id;
    address = r.address;
    branch = branch_of resource_id;
    diff = edit;
    dry_run = t.dry_run;
    pr_url = url;
  })

  abbrev pub opened :
      String
      → TerraformResource
      → BlockEdit
      → Result (Unit {0}) × Log
      → Result (Option PrProposal) × Log
  opened resource_id r edit (raised e, log) = (raised e, log)
  opened resource_id r edit (ok u, log) =
      (last_line t.printed >>= λ url. ok (proposal_of resource_id r edit (some url)), log)

  abbrev pub conclude :
      String
      → Log
      → Result (Option (TerraformResource × BlockEdit))
      → Result (Option PrProposal) × Log
  conclude resource_id log (raised e) = (raised e, log)
  conclude resource_id log (ok none) = (ok none, log)
  conclude resource_id log (ok (some (r, edit))) =
      if t.dry_run
      then (ok (proposal_of resource_id r edit none), log)
      else opened resource_id r edit (run_all (steps (branch_of resource_id)) log)

  abbrev pub with_mapper :
      String → Checkout → Result Module → Log → (Result (Option PrProposal) × Log) × Checkout
  with_mapper resource_id dir (raised e) log = ((raised e, log), dir)
  with_mapper resource_id dir (ok root) log =
      let (found, dir') = remove_resource (index_of root) resource_id dir in
      (conclude resource_id log found, dir')

  abbrev pub in_workdir :
      String
      → Option Module
      → Result (Unit {0}) × Log
      → Checkout
      → (Result (Option PrProposal) × Log) × Checkout
  in_workdir resource_id mapper (raised e, log) dir = ((raised e, log), dir)
  in_workdir resource_id mapper (ok u, log) dir =
      with_mapper resource_id dir (elim mapper [ none ↦ t.show dir | some root ↦ ok root ]) log

  -- `workdir` may be given, and `mapper` by its state, which is taken to be that of the working copy:
  -- a mapper that is used again after an edit, with places that no longer hold, is not modelled. The
  -- result is with the log and the working copy.
  unfoldable pub propose_removal :
      String → Option Checkout → Option Module → Log → (Result (Option PrProposal) × Log) × Checkout
  propose_removal resource_id (some dir) mapper log = in_workdir resource_id mapper (ok tt, log) dir
  propose_removal resource_id none mapper log =
      in_workdir resource_id mapper (run_all (clone ∷ init ∷ []) log) t.cloned
