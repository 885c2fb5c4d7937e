-- ===== src/Terraform/Tests.antt =====
-- A working copy of two files, with a volume that nothing refers to and an address that a gateway does.
use text.Mathlib.Text.{starts_with}
use wasteless.Common.{
  ◌≡◌, refl, String, true, false, none, some, List, [], ◌∷◌, str_eq, any, if◌then◌else◌,
}
use wasteless.Python.{ok, count_code, strip_left, strip_right}
use wasteless.Terraform.{Content, missing, lines, Checkout, Patterns}
use wasteless.Terraform.Mapper.{
  Entry, Module, node, nil, index_of, index_module, index_modules, index_resources, add_ids,
  setdefault, find_by_id, locate, locate_block, locate_in, find_block, block_length,
}
use wasteless.Terraform.Editor.{
  BlockEdit, remove_block, check_range, without_lines, skip_blank, find_references,
  references_among, references_in, set_block_attribute, set_first, write_text,
}
use wasteless.Terraform.Proposal.{Tools, branch_of, run_all, remove_resource, propose_removal}
use wasteless.Terraform.Blocks.{Located, locate_block-Located}
use wasteless.Terraform.Owners.{owner, find_by_id-index_of}
use wasteless.Terraform.Edits.{SetInBlock, set_block_attribute-SetInBlock}
use wasteless.Terraform.Removals.{IsRemoved}
use wasteless.Terraform.Requests.{
  is_create_pr, IsPushed, chosen_state, workdir_of, propose_removal_created,
}

abbrev volume_lines : List String
volume_lines =
    "resource \"aws_ebs_volume\" \"logs\" {\n" ∷ "  type = \"gp2\"\n" ∷ "}\n" ∷ "\n"
    ∷ "# aws_ebs_volume.logs\n" ∷ []

abbrev content : String → Content
content name = if str_eq name "main.tf" then lines volume_lines else missing

abbrev dir : Checkout
dir = record { is_dir = true; names = "main.tf" ∷ []; content = content }

abbrev patterns : Patterns
patterns = record {
  chomp = λ line. line;
  header = λ line. if starts_with line "resource" then some ("aws_ebs_volume", "logs") else none;
  mentions = λ type name line. starts_with line "#";
  heads = λ type name line. starts_with line "resource";
  attribute = λ attribute line. if starts_with line "  type" then some "  type = " else none;
}

abbrev entry : Entry
entry = record {
  mode = "managed";
  address = "aws_ebs_volume.logs";
  type = "aws_ebs_volume";
  name = "logs";
  id = "vol-1";
  ids = some "vol-1" ∷ none ∷ [];
}

abbrev root : Module
root = node "" (entry ∷ []) nil

located : locate_block patterns dir "aws_ebs_volume" "logs" ≡ ok (some ("main.tf", 1, 3))
unfolding locate_block locate_in find_block block_length count_code
located = refl

locate_block-Located_example : Located patterns "aws_ebs_volume" "logs" content ("main.tf", 1, 3)
locate_block-Located_example =
    locate_block-Located patterns "aws_ebs_volume" "logs" dir ("main.tf", 1, 3) located

find_by_id-index_of_example : find_by_id "vol-1" (index_of root) ≡ owner "vol-1" "" root
find_by_id-index_of_example = find_by_id-index_of "vol-1" root

abbrev after_edit : List String
after_edit =
    "resource \"aws_ebs_volume\" \"logs\" {\n" ∷ "  type = \"gp3\"\n" ∷ "}\n" ∷ "\n"
    ∷ "# aws_ebs_volume.logs\n" ∷ []

abbrev gp3_edit : BlockEdit
gp3_edit = record { file = "main.tf"; old_lines = volume_lines; new_lines = after_edit }

migrated :
    set_block_attribute patterns "main.tf" 1 3 "type" "\"gp3\"" dir
    ≡ ok (gp3_edit, write_text "main.tf" after_edit dir)
unfolding set_block_attribute set_first check_range
migrated = refl

set_block_attribute-SetInBlock_example :
    (content "main.tf" ≡ lines volume_lines)
    × SetInBlock patterns "type" "\"gp3\"" 1 3 volume_lines after_edit
    × (write_text "main.tf" after_edit dir ≡ write_text "main.tf" after_edit dir)
set_block_attribute-SetInBlock_example =
    set_block_attribute-SetInBlock patterns "type" "\"gp3\"" "main.tf" 1 3 dir
      (write_text "main.tf" after_edit dir) gp3_edit migrated

unreferenced : find_references patterns dir "aws_ebs_volume" "logs" (some ("main.tf", 1, 3)) ≡ ok []
unfolding find_references references_among references_in strip_left strip_right
unreferenced = refl

abbrev tools : Tools
tools = record {
  patterns = patterns;
  dry_run = false;
  fails = λ _. false;
  cloned = dir;
  show = λ _. ok root;
  validates = λ _. true;
  printed = "https://github.com/acme/infra/pull/7" ∷ [];
}

opens_one : any is_create_pr (propose_removal tools "vol-1" none none []).0.1 ≡ true
unfolding propose_removal run_all remove_resource locate find_by_id index_of index_module
    index_modules index_resources add_ids setdefault locate_block locate_in find_block block_length
    count_code find_references references_among references_in strip_left strip_right remove_block
    check_range without_lines skip_blank
opens_one = refl

propose_removal_created_example :
    (tools.dry_run ≡ false)
    × IsPushed tools (branch_of "vol-1") (propose_removal tools "vol-1" none none []).0.1
    × ((m : Module) × (chosen_state tools none (workdir_of tools none) ≡ ok m)
        × IsRemoved tools "vol-1" m
            (workdir_of tools none)
            (propose_removal tools "vol-1" none none []).1)
propose_removal_created_example = propose_removal_created tools "vol-1" none none [] refl opens_one
