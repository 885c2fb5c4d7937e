-- ===== src/Terraform.antt =====
-- src/remediators/terraform_mapper.py, terraform_editor.py and terraform_pr.py: the pull request that
-- removes a resource from the Terraform code.
--
-- A checkout is what a working copy holds: a file is the list of its lines, each with its end, as
-- splitlines(keepends=True) reads it and "".join writes it. The regular expressions, and what
-- splitlines() leaves of a line, are `Patterns`; the text of the diff, which difflib makes of the
-- lines before and after an edit, is left as the two.
pub mod Mapper
pub mod Editor
pub mod Proposal
pub mod Blocks
pub mod Removals
pub mod Owners
pub mod References
pub mod Edits
pub mod Requests
mod Tests
use wasteless.Common.{String, Bool, Option, List}

pub data Content : Type 0 where
  -- not a file
  missing : Content
  -- a file whose reading raises OSError
  unreadable : Content
  lines : List String → Content

pub record Checkout : Type 0 where
  pub is_dir : Bool
  -- `sorted(directory.glob("*.tf"))`
  pub names : List String
  pub content : String → Content

pub record Patterns : Type 0 where
  -- a line without its end
  pub chomp : String → String
  -- RESOURCE_HEADER_RE.match, with its groups type and name
  pub header : String → Option (String × String)
  -- `\b<type>\.<name>\b`, searched in a line
  pub mentions : String → String → String → Bool
  -- `\s*resource\s+"<type>"\s+"<name>"` at the start of a line
  pub heads : String → String → String → Bool
  -- the prefix of `<attribute> = <value>`, where a line that lost its "\n" is one
  pub attribute : String → String → Option String
