-- ===== src/Terraform/Editor.antt =====
-- src/remediators/terraform_editor.py: the edits of the Terraform code, and the search for references.
use text.Mathlib.Text.{starts_with}
use wasteless.Common.{
  ℕ, suc, zero, ◌-◌, String, Bool, false, not, ◌&&◌, ◌||◌, Option, none, some, List, [], ◌∷◌, ◌++◌,
  str_eq, leb, take, drop, length, if◌then◌else◌,
}
use wasteless.Python.{
  Result, ok, raised, error, ◌>>=◌, ◌>>◌, raise_if, no_such_file, invalid_range,
  attribute_not_found, os_error, strip, joined,
}
use wasteless.Terraform.{Content, missing, unreadable, lines, Checkout, Patterns}

-- The file of an edit, with its lines before and after, of which the diff is made.
pub record BlockEdit : Type 0 where
  pub file : String
  pub old_lines : List String
  pub new_lines : List String

-- `_resolve` and the reading of the file
abbrev pub read_resolved : Content → Result (List String)
read_resolved missing = raised (error no_such_file)
read_resolved unreadable = raised (error os_error)
read_resolved (lines ls) = ok ls

-- `path.read_text()`
abbrev pub read_text : Content → Result (List String)
read_text missing = raised (error os_error)
read_text unreadable = raised (error os_error)
read_text (lines ls) = ok ls

abbrev pub write_text : String → List String → Checkout → Checkout
write_text file ls dir = record dir {
  content = λ name. if str_eq name file then lines ls else dir.content name;
}

unfoldable pub check_range : List String → ℕ → ℕ → Result (Unit {0})
check_range ls start_line end_line =
    raise_if (not (leb 1 start_line && leb start_line end_line && leb end_line (length ls)))
      (error invalid_range)

abbrev pub is_blank : String → Bool
is_blank line = str_eq (strip line) ""

-- The lines from `end` on, behind the blank ones.
unfoldable pub skip_blank : List String → List String
skip_blank [] = []
skip_blank (line ∷ rest) = if is_blank line then skip_blank rest else line ∷ rest

-- `old_lines[: start_line - 1] + old_lines[end:]`
unfoldable pub without_lines : ℕ → ℕ → List String → List String
without_lines start_line end_line ls = take (start_line - 1) ls ++ skip_blank (drop end_line ls)

unfoldable pub remove_block : String → ℕ → ℕ → Checkout → Result (BlockEdit × Checkout)
remove_block file start_line end_line dir = do
  old_lines ← read_resolved (dir.content file)
  check_range old_lines start_line end_line
  let new_lines = without_lines start_line end_line old_lines
  ok (
    record { file = file; old_lines = old_lines; new_lines = new_lines },
    write_text file new_lines dir,
  )

abbrev pub behind : String → Option (List String) → Option (List String)
behind line none = none
behind line (some rest) = some (line ∷ rest)

-- A line that matches is replaced, else the loop goes on.
abbrev pub or_replaced :
    String → List String → Option (List String) → Option String → Option (List String)
or_replaced new_value rest later none = later
or_replaced new_value rest later (some prefix) = some (joined prefix (joined new_value "\n") ∷ rest)

module _ (p : Patterns) where
  -- The loop over the `n` lines of the block; none where no line is the attribute.
  unfoldable pub set_first : String → String → ℕ → List String → Option (List String)
  set_first attribute new_value zero ls = none
  set_first attribute new_value (suc n) [] = none
  set_first attribute new_value (suc n) (line ∷ rest) =
      let later = behind line (set_first attribute new_value n rest) in
      or_replaced new_value rest later (p.attribute attribute line)

  abbrev pub or_not_found : Option (List String) → Result (List String)
  or_not_found none = raised (error attribute_not_found)
  or_not_found (some ls) = ok ls

  unfoldable pub set_block_attribute :
      String → ℕ → ℕ → String → String → Checkout → Result (BlockEdit × Checkout)
  set_block_attribute file start_line end_line attribute new_value dir = do
    old_lines ← read_resolved (dir.content file)
    check_range old_lines start_line end_line
    edited ← or_not_found (
        set_first attribute new_value (end_line - (start_line - 1))
          (drop (start_line - 1) old_lines))
    let new_lines = take (start_line - 1) old_lines ++ edited
    ok (
      record { file = file; old_lines = old_lines; new_lines = new_lines },
      write_text file new_lines dir,
    )

  abbrev pub is_comment : String → Bool
  is_comment line = starts_with (strip line) "#" || starts_with (strip line) "//"

  -- The line `i` of a file lies in the range that is excluded.
  abbrev pub is_excluded : String → ℕ → Option (String × ℕ × ℕ) → Bool
  is_excluded file i none = false
  is_excluded file i (some (f, s, e)) = str_eq file f && leb s i && leb i e

  -- Whether a line is listed by `find_references`; it is read without its end.
  abbrev pub refers : String → String → Option (String × ℕ × ℕ) → String → ℕ → String → Bool
  refers type name own file i line =
      not (is_comment line)
      && p.mentions type name line
      && not (is_excluded file i own)
      && not (p.heads type name line)

  -- The references in the lines of a file, of which `i` is the number of the first.
  unfoldable pub references_in :
      String → String → Option (String × ℕ × ℕ) → String → ℕ → List String → List (String × ℕ)
  references_in type name own file i [] = []
  references_in type name own file i (line ∷ rest) =
      let later = references_in type name own file (suc i) rest in
      if refers type name own file i (p.chomp line) then (file, i) ∷ later else later

  unfoldable pub references_among :
      String
      → String
      → Option (String × ℕ × ℕ)
      → (String → Content)
      → List String
      → Result (List (String × ℕ))
  references_among type name own content [] = ok []
  references_among type name own content (file ∷ files) = do
    ls ← read_text (content file)
    later ← references_among type name own content files
    ok (references_in type name own file 1 ls ++ later)

  unfoldable pub find_references :
      Checkout → String → String → Option (String × ℕ × ℕ) → Result (List (String × ℕ))
  find_references dir type name own = references_among type name own dir.content dir.names
