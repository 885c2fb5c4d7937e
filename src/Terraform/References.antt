-- ===== src/Terraform/References.antt =====
-- src/remediators/terraform_editor.py, `find_references`: what a search that lists nothing has seen.
use wasteless.Common.{
  ◌≡◌, refl, inl, inr, ℕ, suc, String, false, Option, List, [], ◌∷◌, ◌++◌, All, Bool-cases,
}
use wasteless.Python.{ok, >>=-eq-ok}
use wasteless.Terraform.{Content, missing, unreadable, lines, Checkout, Patterns}
use wasteless.Terraform.Editor.{read_text, refers, references_in, references_among, find_references}

module _ (p : Patterns) (type name : String) (own : Option (String × ℕ × ℕ)) where
  -- No line of the file refers, of which `i` is the number of the first.
  abbrev pub NoneRefers : String → ℕ → List String → Type 0
  NoneRefers file i [] = Unit
  NoneRefers file i (line ∷ rest) =
      (refers p type name own file i (p.chomp line) ≡ false) × NoneRefers file (suc i) rest

  none_of :
      (file : String) (i : ℕ) (ls : List String)
      → references_in p type name own file i ls ≡ []
      → NoneRefers file i ls
  unfolding references_in
  none_of file i [] h = tt
  none_of file i (line ∷ rest) h =
      elim (Bool-cases (refers p type name own file i (p.chomp line))) [
        | inl refers_here ↦ cc (rw refers_here at h)
        | inr clear ↦ (clear, none_of file (suc i) rest (rw clear at h))
      ]

  -- A file that can be read, and of which no line refers.
  abbrev pub IsClear : (String → Content) → String → Type 0
  IsClear content file = (ls : List String) × (content file ≡ lines ls) × NoneRefers file 1 ls

  both_empty : {A : Type 0} (xs ys : List A) → xs ++ ys ≡ [] → (xs ≡ []) × (ys ≡ [])
  both_empty [] ys h = (refl, h)
  both_empty (x ∷ xs) ys h = cc

  text_lines : (c : Content) (ls : List String) → read_text c ≡ ok ls → c ≡ lines ls
  text_lines missing ls h = cc
  text_lines unreadable ls h = cc
  text_lines (lines l) ls h = cc

  all-IsClear :
      (content : String → Content) (files : List String)
      → references_among p type name own content files ≡ ok []
      → All (IsClear content) files
  unfolding references_among
  all-IsClear content [] h = tt
  all-IsClear content (file ∷ files) h =
      let (ls, read, h1) = >>=-eq-ok (read_text (content file)) _ h in
      let (later, next, h2) = >>=-eq-ok (references_among p type name own content files) _ h1 in
      let nothing : references_in p type name own file 1 ls ++ later ≡ [] = cc h2 in
      let (here, there) = both_empty _ later nothing in
      (
        (ls, text_lines (content file) ls read, none_of file 1 ls here),
        all-IsClear content files (rw there at next),
      )

  -- When the search for references lists nothing, then every file of the directory was read, and each
  -- of its lines that mentions the resource is a comment, lies in the block's own range, or is the
  -- header of the resource.
  pub find_references_none :
      (dir : Checkout)
      → find_references p dir type name own ≡ ok []
      → All (IsClear dir.content) dir.names
  unfolding find_references
  find_references_none dir h = all-IsClear dir.content dir.names h
