-- ===== src/Terraform/Edits.antt =====
-- src/remediators/terraform_editor.py: what an attribute's edit changes, and what a search that lists
-- nothing has seen.
use mathlib.Core.List.{append_assoc}
use wasteless.Common.{
  ◌≡◌, ◌≤◌, ◌<◌, subst, refl, sym, ap, ◌∙◌, ℕ, zero, suc, ◌+◌, ◌-◌, leb, String, Bool, true, false,
  not, ◌&&◌, Option, none, some, List, [], ◌∷◌, ◌++◌, arith, length, take, drop, length-append, All,
  leb→le, and-true-left, and-true-right,
}
use wasteless.Python.{ok, error, invalid_range, joined, raise_if, >>=-eq-ok, >>-eq-ok}
use wasteless.Terraform.{Content, missing, unreadable, lines, Checkout, Patterns}
use wasteless.Terraform.Editor.{
  BlockEdit, read_resolved, check_range, write_text, behind, or_replaced, set_first, or_not_found,
  set_block_attribute,
}

take-append-drop : (n : ℕ) (ls : List String) → take n ls ++ drop n ls ≡ ls
take-append-drop zero ls = refl
take-append-drop (suc n) [] = refl
take-append-drop (suc n) (line ∷ ls) = ap (λ rest. line ∷ rest) (take-append-drop n ls)

length-take : (n : ℕ) (ls : List String) → n ≤ length ls → length (take n ls) ≡ n
length-take zero ls h = refl
length-take (suc n) [] h = omega (arith, h)
length-take (suc n) (line ∷ ls) h = omega (arith, length-take n ls (omega arith))

drop-take : (n : ℕ) (ls more : List String) → n ≤ length ls → drop n (take n ls ++ more) ≡ more
drop-take zero ls more h = refl
drop-take (suc n) [] more h = absurd (omega (arith, h))
drop-take (suc n) (line ∷ ls) more h = drop-take n ls more (omega arith)

module _ (p : Patterns) (attribute new_value : String) where
  abbrev pub edited_line : String → String
  edited_line prefix = joined prefix (joined new_value "\n")

  -- `out` is `ls` but for the first line of the attribute.
  pub record IsAttributeSet (ls out : List String) : Type 0 where
    pub before : List String
    pub line : String
    pub after : List String
    pub prefix : String
    pub was : ls ≡ before ++ (line ∷ after)
    pub becomes : out ≡ before ++ (edited_line prefix ∷ after)
    pub matched : p.attribute attribute line ≡ some prefix

  abbrev SetWithin : ℕ → List String → List String → Type 0
  SetWithin n ls out =
      (x : IsAttributeSet ls out) × (length x.before < n)
      × All (λ l. p.attribute attribute l ≡ none) x.before

  SetWithin-behind :
      (n : ℕ) (line : String) (rest out : List String) (later : Option (List String))
      → p.attribute attribute line ≡ none
      → ((o : List String) → later ≡ some o → SetWithin n rest o)
      → behind line later ≡ some out
      → SetWithin (suc n) (line ∷ rest) out
  SetWithin-behind n line rest out none unmatched ih h = cc
  SetWithin-behind n line rest out (some o) unmatched ih h =
      let (x, short, none_before) = ih o refl in
      let same : line ∷ o ≡ out = cc in
      (
        record {
          before = line ∷ x.before;
          line = x.line;
          after = x.after;
          prefix = x.prefix;
          was = ap (λ l. line ∷ l) x.was;
          becomes = sym same ∙ ap (λ l. line ∷ l) x.becomes;
          matched = x.matched;
        },
        omega (arith, short),
        (unmatched, none_before),
      )

  SetWithin-replaced :
      (n : ℕ) (line : String) (rest out : List String) (m : Option String)
      → p.attribute attribute line ≡ m
      → ((o : List String) → set_first p attribute new_value n rest ≡ some o → SetWithin n rest o)
      → or_replaced new_value rest (behind line (set_first p attribute new_value n rest)) m
        ≡ some out
      → SetWithin (suc n) (line ∷ rest) out
  SetWithin-replaced n line rest out none unmatched ih h =
      SetWithin-behind n line rest out (set_first p attribute new_value n rest) unmatched ih h
  SetWithin-replaced n line rest out (some prefix) matched ih h = (
    record {
      before = [];
      line = line;
      after = rest;
      prefix = prefix;
      was = refl;
      becomes = cc;
      matched = matched;
    },
    omega arith,
    tt,
  )

  set_first-SetWithin :
      (n : ℕ) (ls out : List String)
      → set_first p attribute new_value n ls ≡ some out
      → SetWithin n ls out
  unfolding set_first
  set_first-SetWithin zero ls out h = cc
  set_first-SetWithin (suc n) [] out h = cc
  set_first-SetWithin (suc n) (line ∷ rest) out h =
      SetWithin-replaced n line rest out _ refl (set_first-SetWithin n rest) h

  -- The line that is set is one of those from `s` to `e`, and the first of them that matches.
  abbrev pub SetInBlock : ℕ → ℕ → List String → List String → Type 0
  SetInBlock s e ls out =
      (x : IsAttributeSet ls out) × (s ≤ length x.before + 1)
      × (length x.before + 1 ≤ e)
      × All (λ l. p.attribute attribute l ≡ none) (drop (s - 1) x.before)

  SetInBlock-shifted :
      (s e : ℕ) (ls edited : List String)
      → 1 ≤ s
      → s ≤ e
      → e ≤ length ls
      → SetWithin (e - (s - 1)) (drop (s - 1) ls) edited
      → SetInBlock s e ls (take (s - 1) ls ++ edited)
  SetInBlock-shifted s e ls edited a b c (x, short, none_before) =
      let k = s - 1 in
      let fits = length-take k ls (omega arith) in
      let size = length-append (take k ls) x.before in
      (
        record {
          before = take k ls ++ x.before;
          line = x.line;
          after = x.after;
          prefix = x.prefix;
          was =
              sym (take-append-drop k ls)
              ∙ ap (λ l. take k ls ++ l) x.was
              ∙ sym (append_assoc (take k ls) x.before (x.line ∷ x.after));
          becomes =
              ap (λ l. take k ls ++ l) x.becomes
              ∙ sym (append_assoc (take k ls) x.before (edited_line x.prefix ∷ x.after));
          matched = x.matched;
        },
        omega (arith, fits, size),
        omega (arith, fits, size, short),
        rw (drop-take k ls x.before (omega arith)) none_before,
      )

  in_range :
      (ls : List String) (s e : ℕ) {u : Unit {0}}
      → check_range ls s e ≡ ok u
      → (1 ≤ s) × (s ≤ e) × (e ≤ length ls)
  unfolding check_range
  in_range ls s e h =
      let inside = passed (leb 1 s && leb s e && leb e (length ls)) h in
      let both = and-true-left (leb 1 s && leb s e) (leb e (length ls)) inside in
      (
        leb→le 1 s (and-true-left (leb 1 s) (leb s e) both),
        leb→le s e (and-true-right (leb 1 s) (leb s e) both),
        leb→le e (length ls) (and-true-right (leb 1 s && leb s e) (leb e (length ls)) inside),
      )
    where
      passed : (b : Bool) {u : Unit {0}} → raise_if (not b) (error invalid_range) ≡ ok u → b ≡ true
      passed true h = refl
      passed false h = cc

  found_first :
      (o : Option (List String)) (out : List String) → or_not_found p o ≡ ok out → o ≡ some out
  found_first none out h = cc
  found_first (some ls) out h = cc

  read_lines : (c : Content) (ls : List String) → read_resolved c ≡ ok ls → c ≡ lines ls
  read_lines missing ls h = cc
  read_lines unreadable ls h = cc
  read_lines (lines l) ls h = cc

  -- An edit of an attribute that goes through changes one line of the block and no other line, and no
  -- other file: the first line of the block that sets the attribute sets the new value, and keeps
  -- what stands before the value.
  pub set_block_attribute-SetInBlock :
      (file : String) (s e : ℕ) (dir dir' : Checkout) (edit : BlockEdit)
      → set_block_attribute p file s e attribute new_value dir ≡ ok (edit, dir')
      → (dir.content file ≡ lines edit.old_lines)
        × SetInBlock s e edit.old_lines edit.new_lines
        × (dir' ≡ write_text file edit.new_lines dir)
  unfolding set_block_attribute
  set_block_attribute-SetInBlock file s e dir dir' edit h =
      let (ls, read, h1) = >>=-eq-ok (read_resolved (dir.content file)) _ h in
      let (checked, h2) = >>-eq-ok (check_range ls s e) _ h1 in
      let (edited, set, h3) = >>=-eq-ok (or_not_found p _) _ h2 in
      let (a, b, c) = in_range ls s e checked in
      let within =
        set_first-SetWithin (e - (s - 1)) (drop (s - 1) ls) edited (found_first _ edited set) in
      let done = SetInBlock-shifted s e ls edited a b c within in
      let is_edit : record { file = file; old_lines = ls; new_lines = take (s - 1) ls ++ edited }
          ≡ edit =
        cc h3 in
      let is_dir : write_text file (take (s - 1) ls ++ edited) dir ≡ dir' = cc h3 in
      subst
        (λ (x : BlockEdit).
          (dir.content file ≡ lines x.old_lines)
          × SetInBlock s e x.old_lines x.new_lines
          × (dir' ≡ write_text file x.new_lines dir))
        is_edit (read_lines (dir.content file) ls read, done, sym is_dir)
