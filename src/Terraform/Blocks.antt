-- ===== src/Terraform/Blocks.antt =====
-- src/remediators/terraform_mapper.py, `locate_block`: what the lines that it finds are.
use wasteless.Common.{
  ℕ, suc, ◌+◌, ◌-◌, ◌≤◌, arith, ◌≡◌, refl, inl, inr, String, Bool, true, false, subst, length-drop,
  Option, none, some, List, [], ◌∷◌, ◌==◌, ==_iff, take, drop, length, Bool-cases,
}
use wasteless.Python.{Result, ok, raised, error, unbalanced_braces}
use wasteless.Terraform.{Content, missing, unreadable, lines, Checkout, Patterns}
use wasteless.Terraform.Mapper.{
  opens, closes, longer, block_length, is_header, find_block, blocks_in, in_file, locate_in,
  locate_block,
}

abbrev pub opened_in : List String → ℕ
opened_in [] = 0
opened_in (line ∷ rest) = opens line + opened_in rest

abbrev pub closed_in : List String → ℕ
closed_in [] = 0
closed_in (line ∷ rest) = closes line + closed_in rest

-- What the inner loop finds: `n` lines whose braces close all that was opened.
abbrev Closes : ℕ → ℕ → List String → ℕ → Type 0
Closes o c ls n =
    (1 ≤ n) × (n ≤ length ls) × (o + opened_in (take n ls) ≡ c + closed_in (take n ls))

longer-eq : (o : Option ℕ) (n : ℕ) → longer o ≡ some n → (m : ℕ) × (o ≡ some m) × (n ≡ suc m)
longer-eq none n h = cc
longer-eq (some m) n h = (m, refl, cc)

block_length-Closes :
    (o c : ℕ) (ls : List String) (n : ℕ) → block_length o c ls ≡ some n → Closes o c ls n
unfolding block_length
block_length-Closes o c [] n h = cc
block_length-Closes o c (line ∷ rest) n h = elim (Bool-cases (o + opens line == c + closes line)) [
  | inl same ↦
      let one : n ≡ 1 = cc (rw same at h) in
      let e = (==_iff (o + opens line) (c + closes line)).0 same in
      rw one (omega arith, omega arith, omega arith)
  | inr other ↦
      let (m, found, one_more) = longer-eq _ n (rw other at h) in
      let (a, b, e) = block_length-Closes (o + opens line) (c + closes line) rest m found in
      rw one_more (omega arith, omega arith, omega arith)
]

module _ (p : Patterns) (type name : String) where
  abbrev pub headed : List String → Bool
  headed [] = false
  headed (line ∷ rest) = is_header type name (p.header (p.chomp line))

  -- The range of a block among lines that `before` others precede.
  abbrev Found : ℕ → List String → ℕ × ℕ → Type 0
  Found before ls (s, e) =
      (k : ℕ) × (n : ℕ) × (s ≡ suc (before + k))
      × (e ≡ before + k + n)
      × Closes 0 0 (drop k ls) n
      × (headed (drop k ls) ≡ true)

  at_header :
      (before : ℕ) (line : String) (rest : List String) (found : Option ℕ) (range : ℕ × ℕ)
      → headed (line ∷ rest) ≡ true
      → block_length 0 0 (line ∷ rest) ≡ found
      → elim found [
        | none ↦ raised (error unbalanced_braces)
        | some n ↦ ok (some (suc before, before + n))
      ]
        ≡ ok (some range)
      → Found before (line ∷ rest) range
  at_header before line rest none range here length_is h = cc
  at_header before line rest (some n) (s, e) here length_is h =
      let first : s ≡ suc before = cc in
      let last : e ≡ before + n = cc in
      (0, n, omega arith, omega arith, block_length-Closes 0 0 (line ∷ rest) n length_is, here)

  find_block-Found :
      (before : ℕ) (ls : List String) (range : ℕ × ℕ)
      → find_block p type name before ls ≡ ok (some range)
      → Found before ls range
  unfolding find_block
  find_block-Found before [] range h = cc
  find_block-Found before (line ∷ rest) range h =
      elim (Bool-cases (is_header type name (p.header (p.chomp line)))) [
        | inl here ↦ at_header before line rest _ range here refl (rw here at h)
        | inr other ↦
            let (k, n, first, last, closed, here) =
              find_block-Found (suc before) rest range (rw other at h) in
            (suc k, n, omega arith, omega arith, closed, here)
      ]

  -- The lines from `s` to `e`.
  abbrev pub block_lines : ℕ → ℕ → List String → List String
  block_lines s e ls = take (e - (s - 1)) (drop (s - 1) ls)

  -- The lines from `s` to `e` of a file are a block of this type and name.
  pub record IsBlock (ls : List String) (s e : ℕ) : Type 0 where
    pub starts : 1 ≤ s
    pub ends : s ≤ e
    pub within : e ≤ length ls
    pub has_header : headed (drop (s - 1) ls) ≡ true
    pub is_balanced : opened_in (block_lines s e ls) ≡ closed_in (block_lines s e ls)

  Found-IsBlock : (ls : List String) (s e : ℕ) → Found 0 ls (s, e) → IsBlock ls s e
  Found-IsBlock ls s e (k, n, first, last, (a, b, balanced), here) =
      let skipped : s - 1 ≡ k = omega arith in
      let taken : e - (s - 1) ≡ n = omega arith in
      record {
        starts = omega arith;
        ends = omega arith;
        within = omega (arith, length-drop k ls);
        has_header = rw skipped here;
        is_balanced = rw (taken, skipped) (omega (arith, balanced));
      }

  abbrev pub Located : (String → Content) → String × ℕ × ℕ → Type 0
  Located content (file, s, e) = (ls : List String) × (content file ≡ lines ls) × IsBlock ls s e

  in_content :
      (content : String → Content) (file : String) (c : Content) (s e : ℕ)
      → content file ≡ c
      → blocks_in p type name c ≡ ok (some (s, e))
      → Located content (file, s, e)
  in_content content file missing s e is h = cc
  in_content content file unreadable s e is h = cc
  in_content content file (lines ls) s e is h =
      (ls, is, Found-IsBlock ls s e (find_block-Found 0 ls (s, e) h))

  in_file-Located :
      (content : String → Content) (file : String) (later : Result (Option (String × ℕ × ℕ)))
      (r : Result (Option (ℕ × ℕ))) (place : String × ℕ × ℕ)
      → blocks_in p type name (content file) ≡ r
      → (later ≡ ok (some place) → Located content place)
      → in_file p file later r ≡ ok (some place)
      → Located content place
  in_file-Located content file later (raised x) place e rest h = cc
  in_file-Located content file later (ok none) place e rest h = rest h
  in_file-Located content file later (ok (some (s, e))) place same rest h =
      let is : (file, s, e) ≡ place = cc in
      subst (Located content) is (in_content content file (content file) s e refl same)

  locate_in-Located :
      (content : String → Content) (files : List String) (place : String × ℕ × ℕ)
      → locate_in p type name content files ≡ ok (some place)
      → Located content place
  unfolding locate_in
  locate_in-Located content [] place h = cc
  locate_in-Located content (file ∷ files) place h =
      in_file-Located content file (locate_in p type name content files) _ place refl
        (locate_in-Located content files place) h

  -- The place that `locate_block` finds is in a file that can be read, within its lines, at a header
  -- of this type and name, and its braces are balanced.
  pub locate_block-Located :
      (dir : Checkout) (place : String × ℕ × ℕ)
      → locate_block p dir type name ≡ ok (some place)
      → Located dir.content place
  unfolding locate_block
  locate_block-Located dir place h = elim (Bool-cases dir.is_dir) [
    | inl there ↦ locate_in-Located dir.content dir.names place (rw there at h)
    | inr absent ↦ cc (rw absent at h)
  ]
