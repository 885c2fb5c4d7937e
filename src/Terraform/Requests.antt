-- ===== src/Terraform/Requests.antt =====
-- src/remediators/terraform_pr.py, `propose_removal`: when `gh pr create` is run.
use wasteless.Common.{
  ◌≡◌, subst, refl, sym, ◌∙◌, inl, inr, String, Bool, true, false, Option, none, some, List, [],
  ◌∷◌, any, Bool-cases, if◌then◌else◌, or-false-left, or-false-right,
}
use wasteless.Python.{Result, ok, raised, error, command_failed}
use wasteless.Terraform.{Checkout}
use wasteless.Terraform.Mapper.{Module, TerraformResource, index_of}
use wasteless.Terraform.Editor.{BlockEdit}
use wasteless.Terraform.Proposal.{
  Command, clone, init, add_all, commit, checkout, push, create_pr, Tools, PrProposal, Log,
  branch_of, steps, run_all, proposal_of, remove_resource, opened, conclude, with_mapper,
  in_workdir, propose_removal,
}
use wasteless.Terraform.Removals.{IsRemoved, remove_resource-IsRemoved}

abbrev pub is_create_pr : Command → Bool
is_create_pr (create_pr branch) = true
is_create_pr _ = false

-- The branch that holds the commit was pushed before.
abbrev pub IsPushed : Tools → String → Log → Type 0
IsPushed t branch log =
    (before : Log) × (log
      ≡ create_pr branch ∷ push branch ∷ commit ∷ add_all ∷ checkout branch ∷ before)
    × (t.fails (push branch) ≡ false)
    × (t.fails commit ≡ false)

module _ (t : Tools) where
  run_all_none :
      (cs : List Command) (log : Log)
      → any is_create_pr cs ≡ false
      → any is_create_pr log ≡ false
      → any is_create_pr (run_all t cs log).1 ≡ false
  unfolding run_all
  run_all_none [] log h k = k
  run_all_none (c ∷ cs) log h k =
      let c_none = or-false-left (is_create_pr c) _ h in
      let log_none : any is_create_pr (c ∷ log) ≡ false = rw (c_none, k) refl in
      elim (Bool-cases (t.fails c)) [
        | inl fails ↦ rw fails log_none
        | inr works ↦
            rw works (run_all_none cs (c ∷ log) (or-false-right (is_create_pr c) _ h) log_none)
      ]

  ended :
      (b : Bool) (log : Log)
      → (if◌then◌else◌ {A = Result (Unit {0}) × Log} b
          (raised (error command_failed), log)
          (ok tt, log)).1
        ≡ log
  ended true log = refl
  ended false log = refl

  -- Of the steps, only the last one creates a pull request, so it is run when the others went through.
  steps-IsPushed :
      (branch : String) (log : Log)
      → any is_create_pr log ≡ false
      → any is_create_pr (run_all t (steps branch) log).1 ≡ true
      → IsPushed t branch (run_all t (steps branch) log).1
  unfolding run_all
  steps-IsPushed branch log clean h = elim (Bool-cases (t.fails (checkout branch))) [
    | inl a ↦ cc (rw a at h, clean)
    | inr a ↦ elim (Bool-cases (t.fails add_all)) [
      | inl b ↦ cc (rw (a, b) at h, clean)
      | inr b ↦ elim (Bool-cases (t.fails commit)) [
        | inl c ↦ cc (rw (a, b, c) at h, clean)
        | inr c ↦ elim (Bool-cases (t.fails (push branch))) [
          | inl d ↦ cc (rw (a, b, c, d) at h, clean)
          | inr d ↦ rw (a, b, c, d) (log, ended (t.fails (create_pr branch)) _, refl, refl)
        ]
      ]
    ]
  ]

  -- What is behind a log that holds a pull request, when there was none before.
  abbrev Stands :
      String → Result Module → Checkout → (Result (Option PrProposal) × Log) × Checkout → Type 0
  Stands id root dir x =
      any is_create_pr x.0.1 ≡ true
      → (t.dry_run ≡ false)
        × IsPushed t (branch_of id) x.0.1
        × ((m : Module) × (root ≡ ok m) × IsRemoved t id m dir x.1)

  nothing_opened :
      (id : String) (r : TerraformResource) (edit : BlockEdit) (x : Result (Unit {0}) × Log)
      → (opened t id r edit x).1 ≡ x.1
  nothing_opened id r edit (raised e, log) = refl
  nothing_opened id r edit (ok u, log) = refl

  dry_or_wet :
      (dry : Bool) (r : Result (Option PrProposal)) (log : Log)
      (x : Result (Option PrProposal) × Log)
      → any is_create_pr log ≡ false
      → any is_create_pr (if◌then◌else◌ {A = Result (Option PrProposal) × Log} dry (r, log) x).1
        ≡ true
      → (dry ≡ false)
        × ((if◌then◌else◌ {A = Result (Option PrProposal) × Log} dry (r, log) x).1 ≡ x.1)
  dry_or_wet true r log x clean h = cc
  dry_or_wet false r log x clean h = (refl, refl)

  conclude-Stands :
      (id : String) (m : Module) (dir dir' : Checkout) (log : Log)
      (found : Result (Option (TerraformResource × BlockEdit)))
      → any is_create_pr log ≡ false
      → ((out : TerraformResource × BlockEdit) → found ≡ ok (some out) → IsRemoved t id m dir dir')
      → Stands id (ok m) dir (conclude t id log found, dir')
  conclude-Stands id m dir dir' log (raised e) clean removed h = cc
  conclude-Stands id m dir dir' log (ok none) clean removed h = cc
  conclude-Stands id m dir dir' log (ok (some (r, edit))) clean removed h =
      let run = run_all t (steps (branch_of id)) log in
      let (wet, same) =
        dry_or_wet t.dry_run (ok (proposal_of t id r edit none)) log (opened t id r edit run) clean
          h in
      let is_run = same ∙ nothing_opened id r edit run in
      let pushed =
        steps-IsPushed (branch_of id) log clean (subst (λ l. any is_create_pr l ≡ true) is_run h) in
      (
        wet,
        subst (IsPushed t (branch_of id)) (sym is_run) pushed,
        (m, refl, removed (r, edit) refl),
      )

  with_mapper-Stands :
      (id : String) (dir : Checkout) (root : Result Module) (log : Log)
      → any is_create_pr log ≡ false
      → Stands id root dir (with_mapper t id dir root log)
  with_mapper-Stands id dir (raised e) log clean = λ h. cc
  with_mapper-Stands id dir (ok m) log clean =
      conclude-Stands id m dir (remove_resource t (index_of m) id dir).1 log
        (remove_resource t (index_of m) id dir).0 clean (remove_resource-IsRemoved t id m dir)

  -- The state that is used.
  abbrev pub chosen_state : Option Module → Checkout → Result Module
  chosen_state mapper dir = elim mapper [ none ↦ t.show dir | some root ↦ ok root ]

  in_workdir-Stands :
      (id : String) (mapper : Option Module) (dir : Checkout) (x : Result (Unit {0}) × Log)
      → any is_create_pr x.1 ≡ false
      → Stands id (chosen_state mapper dir) dir (in_workdir t id mapper x dir)
  in_workdir-Stands id mapper dir (raised e, log) clean = λ h. cc
  in_workdir-Stands id mapper dir (ok u, log) clean =
      with_mapper-Stands id dir (chosen_state mapper dir) log clean

  -- The working copy that is used.
  abbrev pub workdir_of : Option Checkout → Checkout
  workdir_of workdir = elim workdir [ none ↦ t.cloned | some dir ↦ dir ]

  -- A pull request is created only in a run that is not dry, right after the branch that holds the
  -- commit was pushed, and only when the working copy is as before but for the block of the resource
  -- that has the identifier, with the blank lines behind it: the block stands in the root module and
  -- is located, nothing outside of it refers to the resource, and Terraform accepts what is left.
  pub propose_removal_created :
      (id : String) (workdir : Option Checkout) (mapper : Option Module) (log : Log)
      → any is_create_pr log ≡ false
      → any is_create_pr (propose_removal t id workdir mapper log).0.1 ≡ true
      → (t.dry_run ≡ false)
        × IsPushed t (branch_of id) (propose_removal t id workdir mapper log).0.1
        × ((m : Module) × (chosen_state mapper (workdir_of workdir) ≡ ok m)
            × IsRemoved t id m (workdir_of workdir) (propose_removal t id workdir mapper log).1)
  unfolding propose_removal
  propose_removal_created id (some dir) mapper log clean =
      in_workdir-Stands id mapper dir (ok tt, log) clean
  propose_removal_created id none mapper log clean =
      in_workdir-Stands id mapper t.cloned (run_all t (clone ∷ init ∷ []) log)
        (run_all_none (clone ∷ init ∷ []) log refl clean)
