-- ===== src/Pipeline/Steps/Parallel.antt =====
-- step_handlers.py, `handle_parallel`: the verdict over the results of the sub-steps.
use sphere_platform.Base.{
  ◌+◌, String, not, List, [], ◌∷◌, length, All, ◌≡◌, refl, arith, ◌↔◌, some, none, ap, sym, ◌∙◌,
}
use sphere_platform.Pipeline.Run.{
  Run, Step, StepStatus, StepResult, success, failure, other, index_steps,
}
use sphere_platform.Pipeline.Steps.{
  judge, count_if, succeeded, label, handle_parallel, parallel_ids, parallel_over, known_steps,
  id_list, param, run_all, returned, text_param,
}
use sphere_platform.Pipeline.Value.{str}
use sphere_platform.Base.Dict.{Dict, get}

abbrev pub AllSucceed : List StepStatus → Type 0
AllSucceed = All (λ s. s ≡ success)

count_total :
    (rs : List StepStatus)
    → count_if succeeded rs + count_if (λ s. not (succeeded s)) rs ≡ length rs
unfolding count_if
count_total [] = refl
count_total (success ∷ rs) = omega (arith, count_total rs)
count_total (failure ∷ rs) = omega (arith, count_total rs)
count_total (other s ∷ rs) = omega (arith, count_total rs)

no_failures : (rs : List StepStatus) → (count_if (λ s. not (succeeded s)) rs ≡ 0) ↔ AllSucceed rs
unfolding count_if
no_failures [] = (λ h. tt, λ h. refl)
no_failures (success ∷ rs) = (λ h. (refl, (no_failures rs).0 h), λ h. (no_failures rs).1 h.1)
no_failures (failure ∷ rs) = (λ h. absurd (omega arith), λ h. cc (h.0))
no_failures (other s ∷ rs) = (λ h. absurd (omega arith), λ h. cc (h.0))

judge-all :
    (ids : List String) (rs : List StepStatus)
    → ((judge "all" ids rs).status ≡ success) ↔ AllSucceed rs
unfolding judge
judge-all ids rs = let f = no_failures rs in (λ h. f.0 (ground arith), λ h. ground (arith, f.1 h))

module _ (execute : Step → Run → StepResult × Run) (step : Step) (run : Run) where
  abbrev sub_steps : List Step
  sub_steps = known_steps (index_steps run.steps_snapshot []) (id_list (param step "sub_steps"))

  runs :
      (mode : String) (id : String) (ids : List String) (s : Step) (ss : List Step)
      → get step.params "mode" ≡ some (str mode)
      → id_list (param step "sub_steps") ≡ id ∷ ids
      → sub_steps ≡ s ∷ ss
      → handle_parallel execute step run
        ≡ returned
            (judge mode (id ∷ ids) (run_all execute (s ∷ ss) run).0)
            (run_all execute (s ∷ ss) run).1
  unfolding handle_parallel
  runs mode id ids s ss m l k =
      ap (λ xs. parallel_ids execute xs step run) l
      ∙ ap
          (λ xs.
            parallel_over execute (elim (text_param step "mode" "all") [ none ↦ "" | some x ↦ x ])
              (id ∷ ids) xs run)
          (ap (known_steps (index_steps run.steps_snapshot [])) (sym l) ∙ k)
      ∙ rw m

  -- A parallel step in the mode `all` with known sub-steps returns, and it succeeds exactly when
  -- every one of them does.
  all_mode :
      (id : String) (ids : List String) (s : Step) (ss : List Step)
      → get step.params "mode" ≡ some (str "all")
      → id_list (param step "sub_steps") ≡ id ∷ ids
      → sub_steps ≡ s ∷ ss
      → (r : StepResult) × (handle_parallel execute step run
          ≡ returned r (run_all execute (s ∷ ss) run).1)
        × ((r.status ≡ success) ↔ AllSucceed (run_all execute (s ∷ ss) run).0)
  all_mode id ids s ss m l k =
      (judge "all" (id ∷ ids) _, runs "all" id ids s ss m l k, judge-all (id ∷ ids) _)

  -- A parallel step in the mode `any` succeeds even when every one of its sub-steps fails.
  any_mode_ignores_failures :
      (id : String) (ids : List String) (s : Step) (ss : List Step)
      → get step.params "mode" ≡ some (str "any")
      → id_list (param step "sub_steps") ≡ id ∷ ids
      → sub_steps ≡ s ∷ ss
      → All (λ x. x ≡ failure) (run_all execute (s ∷ ss) run).0
      → (r : StepResult) × (handle_parallel execute step run
          ≡ returned r (run_all execute (s ∷ ss) run).1)
        × (r.status ≡ success)
  unfolding judge
  any_mode_ignores_failures id ids s ss m l k f =
      (judge "any" (id ∷ ids) _, runs "any" id ids s ss m l k, refl)

-- When the first id names no step of the snapshot, no step is run for it, and yet the first result,
-- which is another step's, is reported under it.
label_of_missing :
    (execute : Step → Run → StepResult × Run) (index : Dict Step) (run : Run) (id : String)
    (ids : List String) (s : Step) (ss : List Step)
    → get index id ≡ none
    → known_steps index ids ≡ s ∷ ss
    → (rest : List (String × StepStatus)) × (label
          (id ∷ ids)
          (run_all execute (known_steps index (id ∷ ids)) run).0
        ≡ (id, (execute s run).0.status) ∷ rest)
unfolding known_steps label run_all
label_of_missing execute index run id ids s ss n k =
    (label ids (run_all execute ss (execute s run).1).0, rw (n, known_steps) (rw k))
