-- ===== src/Pipeline/Steps/Loop.antt =====
-- step_handlers.py, `handle_loop`: which runs the sub-step is given, how many iterations are made, and
-- when the loop stops.
use sphere_platform.Base.{
  ℕ, zero, suc, ◌+◌, ◌<◌, true, false, List, [], ◌∷◌, ◌++◌, ◌≡◌, ◌≢◌, refl, inl, inr, arith,
  Bool-cases, min, some, subst, ltb, ltb→lt,
}
use sphere_platform.Base.Dict.{put}
use sphere_platform.Pipeline.Value.{num, is_truthy}
use sphere_platform.Pipeline.Run.{
  Run, Step, StepStatus, StepResult, success, failure, other, looped, loop_stopped, index_steps,
}
use sphere_platform.Pipeline.Steps.{
  Call, returned, result, iterate, is_failure, number_param, param, look_up, flag_param,
  handle_loop, found,
}

module _ (execute : Step → Run → StepResult × Run) (sub : Step) (run : Run) where
  -- What the i-th execution of the sub-step is given, told from those before it: the run that they
  -- left, with the number of the iteration in its context.
  abbrev numbered : ℕ → Run → Run
  numbered i r = record r { context = put r.context "_loop_iteration" (num i) }

  unfoldable pub left_by : ℕ → Run
  left_by zero = run
  left_by (suc i) = (execute sub (numbered i (left_by i))).1

  unfoldable pub status_of : ℕ → StepStatus
  unfolding left_by
  status_of i = (execute sub (numbered i (left_by i))).0.status

  unfoldable pub statuses : ℕ → List StepStatus
  unfolding status_of
  statuses zero = []
  statuses (suc i) = statuses i ++ status_of i ∷ []

  abbrev pub NoneFailed : ℕ → Type 0
  NoneFailed n = (i : ℕ) → i < n → status_of i ≢ failure

  -- What the loop answers, with break_on_failure: all `total` executions were made and none failed,
  -- or the one at `i` failed and none before it, and no other was made.
  pub data Report (total : ℕ) (c : Call) : Type 0 where
    all_made :
        NoneFailed total
        → c ≡ returned (result success (looped (statuses total) total)) (left_by total)
        → Report total c
    stopped :
        (i : ℕ)
        → i < total
        → NoneFailed i
        → status_of i ≡ failure
        → c ≡ returned (result failure (loop_stopped (statuses (suc i)) i)) (left_by (suc i))
        → Report total c

  is_failure_iff : (s : StepStatus) → is_failure execute s ≡ true → s ≡ failure
  is_failure_iff failure h = refl
  is_failure_iff success h = cc
  is_failure_iff (other x) h = cc

  not_failure : (s : StepStatus) → is_failure execute s ≡ false → s ≢ failure
  not_failure failure h e = cc
  not_failure success h e = cc
  not_failure (other x) h e = cc

  NoneFailed-suc : (n : ℕ) → NoneFailed n → status_of n ≢ failure → NoneFailed (suc n)
  NoneFailed-suc n h k i less = elim (Bool-cases (ltb i n)) [
    | inl e ↦ h i (ltb→lt i n e)
    | inr e ↦
        let same : n ≡ i = ground (arith, less, e) in subst (λ j. status_of j ≢ failure) same k
  ]

  iterate_from :
      (total left i : ℕ)
      → i + left ≡ total
      → NoneFailed i
      → Report total (iterate execute sub true total left i (statuses i) (left_by i))
  unfolding iterate status_of statuses left_by
  iterate_from total zero i sum none_failed =
      let same : i ≡ total = omega arith in
      subst (λ n. Report n (returned (result success (looped (statuses i) n)) (left_by i))) same
        (all_made none_failed refl)
  iterate_from total (suc left) i sum none_failed =
      elim (Bool-cases (is_failure execute (status_of i))) [
        | inl f ↦
            let at = is_failure_iff (status_of i) f in
            rw (f, iterate) (stopped i (omega arith) none_failed at refl)
        | inr g ↦
            let more = NoneFailed-suc i none_failed (not_failure (status_of i) g) in
            let next : suc i ≡ i + 1 = omega arith in
            let rest = iterate_from total left (suc i) (omega arith) more in
            rw (g, iterate)
              (subst
                (λ j.
                  Report total
                    (iterate execute sub true total left j (statuses (suc i)) (left_by (suc i))))
                next rest)
      ]

-- A loop step that names a step of the snapshot, with `break_on_failure`, executes that step up to
-- `iterations` times and 1000 times at most, each time on the run that the execution before has left,
-- with the number of the iteration in its context. It succeeds exactly after all of them, none having
-- failed, and reports the status of each; or it fails at the first execution that fails, reports its
-- index and the statuses up to it, and makes no other.
pub handle_loop-Report :
    (execute : Step → Run → StepResult × Run) (step sub : Step) (run : Run) (n : ℕ)
    → number_param step "iterations" 1 ≡ some n
    → is_truthy (param step "sub_step_id") ≡ true
    → look_up (index_steps run.steps_snapshot []) (param step "sub_step_id") ≡ found sub
    → flag_param step "break_on_failure" true ≡ true
    → Report execute sub run (min n 1000) (handle_loop execute step run)
unfolding handle_loop left_by statuses
handle_loop-Report execute step sub run n it named at brk =
    rw (it, handle_loop)
      (rw (named, at, brk)
        (iterate_from execute sub run (min n 1000) (min n 1000) 0 (omega arith)
          (λ i less. absurd (omega arith))))
