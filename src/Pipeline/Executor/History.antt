-- ===== src/Pipeline/Executor/History.antt =====
-- pipeline_executor.py: what the executor never changes: the snapshot of the steps, the device,
-- and the log entries that are there.
use mathlib.Core.List.{append-nil, append_assoc}
use sphere_platform.Base.{
  ℕ, zero, suc, String, Option, none, some, List, [], ◌∷◌, ◌++◌, ◌≡◌, inl, inr, refl, sym, ap,
  Option-cases, arith, ◌∙◌, Bool-cases, ltb, subst, truthy,
}
use sphere_platform.Base.Dict.{Dict, get}
use sphere_platform.Pipeline.Run.{
  Run, RunStatus, Step, StepStatus, LogEntry, success, failure, other, queued, running, paused,
  cancelled, timed_out, append_step_log, step_done,
}
use sphere_platform.Pipeline.Requests.{Request, cancel, pause, resume, apply, apply_all}
use sphere_platform.Pipeline.Executor.{
  World, Next, go, stop, crash, Outcome, ended, raised, unfinished, after_handler, execute_step,
  run_step, round, at_step, by_status, finish, complete, loop, over_steps, when_running,
  execute_run, settle, mark_failed, execute_run_safe, elapsed, next_step, on_failed_step,
  retry_count, retry_key,
}

pub record Extends (a b : Run) : Type 0 where
  pub new_entries : List LogEntry
  pub logs : b.step_logs ≡ a.step_logs ++ new_entries
  pub steps : b.steps_snapshot ≡ a.steps_snapshot
  pub device : b.device_id ≡ a.device_id

-- A row that differs only in columns that are not the subject here.
same :
    {a b : Run}
    → b.step_logs ≡ a.step_logs
    → b.steps_snapshot ≡ a.steps_snapshot
    → b.device_id ≡ a.device_id
    → Extends a b
same l s d = record { new_entries = []; logs = l ∙ sym (append-nil _); steps = s; device = d }

Extends-refl : (a : Run) → Extends a a
Extends-refl a = same refl refl refl

Extends-trans : {a b c : Run} → Extends a b → Extends b c → Extends a c
Extends-trans {a} p q = record {
  new_entries = p.new_entries ++ q.new_entries;
  logs =
      q.logs
      ∙ ap (λ l. l ++ q.new_entries) p.logs
      ∙ append_assoc a.step_logs p.new_entries q.new_entries;
  steps = q.steps ∙ p.steps;
  device = q.device ∙ p.device;
}

append_step_log-Extends : (a : Run) (e : LogEntry) → Extends a (append_step_log a e)
unfolding append_step_log
append_step_log-Extends a e = record {
  new_entries = e ∷ [];
  logs = refl;
  steps = refl;
  device = refl;
}

apply-Extends : (r : Request) (a : Run) → Extends a (apply r a)
unfolding apply
apply-Extends (cancel now) a = same (ground arith) (ground arith) (ground arith)
apply-Extends pause a = same (ground arith) (ground arith) (ground arith)
apply-Extends resume a = same (ground arith) (ground arith) (ground arith)

apply_all-Extends : (rs : List Request) (a : Run) → Extends a (apply_all rs a)
unfolding apply_all
apply_all-Extends [] a = Extends-refl a
apply_all-Extends (r ∷ rs) a = Extends-trans (apply-Extends r a) (apply_all-Extends rs (apply r a))

abbrev Every : (Run → Type 0) → Next → Type 0
Every P (go next r) = P r
Every P (stop r) = P r
Every P (crash r) = P r

on_failed_step-Extends :
    (now : ℕ) (cur : String) (step : Step) (a b : Run)
    → Extends a b
    → Every (Extends a) (on_failed_step now cur step b)
unfolding on_failed_step
on_failed_step-Extends now cur step a b h =
    elim (Option-cases (retry_count (get b.context (retry_key cur)))) [
      | inl e ↦ rw (e, on_failed_step) h
      | inr (current, e) ↦
          rw (e, on_failed_step)
            (elim (Bool-cases (ltb current step.retries)) [
              | inl more ↦ rw more (Extends-trans h (same refl refl refl))
              | inr last ↦ rw last (elim (Option-cases (truthy step.on_failure)) [
                | inl n ↦ rw (n, on_failed_step) (Extends-trans h (same refl refl refl))
                | inr (next, n) ↦ rw (n, on_failed_step) h
              ])
            ])
    ]

next_step-Extends :
    (now : ℕ) (cur : String) (step : Step) (s : StepStatus) (a b : Run)
    → Extends a b
    → Every (Extends a) (next_step now cur step s b)
next_step-Extends now cur step success a b h = h
next_step-Extends now cur step failure a b h = on_failed_step-Extends now cur step a b h
next_step-Extends now cur step (other s) a b h = Extends-trans h (same refl refl refl)

module _ (w : World) where
  after_handler-Extends :
      (i : ℕ) (cur : String) (step : Step) (a : Run) → Extends a (after_handler w i cur step a)
  unfolding after_handler
  after_handler-Extends i cur step a = record {
    new_entries =
        step_done cur step.type (w.handler i step a).0.status (w.handler i step a).0.output ∷ [];
    logs = refl;
    steps = refl;
    device = refl;
  }

  run_step-Extends :
      (i : ℕ) (cur : String) (step : Step) (a : Run) → Every (Extends a) (run_step w i cur step a)
  unfolding run_step execute_step
  run_step-Extends i cur step a = elim (Option-cases (elapsed w i a.started_at)) [
    | inl e ↦
        rw (e, run_step)
          (next_step-Extends (w.now i) cur step (w.handler i step a).0.status a _
            (Extends-trans (after_handler-Extends i cur step a) (apply_all-Extends (w.during i) _)))
    | inr (ms, e) ↦
        rw (e, run_step) (Extends-trans (same refl refl refl) (append_step_log-Extends _ _))
  ]

  Every-from : {a b : Run} (x : Next) → Extends a b → Every (Extends b) x → Every (Extends a) x
  Every-from (go next r) h k = Extends-trans h k
  Every-from (stop r) h k = Extends-trans h k
  Every-from (crash r) h k = Extends-trans h k

  at_step-Extends :
      (i : ℕ) (index : Dict Step) (cur : String) (a : Run)
      → Every (Extends a) (at_step w i index cur a)
  unfolding at_step
  at_step-Extends i index cur a = elim (Option-cases (get index cur)) [
    | inl e ↦ rw (e, at_step) (Extends-trans (same refl refl refl) (append_step_log-Extends _ _))
    | inr (step, e) ↦
        let b : Run = record a { current_step_id = some cur } in
        rw (e, at_step)
          (Every-from (run_step w i cur step b) (same refl refl refl)
            (run_step-Extends i cur step b))
  ]

  by_status-Extends :
      (i : ℕ) (index : Dict Step) (cur : String) (s : RunStatus) (a : Run)
      → Every (Extends a) (by_status w i index cur s a)
  by_status-Extends i index cur paused a = same refl refl refl
  by_status-Extends i index cur cancelled a = Extends-refl a
  by_status-Extends i index cur timed_out a = Extends-refl a
  by_status-Extends i index cur _ a = at_step-Extends i index cur a

  round-Extends :
      (i : ℕ) (index : Dict Step) (cur : String) (a : Run)
      → Every (Extends a) (round w i index cur a)
  unfolding round
  round-Extends i index cur a =
      let b : Run = apply_all (w.before i) a in
      Every-from (by_status w i index cur b.status b) (apply_all-Extends (w.before i) a)
        (by_status-Extends i index cur b.status b)

  complete-Extends : (s : RunStatus) (now : ℕ) (a : Run) → Extends a (complete w s now a)
  complete-Extends running now a = same refl refl refl
  complete-Extends queued now a = Extends-refl a
  complete-Extends _ now a = Extends-refl a

  abbrev Returns : (Run → Type 0) → Outcome → Type 0
  Returns P (ended r) = P r
  Returns P (raised r) = P r
  Returns P unfinished = Unit

  Returns-from :
      {a b : Run} (o : Outcome) → Extends a b → Returns (Extends b) o → Returns (Extends a) o
  Returns-from (ended r) h k = Extends-trans h k
  Returns-from (raised r) h k = Extends-trans h k
  Returns-from unfinished h k = tt

  loop-Extends :
      (fuel i : ℕ) (index : Dict Step) (cur : Option String) (a : Run)
      → Returns (Extends a) (loop w fuel i index cur a)
  unfolding loop finish
  loop-Extends zero i index cur a = tt
  loop-Extends (suc fuel) i index none a =
      Extends-trans (apply_all-Extends (w.before i) a) (complete-Extends _ (w.now i) _)
  loop-Extends (suc fuel) i index (some cur) a =
      turn (round w i index cur a) refl (round-Extends i index cur a)
        (λ next r. loop-Extends fuel (suc i) index next r)
    where
      turn :
          (x : Next)
          → round w i index cur a ≡ x
          → Every (Extends a) (round w i index cur a)
          → ((next : Option String) (r : Run)
              → Returns (Extends r) (loop w fuel (suc i) index next r))
          → Returns (Extends a) (loop w (suc fuel) i index (some cur) a)
      turn (go next r) e h rest =
          rw (e, loop) (Returns-from (loop w fuel (suc i) index next r) (rw e at h) (rest next r))
      turn (stop r) e h rest = rw (e, loop) (rw e at h)
      turn (crash r) e h rest = rw (e, loop) (rw e at h)

  over_steps-Extends :
      (fuel : ℕ) (steps : List Step) (a : Run) → Returns (Extends a) (over_steps w fuel steps a)
  over_steps-Extends fuel [] a = same refl refl refl
  over_steps-Extends fuel (s ∷ ss) a = loop-Extends fuel 0 _ _ a

  when_running-Extends :
      (fuel : ℕ) (s : RunStatus) (a : Run) → Returns (Extends a) (when_running w s fuel a)
  when_running-Extends fuel running a = over_steps-Extends fuel a.steps_snapshot a
  when_running-Extends fuel queued a = Extends-refl a
  when_running-Extends fuel _ a = Extends-refl a

  mark_failed-Extends : (s : RunStatus) (now : ℕ) (a : Run) → Extends a (mark_failed w s now a)
  mark_failed-Extends running now a =
      Extends-trans (same refl refl refl) (append_step_log-Extends _ _)
  mark_failed-Extends queued now a = Extends-refl a
  mark_failed-Extends _ now a = Extends-refl a

  same_row : {a b : Run} → some a ≡ some b → a ≡ b
  same_row e = cc

  settle-Extends :
      (now : ℕ) (a : Run) (o : Outcome) {r : Run}
      → Returns (Extends a) o
      → settle w now o ≡ some r
      → Extends a r
  unfolding settle
  settle-Extends now a (ended b) h e = subst (Extends a) (same_row e) h
  settle-Extends now a (raised b) h e =
      subst (Extends a) (same_row e) (Extends-trans h (mark_failed-Extends b.status now b))
  settle-Extends now a unfinished h e = cc

-- Whatever the handlers answer and whatever requests arrive, an execution leaves the log entries
-- that the run had in place and adds its own behind them, and it never changes the snapshot of the
-- steps or the device.
pub execute_run_safe-Extends :
    (w : World) (fuel now : ℕ) (a r : Run) → execute_run_safe w fuel now a ≡ some r → Extends a r
unfolding execute_run_safe execute_run
execute_run_safe-Extends w fuel now a r e =
    settle-Extends w now a (when_running w a.status fuel a) (when_running-Extends w fuel a.status a)
      e
