-- ===== src/Accounts/Release.antt =====
-- Assigning and releasing an account, by request and by the step of a pipeline.
use sphere_platform.Base.{
  ℕ, suc, String, true, false, none, some, arith, ◌≡◌, refl, eq_iff, truthy, nat_eq, ap, ◌∙◌,
}
use sphere_platform.Base.Dict.{Dict, get, get-put_same}
use sphere_platform.Tasks.Service.{ok, http_error}
use sphere_platform.Accounts.Account.{
  free, is_free, is_in_use, assigned_to, GameAccount, Device, Store, save_account, get_account,
  in_org,
}
use sphere_platform.Accounts.Service.{attach, released, assign_account, release_account, org_device}
use sphere_platform.Accounts.Steps.{StepRun, handle_release_account, step_released}
use sphere_platform.Accounts.Invariant.Service.{settle}
use sphere_platform.Accounts.Invariant.Reactor.{close_named-accounts}

get_account-save :
    (st : Store) (id org : String) (a : GameAccount)
    → get_account (save_account st id a) id org ≡ in_org org (some a)
unfolding get_account
get_account-save st id org a = rw (get-put_same st.accounts id a) refl

get_account-save_own :
    (st : Store) (id org : String) (a : GameAccount)
    → a.org_id ≡ org
    → get_account (save_account st id a) id org ≡ some a
get_account-save_own st id org a h =
    rw (get_account-save st id org a) (ground (arith, h, eq_iff a.org_id org))

assign_account-free :
    (now : ℕ) (st : Store) (org id device : String) (a : GameAccount) (d : Device)
    → get_account st id org ≡ some a
    → is_free a.status ≡ true
    → org_device st device org ≡ some d
    → assign_account now st id org device
      ≡ ok (save_account st id (attach now device (assigned_to d.name) a))
unfolding assign_account
assign_account-free now st org id device a d at f dev = rw (assign_account, at, dev) (rw f refl)

release_account-in_use :
    (now : ℕ) (st : Store) (org id : String) (minutes : ℕ) (a : GameAccount)
    → get_account st id org ≡ some a
    → is_in_use a.status ≡ true
    → release_account now st id org minutes ≡ ok (save_account st id (released now minutes a))
unfolding release_account
release_account-in_use now st org id minutes a at f = rw (release_account, at) (rw f refl)

-- An account that an organisation assigns to one of its devices and then releases without a cooldown
-- has its row back, with one more session, which ended then, and with the status changed then for no
-- reason.
pub release_account-assign_account :
    (now later : ℕ) (st : Store) (org id device : String) (a : GameAccount) (d : Device)
    → get_account st id org ≡ some a
    → a.org_id ≡ org
    → is_free a.status ≡ true
    → org_device st device org ≡ some d
    → let given = settle st (assign_account now st id org device) in
      let back = settle given (release_account later given id org 0) in
      (get_account given id org ≡ some (attach now device (assigned_to d.name) a))
      × (get_account back id org
          ≡ some (record a {
            status = free;
            total_sessions = suc a.total_sessions;
            last_session_end = some later;
            status_changed_at = some later;
            status_reason = none;
            device_id = none;
            assigned_at = none;
            cooldown_until = none;
          }))
release_account-assign_account now later st org id device a d at is f dev =
    let b = attach now device (assigned_to d.name) a in
    let held = get_account-save_own st id org b is in
    rw (assign_account-free now st org id device a d at f dev) (
      held,
      rw (release_account-in_use later (save_account st id b) org id 0 b held refl)
          (get_account-save_own (save_account st id b) id org (released later 0 b) is),
    )

-- The step that releases an account makes it free, or puts it on its cooldown, whatever its status
-- was, where the request answers 409 for every account that is not in use.
pub handle_release_account-any_status :
    (now : ℕ) (st : Store) (run : StepRun) (minutes : ℕ) (reason id : String) (a : GameAccount)
    → truthy run.assigned_account_id ≡ some id
    → get_account st id run.org_id ≡ some a
    → is_in_use a.status ≡ false
    → (get (handle_release_account now st run minutes reason).1.accounts id
        ≡ some (step_released now minutes reason a))
      × (is_free (step_released now minutes reason a).status ≡ nat_eq minutes 0)
      × (release_account now st id run.org_id minutes ≡ http_error 409)
unfolding handle_release_account release_account
handle_release_account-any_status now st run minutes reason id a named at off = (
  rw (handle_release_account, named, at)
      (ap (λ (d : Dict GameAccount). get d id)
          (close_named-accounts now reason a
            (save_account st id (step_released now minutes reason a))
            (truthy run.account_session_id))
        ∙ get-put_same st.accounts id (step_released now minutes reason a)),
  ground arith,
  rw (release_account, at) (rw off refl),
)
