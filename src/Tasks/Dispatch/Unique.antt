-- ===== src/Tasks/Dispatch/Unique.antt =====
-- backend/services/task_service.py: at most one active task for a device and a script version, and
-- what writing a row of `create_task` does to that.
use sphere_platform.Base.{
  ℕ, String, Bool, true, false, Option, none, some, ◌≡◌, ◌⊎◌, inl, inr, arith, eq_iff, refl,
  Bool-cases, ◌↔◌,
}
use sphere_platform.Base.Dict.{Dict, get, put, get-put}
use sphere_platform.Tasks.Task.{
  Task, ErrorMessage, TaskStatus, is_active_status, queued, assigned, running, completed, failed,
  timeout, cancelled,
}
use sphere_platform.Tasks.Dispatch.{Request, is_duplicate, new_task, time_out, has_version}
use sphere_platform.Base.Dict.Find.{NoneOf}

abbrev pub AtMostOne : (Task → Bool) → Dict Task → Type 0
AtMostOne p d =
    (i j : String) (t u : Task)
    → get d i ≡ some t
    → get d j ≡ some u
    → p t ≡ true
    → p u ≡ true
    → i ≡ j

-- The row of a queued, assigned or running task of this device, organisation and script version.
pub record Active (d o v : String) (t : Task) : Type 0 where
  pub device : t.device_id ≡ d
  pub org : t.org_id ≡ o
  pub version : t.script_version_id ≡ some v
  pub status : (t.status ≡ queued) ⊎ ((t.status ≡ assigned) ⊎ (t.status ≡ running))

abbrev pub Unique : Dict Task → Type 0
Unique d =
    (device org version i j : String) (t u : Task)
    → get d i ≡ some t
    → get d j ≡ some u
    → Active device org version t
    → Active device org version u
    → i ≡ j

status-is_active :
    (s : TaskStatus)
    → (is_active_status s ≡ true) ↔ ((s ≡ queued) ⊎ ((s ≡ assigned) ⊎ (s ≡ running)))
status-is_active queued = ((λ e. inl refl), (λ h. refl))
status-is_active assigned = ((λ e. inr (inl refl)), (λ h. refl))
status-is_active running = ((λ e. inr (inr refl)), (λ h. refl))
status-is_active completed = ground arith
status-is_active failed = ground arith
status-is_active timeout = ground arith
status-is_active cancelled = ground arith

has_version_iff : (o : Option String) (v : String) → (has_version o v ≡ true) ↔ (o ≡ some v)
has_version_iff none v = ground arith
has_version_iff (some w) v = ground (arith, eq_iff w v)

-- The filter of the query takes exactly these rows.
filter-Active :
    (device org version : String) (t : Task)
    → (is_duplicate device org version t ≡ true) ↔ Active device org version t
unfolding is_duplicate
filter-Active device org version t =
    let named = has_version_iff t.script_version_id version in
    let active = status-is_active t.status in
    (
      (λ h. record {
        device = ground (arith, h, eq_iff t.device_id device);
        org = ground (arith, h, eq_iff t.org_id org);
        version = ground (arith, h, named);
        status = active.0 (ground (arith, h));
      }),
      (λ a. ground (
        arith,
        a.device,
        a.org,
        eq_iff t.device_id device,
        eq_iff t.org_id org,
        named.1 a.version,
        active.1 a.status,
      )),
    )

unfoldable pub ByFilter : Dict Task → Type 0
ByFilter d = (device org version : String) → AtMostOne (is_duplicate device org version) d

pub Unique-ByFilter : (d : Dict Task) → Unique d ↔ ByFilter d
unfolding ByFilter
Unique-ByFilter d = (
  (λ h device org version i j t u ei ej p q.
      h device org version i j t u ei ej ((filter-Active device org version t).0 p)
        ((filter-Active device org version u).0 q)),
  (λ h device org version i j t u ei ej p q.
      h device org version i j t u ei ej ((filter-Active device org version t).1 p)
        ((filter-Active device org version u).1 q)),
)

-- A row replaced by one that the filter does not take.
pub put-NoneOf :
    (p : Task → Bool) (d : Dict Task) (id : String) (t : Task)
    → ((i : String) (u : Task) → get d i ≡ some u → p u ≡ true → i ≡ id)
    → p t ≡ false
    → NoneOf p (put d id t)
put-NoneOf p d id t h f i u e = ground (arith, e, get-put d id i t, eq_iff id i, h i u, f)

put-AtMostOne :
    (p : Task → Bool) (d : Dict Task) (id : String) (t : Task)
    → AtMostOne p d
    → (p t ≡ false) ⊎ NoneOf p d
    → AtMostOne p (put d id t)
put-AtMostOne p d id t h (inl f) i j u v ei ej pu pv = ground (
  arith,
  ei,
  ej,
  get-put d id i t,
  get-put d id j t,
  eq_iff id i,
  eq_iff id j,
  h i j u v,
  pu,
  pv,
  f,
)
put-AtMostOne p d id t h (inr n) i j u v ei ej pu pv = ground (
  arith,
  ei,
  ej,
  get-put d id i t,
  get-put d id j t,
  eq_iff id i,
  eq_iff id j,
  n i u,
  n j v,
  pu,
  pv,
)

pub time_out-ByFilter :
    (d : Dict Task) (id : String) (reason : ErrorMessage) (now : ℕ) (t : Task)
    → ByFilter d
    → ByFilter (put d id (time_out reason now t))
unfolding is_duplicate ByFilter
time_out-ByFilter d id reason now t h device org version =
    put-AtMostOne (is_duplicate device org version) d id (time_out reason now t)
      (h device org version) (inl (ground arith))

pub new-ByFilter :
    (d : Dict Task) (now : ℕ) (r : Request) (version : String)
    → ByFilter d
    → NoneOf (is_duplicate r.device_id r.org_id version) d
    → ByFilter (put d r.id (new_task now r version))
unfolding is_duplicate ByFilter
new-ByFilter d now r version h n device org v =
    let new = new_task now r version in
    put-AtMostOne (is_duplicate device org v) d r.id new (h device org v)
      (elim (Bool-cases (is_duplicate device org v new)) [
        | inr f ↦ inl f
        | inl k ↦ inr (λ i t e.
            ground
              (arith, n i t e, k, eq_iff r.device_id device, eq_iff r.org_id org, eq_iff version v))
      ])
