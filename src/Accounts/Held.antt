-- ===== src/Accounts/Held.antt =====
-- What each change of an account does to its place, and that it keeps the login.
use sphere_platform.Base.{
  ℕ, String, false, Option, none, some, ◌==◌, arith, ◌≡◌, refl, Bool-cases, inl, inr, ◌∙◌,
}
use sphere_platform.Base.Dict.Size.{is_some}
use sphere_platform.Accounts.Account.{AccountStatus, value, is_free, StatusReason, GameAccount}
use sphere_platform.Accounts.Service.{
  CreateRequest, UpdateRequest, new_account, when_free, update_status, set_secret, updated, attach,
  released,
}
use sphere_platform.Accounts.Reactor.{Event, detach, count_ban, reacted, count_session, is_lost}
use sphere_platform.Accounts.Steps.{step_released}
use sphere_platform.Accounts.Invariant.{IsHeld, IsSameLogin}

pub new_account-IsHeld :
    (now : ℕ) (org : String) (r : CreateRequest) → IsHeld (new_account now org r)
new_account-IsHeld now org r = record { free_alone = λ e. refl; assigned = refl }

pub attach-IsHeld :
    (now : ℕ) (device : String) (why : StatusReason) (a : GameAccount)
    → IsHeld (attach now device why a)
attach-IsHeld now device why a = record { free_alone = λ e. ground (arith, e); assigned = refl }

pub released-IsHeld : (now minutes : ℕ) (a : GameAccount) → IsHeld (released now minutes a)
released-IsHeld now minutes a = record { free_alone = λ e. ground arith; assigned = ground arith }

pub step_released-IsHeld :
    (now minutes : ℕ) (reason : String) (a : GameAccount)
    → IsHeld (step_released now minutes reason a)
step_released-IsHeld now minutes reason a = record {
  free_alone = λ e. ground arith;
  assigned = ground arith;
}

taken-IsHeld :
    (a : GameAccount)
    → is_some a.device_id ≡ is_some a.assigned_at
    → is_free a.status ≡ false
    → IsHeld a
taken-IsHeld a h e = record { free_alone = λ k. ground (arith, e, k); assigned = h }

-- The status of an update is in place when `when_free` looks at it.
when_free-IsHeld :
    (s : AccountStatus) (a : GameAccount)
    → is_some a.device_id ≡ is_some a.assigned_at
    → is_free a.status ≡ is_free s
    → IsHeld (when_free s a)
when_free-IsHeld s a h e = elim (Bool-cases (is_free s)) [
  | inl k ↦ rw k (record { free_alone = λ q. refl; assigned = refl })
  | inr k ↦ rw k (taken-IsHeld a h (e ∙ k))
]

set_secret-IsHeld :
    (login : String) (password : Option String) (a : GameAccount)
    → IsHeld a
    → IsHeld (set_secret login password a)
set_secret-IsHeld login none a h = record { free_alone = h.free_alone; assigned = h.assigned }
set_secret-IsHeld login (some p) a h = record { free_alone = h.free_alone; assigned = h.assigned }

update_status-IsHeld :
    (now : ℕ) (s : Option AccountStatus) (why : Option String) (a : GameAccount)
    → IsHeld a
    → IsHeld (update_status now s why a)
update_status-IsHeld now none why a h = record { free_alone = h.free_alone; assigned = h.assigned }
update_status-IsHeld now (some s) why a h = elim (Bool-cases (value s == value a.status)) [
  | inl e ↦ rw e h
  | inr e ↦ rw e (when_free-IsHeld s _ h.assigned refl)
]

pub updated-IsHeld :
    (now : ℕ) (u : UpdateRequest) (login : String) (a : GameAccount)
    → IsHeld a
    → IsHeld (updated now u login a)
updated-IsHeld now u login a h =
    let k =
      update_status-IsHeld now u.status u.status_reason (set_secret login u.password a)
        (set_secret-IsHeld login u.password a h) in
    record { free_alone = k.free_alone; assigned = k.assigned }

detach-IsHeld :
    (s : AccountStatus) (a : GameAccount)
    → is_some a.device_id ≡ is_some a.assigned_at
    → is_free a.status ≡ false
    → IsHeld (detach s a)
detach-IsHeld s a h e = elim (Bool-cases (is_lost s)) [
  | inl k ↦ rw k (taken-IsHeld _ refl e)
  | inr k ↦ rw k (taken-IsHeld a h e)
]

count_ban-IsHeld : (now : ℕ) (e : Event) (a : GameAccount) → IsHeld a → IsHeld (count_ban now e a)
count_ban-IsHeld now e a h = elim (Bool-cases (e.event_type == "account.banned")) [
  | inl k ↦ rw k (record { free_alone = h.free_alone; assigned = h.assigned })
  | inr k ↦ rw k h
]

-- A reaction never makes an account free.
pub reacted-IsHeld :
    (now : ℕ) (e : Event) (s : AccountStatus) (a : GameAccount)
    → is_free s ≡ false
    → IsHeld a
    → IsHeld (reacted now e s a)
reacted-IsHeld now e s a f h = count_ban-IsHeld now e _ (detach-IsHeld s _ h.assigned f)

pub count_session-IsHeld : (now : ℕ) (a : GameAccount) → IsHeld a → IsHeld (count_session now a)
count_session-IsHeld now a h = record { free_alone = h.free_alone; assigned = h.assigned }

pub updated-IsSameLogin :
    (now : ℕ) (u : UpdateRequest) (a : GameAccount) → IsSameLogin a (updated now u a.login a)
updated-IsSameLogin now u a = record {
  org = ground arith;
  game = ground arith;
  login = ground arith;
}

pub released-IsSameLogin :
    (now minutes : ℕ) (a : GameAccount) → IsSameLogin a (released now minutes a)
released-IsSameLogin now minutes a = record {
  org = ground arith;
  game = ground arith;
  login = ground arith;
}

pub step_released-IsSameLogin :
    (now minutes : ℕ) (reason : String) (a : GameAccount)
    → IsSameLogin a (step_released now minutes reason a)
step_released-IsSameLogin now minutes reason a = record {
  org = ground arith;
  game = ground arith;
  login = ground arith;
}

pub reacted-IsSameLogin :
    (now : ℕ) (e : Event) (s : AccountStatus) (a : GameAccount) → IsSameLogin a (reacted now e s a)
reacted-IsSameLogin now e s a = record {
  org = ground arith;
  game = ground arith;
  login = ground arith;
}

-- An update writes the login that it is given, and keeps the organisation and the game.
pub updated-login :
    (now : ℕ) (u : UpdateRequest) (login : String) (a : GameAccount)
    → (updated now u login a).login ≡ login
updated-login now u login a = ground arith

pub updated-org :
    (now : ℕ) (u : UpdateRequest) (login : String) (a : GameAccount)
    → (updated now u login a).org_id ≡ a.org_id
updated-org now u login a = ground arith

pub updated-game :
    (now : ℕ) (u : UpdateRequest) (login : String) (a : GameAccount)
    → (updated now u login a).game ≡ a.game
updated-game now u login a = ground arith
