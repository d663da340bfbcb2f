-- ===== src/Accounts/Invariant.antt =====
-- What the services keep of the table of accounts, for one row that is written or removed.
pub mod Service
pub mod Reactor
pub mod History
use sphere_platform.Base.{
  ℕ, String, Bool, true, false, ◌&&◌, Option, none, some, ◌==◌, arith, ◌≡◌, refl, sym, eq_iff,
  eq_refl, if◌then◌else◌, Bool-cases, inl, inr, eq_true, ap, ◌⊎◌, subst, ◌∙◌,
}
use sphere_platform.Base.Dict.{Dict, get, put, remove, get-put, get-remove, dict_laws}
use sphere_platform.Base.Dict.Size.{is_some, IsDict, put-IsDict, remove-IsDict}
use sphere_platform.Base.Dict.Find.{NoneOf}
use sphere_platform.Accounts.Account.{GameAccount, AccountStatus, is_free}
use sphere_platform.Accounts.Service.{has_login}
use sphere_platform.Base.Dict.Rows.{row-put, row-remove, get-remove_other}

-- A free account is on no device, and the time of assignment stands exactly where a device does.
pub record IsHeld (a : GameAccount) : Type 0 where
  pub free_alone : is_free a.status ≡ true → a.device_id ≡ none
  pub assigned : is_some a.device_id ≡ is_some a.assigned_at

pub record IsSameLogin (a b : GameAccount) : Type 0 where
  pub org : a.org_id ≡ b.org_id
  pub game : a.game ≡ b.game
  pub login : a.login ≡ b.login

pub record IsSound (d : Dict GameAccount) : Type 0 where
  pub rows : IsDict d
  pub held : (id : String) (a : GameAccount) → get d id ≡ some a → IsHeld a
  -- The unique index ix_game_accounts_org_game_login.
  pub unique :
      (i j : String) (a b : GameAccount)
      → get d i ≡ some a
      → get d j ≡ some b
      → IsSameLogin a b
      → i ≡ j

pub has_login-IsSameLogin :
    (a b : GameAccount) → IsSameLogin a b → has_login b.org_id b.game b.login a ≡ true
unfolding has_login
has_login-IsSameLogin a b h = ground (
  arith,
  h.org,
  h.game,
  h.login,
  eq_iff a.org_id b.org_id,
  eq_iff a.game b.game,
  eq_iff a.login b.login,
)

pub IsSameLogin-has_login :
    (b x : GameAccount) → has_login b.org_id b.game b.login x ≡ true → IsSameLogin b x
unfolding has_login
IsSameLogin-has_login b x h = record {
  org = ground (arith, h, eq_iff x.org_id b.org_id);
  game = ground (arith, h, eq_iff x.game b.game);
  login = ground (arith, h, eq_iff x.login b.login);
}

pub unique-has_login :
    (d : Dict GameAccount) (i : String) (a b : GameAccount)
    → NoneOf (has_login b.org_id b.game b.login) d
    → get d i ≡ some a
    → IsSameLogin a b
    → ⊥
unique-has_login d i a b h e s = ground (arith, h i a e, has_login-IsSameLogin a b s)

pub sym-IsSameLogin : (a b : GameAccount) → IsSameLogin a b → IsSameLogin b a
sym-IsSameLogin a b h = record { org = sym h.org; game = sym h.game; login = sym h.login }

pub trans-IsSameLogin : (a b c : GameAccount) → IsSameLogin a b → IsSameLogin b c → IsSameLogin a c
trans-IsSameLogin a b c h k = record {
  org = h.org ∙ k.org;
  game = h.game ∙ k.game;
  login = h.login ∙ k.login;
}

-- A row is written whose login no other row has.
pub write-IsSound :
    (d : Dict GameAccount) (id : String) (b : GameAccount)
    → IsSound d
    → IsHeld b
    → NoneOf (has_login b.org_id b.game b.login) (remove d id)
    → IsSound (put d id b)
write-IsSound d id b s k h = record {
  rows = put-IsDict d id b s.rows;
  held = λ i a e. elim (row-put d id i b a e) [
    | inl (_, same) ↦ subst IsHeld same k
    | inr (_, at) ↦ s.held i a at
  ];
  unique = λ i j x y ex ey same. elim (row-put d id i b x ex) [
    | inl (at, is) ↦ elim (row-put d id j b y ey) [
      | inl (at', _) ↦ sym at ∙ at'
      | inr (other, ey') ↦ absurd (
          unique-has_login (remove d id) j y b h (get-remove_other d id j other ∙ ey')
            (sym-IsSameLogin b y (subst (λ u. IsSameLogin u y) (sym is) same)))
    ]
    | inr (other, ex') ↦ elim (row-put d id j b y ey) [
      | inl (_, is) ↦ absurd (
          unique-has_login (remove d id) i x b h (get-remove_other d id i other ∙ ex')
            (subst (λ u. IsSameLogin x u) (sym is) same))
      | inr (_, ey') ↦ s.unique i j x y ex' ey' same
    ]
  ];
}

-- A row is written over one with the same login.
pub edit-IsSound :
    (d : Dict GameAccount) (id : String) (a b : GameAccount)
    → IsSound d
    → get d id ≡ some a
    → IsHeld b
    → IsSameLogin a b
    → IsSound (put d id b)
edit-IsSound d id a b s e k same = write-IsSound d id b s k (λ i x h.
    elim (Bool-cases (has_login b.org_id b.game b.login x)) [
      | inr off ↦ off
      | inl on ↦
          let (other, at) = row-remove d id i x h in
          absurd (
            other (
              s.unique id i a x e at (trans-IsSameLogin a b x same (IsSameLogin-has_login b x on))))
    ])

pub remove-IsSound : (d : Dict GameAccount) (id : String) → IsSound d → IsSound (remove d id)
remove-IsSound d id s = record {
  rows = remove-IsDict d id s.rows;
  held = λ i a e. s.held i a (row-remove d id i a e).1;
  unique =
      λ i j a b e f same. s.unique i j a b (row-remove d id i a e).1 (row-remove d id j b f).1 same;
}
