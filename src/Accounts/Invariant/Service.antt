-- ===== src/Accounts/Invariant/Service.antt =====
-- backend/services/game_account_service.py: its requests keep the table of accounts sound.
use sphere_platform.Base.{
  ℕ, String, Option, none, some, List, [], ◌∷◌, ◌==◌, arith, ◌≡◌, refl, eq_iff, Bool-cases,
  Option-cases, inl, inr, ◌⊎◌,
}
use sphere_platform.Base.Dict.{Dict, get, put, remove}
use sphere_platform.Base.Dict.Find.{NoneOf, find_row, find_row-none}
use sphere_platform.Base.Dict.Rows.{row-remove}
use sphere_platform.Tasks.Service.{Reply, ok, http_error, raised}
use sphere_platform.Accounts.Account.{
  is_free, is_in_use, StatusReason, GameAccount, Device, Store, save_account, get_account,
}
use sphere_platform.Accounts.Service.{
  CreateRequest, UpdateRequest, has_login, new_account, create_account, new_login, updated,
  update_found, update_account, delete_account, attach, assign_found, assign_account, released,
  release_found, release_account, Import, import_item, import_items, write_update,
}
use sphere_platform.Accounts.Invariant.{IsSound, write-IsSound, edit-IsSound, remove-IsSound}
use sphere_platform.Accounts.Held.{
  new_account-IsHeld, attach-IsHeld, released-IsHeld, updated-IsHeld, updated-IsSameLogin,
  released-IsSameLogin, updated-org, updated-game, updated-login,
}

-- A request that fails leaves the tables as they are.
abbrev pub settle : Store → Reply Store → Store
settle st (ok s) = s
settle st (http_error n) = st
settle st raised = st

pub get_account-row :
    (st : Store) (id org : String) (a : GameAccount)
    → get_account st id org ≡ some a
    → get st.accounts id ≡ some a
unfolding get_account
get_account-row st id org a h = elim (Option-cases (get st.accounts id)) [
  | inl e ↦ absurd (ground (arith, h, e))
  | inr (b, e) ↦ ground (arith, h, e)
]

pub get_account-org :
    (st : Store) (id org : String) (a : GameAccount)
    → get_account st id org ≡ some a
    → a.org_id ≡ org
unfolding get_account
get_account-org st id org a h = elim (Option-cases (get st.accounts id)) [
  | inl e ↦ absurd (ground (arith, h, e))
  | inr (b, e) ↦ ground (arith, h, e, eq_iff b.org_id org)
]

-- A new account, at an id that may be taken.
add-IsSound :
    (now : ℕ) (st : Store) (org : String) (r : CreateRequest)
    → IsSound st.accounts
    → find_row (has_login org r.game r.login) st.accounts ≡ none
    → IsSound (save_account st r.id (new_account now org r)).accounts
add-IsSound now st org r s e =
    write-IsSound st.accounts r.id (new_account now org r) s (new_account-IsHeld now org r)
      (λ i a h. find_row-none _ st.accounts e i a (row-remove st.accounts r.id i a h).1)

pub create_account-IsSound :
    (now : ℕ) (st : Store) (org : String) (r : CreateRequest)
    → IsSound st.accounts
    → IsSound (settle st (create_account now st org r)).accounts
unfolding create_account
create_account-IsSound now st org r s =
    elim (Option-cases (find_row (has_login org r.game r.login) st.accounts)) [
      | inl e ↦ rw (e, create_account) (add-IsSound now st org r s e)
      | inr (dup, e) ↦ rw (e, create_account) s
    ]

pub import_items-IsSound :
    (now : ℕ) (org : String) (i : Import) (items : List CreateRequest)
    → IsSound i.store.accounts
    → IsSound (import_items now org i items).store.accounts
import_items-IsSound now org i [] s = s
import_items-IsSound now org i (r ∷ items) s =
    import_items-IsSound now org (import_item now org i r) items
      (elim (Option-cases (find_row (has_login org r.game r.login) i.store.accounts)) [
        | inl e ↦
            let row : CreateRequest = record r { target_level = none; experience = none } in
            rw e (add-IsSound now i.store org row s e)
        | inr (dup, e) ↦ rw e s
      ])

-- A login that an update may write is the account's own, or no other row has it.
new_login-outcome :
    (st : Store) (id org : String) (a : GameAccount) (o : Option String) (login : String)
    → new_login st id org a o ≡ some login
    → (login ≡ a.login) ⊎ NoneOf (has_login org a.game login) (remove st.accounts id)
new_login-outcome st id org a none login h = inl (ground (arith, h))
new_login-outcome st id org a (some l) login h = elim (Bool-cases (l == a.login)) [
  | inl e ↦ inl (ground (arith, h, e))
  | inr e ↦ elim (Option-cases (find_row (has_login org a.game l) (remove st.accounts id))) [
    | inr (dup, k) ↦ absurd (ground (arith, rw (e, k) at h))
    | inl k ↦
        let same : l ≡ login = ground (arith, rw (e, k) at h) in
        inr (find_row-none _ (remove st.accounts id) (rw same at k))
  ]
]

updated-IsSound :
    (now : ℕ) (st : Store) (id org : String) (u : UpdateRequest) (a : GameAccount) (login : String)
    → IsSound st.accounts
    → get_account st id org ≡ some a
    → (login ≡ a.login) ⊎ NoneOf (has_login org a.game login) (remove st.accounts id)
    → IsSound (put st.accounts id (updated now u login a))
updated-IsSound now st id org u a login s e (inl own) =
    let at = get_account-row st id org a e in
    rw own (
      edit-IsSound st.accounts id a (updated now u a.login a) s at
        (updated-IsHeld now u a.login a (s.held id a at)) (updated-IsSameLogin now u a))
updated-IsSound now st id org u a login s e (inr new) =
    write-IsSound st.accounts id (updated now u login a) s
      (updated-IsHeld now u login a (s.held id a (get_account-row st id org a e)))
      (rw
        (
          updated-org now u login a,
          updated-game now u login a,
          updated-login now u login a,
          get_account-org st id org a e,
        )
        new)

pub update_account-IsSound :
    (now : ℕ) (st : Store) (org id : String) (u : UpdateRequest)
    → IsSound st.accounts
    → IsSound (settle st (update_account now st id org u)).accounts
unfolding update_account
update_account-IsSound now st org id u s = turn _ refl
  where
    write :
        (a : GameAccount) (o : Option String)
        → get_account st id org ≡ some a
        → new_login st id org a u.login ≡ o
        → IsSound (settle st (write_update now st id u a o)).accounts
    write a none e k = s
    write a (some login) e k =
        updated-IsSound now st id org u a login s e (new_login-outcome st id org a u.login login k)

    turn :
        (o : Option GameAccount)
        → get_account st id org ≡ o
        → IsSound (settle st (update_found now st id org u o)).accounts
    turn none e = s
    turn (some a) e = write a _ e refl

pub delete_account-IsSound :
    (st : Store) (org id : String)
    → IsSound st.accounts
    → IsSound (settle st (delete_account st id org)).accounts
unfolding delete_account
delete_account-IsSound st org id s = elim (Option-cases (get_account st id org)) [
  | inl e ↦ rw (e, delete_account) s
  | inr (a, e) ↦ rw (e, delete_account) (remove-IsSound st.accounts id s)
]

-- An account that is attached to a device.
pub attach-IsSound :
    (now : ℕ) (d : Dict GameAccount) (id device : String) (why : StatusReason) (a : GameAccount)
    → IsSound d
    → get d id ≡ some a
    → IsSound (put d id (attach now device why a))
attach-IsSound now d id device why a s at =
    edit-IsSound d id a (attach now device why a) s at (attach-IsHeld now device why a)
      (record { org = refl; game = refl; login = refl })

pub assign_account-IsSound :
    (now : ℕ) (st : Store) (org id device : String)
    → IsSound st.accounts
    → IsSound (settle st (assign_account now st id org device)).accounts
unfolding assign_account
assign_account-IsSound now st org id device s = turn _ _ refl
  where
    turn :
        (d : Option Device) (o : Option GameAccount)
        → get_account st id org ≡ o
        → IsSound (settle st (assign_found now st id device d o)).accounts
    turn d none e = s
    turn none (some a) e = s
    turn (some d) (some a) e = elim (Bool-cases (is_free a.status)) [
      | inl k ↦
          rw k (attach-IsSound now st.accounts id device _ a s (get_account-row st id org a e))
      | inr k ↦ rw k s
    ]

pub release_account-IsSound :
    (now : ℕ) (st : Store) (org id : String) (minutes : ℕ)
    → IsSound st.accounts
    → IsSound (settle st (release_account now st id org minutes)).accounts
unfolding release_account
release_account-IsSound now st org id minutes s = turn _ refl
  where
    turn :
        (o : Option GameAccount)
        → get_account st id org ≡ o
        → IsSound (settle st (release_found now st id minutes o)).accounts
    turn none e = s
    turn (some a) e = elim (Bool-cases (is_in_use a.status)) [
      | inl k ↦ rw k (
          edit-IsSound st.accounts id a (released now minutes a) s (get_account-row st id org a e)
            (released-IsHeld now minutes a) (released-IsSameLogin now minutes a))
      | inr k ↦ rw k s
    ]
