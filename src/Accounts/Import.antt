-- ===== src/Accounts/Import.antt =====
-- backend/services/game_account_service.py: what an import adds, and what it finds the second time.
use sphere_platform.Base.{
  ℕ, suc, ◌+◌, String, true, Option, none, some, List, [], ◌∷◌, arith, ◌≡◌, ◌≢◌, refl, ◌∙◌, ap,
  eq_refl, Option-cases, inl, inr, length, All,
}
use sphere_platform.Base.Dict.{Dict, get, put, get-put_same}
use sphere_platform.Base.Dict.Find.{find_row, find_row-none, find_row-some}
use sphere_platform.Base.Dict.Rows.{get-put_other}
use sphere_platform.Accounts.Account.{GameAccount, Store, save_account}
use sphere_platform.Accounts.Service.{
  CreateRequest, has_login, imported_account, Import, import_item, import_items, import_accounts,
  if_some,
}
use sphere_platform.Base.Dict.Size.{IsDict, put-IsDict}

-- Some account of the table has the game and the login.
abbrev pub Listed : String → Dict GameAccount → CreateRequest → Type 0
Listed org d r =
    (i : String) × (a : GameAccount) × (get d i ≡ some a) × (has_login org r.game r.login a ≡ true)

-- The ids of new rows: none of them is taken, and no two are the same.
abbrev pub IsFresh : Dict GameAccount → List CreateRequest → Type 0
IsFresh d [] = Unit
IsFresh d (r ∷ items) = (get d r.id ≡ none) × All (λ q. r.id ≢ q.id) items × IsFresh d items

import_item-counts :
    (now : ℕ) (org : String) (i : Import) (r : CreateRequest)
    → let end = import_item now org i r in end.created + end.skipped ≡ suc (i.created + i.skipped)
import_item-counts now org i r = turn (find_row (has_login org r.game r.login) i.store.accounts)
  where
    turn :
        (o : Option (String × GameAccount))
        → let end : Import =
            if_some o
              (record i { skipped = suc i.skipped })
              (record i {
                store = save_account i.store r.id (imported_account now org r);
                created = suc i.created;
              }) in
          end.created + end.skipped ≡ suc (i.created + i.skipped)
    turn none = omega arith
    turn (some dup) = omega arith

import_items-counts :
    (now : ℕ) (org : String) (i : Import) (items : List CreateRequest)
    → let end = import_items now org i items in
      end.created + end.skipped ≡ i.created + i.skipped + length items
import_items-counts now org i [] = omega arith
import_items-counts now org i (r ∷ items) = omega (
  arith,
  import_items-counts now org (import_item now org i r) items,
  import_item-counts now org i r,
)

-- A row of a new id hides no other.
listed-put :
    (org : String) (d : Dict GameAccount) (q : CreateRequest) (id : String) (a : GameAccount)
    → get d id ≡ none
    → Listed org d q
    → Listed org (put d id a) q
listed-put org d q id a new (i, b, at, is) =
    let other : id ≢ i = λ z. ground (arith, z, new, at) in
    (i, b, get-put_other d id i a other ∙ at, is)

listed-new :
    (now : ℕ) (org : String) (d : Dict GameAccount) (r : CreateRequest)
    → Listed org (put d r.id (imported_account now org r)) r
unfolding has_login
listed-new now org d r = (
  r.id,
  imported_account now org r,
  get-put_same d r.id (imported_account now org r),
  ground (arith, eq_refl org, eq_refl r.game, eq_refl r.login),
)

fresh-put :
    (d : Dict GameAccount) (id : String) (a : GameAccount) (items : List CreateRequest)
    → All (λ q. id ≢ q.id) items
    → IsFresh d items
    → IsFresh (put d id a) items
fresh-put d id a [] h f = tt
fresh-put d id a (q ∷ items) h f =
    (get-put_other d id q.id a h.0 ∙ f.0, f.1, fresh-put d id a items h.1 f.2)

-- What one item leaves listed: itself, and what was.
record Keeps (org : String) (d d' : Dict GameAccount) (r : CreateRequest) : Type 0 where
  listed : Listed org d' r
  before : (q : CreateRequest) → Listed org d q → Listed org d' q
  dict : IsDict d'
  fresh :
      (items : List CreateRequest)
      → All (λ q. r.id ≢ q.id) items
      → IsFresh d items
      → IsFresh d' items

import_item-Keeps :
    (now : ℕ) (org : String) (i : Import) (r : CreateRequest)
    → IsDict i.store.accounts
    → get i.store.accounts r.id ≡ none
    → Keeps org i.store.accounts (import_item now org i r).store.accounts r
import_item-Keeps now org i r d new =
    elim (Option-cases (find_row (has_login org r.game r.login) i.store.accounts)) [
      | inl e ↦ rw e (record {
        listed = listed-new now org i.store.accounts r;
        before = λ q. listed-put org i.store.accounts q r.id (imported_account now org r) new;
        dict = put-IsDict i.store.accounts r.id (imported_account now org r) d;
        fresh = λ items. fresh-put i.store.accounts r.id (imported_account now org r) items;
      })
      | inr (dup, e) ↦ rw e (record {
        listed = (
          dup.0,
          dup.1,
          (find_row-some _ i.store.accounts dup.0 dup.1 d e).0,
          (find_row-some _ i.store.accounts dup.0 dup.1 d e).1,
        );
        before = λ q h. h;
        dict = d;
        fresh = λ items h f. f;
      })
    ]

import_items-listed :
    (now : ℕ) (org : String) (i : Import) (items : List CreateRequest)
    → IsDict i.store.accounts
    → IsFresh i.store.accounts items
    → (All (Listed org (import_items now org i items).store.accounts) items)
      × ((q : CreateRequest)
          → Listed org i.store.accounts q
          → Listed org (import_items now org i items).store.accounts q)
import_items-listed now org i [] d f = (tt, λ q h. h)
import_items-listed now org i (r ∷ items) d f =
    let one = import_item-Keeps now org i r d f.0 in
    let (all, still) =
      import_items-listed now org (import_item now org i r) items one.dict
        (one.fresh items f.1 f.2) in
    ((still r one.listed, all), λ q h. still q (one.before q h))

-- An item whose login is listed is skipped.
import_item-skips :
    (now : ℕ) (org : String) (i : Import) (r : CreateRequest)
    → Listed org i.store.accounts r
    → import_item now org i r ≡ record i { skipped = suc i.skipped }
import_item-skips now org i r (j, a, at, is) =
    elim (Option-cases (find_row (has_login org r.game r.login) i.store.accounts)) [
      | inr (dup, e) ↦ rw e refl
      | inl e ↦ absurd (ground (arith, is, find_row-none _ i.store.accounts e j a at))
    ]

abbrev skip : Import → ℕ → Import
skip i n = record i { skipped = n }

import_items-skips :
    (now : ℕ) (org : String) (i : Import) (items : List CreateRequest)
    → All (Listed org i.store.accounts) items
    → import_items now org i items ≡ skip i (i.skipped + length items)
import_items-skips now org i [] h = ap (skip i) (omega arith)
import_items-skips now org i (r ∷ items) h =
    rw (import_item-skips now org i r h.0)
      (import_items-skips now org (skip i (suc i.skipped)) items h.1 ∙ ap (skip i) (omega arith))

-- An import counts every item as created or as skipped. The same import again, when the ids of the
-- new rows were free, creates nothing, skips every item and leaves the accounts as they are.
pub import_accounts-again :
    (now later : ℕ) (st : Store) (org : String) (items : List CreateRequest)
    → IsDict st.accounts
    → IsFresh st.accounts items
    → let one = import_accounts now st org items in
      let two = import_accounts later one.store org items in
      (one.created + one.skipped ≡ length items)
      × (two.created ≡ 0)
      × (two.skipped ≡ length items)
      × (two.store ≡ one.store)
unfolding import_accounts
import_accounts-again now later st org items d f =
    let start : Import = record { store = st; created = 0; skipped = 0 } in
    let one : Import = import_items now org start items in
    let two =
      import_items-skips later org (record { store = one.store; created = 0; skipped = 0 }) items
        (import_items-listed now org start items d f).0 in
    (
      omega (arith, import_items-counts now org start items),
      ap (λ (i : Import). i.created) two,
      omega (arith, ap (λ (i : Import). i.skipped) two),
      ap (λ (i : Import). i.store) two,
    )
