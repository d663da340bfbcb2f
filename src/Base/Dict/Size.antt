-- ===== src/Base/Dict/Size.antt =====
-- The number of entries of a dict, and the invariant that no key stands twice.
use sphere_platform.Base.Lists.{length}
use sphere_platform.Base.Tests.{if◌then◌else◌, Bool-cases}
use sphere_platform.Base.Dict.{Dict, get, put, remove, get-put, get-remove}
use Prim.Native.Nat.{suc}
use Prim.Native.String.{String}
use mathlib.Core.Path.{◌≡◌, refl}
use mathlib.Core.Bool.{Bool, true, false}
use mathlib.Core.List.{[], ◌∷◌}
use mathlib.Core.Logic.{inl, inr}
use mathlib.Core.Option.{Option, none, some}
use native.Mathlib.Omega.{arith}
use text.Mathlib.Text.{◌==◌}
use text.Mathlib.TextEquality.{eq_iff}

abbrev pub is_some {ℓ} : {A : Type ℓ} → Option A → Bool
is_some none = false
is_some (some a) = true

module _ {ℓ} {V : Type ℓ} where
  abbrev pub IsDict : Dict V → Type ℓ
  IsDict [] = Unit
  IsDict ((k, v) ∷ d) = (get d k ≡ none) × IsDict d

  pub put-IsDict : (d : Dict V) (k : String) (v : V) → IsDict d → IsDict (put d k v)
  unfolding put get
  put-IsDict [] k v h = (refl, tt)
  put-IsDict ((j, w) ∷ d) k v h = elim (Bool-cases (j == k)) [
    | inl e ↦ rw (e, put) (ground (arith, eq_iff j k), h.1)
    | inr e ↦
        rw (e, put) (ground (arith, get-put d k j v, eq_iff k j, eq_iff j k), put-IsDict d k v h.1)
  ]

  pub remove-IsDict : (d : Dict V) (k : String) → IsDict d → IsDict (remove d k)
  unfolding remove get
  remove-IsDict [] k h = tt
  remove-IsDict ((j, w) ∷ d) k h = elim (Bool-cases (j == k)) [
    | inl e ↦ rw (e, remove) (remove-IsDict d k h.1)
    | inr e ↦ rw (e, remove) (ground (arith, get-remove d k j), remove-IsDict d k h.1)
  ]

  pub length-put :
      (d : Dict V) (k : String) (v : V)
      → length (put d k v) ≡ (if is_some (get d k) then length d else suc (length d))
  unfolding put get
  length-put [] k v = refl
  length-put ((j, w) ∷ d) k v = ground (arith, length-put d k v)

  pub remove_absent : (d : Dict V) (k : String) → get d k ≡ none → remove d k ≡ d
  unfolding remove get
  remove_absent [] k h = refl
  remove_absent ((j, w) ∷ d) k h = ground (arith, remove_absent d k)

  pub length-remove :
      (d : Dict V) (k : String)
      → IsDict d
      → length d ≡ (if is_some (get d k) then suc (length (remove d k)) else length (remove d k))
  unfolding remove get
  length-remove [] k h = refl
  length-remove ((j, w) ∷ d) k h =
      ground (arith, length-remove d k h.1, eq_iff j k, remove_absent d j h.0, h.0)
