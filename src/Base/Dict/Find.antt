-- ===== src/Base/Dict/Find.antt =====
-- The first row that a query's filter takes.
use Prim.Native.String.{String}
use mathlib.Core.Path.{◌≡◌}
use mathlib.Core.Bool.{Bool, true, false}
use mathlib.Core.List.{[], ◌∷◌}
use mathlib.Core.Logic.{inl, inr}
use mathlib.Core.Option.{Option, none, some}
use native.Mathlib.Omega.{arith}
use text.Mathlib.TextEquality.{eq_iff}
use sphere_platform.Base.Tests.{if◌then◌else◌, Bool-cases}
use sphere_platform.Base.Dict.{Dict, get}
use sphere_platform.Base.Dict.Size.{IsDict}

module _ {ℓ} {V : Type ℓ} where
  unfoldable pub find_row : (V → Bool) → Dict V → Option (String × V)
  find_row p [] = none
  find_row p ((id, t) ∷ d) = let rest = find_row p d in if p t then some (id, t) else rest

  abbrev pub NoneOf : (V → Bool) → Dict V → Type ℓ
  NoneOf p d = (i : String) (t : V) → get d i ≡ some t → p t ≡ false

  pub find_row-none : (p : V → Bool) (d : Dict V) → find_row p d ≡ none → NoneOf p d
  unfolding find_row get
  find_row-none p [] e i t h = ground arith
  find_row-none p ((j, u) ∷ d) e i t h = elim (Bool-cases (p u)) [
    | inl k ↦ ground (arith, k)
    | inr k ↦ ground (arith, k, find_row-none p d (rw (k, find_row) at e) i t, eq_iff j i)
  ]

  pub find_row-some :
      (p : V → Bool) (d : Dict V) (id : String) (t : V)
      → IsDict d
      → find_row p d ≡ some (id, t)
      → (get d id ≡ some t) × (p t ≡ true)
  unfolding find_row get
  find_row-some p [] id t h e = ground arith
  find_row-some p ((j, u) ∷ d) id t h e = elim (Bool-cases (p u)) [
    | inl k ↦
        let q : some (j, u) ≡ some (id, t) = rw (k, find_row) at e in
        (ground (arith, q, eq_iff j id), ground (arith, q, k))
    | inr k ↦
        let (at, is) = find_row-some p d id t h.1 (rw (k, find_row) at e) in
        (ground (arith, at, h.0, eq_iff j id), is)
  ]
