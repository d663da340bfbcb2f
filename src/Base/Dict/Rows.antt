-- ===== src/Base/Dict/Rows.antt =====
-- The rows of a table after one row is written or removed.
use Prim.Native.String.{String}
use mathlib.Core.Path.{◌≡◌}
use mathlib.Core.Logic.{◌≢◌, ◌⊎◌, inl, inr}
use mathlib.Core.Option.{some}
use native.Mathlib.Omega.{arith}
use text.Mathlib.Text.{◌==◌}
use text.Mathlib.TextEquality.{eq_iff}
use sphere_platform.Base.Tests.{Bool-cases, eq_true, eq_false}
use sphere_platform.Base.Dict.{Dict, get, put, remove, get-put, get-remove}

module _ {ℓ} {V : Type ℓ} where
  pub row-put :
      (d : Dict V) (id i : String) (v w : V)
      → get (put d id v) i ≡ some w
      → ((id ≡ i) × (v ≡ w)) ⊎ ((id ≢ i) × (get d i ≡ some w))
  row-put d id i v w h = elim (Bool-cases (id == i)) [
    | inl e ↦ inl (eq_true id i e, ground (arith, h, get-put d id i v, e))
    | inr e ↦ inr (λ p. ground (arith, p, eq_iff id i, e), ground (arith, h, get-put d id i v, e))
  ]

  pub row-remove :
      (d : Dict V) (id i : String) (w : V)
      → get (remove d id) i ≡ some w
      → (id ≢ i) × (get d i ≡ some w)
  row-remove d id i w h = elim (Bool-cases (id == i)) [
    | inl e ↦ absurd (ground (arith, h, get-remove d id i, e))
    | inr e ↦ (λ p. ground (arith, p, eq_iff id i, e), ground (arith, h, get-remove d id i, e))
  ]

  pub get-remove_other : (d : Dict V) (id i : String) → id ≢ i → get (remove d id) i ≡ get d i
  get-remove_other d id i h = ground (arith, get-remove d id i, eq_false id i h)

  pub get-put_other : (d : Dict V) (id i : String) (v : V) → id ≢ i → get (put d id v) i ≡ get d i
  get-put_other d id i v h = ground (arith, get-put d id i v, eq_false id i h)
