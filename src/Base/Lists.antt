-- ===== src/Base/Lists.antt =====
-- Lists measured by native numbers, and membership of texts as a test.
use Prim.Native.Nat.{ℕ, zero, suc, ◌+◌, ◌≤◌}
use Prim.Native.String.{String}
use mathlib.Core.Path.{◌≡◌, refl, ap}
use mathlib.Core.Bool.{Bool, true, false, ◌||◌}
use mathlib.Core.Logic.{◌⊎◌, inl, inr}
use mathlib.Core.List.{List, [], ◌∷◌, ◌++◌, reverse, reverse-cons}
use native.Mathlib.Omega.{arith}
use text.Mathlib.Text.{◌==◌}
use sphere_platform.Base.Tests.{if◌then◌else◌}

module _ {ℓ} {A : Type ℓ} where
  abbrev pub length : List A → ℕ
  length [] = 0
  length (x ∷ xs) = suc (length xs)

  abbrev pub All {κ} : (A → Type κ) → List A → Type κ
  All P [] = Unit
  All P (x ∷ xs) = P x × All P xs

  -- `[x for x in xs if keep(x)]`
  abbrev pub keep_if : (A → Bool) → List A → List A
  keep_if keep [] = []
  keep_if keep (x ∷ xs) = let rest = keep_if keep xs in if keep x then x ∷ rest else rest

  abbrev pub take : ℕ → List A → List A
  take zero xs = []
  take (suc n) [] = []
  take (suc n) (x ∷ xs) = x ∷ take n xs

  abbrev pub drop : ℕ → List A → List A
  drop zero xs = xs
  drop (suc n) [] = []
  drop (suc n) (x ∷ xs) = drop n xs

  pub length-append : (xs ys : List A) → length (xs ++ ys) ≡ length xs + length ys
  length-append [] ys = omega arith
  length-append (x ∷ xs) ys = omega (arith, length-append xs ys)

  pub keep_if_cong :
      (p q : A → Bool) (xs : List A) → ((x : A) → p x ≡ q x) → keep_if p xs ≡ keep_if q xs
  keep_if_cong p q [] h = refl
  keep_if_cong p q (x ∷ xs) h = ground (arith, h x, keep_if_cong p q xs h)

  pub length-keep_if-le : (p : A → Bool) (xs : List A) → length (keep_if p xs) ≤ length xs
  length-keep_if-le p [] = omega arith
  length-keep_if-le p (x ∷ xs) = ground (arith, length-keep_if-le p xs)

module _ {ℓ} {A : Type ℓ} where
  pub length-reverse : (xs : List A) → length (reverse xs) ≡ length xs
  length-reverse [] = refl
  length-reverse (x ∷ xs) =
      omega (
        arith,
        ap length (reverse-cons x xs),
        length-append (reverse xs) (x ∷ []),
        length-reverse xs,
      )

-- `x in xs`
abbrev pub has : List String → String → Bool
has [] x = false
has (y ∷ ys) x = y == x || has ys x

pub has-append : (xs ys : List String) (x : String) → has (xs ++ ys) x ≡ (has xs x || has ys x)
has-append [] ys x = refl
has-append (y ∷ xs) ys x = ground (arith, has-append xs ys x)

pub has-reverse : (xs : List String) (x : String) → has (reverse xs) x ≡ has xs x
has-reverse [] x = refl
has-reverse (y ∷ xs) x = ground (
  arith,
  ap (λ (l : List String). has l x) (reverse-cons y xs),
  has-append (reverse xs) (y ∷ []) x,
  has-reverse xs x,
)

pub cases-or : (a b : Bool) → (a || b) ≡ true → (a ≡ true) ⊎ (b ≡ true)
cases-or true b h = inl refl
cases-or false b h = inr h
