-- ===== src/Pipeline/Condition.antt =====
-- backend/services/orchestrator/step_handlers.py: `_evaluate_condition`, with Python's `==`, `>`
-- and `in` on JSON values. `none` is a TypeError.
use Prim.Native.Nat.{compare, Ordering}
use Prim.Native.String
use sphere_platform.Base.{
  ℕ, String, Bool, true, false, not, ◌&&◌, ◌||◌, Option, none, some, ◌==◌, if◌then◌else◌, nat_eq,
  find?,
}
use sphere_platform.Pipeline.Value.{
  Value, Items, Fields, null, bool, num, str, items, object, nil, cons, end, field, as_number,
  is_truthy,
}

abbrev pub field_of : Fields → String → Option Value
field_of end k = none
field_of (field j v fs) k = if j == k then some v else field_of fs k

abbrev pub size : Fields → ℕ
size end = 0
size (field k v fs) = Prim.Native.Nat.suc (size fs)

abbrev pub same_number : Option ℕ → Option ℕ → Bool
same_number (some a) (some b) = nat_eq a b
same_number _ _ = false

unfoldable mutual
  -- `a == b`
  pub value_eq : Value → Value → Bool
  value_eq null null = true
  value_eq null _ = false
  value_eq (str s) (str t) = s == t
  value_eq (str s) _ = false
  value_eq (items xs) (items ys) = items_eq xs ys
  value_eq (items xs) _ = false
  value_eq (object fs) (object gs) = nat_eq (size fs) (size gs) && fields_in fs gs
  value_eq (object fs) _ = false
  value_eq (num n) v = same_number (some n) (as_number v)
  value_eq (bool b) v = same_number (as_number (bool b)) (as_number v)

  pub items_eq : Items → Items → Bool
  items_eq nil nil = true
  items_eq nil (cons y ys) = false
  items_eq (cons x xs) nil = false
  items_eq (cons x xs) (cons y ys) = value_eq x y && items_eq xs ys

  pub fields_in : Fields → Fields → Bool
  fields_in end gs = true
  fields_in (field k v fs) gs = elim (field_of gs k) [
    | none ↦ false
    | some w ↦ value_eq v w && fields_in fs gs
  ]

abbrev pub compare_numbers : Option ℕ → Option ℕ → Option Ordering
compare_numbers (some a) (some b) = some (compare a b)
compare_numbers _ _ = none

unfoldable mutual
  -- The order that `<` and `>` ask for; lists are ordered by their first difference.
  pub order : Value → Value → Option Ordering
  order (str s) (str t) = some (String.compare s t)
  order (str s) _ = none
  order (items xs) (items ys) = order_items xs ys
  order (items xs) _ = none
  order null _ = none
  order (object fs) _ = none
  order (num n) v = compare_numbers (some n) (as_number v)
  order (bool b) v = compare_numbers (as_number (bool b)) (as_number v)

  pub order_items : Items → Items → Option Ordering
  order_items nil nil = some Ordering.eq
  order_items nil (cons y ys) = some Ordering.lt
  order_items (cons x xs) nil = some Ordering.gt
  order_items (cons x xs) (cons y ys) = elim (value_eq x y) [
    | true ↦ order_items xs ys
    | false ↦ order x y
  ]

abbrev pub is_gt : Option Ordering → Option Bool
is_gt none = none
is_gt (some Ordering.gt) = some true
is_gt (some _) = some false

abbrev pub is_lt : Option Ordering → Option Bool
is_lt none = none
is_lt (some Ordering.lt) = some true
is_lt (some _) = some false

unfoldable pub among : Value → Items → Bool
among v nil = false
among v (cons w ws) = value_eq w v || among v ws

abbrev pub is_some {ℓ} : {A : Type ℓ} → Option A → Bool
is_some none = false
is_some (some a) = true

abbrev pub in_text : Value → String → Option Bool
in_text (str s) t = some (is_some (find? t s))
in_text _ t = none

-- A list or a dict is no key: TypeError.
abbrev pub in_keys : Value → Fields → Option Bool
in_keys (str s) fs = some (is_some (field_of fs s))
in_keys (items xs) fs = none
in_keys (object gs) fs = none
in_keys _ fs = some false

abbrev pub in_container : Value → Value → Option Bool
in_container v (items xs) = some (among v xs)
in_container v (str t) = in_text v t
in_container v (object fs) = in_keys v fs
in_container v _ = none

-- `actual in (expected or [])`
unfoldable pub is_in : Value → Value → Option Bool
unfolding among
is_in actual expected = if is_truthy expected then in_container actual expected else some false

abbrev pub is_null : Value → Bool
is_null null = true
is_null _ = false

abbrev pub negate : Option Bool → Option Bool
negate none = none
negate (some b) = some (not b)

unfoldable pub evaluate_condition : Value → String → Value → Option Bool
unfolding is_in
evaluate_condition actual operator expected =
    if operator == "eq"
    then some (value_eq actual expected)
    else if operator == "neq"
    then some (not (value_eq actual expected))
    else if operator == "gt"
    then (if is_null actual then some false else is_gt (order actual expected))
    else if operator == "lt"
    then (if is_null actual then some false else is_lt (order actual expected))
    else if operator == "in"
    then is_in actual expected
    else if operator == "not_in"
    then negate (is_in actual expected)
    else if operator == "exists"
    then some (not (is_null actual))
    else if operator == "not_exists"
    then some (is_null actual)
    else some false
