-- ===== src/Pipeline/Value.antt =====
-- The JSON values of a run's context and of a step's params. Numbers are natural numbers: the
-- counters and durations that the code stores. `items` and `object` hold lists and dicts.
use sphere_platform.Base.{ℕ, String, Bool, true, false, not, Option, none, some, ◌==◌, nat_eq}

mutual
  pub data Value : Type 0 where
    null : Value
    bool : Bool → Value
    num : ℕ → Value
    str : String → Value
    items : Items → Value
    object : Fields → Value

  pub data Items : Type 0 where
    nil : Items
    cons : Value → Items → Items

  pub data Fields : Type 0 where
    end : Fields
    field : String → Value → Fields → Fields

-- `bool` is a subclass of `int`: True counts as 1.
abbrev pub as_number : Value → Option ℕ
as_number (num n) = some n
as_number (bool true) = some 1
as_number (bool false) = some 0
as_number _ = none

-- `if value:`
abbrev pub is_truthy : Value → Bool
is_truthy null = false
is_truthy (bool b) = b
is_truthy (num n) = not (nat_eq n 0)
is_truthy (str s) = not (s == "")
is_truthy (items nil) = false
is_truthy (items (cons v vs)) = true
is_truthy (object end) = false
is_truthy (object (field k v fs)) = true
