-- ===== src/Dag/Node.antt =====
-- backend/schemas/dag.py: `DAGNode`, its validator, and the adjacency of a script.
-- `check_lua_safety` (a list of regular expressions run by `re`) is the argument `lua_violations`.
use sphere_platform.Base.{
  ℕ, String, Bool, true, false, ◌&&◌, Option, none, some, List, [], ◌∷◌, ◌++◌, has, leb, ◌==◌,
  if◌then◌else◌,
}
use sphere_platform.Base.Dict.{Dict, get, get_or}

abbrev pub valid_action_types : List String
valid_action_types =
    "tap" ∷ "swipe" ∷ "type_text" ∷ "sleep" ∷ "find_element" ∷ "key_event" ∷ "lua" ∷ "screenshot"
    ∷ "condition" ∷ "start" ∷ "end" ∷ "launch_app" ∷ "stop_app" ∷ "clear_app_data"
    ∷ "find_first_element" ∷ "tap_first_visible" ∷ "tap_element" ∷ "get_element_text"
    ∷ "wait_for_element_gone" ∷ "scroll_to" ∷ "long_press" ∷ "double_tap" ∷ "scroll"
    ∷ "set_variable" ∷ "get_variable" ∷ "increment_variable" ∷ "shell" ∷ "input_clear"
    ∷ "http_request" ∷ "open_url" ∷ "get_device_info" ∷ "assert" ∷ []

pub record Node : Type 0 where
  pub id : String
  pub action : Dict String
  pub on_success : Option String
  pub on_failure : Option String
  pub retry : ℕ
  pub timeout_ms : ℕ

-- What `if ref:` lets through: neither None nor the empty text.
abbrev pub truthy : Option String → Option String
truthy none = none
truthy (some s) = if s == "" then none else some s

abbrev pub to_list : Option String → List String
to_list none = []
to_list (some s) = s ∷ []

pub data NodeError : Type 0 where
  no_type unknown_type unsafe_lua bad_retry bad_timeout : NodeError
  missing_ref : String → NodeError

pub data Checked : Type 0 where
  valid : Checked
  invalid : NodeError → Checked

infixr 10 ◌then_check◌
abbrev pub ◌then_check◌ : Checked → Checked → Checked
valid then_check c = c
(invalid e) then_check c = invalid e

abbrev pub require : Bool → NodeError → Checked
require true e = valid
require false e = invalid e

abbrev pub present : Option String → Bool
present none = false
present (some s) = true

-- The bounds that `Field` gives to `retry` and `timeout_ms`.
unfoldable pub check_fields : Node → Checked
check_fields n =
    require (leb n.retry 5) bad_retry
    then_check require (leb 100 n.timeout_ms && leb n.timeout_ms 3600000) bad_timeout

-- The source of a Lua action, or of a condition that holds code.
unfoldable pub lua_code : Node → String → Option String
lua_code n action_type =
    if action_type == "lua"
    then some (get_or n.action "code" "")
    else if action_type == "condition"
    then get n.action "code"
    else none

module _ (lua_violations : String → List String) where
  abbrev pub check_lua : Option String → Checked
  check_lua none = valid
  check_lua (some code) = elim (lua_violations code) [ [] ↦ valid | _ ∷ _ ↦ invalid unsafe_lua ]

  unfoldable pub validate_action_has_type : Node → Checked
  unfolding lua_code
  validate_action_has_type n = elim (truthy (get n.action "type")) [
    | none ↦ invalid no_type
    | some action_type ↦
        require (has valid_action_types action_type) unknown_type
        then_check (if action_type == "condition"
            then require (present (truthy (get n.action "on_true"))) (missing_ref "on_true")
              then_check require (present (truthy (get n.action "on_false")))
                  (missing_ref "on_false")
            else valid)
        then_check check_lua (truthy (lua_code n action_type))
  ]

abbrev pub is_condition : Node → Bool
is_condition n = elim (get n.action "type") [ none ↦ false | some t ↦ t == "condition" ]

-- The references of `on_success` and `on_failure`, then those of a condition, in this order.
unfoldable pub plain_refs : Node → List String
plain_refs n = to_list (truthy n.on_success) ++ to_list (truthy n.on_failure)

unfoldable pub condition_refs : Node → List String
condition_refs n =
    if is_condition n
    then to_list (truthy (get n.action "on_true")) ++ to_list (truthy (get n.action "on_false"))
    else []

abbrev pub refs : Node → List String
refs n = plain_refs n ++ condition_refs n
