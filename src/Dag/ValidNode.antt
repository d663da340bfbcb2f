-- ===== src/Dag/ValidNode.antt =====
-- backend/schemas/dag.py: `DAGNode` accepts exactly the nodes whose fields are in bounds and whose
-- action is proper.
use sphere_platform.Base.{
  ◌≤◌, String, Bool, true, false, Option, none, some, List, [], ◌∷◌, has, leb, ◌&&◌, ◌==◌,
  if◌then◌else◌, ◌≡◌, ◌≢◌, ◌⊎◌, ◌↔◌, inl, inr, refl, sym, ◌∙◌, subst, arith, eq_iff, eq_true,
  Bool-cases,
}
use sphere_platform.Base.Dict.{get}
use sphere_platform.Dag.Node.{
  Node, NodeError, Checked, valid, invalid, ◌then_check◌, require, present, truthy, lua_code,
  valid_action_types, check_fields, check_lua, validate_action_has_type, no_type, unknown_type,
  missing_ref, unsafe_lua, bad_retry, bad_timeout,
}

-- A text under a key of the action that is not empty.
abbrev pub HasText : Node → String → Type 0
HasText n key = (v : String) × (get n.action key ≡ some v) × (v ≢ "")

-- What a node needs to be one of a scenario.
pub record IsValidNode (lua : String → List String) (n : Node) : Type 0 where
  pub retries : n.retry ≤ 5
  pub shortest : 100 ≤ n.timeout_ms
  pub longest : n.timeout_ms ≤ 3600000
  pub kind : String
  pub kind_is : get n.action "type" ≡ some kind
  pub kind_known : has valid_action_types kind ≡ true
  pub branches : kind ≡ "condition" → HasText n "on_true" × HasText n "on_false"
  pub safe :
      (kind ≡ "lua") ⊎ (kind ≡ "condition")
      → (code : String) → get n.action "code" ≡ some code
      → code ≢ ""
      → lua code ≡ []

then_check-valid : (c d : Checked) → ((c then_check d) ≡ valid) ↔ ((c ≡ valid) × (d ≡ valid))
then_check-valid valid d = (λ h. (refl, h), λ h. h.1)
then_check-valid (invalid e) d = (λ h. cc, λ h. cc (h.0))

require-valid : (b : Bool) (e : NodeError) → (require b e ≡ valid) ↔ (b ≡ true)
require-valid true e = (λ h. refl, λ h. refl)
require-valid false e = (λ h. cc, λ h. cc)

check_fields-valid :
    (n : Node)
    → (check_fields n ≡ valid) ↔ ((n.retry ≤ 5) × (100 ≤ n.timeout_ms) × (n.timeout_ms ≤ 3600000))
unfolding check_fields
check_fields-valid n =
    let both =
      then_check-valid (require (leb n.retry 5) bad_retry)
        (require (leb 100 n.timeout_ms && leb n.timeout_ms 3600000) bad_timeout) in
    let retry = require-valid (leb n.retry 5) bad_retry in
    let time = require-valid (leb 100 n.timeout_ms && leb n.timeout_ms 3600000) bad_timeout in
    (
      λ h.
          let r = retry.0 (both.0 h).0 in
          let t = time.0 (both.0 h).1 in (ground (arith, r), ground (arith, t), ground (arith, t)),
      λ h. both.1 (retry.1 (ground (arith, h.0)), time.1 (ground (arith, h.1, h.2))),
    )

empty_is : (s : String) → (s == "") ≡ true → s ≡ ""
empty_is s e = eq_true s "" e

present-text :
    (o : Option String) → (present (truthy o) ≡ true) ↔ ((v : String) × (o ≡ some v) × (v ≢ ""))
present-text none = (λ h. cc, λ (v, at, full). cc at)
present-text (some s) = elim (Bool-cases (s == "")) [
  | inl e ↦
      rw (e) (λ h. cc, λ (v, at, full). absurd (full (sym (ground (arith, at)) ∙ empty_is s e)))
  | inr e ↦ rw (e) (λ h. (s, refl, λ q. ground (arith, e, q, eq_iff s "")), λ h. refl)
]

module _ (lua : String → List String) where
  safe_code : (code : String) → (check_lua lua (some code) ≡ valid) ↔ (lua code ≡ [])
  safe_code code = turn (lua code)
    where
      turn :
          (vs : List String)
          → ((elim vs [ [] ↦ valid | _ ∷ _ ↦ invalid unsafe_lua ]) ≡ valid) ↔ (vs ≡ [])
      turn [] = (λ h. refl, λ h. refl)
      turn (v ∷ vs) = (λ h. cc, λ h. cc)

  check_lua-valid :
      (o : Option String)
      → (check_lua lua (truthy o) ≡ valid)
        ↔ ((code : String) → o ≡ some code → code ≢ "" → lua code ≡ [])
  check_lua-valid none = (λ h code at full. cc at, λ h. refl)
  check_lua-valid (some s) = elim (Bool-cases (s == "")) [
    | inl e ↦
        rw (e)
          (λ h code at full. absurd (full (sym (ground (arith, at)) ∙ empty_is s e)), λ h. refl)
    | inr e ↦ rw (e) (
      λ h code at full. subst (λ x. lua x ≡ []) (ground (arith, at)) ((safe_code s).0 h),
      λ h. (safe_code s).1 (h s refl (λ q. ground (arith, e, q, eq_iff s ""))),
    )
  ]

  -- The part of the check that depends on the type.
  abbrev checked_as : Node → String → Checked
  checked_as n kind =
      (require (has valid_action_types kind) unknown_type
        then_check (if kind == "condition"
            then require (present (truthy (get n.action "on_true"))) (missing_ref "on_true")
              then_check require (present (truthy (get n.action "on_false")))
                  (missing_ref "on_false")
            else valid)
        then_check check_lua lua (truthy (lua_code n kind)))

  abbrev Branches : Node → String → Type 0
  Branches n kind = kind ≡ "condition" → HasText n "on_true" × HasText n "on_false"

  Branches-valid :
      (n : Node) (kind : String)
      → ((if kind == "condition"
            then require (present (truthy (get n.action "on_true"))) (missing_ref "on_true")
              then_check require
                  (present (truthy (get n.action "on_false")))
                  (missing_ref "on_false")
            else valid)
          ≡ valid)
        ↔ Branches n kind
  Branches-valid n kind = elim (Bool-cases (kind == "condition")) [
    | inr e ↦ rw (e) (λ h is. ground (arith, e, is, eq_iff kind "condition"), λ h. refl)
    | inl e ↦
        let t = present (truthy (get n.action "on_true")) in
        let f = present (truthy (get n.action "on_false")) in
        let both =
          then_check-valid (require t (missing_ref "on_true"))
            (require f (missing_ref "on_false")) in
        let on_true = present-text (get n.action "on_true") in
        let on_false = present-text (get n.action "on_false") in
        let need_t = require-valid t (missing_ref "on_true") in
        let need_f = require-valid f (missing_ref "on_false") in
        rw (e) (
          λ h is. (on_true.0 (need_t.0 (both.0 h).0), on_false.0 (need_f.0 (both.0 h).1)),
          λ h.
              let (a, b) = h (eq_true kind "condition" e) in
              both.1 (need_t.1 (on_true.1 a), need_f.1 (on_false.1 b)),
        )
  ]

  abbrev Safe : Node → String → Type 0
  Safe n kind =
      (kind ≡ "lua") ⊎ (kind ≡ "condition")
      → (code : String) → get n.action "code" ≡ some code
      → code ≢ ""
      → lua code ≡ []

  or_empty : (o : Option String) → truthy (some (elim o [ none ↦ "" | some w ↦ w ])) ≡ truthy o
  or_empty none = refl
  or_empty (some s) = refl

  code-valid :
      (n : Node) (kind : String) → (check_lua lua (truthy (lua_code n kind)) ≡ valid) ↔ Safe n kind
  unfolding lua_code
  code-valid n kind =
      let (to, from) = check_lua-valid (get n.action "code") in
      elim (Bool-cases (kind == "lua")) [
        | inl e ↦
            let is_lua = eq_true kind "lua" e in
            rw (e, or_empty (get n.action "code")) (λ h which. to h, λ h. from (h (inl is_lua)))
        | inr e ↦ elim (Bool-cases (kind == "condition")) [
          | inl k ↦
              let is_condition = eq_true kind "condition" k in
              rw (e, k) (λ h which. to h, λ h. from (h (inr is_condition)))
          | inr k ↦ rw (e, k) (λ h which. absurd (neither e k which), λ h. refl)
        ]
      ]
    where
      neither :
          (kind == "lua") ≡ false
          → (kind == "condition") ≡ false
          → ¬ ((kind ≡ "lua") ⊎ (kind ≡ "condition"))
      neither e k (inl q) = ground (arith, e, q, eq_iff kind "lua")
      neither e k (inr q) = ground (arith, k, q, eq_iff kind "condition")

  checked_as-valid :
      (n : Node) (kind : String)
      → (checked_as n kind ≡ valid)
        ↔ ((has valid_action_types kind ≡ true) × Branches n kind × Safe n kind)
  checked_as-valid n kind =
      let outer = then_check-valid (require (has valid_action_types kind) unknown_type) _ in
      let inner = then_check-valid _ (check_lua lua (truthy (lua_code n kind))) in
      let known = require-valid (has valid_action_types kind) unknown_type in
      let branches = Branches-valid n kind in
      let code = code-valid n kind in
      (
        λ h.
            let rest = inner.0 (outer.0 h).1 in
            (known.0 (outer.0 h).0, branches.0 rest.0, code.0 rest.1),
        λ (a, b, c). outer.1 (known.1 a, inner.1 (branches.1 b, code.1 c)),
      )

  -- The type of an action that is accepted.
  Kind : Node → Type 0
  Kind n =
      (kind : String) × (get n.action "type" ≡ some kind)
      × (has valid_action_types kind ≡ true)
      × Branches n kind
      × Safe n kind

  action-valid : (n : Node) → (validate_action_has_type lua n ≡ valid) ↔ Kind n
  unfolding validate_action_has_type Kind
  action-valid n = turn (get n.action "type") refl
    where
      turn :
          (o : Option String)
          → get n.action "type" ≡ o
          → ((elim (truthy o) [ none ↦ invalid no_type | some kind ↦ checked_as n kind ]) ≡ valid)
            ↔ Kind n
      turn none e = (λ h. cc, λ k. ground (arith, k.1, e))
      turn (some t) e = elim (Bool-cases (t == "")) [
        | inl k ↦ rw (k) (
          λ h. cc,
          λ (kind, at, known, branches, safe).
              let empty : kind ≡ "" = ground (arith, at, e) ∙ empty_is t k in
              cc (subst (λ x. has valid_action_types x ≡ true) empty known),
        )
        | inr k ↦
            let (to, from) = checked_as-valid n t in
            rw (k) (
              λ h. (t, e, (to h).0, (to h).1, (to h).2),
              λ (kind, at, known, branches, safe).
                  let same : kind ≡ t = ground (arith, at, e) in
                  subst (λ x. checked_as n x ≡ valid) same
                    ((checked_as-valid n kind).1 (known, branches, safe)),
            )
      ]

  pub node-valid :
      (n : Node)
      → ((check_fields n then_check validate_action_has_type lua n) ≡ valid) ↔ IsValidNode lua n
  unfolding Kind
  node-valid n =
      let both = then_check-valid (check_fields n) (validate_action_has_type lua n) in
      let fields = check_fields-valid n in
      let action = action-valid n in
      (
        λ h.
            let (r, low, high) = fields.0 (both.0 h).0 in
            let (kind, at, known, branches, safe) = action.0 (both.0 h).1 in
            record {
              retries = r;
              shortest = low;
              longest = high;
              kind = kind;
              kind_is = at;
              kind_known = known;
              branches = branches;
              safe = safe;
            },
        λ v. both.1 (
          fields.1 (v.retries, v.shortest, v.longest),
          action.1 (v.kind, v.kind_is, v.kind_known, v.branches, v.safe),
        ),
      )
