-- ===== src/Websocket/Connections/Index.antt =====
-- backend/websocket/connection_manager.py: the index of organisations and the connections agree.
use sphere_platform.Base.{
  String, Bool, true, false, Option, none, some, List, [], ◌∷◌, ◌==◌, ◌≡◌, has, arith, refl, eq_iff,
  eq_refl, Option-cases, Bool-cases, inl, inr,
}
use sphere_platform.Base.Dict.{Dict, get, get_or, get-put, get-remove}
use sphere_platform.Websocket.Connections.{
  ConnectionInfo, Manager, ids_of, connect, dropped, drop_from, is_other, disconnect, add_id,
  discard, has-add_id, has-discard, send_to_device, send_each,
}

abbrev pub belongs : Option ConnectionInfo → String → Bool
belongs none org = false
belongs (some info) org = info.org_id == org

-- An organisation's entry has exactly the devices that are connected for it.
pub record IsExact (m : Manager) : Type 0 where
  pub exact : (org d : String) → has (ids_of m org) d ≡ belongs (get m.connections d) org

-- The device is not connected, or is for the same organisation.
abbrev pub stays_in : Option ConnectionInfo → String → Bool
stays_in none org = true
stays_in (some info) org = info.org_id == org

abbrev pub info : String → String → String → String → ConnectionInfo
info session device agent_type org = record {
  device_id = device;
  agent_type = agent_type;
  org_id = org;
  session_id = session;
}

pub connect-IsExact :
    (m : Manager) (session device agent_type org : String)
    → IsExact m
    → stays_in (get m.connections device) org ≡ true
    → IsExact (connect m session device agent_type org).1
unfolding connect
connect-IsExact m session device agent_type org h s = record {
  exact = λ o d. elim (Option-cases (get m.connections device)) [
    | inl n ↦ ground (
      arith,
      n,
      h.exact o d,
      get-put m.org_index org o (add_id (ids_of m org) device),
      get-put m.connections device d (info session device agent_type org),
      has-add_id (ids_of m org) device d,
      eq_iff org o,
      eq_iff device d,
    )
    | inr (old, e) ↦ ground (
      arith,
      e,
      s,
      h.exact o d,
      get-put m.org_index org o (add_id (ids_of m org) device),
      get-put m.connections device d (info session device agent_type org),
      has-add_id (ids_of m org) device d,
      eq_iff org o,
      eq_iff device d,
      eq_iff old.org_id org,
      eq_iff old.org_id o,
    )
  ];
}

dropped-IsExact :
    (m : Manager) (device : String) (info : ConnectionInfo)
    → IsExact m
    → get m.connections device ≡ some info
    → IsExact (dropped m device info)
dropped-IsExact m device info h e = record {
  exact = λ o d. elim (Option-cases (get m.org_index info.org_id)) [
    | inl n ↦ ground (
      arith,
      n,
      e,
      h.exact o d,
      h.exact info.org_id device,
      get-remove m.connections device d,
      eq_iff device d,
      eq_iff info.org_id o,
      eq_refl info.org_id,
    )
    | inr (ids, i) ↦ ground (
      arith,
      i,
      e,
      h.exact o d,
      get-put m.org_index info.org_id o (discard ids device),
      get-remove m.connections device d,
      has-discard ids device d,
      eq_iff info.org_id o,
      eq_iff device d,
    )
  ];
}

pub disconnect_current :
    (m : Manager) (device : String) (session : Option String) (current : ConnectionInfo)
    → get m.connections device ≡ some current
    → is_other session current.session_id ≡ false
    → disconnect m device session ≡ (some current, dropped m device current)
unfolding disconnect
disconnect_current m device session current e o = rw (e, disconnect, o) refl

pub disconnect_stale :
    (m : Manager) (device : String) (session : Option String) (current : ConnectionInfo)
    → get m.connections device ≡ some current
    → is_other session current.session_id ≡ true
    → disconnect m device session ≡ (none, m)
unfolding disconnect
disconnect_stale m device session current e o = rw (e, disconnect, o) refl

pub drop_from_other :
    (index : Dict (List String)) (org o device : String)
    → (org == o) ≡ false
    → get_or (drop_from index org device) o [] ≡ get_or index o []
drop_from_other index org o device ne = elim (Option-cases (get index org)) [
  | inl n ↦ ground (arith, n)
  | inr (ids, e) ↦ ground (arith, e, ne, get-put index org o (discard ids device))
]

pub disconnect-IsExact :
    (m : Manager) (device : String) (session : Option String)
    → IsExact m
    → IsExact (disconnect m device session).1
unfolding disconnect
disconnect-IsExact m device session h = elim (Option-cases (get m.connections device)) [
  | inl n ↦ rw (n, disconnect) h
  | inr (current, e) ↦ elim (Bool-cases (is_other session current.session_id)) [
    | inl o ↦ rw (e, disconnect, o) h
    | inr o ↦ rw (e, disconnect, o) (dropped-IsExact m device current h e)
  ]
]

pub send_to_device-IsExact :
    (works : String → Bool) (m : Manager) (device : String)
    → IsExact m
    → IsExact (send_to_device works m device).1
unfolding send_to_device
send_to_device-IsExact works m device h = elim (Option-cases (get m.connections device)) [
  | inl n ↦ rw (n, send_to_device) h
  | inr (current, e) ↦ elim (Bool-cases (works current.session_id)) [
    | inl o ↦ rw (e, send_to_device, o) h
    | inr o ↦ rw (e, send_to_device, o) (disconnect-IsExact m device (some current.session_id) h)
  ]
]

pub send_each-IsExact :
    (works : String → Bool) (m : Manager) (ds : List String)
    → IsExact m
    → IsExact (send_each works m ds).1
unfolding send_each
send_each-IsExact works m [] h = h
send_each-IsExact works m (d ∷ ds) h =
    send_each-IsExact works (send_to_device works m d).1 ds (send_to_device-IsExact works m d h)
