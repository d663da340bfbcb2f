-- ===== src/Websocket/Connections/Delivery.antt =====
-- backend/websocket/connection_manager.py: sessions that were replaced, and what a broadcast reaches.
use sphere_platform.Base.{
  ℕ, String, Bool, false, not, Option, none, some, List, [], ◌∷◌, ◌==◌, ◌≡◌, ◌≢◌, ◌&&◌, has,
  if◌then◌else◌, truthy, arith, refl, eq_iff, eq_refl, Option-cases, Bool-cases, inl, inr, length,
  keep_if, ap, ◌∙◌, keep_if_cong,
}
use sphere_platform.Base.Dict.{get, get-put_same, get-remove}
use sphere_platform.Websocket.Connections.{
  ConnectionInfo, Manager, ids_of, connect, disconnect, send_to_device, send_each, broadcast_to_org,
  get_connected_devices,
}
use sphere_platform.Websocket.Connections.Index.{disconnect_current, disconnect_stale}

-- When a connected device connects again with another session (no session is empty), its old session is evicted; the old handler's call of `disconnect`,
-- which names the old session, then changes nothing, while one that names the new session ends it.
pub replaced_session_stays :
    (m : Manager) (session device agent_type org : String) (old : ConnectionInfo)
    → get m.connections device ≡ some old
    → truthy (some old.session_id) ≡ some old.session_id
    → truthy (some session) ≡ some session
    → session ≢ old.session_id
    → let (evicted, m') = connect m session device agent_type org in
      (evicted ≡ some old.session_id)
      × (disconnect m' device (some old.session_id) ≡ (none, m'))
      × (get (disconnect m' device (some session)).1.connections device ≡ none)
unfolding connect
replaced_session_stays m session device agent_type org old e t t' ne =
    let m' = (connect m session device agent_type org).1 in
    let info : ConnectionInfo = record {
      device_id = device;
      agent_type = agent_type;
      org_id = org;
      session_id = session;
    } in
    let new = get-put_same m.connections device info in
    (
      ground (arith, e),
      disconnect_stale m' device (some old.session_id) info new
          (ground (arith, t, ne, eq_iff session old.session_id)),
      ap (λ x. get x.1.connections device)
            (disconnect_current m' device (some session) info new
              (ground (arith, t', eq_refl session)))
          ∙ ground (arith, get-remove m'.connections device device, eq_refl device),
    )

-- Whether the device is connected and its socket works.
abbrev pub reaches : (String → Bool) → Option ConnectionInfo → Bool
reaches works none = false
reaches works (some info) = works info.session_id

pub record Sent (works : String → Bool) (m : Manager) (ds : List String) (n : ℕ) (m' : Manager)
    : Type 0 where
  pub count : n ≡ length (keep_if (λ d. reaches works (get m.connections d)) ds)
  pub after :
      (d : String)
      → get m'.connections d ≡ (
          if has ds d && not (reaches works (get m.connections d))
          then none
          else get m.connections d)

send-Sent :
    (works : String → Bool) (m : Manager) (d : String)
    → ((send_to_device works m d).0 ≡ reaches works (get m.connections d))
      × ((x : String)
          → get (send_to_device works m d).1.connections x ≡ (
              if (d == x) && not (reaches works (get m.connections x))
              then none
              else get m.connections x))
unfolding send_to_device
send-Sent works m d = elim (Option-cases (get m.connections d)) [
  | inl n ↦ rw (n, send_to_device) (refl, λ x. ground (arith, n, eq_iff d x))
  | inr (i, e) ↦ elim (Bool-cases (works i.session_id)) [
    | inl w ↦ rw (e, send_to_device, w) (refl, λ x. ground (arith, e, w, eq_iff d x))
    | inr w ↦
        rw
          (
            e,
            send_to_device,
            w,
            disconnect_current m d (some i.session_id) i e (ground (arith, eq_refl i.session_id)),
          )
          (refl, λ x. ground (arith, e, w, eq_iff d x, get-remove m.connections d x))
  ]
]

send_each-Sent :
    (works : String → Bool) (m : Manager) (ds : List String)
    → Sent works m ds (send_each works m ds).0 (send_each works m ds).1
unfolding send_each
send_each-Sent works m [] = record { count = refl; after = λ d. ground arith }
send_each-Sent works m (d ∷ ds) =
    let (ok, one) = send-Sent works m d in
    let m' = (send_to_device works m d).1 in
    let ih : Sent works m' ds (send_each works m' ds).0 (send_each works m' ds).1 =
      send_each-Sent works m' ds in
    record {
      count = ground (
        arith,
        ok,
        ih.count,
        ap length (
            keep_if_cong (λ x. reaches works (get m'.connections x))
              (λ x. reaches works (get m.connections x)) ds (λ x. ground (arith, one x))),
      );
      after = λ x. ground (arith, ih.after x, one x, eq_iff d x);
    }

-- A broadcast to an organisation reports the number of its devices that are connected and whose socket
-- works; afterwards the other devices of the organisation's entry are not connected, and all other
-- connections are as before.
broadcast_to_org-Sent :
    (works : String → Bool) (m : Manager) (org : String)
    → Sent works m
        (get_connected_devices m org)
        (broadcast_to_org works m org).0
        (broadcast_to_org works m org).1
unfolding broadcast_to_org get_connected_devices
broadcast_to_org-Sent works m org = send_each-Sent works m (ids_of m org)
