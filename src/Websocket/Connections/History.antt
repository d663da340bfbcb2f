-- ===== src/Websocket/Connections/History.antt =====
-- backend/websocket/connection_manager.py: the index over any calls, and a device that moves.
use sphere_platform.Base.{
  String, Bool, true, Option, none, some, List, [], ◌∷◌, ◌≡◌, ◌≢◌, has, arith, refl, eq_iff,
  eq_refl, ap, ◌∙◌,
}
use sphere_platform.Base.Dict.{get, get-put, get-put_same}
use sphere_platform.Websocket.Connections.{
  ConnectionInfo, Manager, ids_of, connect, disconnect, add_id, send_to_device, broadcast_to_org,
  get_connected_devices,
}
use sphere_platform.Websocket.Connections.Index.{
  IsExact, belongs, stays_in, info, connect-IsExact, disconnect-IsExact, send_to_device-IsExact,
  send_each-IsExact, disconnect_current, drop_from_other,
}

-- The calls of the handlers and of the router.
pub data Call : Type 0 where
  connecting : String → String → String → String → Call
  disconnecting : String → Option String → Call
  sending : (String → Bool) → String → Call
  broadcasting : (String → Bool) → String → Call

abbrev pub after_call : Manager → Call → Manager
after_call m (connecting session device agent_type org) =
    (connect m session device agent_type org).1
after_call m (disconnecting device session) = (disconnect m device session).1
after_call m (sending works device) = (send_to_device works m device).1
after_call m (broadcasting works org) = (broadcast_to_org works m org).1

abbrev pub after_calls : Manager → List Call → Manager
after_calls m [] = m
after_calls m (c ∷ cs) = after_calls (after_call m c) cs

-- No device connects for one organisation while it is connected for another.
abbrev pub keeps_org : Manager → Call → Bool
keeps_org m (connecting session device agent_type org) = stays_in (get m.connections device) org
keeps_org m _ = true

abbrev pub KeepOrgs : Manager → List Call → Type 0
KeepOrgs m [] = Unit
KeepOrgs m (c ∷ cs) = (keeps_org m c ≡ true) × KeepOrgs (after_call m c) cs

call-IsExact :
    (m : Manager) (c : Call) → IsExact m → keeps_org m c ≡ true → IsExact (after_call m c)
unfolding broadcast_to_org
call-IsExact m (connecting session device agent_type org) h k =
    connect-IsExact m session device agent_type org h k
call-IsExact m (disconnecting device session) h k = disconnect-IsExact m device session h
call-IsExact m (sending works device) h k = send_to_device-IsExact works m device h
call-IsExact m (broadcasting works org) h k = send_each-IsExact works m (ids_of m org) h

-- After any calls from a state in which they agree, the entry of an organisation in the index has
-- exactly the devices that are connected for it, if no device has connected for one organisation while
-- it was connected for another.
pub calls-IsExact :
    (m : Manager) (cs : List Call) → IsExact m → KeepOrgs m cs → IsExact (after_calls m cs)
calls-IsExact m [] h k = h
calls-IsExact m (c ∷ cs) h (k, ks) = calls-IsExact (after_call m c) cs (call-IsExact m c h k) ks

-- A device that connects for a second organisation while it is connected for a first one is still
-- listed for the first, even when it has disconnected, if the index agreed with the connections.
moved_device_listed :
    (m : Manager) (session device agent_type org : String) (old : ConnectionInfo)
    → IsExact m
    → get m.connections device ≡ some old
    → old.org_id ≢ org
    → let m' = (connect m session device agent_type org).1 in
      (has (get_connected_devices m' old.org_id) device ≡ true)
      × (belongs (get m'.connections device) org ≡ true)
      × (has (get_connected_devices (disconnect m' device none).1 old.org_id) device ≡ true)
unfolding get_connected_devices connect disconnect
moved_device_listed m session device agent_type org old h e ne =
    let m' = (connect m session device agent_type org).1 in
    let other = get-put m.org_index org old.org_id (add_id (ids_of m org) device) in
    let new = get-put_same m.connections device (info session device agent_type org) in
    let listed : has (ids_of m' old.org_id) device ≡ true =
      ground (
        arith,
        e,
        ne,
        h.exact old.org_id device,
        eq_refl old.org_id,
        eq_iff org old.org_id,
        other,
      ) in
    (
      listed,
      ground (arith, new, eq_refl org),
      ap (λ x. has (ids_of x.1 old.org_id) device)
            (disconnect_current m' device none (info session device agent_type org) new refl)
          ∙ ap (λ l. has l device)
              (drop_from_other m'.org_index org old.org_id device
                (ground (arith, ne, eq_iff org old.org_id)))
          ∙ listed,
    )
