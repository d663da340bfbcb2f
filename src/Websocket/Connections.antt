-- ===== src/Websocket/Connections.antt =====
-- backend/websocket/connection_manager.py: `ConnectionManager`. A set of device ids is a list without
-- repeats. A socket is known by its session; whether writing to it works is an argument. Every method
-- runs under the lock or without an await between its reads and writes, so it is one step.
pub mod Index
pub mod History
pub mod Delivery
use sphere_platform.Base.{
  ℕ, ◌+◌, String, Bool, true, false, not, Option, none, some, List, [], ◌∷◌, ◌++◌, ◌==◌, ◌≡◌, ◌&&◌,
  ◌||◌, has, keep_if, length, if◌then◌else◌, truthy, arith, refl, eq_iff, eq_refl, has-append,
}
use sphere_platform.Base.Dict.{Dict, get, put, remove, get_or}
use sphere_platform.Base.Dict.Size.{is_some}

pub record ConnectionInfo : Type 0 where
  pub device_id : String
  pub agent_type : String
  pub org_id : String
  pub session_id : String

pub record Manager : Type 0 where
  pub connections : Dict ConnectionInfo
  pub org_index : Dict (List String)

unfoldable pub add_id : List String → String → List String
add_id ids d = if has ids d then ids else ids ++ d ∷ []

unfoldable pub discard : List String → String → List String
discard ids d = keep_if (λ x. not (d == x)) ids

abbrev pub ids_of : Manager → String → List String
ids_of m org = get_or m.org_index org []

-- The new session's id is an argument; the reply names the session whose socket is closed.
unfoldable pub connect : Manager → String → String → String → String → Option String × Manager
unfolding add_id
connect m session device agent_type org =
    let evicted : Option String = elim (get m.connections device) [
      | none ↦ none
      | some old ↦ some old.session_id
    ] in
    (
      evicted,
      record {
        connections = put m.connections device (record {
          device_id = device;
          agent_type = agent_type;
          org_id = org;
          session_id = session;
        });
        org_index = put m.org_index org (add_id (ids_of m org) device);
      },
    )

abbrev pub drop_from : Dict (List String) → String → String → Dict (List String)
drop_from index org device = elim (get index org) [
  | none ↦ index
  | some ids ↦ put index org (discard ids device)
]

abbrev pub dropped : Manager → String → ConnectionInfo → Manager
dropped m device info = record {
  connections = remove m.connections device;
  org_index = drop_from m.org_index info.org_id device;
}

-- A session that is given and differs: another connection has taken its place.
abbrev pub is_other : Option String → String → Bool
is_other session current = elim (truthy session) [ none ↦ false | some s ↦ not (current == s) ]

unfoldable pub disconnect : Manager → String → Option String → Option ConnectionInfo × Manager
unfolding discard
disconnect m device session = elim (get m.connections device) [
  | none ↦ (none, m)
  | some current ↦
      if is_other session current.session_id
      then (none, m)
      else (some current, dropped m device current)
]

-- `send_to_device` and `send_bytes_to_device`; `works` says of a session whether writing to it works.
unfoldable pub send_to_device : (String → Bool) → Manager → String → Bool × Manager
unfolding disconnect
send_to_device works m device = elim (get m.connections device) [
  | none ↦ (false, m)
  | some info ↦
      if works info.session_id
      then (true, m)
      else (false, (disconnect m device (some info.session_id)).1)
]

unfoldable pub send_each : (String → Bool) → Manager → List String → ℕ × Manager
unfolding send_to_device
send_each works m [] = (0, m)
send_each works m (d ∷ ds) =
    let (sent, m') = send_to_device works m d in
    let (n, rest) = send_each works m' ds in ((if sent then n + 1 else n), rest)

unfoldable pub broadcast_to_org : (String → Bool) → Manager → String → ℕ × Manager
unfolding send_each
broadcast_to_org works m org = send_each works m (ids_of m org)

unfoldable pub get_connected_devices : Manager → String → List String
get_connected_devices m org = ids_of m org

unfoldable pub is_connected : Manager → String → Bool
is_connected m device = is_some (get m.connections device)

unfoldable pub total_connections : Manager → ℕ
total_connections m = length m.connections

pub has-add_id : (ids : List String) (d x : String) → has (add_id ids d) x ≡ (d == x || has ids x)
unfolding add_id
has-add_id ids d x = ground (arith, has-append ids (d ∷ []) x, eq_iff d x)

pub has-discard :
    (ids : List String) (d x : String) → has (discard ids d) x ≡ (not (d == x) && has ids x)
unfolding discard
has-discard [] d x = ground arith
has-discard (y ∷ ys) d x = ground (arith, has-discard ys d x, eq_iff d y, eq_iff y x, eq_iff d x)
