-- ===== src/Vpn/Pool.antt =====
-- backend/services/vpn/ip_pool.py: `IPPoolAllocator`, and the operations of
-- backend/services/vpn/pool_service.py: `VPNPoolService` that change the pool or the table of peers.
-- The hosts of the subnet are an argument, as is whether provisioning a peer succeeds: it makes keys,
-- calls the WireGuard router and writes the row, and if it raises, the transaction takes the row back.
use sphere_platform.Base.{
  ℕ, ◌+◌, String, Bool, true, false, ◌&&◌, Option, none, some, List, [], ◌∷◌, ◌==◌, ltb, take,
  if◌then◌else◌, truthy,
}
use sphere_platform.Base.Dict.{Dict, put, get_or}
use sphere_platform.Base.Dict.Find.{find_row}
use sphere_platform.Redis.{SortedSet}

pub data PeerStatus : Type 0 where
  free assigned error : PeerStatus

pub record Peer : Type 0 where
  pub org_id : String
  pub device_id : Option String
  pub public_key : String
  pub tunnel_ip : Option String
  pub status : PeerStatus
  pub is_active : Bool

abbrev pub is_assigned : PeerStatus → Bool
is_assigned assigned = true
is_assigned _ = false

abbrev pub on_device : Option String → String → Bool
on_device none device = false
on_device (some d) device = d == device

-- The filter of `_get_existing_peer`; the column of the device is unique.
unfoldable pub is_peer_of : String → String → Peer → Bool
is_peer_of device org p = on_device p.device_id device && (p.org_id == org) && is_assigned p.status

pub data Assignment : Type 0 where
  existing_peer : Peer → Assignment
  granted : String → Assignment
  -- HTTP 503
  pool_exhausted : Assignment
  provisioning_failed : Assignment

abbrev pub new_peer : String → String → String → String → Peer
new_peer key device org ip = record {
  org_id = org;
  device_id = some device;
  public_key = key;
  tunnel_ip = some ip;
  status = assigned;
  is_active = true;
}

abbrev pub freed_peer : Peer → Peer
freed_peer p = record p { status = free; device_id = none; is_active = false }

module _ (S : SortedSet) where
  pub record Vpn : Type 0 where
    -- vpn:ip_pool:{org_id}
    pub pools : Dict S.Z
    pub peers : Dict Peer

  abbrev pub pool_of : Vpn → String → S.Z
  pool_of st org = get_or st.pools org S.empty

  abbrev pub set_pool : Vpn → String → S.Z → Vpn
  set_pool st org z = record st { pools = put st.pools org z }

  -- The pipeline of ZADD NX, with the number of new members.
  unfoldable pub add_hosts : ℕ → List String → S.Z → ℕ × S.Z
  add_hosts i [] z = (0, z)
  add_hosts i (ip ∷ ips) z =
      let (z', added) = S.zadd_nx z ip i in
      let (n, rest) = add_hosts (i + 1) ips z' in ((if added then n + 1 else n), rest)

  unfoldable pub initialize_pool : List String → Vpn → String → ℕ → ℕ × Vpn
  unfolding add_hosts
  initialize_pool hosts st org count =
      let (n, z) = add_hosts 0 (take count hosts) (pool_of st org) in (n, set_pool st org z)

  abbrev pub popped : Vpn → String → Option (String × S.Z) → Option String × Vpn
  popped st org none = (none, st)
  popped st org (some (ip, z)) = (some ip, set_pool st org z)

  unfoldable pub allocate_ip : Vpn → String → Option String × Vpn
  allocate_ip st org = popped st org (S.zpopmin (pool_of st org))

  unfoldable pub release_ip : ℕ → Vpn → String → String → Vpn
  release_ip now st org ip = set_pool st org (S.zadd (pool_of st org) ip now)

  unfoldable pub pool_size : Vpn → String → ℕ
  pool_size st org = S.zcard (pool_of st org)

  unfoldable pub is_low : Vpn → String → ℕ → Bool
  unfolding pool_size
  is_low st org threshold = ltb (pool_size st org) threshold

  -- `ip` has left the pool; `ok` says whether provisioning succeeds.
  unfoldable pub provision :
      Bool → ℕ → Vpn → String → String → String → String → String → Assignment × Vpn
  unfolding release_ip
  provision true now st id key device org ip =
      (granted ip, record st { peers = put st.peers id (new_peer key device org ip) })
  provision false now st id key device org ip = (provisioning_failed, release_ip now st org ip)

  abbrev pub with_ip :
      Bool → ℕ → String → String → String → String → Option String × Vpn → Assignment × Vpn
  with_ip ok now id key device org (none, st) = (pool_exhausted, st)
  with_ip ok now id key device org (some ip, st) = provision ok now st id key device org ip

  abbrev pub unless_existing :
      Bool → ℕ → Vpn → String → String → String → String → Option (String × Peer) → Assignment × Vpn
  unless_existing ok now st id key device org (some (i, p)) = (existing_peer p, st)
  unless_existing ok now st id key device org none =
      with_ip ok now id key device org (allocate_ip st org)

  -- `id` and `key` are those of the new peer.
  unfoldable pub assign_vpn : Bool → ℕ → Vpn → String → String → String → String → Assignment × Vpn
  unfolding allocate_ip provision is_peer_of find_row
  assign_vpn ok now st id key device org =
      unless_existing ok now st id key device org (find_row (is_peer_of device org) st.peers)

  abbrev pub return_ip : ℕ → Vpn → String → Option String → Vpn
  return_ip now st org none = st
  return_ip now st org (some ip) = release_ip now st org ip

  abbrev pub revoked : ℕ → Vpn → String → Option (String × Peer) → Vpn
  revoked now st org none = st
  revoked now st org (some (id, p)) =
      let st' = return_ip now st org (truthy p.tunnel_ip) in
      record st' { peers = put st'.peers id (freed_peer p) }

  -- Taking the peer off the router is best effort and changes nothing here.
  unfoldable pub revoke_vpn : ℕ → Vpn → String → String → Vpn
  unfolding release_ip is_peer_of find_row
  revoke_vpn now st device org = revoked now st org (find_row (is_peer_of device org) st.peers)
