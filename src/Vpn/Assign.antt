-- ===== src/Vpn/Assign.antt =====
-- backend/services/vpn/pool_service.py: `assign_vpn`.
use sphere_platform.Base.{
  ℕ, String, Bool, true, false, Option, none, some, ◌==◌, ◌&&◌, if◌then◌else◌, ◌≢◌, ◌≡◌, arith,
  eq_iff, eq_true, refl, eq_refl, ap, Bool-cases, inl, inr,
}
use sphere_platform.Base.Dict.{get, get-put_same}
use sphere_platform.Base.Dict.Rows.{get-put_other}
use sphere_platform.Base.Dict.Size.{IsDict}
use sphere_platform.Base.Dict.Find.{find_row, NoneOf, find_row-none, find_row-some}
use sphere_platform.Redis.{SortedSet}
use sphere_platform.Vpn.Pool.{
  Peer, PeerStatus, free, assigned, error, is_assigned, release_ip, is_peer_of, Assignment,
  existing_peer, granted, pool_exhausted, provisioning_failed, new_peer, Vpn, pool_of, set_pool,
  allocate_ip, popped, provision, with_ip, unless_existing, assign_vpn,
}
use sphere_platform.Vpn.Disjoint.{
  Uses, score-set_pool, IsDisjoint, popped-IsDisjoint, granted-IsDisjoint, released-IsDisjoint,
}

module _ (S : SortedSet) where
  -- A row of the table that says that the device has this peer.
  abbrev pub IsPeer : Vpn S → String → String → Peer → Type 0
  IsPeer st device org p =
      (i : String) × (get st.peers i ≡ some p)
      × (p.device_id ≡ some device)
      × (p.org_id ≡ org)
      × (p.status ≡ assigned)

  abbrev pub NoPeer : Vpn S → String → String → Type 0
  NoPeer st device org = (p : Peer) → ¬ IsPeer st device org p

  -- The pools are as before, but for one address of the organisation.
  abbrev pub PoolsDiffer : Vpn S → Vpn S → String → String → Option ℕ → Type 0
  PoolsDiffer st st' org ip score =
      (o a : String)
      → S.zscore (pool_of S st' o) a
        ≡ (if (org == o) && (ip == a) then score else S.zscore (pool_of S st o) a)

  -- What a call of `assign_vpn` at the time `now` promises for the device.
  abbrev pub Answers : ℕ → Vpn S → String → String → String → String → Assignment × Vpn S → Type 0
  Answers now st id key device org (existing_peer p, st') = (st' ≡ st) × IsPeer st device org p
  Answers now st id key device org (granted ip, st') =
      NoPeer st device org
      × IsDisjoint S st'
      × ((s : ℕ) × (S.zscore (pool_of S st org) ip ≡ some s))
      × PoolsDiffer st st' org ip none
      × ((p : Peer) × (get st'.peers id ≡ some p)
          × Uses p org ip
          × (p.device_id ≡ some device)
          × (p.public_key ≡ key))
      × ((i : String) → id ≢ i → get st'.peers i ≡ get st.peers i)
  Answers now st id key device org (pool_exhausted, st') =
      NoPeer st device org × (st' ≡ st) × ((ip : String) → S.zscore (pool_of S st org) ip ≡ none)
  Answers now st id key device org (provisioning_failed, st') =
      NoPeer st device org
      × IsDisjoint S st'
      × (st'.peers ≡ st.peers)
      × ((ip : String) × ((s : ℕ) × (S.zscore (pool_of S st org) ip ≡ some s))
          × PoolsDiffer st st' org ip (some now))

  popped-PoolsDiffer :
      (st : Vpn S) (org ip : String) (z : S.Z)
      → S.zpopmin (pool_of S st org) ≡ some (ip, z)
      → PoolsDiffer st (set_pool S st org z) org ip none
  popped-PoolsDiffer st org ip z e o a =
      let (s, at, le, out) = S.zpopmin_some (pool_of S st org) ip z e in
      ground (arith, out a, score-set_pool S st org o a z, eq_iff org o, eq_iff ip a)

  returned-PoolsDiffer :
      (now : ℕ) (st : Vpn S) (org ip : String) (z : S.Z)
      → S.zpopmin (pool_of S st org) ≡ some (ip, z)
      → PoolsDiffer st (release_ip S now (set_pool S st org z) org ip) org ip (some now)
  unfolding release_ip
  returned-PoolsDiffer now st org ip z e o a =
      let st1 = set_pool S st org z in
      let pool = pool_of S st1 org in
      let left = popped-PoolsDiffer st org ip z e o a in
      let set = score-set_pool S st1 org o a (S.zadd pool ip now) in
      let added = S.zscore-zadd pool ip a now in
      elim (Bool-cases (org == o)) [
        | inr k ↦ ground (arith, k, left, set)
        | inl k ↦
            let same : org ≡ o = eq_true org o k in
            let here : S.zscore pool a ≡ S.zscore (pool_of S st1 o) a =
              ap (λ x. S.zscore (pool_of S st1 x) a) same in
            ground (arith, k, left, set, added, here)
      ]

  provision-Answers :
      (ok : Bool) (now : ℕ) (st : Vpn S) (id key device org ip : String) (z : S.Z)
      → NoPeer st device org
      → IsDisjoint S st
      → S.zpopmin (pool_of S st org) ≡ some (ip, z)
      → Answers now st id key device org
          (provision S ok now (set_pool S st org z) id key device org ip)
  unfolding provision
  provision-Answers true now st id key device org ip z none_yet h e =
      let (d, l) = popped-IsDisjoint S st org ip z h e in
      let (s, at, le, out) = S.zpopmin_some (pool_of S st org) ip z e in
      let p = new_peer key device org ip in
      (
        none_yet,
        granted-IsDisjoint S (set_pool S st org z) id key device org ip d l,
        (s, at),
        popped-PoolsDiffer st org ip z e,
        (
          p,
          get-put_same st.peers id p,
          record { org = refl; status = refl; address = refl },
          refl,
          refl,
        ),
        λ i other. get-put_other st.peers id i p other,
      )
  provision-Answers false now st id key device org ip z none_yet h e =
      let (d, l) = popped-IsDisjoint S st org ip z h e in
      let (s, at, le, out) = S.zpopmin_some (pool_of S st org) ip z e in
      (
        none_yet,
        released-IsDisjoint S now (set_pool S st org z) org ip d l.unused,
        refl,
        (ip, (s, at), returned-PoolsDiffer now st org ip z e),
      )

  is_peer_of-IsPeer :
      (st : Vpn S) (device org i : String) (p : Peer)
      → get st.peers i ≡ some p
      → is_peer_of device org p ≡ true
      → IsPeer st device org p
  unfolding is_peer_of
  is_peer_of-IsPeer st device org i p at is = (
    i,
    at,
    on p.device_id refl,
    ground (arith, is, eq_iff p.org_id org),
    assigned_is p.status (ground (arith, is)),
  )
    where
      on : (d : Option String) → p.device_id ≡ d → p.device_id ≡ some device
      on none e = ground (arith, is, e)
      on (some d) e = ground (arith, is, e, eq_iff d device)

      assigned_is : (s : PeerStatus) → is_assigned s ≡ true → s ≡ assigned
      assigned_is free k = ground (arith, k)
      assigned_is assigned k = refl
      assigned_is error k = ground (arith, k)

  NoneOf-NoPeer :
      (st : Vpn S) (device org : String)
      → NoneOf (is_peer_of device org) st.peers
      → NoPeer st device org
  unfolding is_peer_of
  NoneOf-NoPeer st device org absent p (i, at, on, in_org, assigned_here) =
      let is : is_peer_of device org p ≡ true =
        rw (on, in_org, assigned_here, eq_refl device, eq_refl org) refl in
      ground (arith, absent i p at, is)

  -- Let no two peers of an organisation use one address and its pool have none that a peer uses, and
  -- let the ids of the peers be unique. A device that has a peer gets a row that says so, and nothing
  -- changes. A device that has none gets an address that was free in the pool of its organisation: the address
  -- leaves the pool, and the new row holds it for the device with its key, the other rows staying. Or
  -- the pool was empty and nothing changes. Or provisioning fails: the peers are as before, and the
  -- address that was taken is back in the pool, at the time of the call. In each case the first
  -- premise stays true.
  pub assign_vpn-Answers :
      (ok : Bool) (now : ℕ) (st : Vpn S) (id key device org : String)
      → IsDisjoint S st
      → IsDict st.peers
      → Answers now st id key device org (assign_vpn S ok now st id key device org)
  unfolding assign_vpn allocate_ip
  assign_vpn-Answers ok now st id key device org h rows =
      peers (find_row (is_peer_of device org) st.peers) refl
    where
      pool :
          NoPeer st device org
          → (o : Option (String × S.Z)) → S.zpopmin (pool_of S st org) ≡ o
          → Answers now st id key device org
              (with_ip S ok now id key device org (popped S st org o))
      pool none_yet none e = (none_yet, refl, S.zpopmin_none (pool_of S st org) e)
      pool none_yet (some (ip, z)) e =
          provision-Answers ok now st id key device org ip z none_yet h e

      peers :
          (o : Option (String × Peer))
          → find_row (is_peer_of device org) st.peers ≡ o
          → Answers now st id key device org (unless_existing S ok now st id key device org o)
      peers none e =
          pool (NoneOf-NoPeer st device org (find_row-none (is_peer_of device org) st.peers e))
            (S.zpopmin (pool_of S st org)) refl
      peers (some (i, p)) e =
          let (at, is) = find_row-some (is_peer_of device org) st.peers i p rows e in
          (refl, is_peer_of-IsPeer st device org i p at is)
