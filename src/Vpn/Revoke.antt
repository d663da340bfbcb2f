-- ===== src/Vpn/Revoke.antt =====
-- backend/services/vpn/pool_service.py: `revoke_vpn`.
use sphere_platform.Base.{
  ℕ, String, true, false, Option, none, some, ◌==◌, ◌≡◌, arith, eq_iff, refl, eq_refl, ap, ◌∙◌, sym,
  subst, truthy, Bool-cases, inl, inr, truthy-some,
}
use sphere_platform.Base.Dict.{Dict, get, put, get-put, get-put_same}
use sphere_platform.Base.Dict.Size.{IsDict}
use sphere_platform.Base.Dict.Find.{find_row, find_row-some}
use sphere_platform.Redis.{SortedSet}
use sphere_platform.Vpn.Pool.{
  Peer, PeerStatus, free, assigned, is_assigned, is_peer_of, freed_peer, Vpn, pool_of, release_ip,
  return_ip, revoked, revoke_vpn, error,
}
use sphere_platform.Vpn.Disjoint.{IsDisjoint, released-IsDisjoint}

-- A peer in use after one row was freed is another row.
kept :
    (d : Dict Peer) (id i : String) (p x : Peer)
    → get (put d id (freed_peer p)) i ≡ some x
    → x.status ≡ assigned
    → (get d i ≡ some x) × ((id == i) ≡ false)
kept d id i p x g a = elim (Bool-cases (id == i)) [
  | inl e ↦
      let new : freed_peer p ≡ x = ground (arith, g, e, get-put d id i (freed_peer p)) in
      absurd (ground (arith, ap (λ x. x.status) new, a))
  | inr e ↦ (ground (arith, g, e, get-put d id i (freed_peer p)), e)
]

only_assigned : (s : PeerStatus) → is_assigned s ≡ true → s ≡ assigned
only_assigned free h = ground arith
only_assigned assigned h = refl
only_assigned error h = ground arith

taken_by :
    (device org : String) (p : Peer)
    → is_peer_of device org p ≡ true
    → (p.org_id ≡ org) × (p.status ≡ assigned)
unfolding is_peer_of
taken_by device org p h =
    (ground (arith, h, eq_iff p.org_id org), only_assigned p.status (ground (arith, h)))

module _ (S : SortedSet) where
  freed-IsDisjoint :
      (st : Vpn S) (id : String) (p : Peer)
      → IsDisjoint S st
      → IsDisjoint S (record st { peers = put st.peers id (freed_peer p) })
  freed-IsDisjoint st id p h = record {
    one_user = λ o a i j x y gi gj ux uy.
        h.one_user o a i j x y (kept st.peers id i p x gi ux.status).0
          (kept st.peers id j p y gj uy.status).0 ux uy;
    not_free = λ o a i x g u. h.not_free o a i x (kept st.peers id i p x g u.status).0 u;
  }

  revoked-IsDisjoint :
      (now : ℕ) (st : Vpn S) (org id : String) (p : Peer)
      → IsDisjoint S st
      → get st.peers id ≡ some p
      → p.org_id ≡ org
      → p.status ≡ assigned
      → IsDisjoint S (revoked S now st org (some (id, p)))
  unfolding release_ip
  revoked-IsDisjoint now st org id p h g o a = turn (truthy p.tunnel_ip) (truthy-some p.tunnel_ip)
    where
      freed : Vpn S
      freed = record st { peers = put st.peers id (freed_peer p) }

      turn :
          (ip : Option String)
          → ((x : String) → ip ≡ some x → p.tunnel_ip ≡ some x)
          → IsDisjoint S (record (return_ip S now st org ip) {
            peers = put (return_ip S now st org ip).peers id (freed_peer p);
          })
      turn none e = freed-IsDisjoint st id p h
      turn (some ip) e =
          released-IsDisjoint S now freed org ip (freed-IsDisjoint st id p h) (λ i q gi u.
            let (at, other) = kept st.peers id i p q gi u.status in
            let same : i ≡ id =
              h.one_user org ip i id q p at g u
                (record { org = o; status = a; address = e ip refl }) in
            ground (arith, other, same, eq_iff id i))

  returned_at :
      (now : ℕ) (st : Vpn S) (org id ip : String) (p : Peer)
      → truthy p.tunnel_ip ≡ some ip
      → (S.zscore (pool_of S (revoked S now st org (some (id, p))) org) ip ≡ some now)
        × (get (revoked S now st org (some (id, p))).peers id ≡ some (freed_peer p))
  unfolding release_ip
  returned_at now st org id ip p t = rw (t) (
    ground (
      arith,
      eq_refl org,
      eq_refl ip,
      S.zscore-zadd (pool_of S st org) ip ip now,
      get-put_same st.pools org (S.zadd (pool_of S st org) ip now),
    ),
    get-put_same st.peers id (freed_peer p),
  )

  -- What revoking the peer of a device promises.
  pub record Revokes (now : ℕ) (st : Vpn S) (device org : String) (st' : Vpn S) : Type 0 where
    pub disjoint : IsDisjoint S st'
    pub returned :
        (id ip : String) (p : Peer)
        → find_row (is_peer_of device org) st.peers ≡ some (id, p)
        → truthy p.tunnel_ip ≡ some ip
        → (S.zscore (pool_of S st' org) ip ≡ some now) × (get st'.peers id ≡ some (freed_peer p))
    pub nothing : find_row (is_peer_of device org) st.peers ≡ none → st' ≡ st

  -- In a table whose ids are distinct, revoking keeps it true that in an organisation no two peers use one address and the pool has none
  -- that a peer uses. The address of the device's peer is free again, with this second as its score,
  -- and the row is marked free and inactive; a device without a peer changes nothing.
  pub revoke_vpn-Revokes :
      (now : ℕ) (st : Vpn S) (device org : String)
      → IsDict st.peers
      → IsDisjoint S st
      → Revokes now st device org (revoke_vpn S now st device org)
  unfolding revoke_vpn is_peer_of release_ip
  revoke_vpn-Revokes now st device org w h = turn (find_row (is_peer_of device org) st.peers) refl
    where
      turn :
          (o : Option (String × Peer))
          → find_row (is_peer_of device org) st.peers ≡ o
          → Revokes now st device org (revoked S now st org o)
      turn none f = record { disjoint = h; returned = λ id ip p e t. cc; nothing = λ e. refl }
      turn (some (id, p)) f =
          let (at, is) = find_row-some (is_peer_of device org) st.peers id p w f in
          record {
            disjoint =
                revoked-IsDisjoint now st org id p h at (taken_by device org p is).0
                  (taken_by device org p is).1;
            returned = λ i ip q e t.
                subst
                  (λ o.
                    (S.zscore (pool_of S (revoked S now st org o) org) ip ≡ some now)
                    × (get (revoked S now st org o).peers i ≡ some (freed_peer q)))
                  (sym e ∙ f) (returned_at now st org i ip q t);
            nothing = λ e. cc;
          }
