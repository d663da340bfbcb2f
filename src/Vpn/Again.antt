-- ===== src/Vpn/Again.antt =====
-- backend/services/vpn/pool_service.py: a second call of `assign_vpn` for a device.
use sphere_platform.Base.{
  ℕ, String, Bool, true, Option, none, some, ◌==◌, ◌≡◌, arith, eq_iff, refl, eq_refl, ap, ◌∙◌, sym,
  Bool-cases, inl, inr,
}
use sphere_platform.Base.Dict.{Dict, put, get-put, get-put_same}
use sphere_platform.Base.Dict.Size.{IsDict, put-IsDict}
use sphere_platform.Base.Dict.Find.{find_row, NoneOf, find_row-none, find_row-some}
use sphere_platform.Redis.{SortedSet}
use sphere_platform.Vpn.Pool.{
  Peer, is_peer_of, existing_peer, granted, new_peer, Vpn, pool_of, allocate_ip, popped, provision,
  with_ip, unless_existing, assign_vpn,
}

module _ (S : SortedSet) where
  found_again :
      (d : Dict Peer) (id key device org ip : String)
      → IsDict d
      → NoneOf (is_peer_of device org) d
      → find_row (is_peer_of device org) (put d id (new_peer key device org ip))
        ≡ some (id, new_peer key device org ip)
  unfolding is_peer_of
  found_again d id key device org ip w n =
      turn (find_row (is_peer_of device org) (put d id new)) refl
    where
      new : Peer
      new = new_peer key device org ip

      turn :
          (o : Option (String × Peer))
          → find_row (is_peer_of device org) (put d id new) ≡ o
          → o ≡ some (id, new)
      turn none e = absurd (
          ground (
            arith,
            find_row-none (is_peer_of device org) (put d id new) e id new (get-put_same d id new),
            eq_refl device,
            eq_refl org,
          ))
      turn (some (i, p)) e =
          let (at, is) =
            find_row-some (is_peer_of device org) (put d id new) i p (put-IsDict d id new w) e in
          elim (Bool-cases (id == i)) [
            | inl k ↦
                let same : new ≡ p = ground (arith, at, k, get-put d id i new) in
                let here : id ≡ i = (eq_iff id i).0 k in cc (same, here)
            | inr k ↦ absurd (ground (arith, is, n i p (ground (arith, at, k, get-put d id i new))))
          ]

  -- In a table whose ids are distinct, a device that was granted an address gets the same address from the next call, whatever that call
  -- brings, and nothing changes.
  assign_vpn_again :
      (ok : Bool) (now now' : ℕ) (st st' : Vpn S) (id key id' key' device org ip : String)
      → IsDict st.peers
      → assign_vpn S true now st id key device org ≡ (granted ip, st')
      → assign_vpn S ok now' st' id' key' device org
        ≡ (existing_peer (new_peer key device org ip), st')
  unfolding assign_vpn allocate_ip provision
  assign_vpn_again ok now now' st st' id key id' key' device org ip w h =
      peers (find_row (is_peer_of device org) st.peers) refl h
    where
      again : Type 0
      again =
          assign_vpn S ok now' st' id' key' device org
          ≡ (existing_peer (new_peer key device org ip), st')

      pool :
          (o : Option (String × S.Z))
          → NoneOf (is_peer_of device org) st.peers
          → with_ip S true now id key device org (popped S st org o) ≡ (granted ip, st')
          → again
      pool none n e = cc
      pool (some (a, z)) n e =
          let row : put st.peers id (new_peer key device org a) ≡ st'.peers =
            ap (λ x. x.1.peers) e in
          let same : a ≡ ip = cc (ap (λ x. x.0) e) in
          ap (unless_existing S ok now' st' id' key' device org) (
            ap (find_row (is_peer_of device org)) (sym row)
            ∙ found_again st.peers id key device org a w n
            ∙ ap (λ x. some (id, new_peer key device org x)) same)

      peers :
          (o : Option (String × Peer))
          → find_row (is_peer_of device org) st.peers ≡ o
          → unless_existing S true now st id key device org o ≡ (granted ip, st')
          → again
      peers none f e =
          pool (S.zpopmin (pool_of S st org)) (find_row-none (is_peer_of device org) st.peers f) e
      peers (some (i, p)) f e = cc
