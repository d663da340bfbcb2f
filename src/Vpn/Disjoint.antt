-- ===== src/Vpn/Disjoint.antt =====
-- backend/services/vpn/pool_service.py: no address is in use twice, and none in use is free.
use sphere_platform.Base.{
  ℕ, String, true, false, ◌&&◌, none, some, ◌==◌, ◌≡◌, if◌then◌else◌, arith, eq_iff, eq_refl, ap,
  ◌∙◌, sym, Bool-cases, inl, inr,
}
use sphere_platform.Base.Dict.{get, put, get-put, get-put_same}
use sphere_platform.Redis.{SortedSet}
use sphere_platform.Vpn.Pool.{Peer, assigned, new_peer, Vpn, pool_of, set_pool, release_ip}

-- The peer uses this address of this organisation.
pub record Uses (p : Peer) (o ip : String) : Type 0 where
  pub org : p.org_id ≡ o
  pub status : p.status ≡ assigned
  pub address : p.tunnel_ip ≡ some ip

module _ (S : SortedSet) where
  -- In an organisation no two peers use one address, and the pool has none that a peer uses.
  pub record IsDisjoint (st : Vpn S) : Type 0 where
    pub one_user :
        (o ip i j : String) (p q : Peer)
        → get st.peers i ≡ some p
        → get st.peers j ≡ some q
        → Uses p o ip
        → Uses q o ip
        → i ≡ j
    pub not_free :
        (o ip i : String) (p : Peer)
        → get st.peers i ≡ some p
        → Uses p o ip
        → S.zscore (pool_of S st o) ip ≡ none

  -- The address is in nobody's use and not in the pool.
  pub record IsLoose (st : Vpn S) (o ip : String) : Type 0 where
    pub unused : (i : String) (p : Peer) → get st.peers i ≡ some p → Uses p o ip → ⊥
    pub gone : S.zscore (pool_of S st o) ip ≡ none

  pub score-set_pool :
      (st : Vpn S) (org o a : String) (z : S.Z)
      → S.zscore (pool_of S (set_pool S st org z) o) a
        ≡ (if org == o then S.zscore z a else S.zscore (pool_of S st o) a)
  score-set_pool st org o a z = ground (arith, get-put st.pools org o z)

  pub pool_of-set_pool :
      (st : Vpn S) (org : String) (z : S.Z) → pool_of S (set_pool S st org z) org ≡ z
  pool_of-set_pool st org z = ground (arith, get-put_same st.pools org z)

  pub popped-IsDisjoint :
      (st : Vpn S) (org ip : String) (z : S.Z)
      → IsDisjoint st
      → S.zpopmin (pool_of S st org) ≡ some (ip, z)
      → IsDisjoint (set_pool S st org z) × IsLoose (set_pool S st org z) org ip
  popped-IsDisjoint st org ip z h e =
      let (s, at, le, out) = S.zpopmin_some (pool_of S st org) ip z e in
      (
        record {
          one_user = h.one_user;
          not_free = λ o a i p g u.
              ground
                (arith, h.not_free o a i p g u, out a, score-set_pool st org o a z, eq_iff org o);
        },
        record {
          unused = λ i p g u. ground (arith, at, h.not_free org ip i p g u);
          gone = ground (arith, out ip, eq_refl ip, eq_refl org, score-set_pool st org org ip z);
        },
      )

  pub granted-IsDisjoint :
      (st : Vpn S) (id key device org ip : String)
      → IsDisjoint st
      → IsLoose st org ip
      → IsDisjoint (record st { peers = put st.peers id (new_peer key device org ip) })
  granted-IsDisjoint st id key device org ip h l = record {
    one_user = λ o a i j p q gi gj up uq. elim (Bool-cases (id == i)) [
      | inl ei ↦ elim (Bool-cases (id == j)) [
        | inl ej ↦ ground (arith, ei, ej, eq_iff id i, eq_iff id j)
        | inr ej ↦ absurd (clash o a i j p q gi gj up uq ei ej)
      ]
      | inr ei ↦ elim (Bool-cases (id == j)) [
        | inl ej ↦ absurd (clash o a j i q p gj gi uq up ej ei)
        | inr ej ↦ h.one_user o a i j p q (kept i p gi ei) (kept j q gj ej) up uq
      ]
    ];
    not_free = λ o a i p g u. elim (Bool-cases (id == i)) [
      | inl e ↦
          let new = fresh i p g e in
          ground
            (arith, l.gone, ap (λ x. x.org_id) new, u.org, ap (λ x. x.tunnel_ip) new, u.address)
      | inr e ↦ h.not_free o a i p (kept i p g e) u
    ];
  }
    where
      peer : Peer
      peer = new_peer key device org ip

      kept :
          (i : String) (p : Peer)
          → get (put st.peers id peer) i ≡ some p
          → (id == i) ≡ false
          → get st.peers i ≡ some p
      kept i p g e = ground (arith, g, e, get-put st.peers id i peer)

      fresh :
          (i : String) (p : Peer)
          → get (put st.peers id peer) i ≡ some p
          → (id == i) ≡ true
          → peer ≡ p
      fresh i p g e = ground (arith, g, e, get-put st.peers id i peer)

      clash :
          (o a i j : String) (p q : Peer)
          → get (put st.peers id peer) i ≡ some p
          → get (put st.peers id peer) j ≡ some q
          → Uses p o a
          → Uses q o a
          → (id == i) ≡ true
          → (id == j) ≡ false
          → ⊥
      clash o a i j p q gi gj up uq ei ej =
          let new = fresh i p gi ei in
          l.unused j q (kept j q gj ej) (record {
            org = uq.org ∙ sym up.org ∙ sym (ap (λ x. x.org_id) new);
            status = uq.status;
            address = uq.address ∙ sym up.address ∙ sym (ap (λ x. x.tunnel_ip) new);
          })

  pub released-IsDisjoint :
      (now : ℕ) (st : Vpn S) (org ip : String)
      → IsDisjoint st
      → ((i : String) (p : Peer) → get st.peers i ≡ some p → Uses p org ip → ⊥)
      → IsDisjoint (release_ip S now st org ip)
  unfolding release_ip
  released-IsDisjoint now st org ip h unused = record {
    one_user = h.one_user;
    not_free = λ o a i p g u.
        let z = S.zadd (pool_of S st org) ip now in
        elim (Bool-cases ((org == o) && (ip == a))) [
          | inl e ↦ absurd (
              unused i p g (record {
                org = ground (arith, e, eq_iff org o, u.org);
                status = u.status;
                address = ground (arith, e, eq_iff ip a, u.address);
              }))
          | inr e ↦ ground (
            arith,
            e,
            h.not_free o a i p g u,
            score-set_pool st org o a z,
            eq_iff org o,
            S.zscore-zadd (pool_of S st org) ip a now,
          )
        ];
  }
