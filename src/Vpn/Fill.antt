-- ===== src/Vpn/Fill.antt =====
-- backend/services/vpn/ip_pool.py: what `initialize_pool` adds to a pool.
use sphere_platform.Base.{
  ℕ, ◌+◌, String, true, some, List, [], ◌∷◌, ◌≡◌, has, take, arith, eq_iff, eq_refl, refl,
  Option-cases, inl, inr, ◌||◌, ap, ◌∙◌,
}
use sphere_platform.Base.Dict.{get}
use sphere_platform.Base.Dict.Size.{is_some}
use sphere_platform.Redis.{SortedSet}
use sphere_platform.Vpn.Pool.{Vpn, pool_of, set_pool, add_hosts, initialize_pool, Peer}
use sphere_platform.Vpn.Disjoint.{pool_of-set_pool, Uses, IsDisjoint}

module _ (S : SortedSet) where
  -- After the pipeline, the members are the old ones and the hosts, and an old score stays.
  record Added (ips : List String) (z : S.Z) (n : ℕ) (z' : S.Z) : Type 0 where
    members : (m : String) → is_some (S.zscore z' m) ≡ (is_some (S.zscore z m) || has ips m)
    scores : (m : String) (s : ℕ) → S.zscore z m ≡ some s → S.zscore z' m ≡ some s
    count : S.zcard z' ≡ S.zcard z + n

  add_hosts-Added :
      (i : ℕ) (ips : List String) (z : S.Z)
      → Added ips z (add_hosts S i ips z).0 (add_hosts S i ips z).1
  unfolding add_hosts
  add_hosts-Added i [] z = record {
    members = λ m. ground arith;
    scores = λ m s e. e;
    count = ground arith;
  }
  add_hosts-Added i (ip ∷ ips) z = elim (Option-cases (S.zscore z ip)) [
    | inl n ↦ rw (S.zadd_nx_new z ip i n) (
        let z' = S.zadd z ip i in
        let ih : Added ips z' (add_hosts S (i + 1) ips z').0 (add_hosts S (i + 1) ips z').1 =
          add_hosts-Added (i + 1) ips z' in
        record {
          members = λ m. ground (arith, ih.members m, S.zscore-zadd z ip m i, n);
          scores =
              λ m s e. ih.scores m s (ground (arith, S.zscore-zadd z ip m i, e, n, eq_iff ip m));
          count = ground (arith, ih.count, S.zcard-zadd z ip i, n);
        })
    | inr (t, e) ↦ rw (S.zadd_nx_old z ip i t e) (
        let ih : Added ips z (add_hosts S (i + 1) ips z).0 (add_hosts S (i + 1) ips z).1 =
          add_hosts-Added (i + 1) ips z in
        record {
          members = λ m. ground (arith, ih.members m, e, eq_iff ip m);
          scores = ih.scores;
          count = ih.count;
        })
  ]

  nothing_added :
      (i : ℕ) (ips : List String) (z : S.Z)
      → ((m : String) → has ips m ≡ true → is_some (S.zscore z m) ≡ true)
      → add_hosts S i ips z ≡ (0, z)
  unfolding add_hosts
  nothing_added i [] z h = refl
  nothing_added i (ip ∷ ips) z h = elim (Option-cases (S.zscore z ip)) [
    | inl n ↦ ground (arith, n, h ip, eq_refl ip)
    | inr (t, e) ↦
        rw (S.zadd_nx_old z ip i t e, nothing_added (i + 1) ips z (λ m k. h m (ground (arith, k))))
          refl
  ]

  -- What filling a pool with the first `count` hosts promises.
  pub record Fills (hosts : List String) (org : String) (count : ℕ) (st : Vpn S) (n : ℕ)
      (st' : Vpn S) : Type 0 where
    pub members :
        (m : String)
        → is_some (S.zscore (pool_of S st' org) m)
          ≡ (is_some (S.zscore (pool_of S st org) m) || has (take count hosts) m)
    pub scores :
        (m : String) (s : ℕ)
        → S.zscore (pool_of S st org) m ≡ some s
        → S.zscore (pool_of S st' org) m ≡ some s
    pub reported : S.zcard (pool_of S st' org) ≡ S.zcard (pool_of S st org) + n
    pub again : (initialize_pool S hosts st' org count).0 ≡ 0

  -- Filling a pool adds the first `count` hosts that are not in it, keeps the scores of those that are,
  -- and reports how many are new; done a second time, it reports none.
  initialize_pool-Fills :
      (hosts : List String) (st : Vpn S) (org : String) (count : ℕ)
      → Fills hosts org count st
          (initialize_pool S hosts st org count).0
          (initialize_pool S hosts st org count).1
  unfolding initialize_pool
  initialize_pool-Fills hosts st org count =
      let z = pool_of S st org in
      let z' = (add_hosts S 0 (take count hosts) z).1 in
      let a : Added (take count hosts) z (add_hosts S 0 (take count hosts) z).0 z' =
        add_hosts-Added 0 (take count hosts) z in
      let same : pool_of S (set_pool S st org z') org ≡ z' = pool_of-set_pool S st org z' in
      record {
        members = λ m. ap (λ x. is_some (S.zscore x m)) same ∙ a.members m;
        scores = λ m s e. ap (λ x. S.zscore x m) same ∙ a.scores m s e;
        reported = ap S.zcard same ∙ a.count;
        again =
            ap (λ x. (add_hosts S 0 (take count hosts) x).0) same
            ∙ ap (λ x. x.0)
                (nothing_added 0 (take count hosts) z' (λ m h. ground (arith, a.members m, h)));
      }

  -- The pool takes back an address that a peer is using, if it is among the first `count` hosts: the
  -- address is free and in use at once.
  pub initialize_pool_frees_used :
      (hosts : List String) (st : Vpn S) (org ip i : String) (count : ℕ) (p : Peer)
      → get st.peers i ≡ some p
      → Uses p org ip
      → has (take count hosts) ip ≡ true
      → (is_some (S.zscore (pool_of S (initialize_pool S hosts st org count).1 org) ip) ≡ true)
        × (get (initialize_pool S hosts st org count).1.peers i ≡ some p)
        × ¬ IsDisjoint S (initialize_pool S hosts st org count).1
  unfolding initialize_pool
  initialize_pool_frees_used hosts st org ip i count p g u h =
      let f : Fills hosts org count st (initialize_pool S hosts st org count).0
          (initialize_pool S hosts st org count).1 =
        initialize_pool-Fills hosts st org count in
      let in_pool : is_some (S.zscore (pool_of S (initialize_pool S hosts st org count).1 org) ip)
          ≡ true =
        ground (arith, f.members ip, h) in
      (in_pool, g, λ d. ground (arith, in_pool, d.not_free org ip i p g u))
