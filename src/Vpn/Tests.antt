-- ===== src/Vpn/Tests.antt =====
-- ip_pool.py and pool_service.py: a pool of two addresses, and the theorems at it.
use sphere_platform.Base.{String, true, List, [], ◌∷◌, ◌≡◌, refl, arith}
use sphere_platform.Base.Dict.{get}
use sphere_platform.Redis.Memory.{memory}
use sphere_platform.Vpn.Pool.{
  Vpn, granted, initialize_pool, assign_vpn, revoke_vpn, allocate_ip, provision, add_hosts,
}
use sphere_platform.Vpn.Disjoint.{IsDisjoint}
use sphere_platform.Vpn.Assign.{Answers, assign_vpn-Answers}
use sphere_platform.Vpn.Revoke.{Revokes, revoke_vpn-Revokes}
use sphere_platform.Base.Dict.Find.{find_row}

abbrev hosts : List String
hosts = "10.100.0.1" ∷ "10.100.0.2" ∷ []

abbrev nothing : Vpn memory
nothing = record { pools = []; peers = [] }

abbrev filled : Vpn memory
filled = (initialize_pool memory hosts nothing "o" 2).1

abbrev one_peer : Vpn memory
one_peer = (assign_vpn memory true 0 filled "p" "key" "d" "o").1

filled-IsDisjoint : IsDisjoint memory filled
unfolding initialize_pool get
filled-IsDisjoint = record {
  one_user = λ o ip i j p q gi gj u v. ground (arith, gi);
  not_free = λ o ip i p g u. absurd (ground (arith, g));
}

first_address : (assign_vpn memory true 0 filled "p" "key" "d" "o").0 ≡ granted "10.100.0.1"
unfolding assign_vpn allocate_ip provision find_row initialize_pool add_hosts memory
first_address = refl

assign_vpn-Answers_example :
    Answers memory 0 filled "p" "key" "d" "o" (assign_vpn memory true 0 filled "p" "key" "d" "o")
unfolding initialize_pool
assign_vpn-Answers_example =
    assign_vpn-Answers memory true 0 filled "p" "key" "d" "o" filled-IsDisjoint tt

one_peer-IsDisjoint : IsDisjoint memory one_peer
unfolding assign_vpn allocate_ip provision find_row initialize_pool add_hosts memory
one_peer-IsDisjoint =
    (assign_vpn-Answers memory true 0 filled "p" "key" "d" "o" filled-IsDisjoint tt).1

revoke_vpn-Revokes_example :
    Revokes memory 7 one_peer "d" "o" (revoke_vpn memory 7 one_peer "d" "o")
unfolding assign_vpn allocate_ip provision find_row initialize_pool add_hosts memory
revoke_vpn-Revokes_example =
    revoke_vpn-Revokes memory 7 one_peer "d" "o" (refl, tt) one_peer-IsDisjoint
