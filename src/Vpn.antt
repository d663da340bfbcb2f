-- ===== src/Vpn.antt =====
-- VPN addresses and peers (backend/services/vpn/ip_pool.py and pool_service.py).
pub mod Pool
pub mod Disjoint
pub mod Assign
pub mod Again
pub mod Revoke
pub mod Fill
mod Tests
