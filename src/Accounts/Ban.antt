-- ===== src/Accounts/Ban.antt =====
-- backend/services/event_reactor.py: what a ban does to the account, its session and the device.
use sphere_platform.Accounts.Banned.{Banned}
