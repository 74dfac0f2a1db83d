-- ===== src/Quota.antt =====
-- app/core/quota.py: per-customer limits, flood and spam detection, and the spend guard. A
-- pipeline is one round trip. `fingerprint` hashes a text with hashlib and `stamp` prints the
-- moment of a message without an id: both are parameters. Log lines and metrics are left out.
pub mod Types
pub mod Customer
pub mod Spend
pub mod Check
pub mod Keeps
