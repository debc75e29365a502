-- ===== src/Stratum.antt =====
-- internal/stratum: the stratum server: its work, its clients and their requests.
pub mod Bytes
mod Examples
pub mod Work
pub mod Config
pub mod Clients
pub mod Login
pub mod Server
