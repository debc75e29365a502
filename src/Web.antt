-- ===== src/Web.antt =====
-- internal/web: what the site shows.
pub mod Amounts
mod Examples
