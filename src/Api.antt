-- ===== src/Api.antt =====
-- backend/app/main.py: the HTTP handlers.
pub mod Response
pub mod Analytics
pub mod Events
pub mod Investigations
pub mod System
pub mod Ids
