-- ===== src/ShadowLink.antt =====
-- old/internal_component/shadow_link: metadata records kept under a key in Redis or MongoDB.
pub mod Serde
pub mod Mongo
pub mod Redis
