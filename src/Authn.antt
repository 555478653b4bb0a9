-- ===== src/Authn.antt =====
-- The tokens of pkg/authn/authn.go that carry an ID and a key.
pub mod Base64
pub mod Sextets
pub mod RoundTrip
pub mod Packing
