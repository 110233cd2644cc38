-- ===== src/Witness.antt =====
-- The external witnesses (lineagelens-backend/app/services/witness_service.py).
pub mod Merkle
pub mod Binding
pub mod Levels
pub mod Root
pub mod Der
pub mod Tlv
pub mod Request
pub mod Octets
pub mod Backends
pub mod Receipts
mod Tests
