-- ===== src/Transaction.antt =====
-- transaction.py, and the encodings of counts of misc.py.
pub mod CompactSize
pub mod Model
pub mod Sighash
pub mod Signing
pub mod Taproot
