-- ===== src/Psbt.antt =====
-- psbt.py: partially signed transactions, from the byte reader up to the
-- roles that create, sign, combine, finalize and extract them.
pub mod Reader
pub mod KeyValue
pub mod Tx
pub mod Model
pub mod Merge
pub mod Utxo
pub mod Signer
pub mod Finalizer
pub mod Extractor
pub mod Lifecycle
pub mod Creator
pub mod Base64
pub mod Walk
pub mod Summary
