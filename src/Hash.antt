-- ===== src/Hash.antt =====
-- hash.py: the hashes that are built from SHA-256 and RIPEMD-160, which PyCryptodome computes and which
-- are parameters here.
use yubtc_python.Prelude.{◌++◌}
use yubtc_python.Prelude.Bytes.{Bytes}

module _ (sha256 : Bytes → Bytes) where
  -- `dsha256` of transaction.py
  unfoldable pub dsha256 : Bytes → Bytes
  dsha256 data' = sha256 (sha256 data')

  unfoldable pub tagged_hash : Bytes → Bytes → Bytes
  tagged_hash tag msg = let tag_hash = sha256 tag in sha256 (tag_hash ++ (tag_hash ++ msg))

module _ (sha256 ripemd160 : Bytes → Bytes) where
  unfoldable pub hash160 : Bytes → Bytes
  hash160 data' = ripemd160 (sha256 data')
