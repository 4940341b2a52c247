-- ===== src/Transaction/Sighash.antt =====
-- transaction.py: the BIP-143 digest and the two BIP-341 digests. SHA-256 is a parameter.
pub mod Commitment
use yubtc_python.Prelude.{
  ℕ, List, [], ◌∷◌, ◌++◌, length, leb, ◌==◌, not, if◌then◌else◌, Result, ok, err, ◌>>=◌, concat_map,
  value_error,
}
use yubtc_python.Prelude.Int.{pos}
use yubtc_python.Prelude.Bytes.{Bytes, index, slice, pack, pack_signed}
use yubtc_python.Hash.{dsha256, tagged_hash}
use yubtc_python.Transaction.Model.{CIn, COut, CTransaction, var_bytes, serialize_c_out}

pub record SpendInput : Type 0 where
  pub amount : ℕ
  pub script_pubkey : Bytes

-- `i.txhash + pack(b'<L', i.n)`
unfoldable pub prevout : CIn → Result Bytes
prevout i = do n' ← pack 4 i.n; ok (i.txhash ++ n')

unfoldable pub sequence_bytes : CIn → Result Bytes
sequence_bytes i = pack 4 i.sequence

amount_bytes : SpendInput → Result Bytes
amount_bytes meta = pack 8 meta.amount

script_bytes : SpendInput → Result Bytes
script_bytes meta = var_bytes meta.script_pubkey

unfoldable pub p2wpkh_script_code : Bytes → Bytes
p2wpkh_script_code script = 0x19 ∷ 0x76 ∷ 0xa9 ∷ 0x14 ∷ (slice script 2 22 ++ 0x88 ∷ 0xac ∷ [])

-- `b'TapSighash'`
abbrev pub tap_sighash : Bytes
tap_sighash = 0x54 ∷ 0x61 ∷ 0x70 ∷ 0x53 ∷ 0x69 ∷ 0x67 ∷ 0x68 ∷ 0x61 ∷ 0x73 ∷ 0x68 ∷ []

module _ (sha256 : Bytes → Bytes) where
  unfoldable pub bip143_sighash_in_range : CTransaction → ℕ → Bytes → ℕ → Result Bytes
  bip143_sighash_in_range tx input_index script_code amount = do
    vin ← index tx.vin input_index
    prevouts ← concat_map prevout tx.vin
    sequences ← concat_map sequence_bytes tx.vin
    outputs ← concat_map serialize_c_out tx.vout
    version ← pack_signed tx.version
    n ← pack 4 vin.n
    amount' ← pack 8 amount
    sequence ← pack 4 vin.sequence
    locktime ← pack 4 tx.locktime
    ok (
        dsha256 sha256 (
          version
          ++ (dsha256 sha256 prevouts
              ++ (dsha256 sha256 sequences
                  ++ (vin.txhash
                      ++ (n
                          ++ (script_code
                              ++ (amount'
                                  ++ (sequence
                                      ++ (dsha256 sha256 outputs
                                          ++ (locktime ++ 0x01 ∷ 0 ∷ 0 ∷ 0 ∷ [])))))))))))

  unfoldable pub bip143_sighash : CTransaction → ℕ → Bytes → ℕ → Result Bytes
  bip143_sighash tx input_index script_code amount =
      if leb (length tx.vin) input_index
      then err value_error
      else bip143_sighash_in_range tx input_index script_code amount

  -- The five fields, in the order in which `_taproot_sig_msg` joins them.
  unfoldable pub taproot_sha_fields : CTransaction → List SpendInput → Result Bytes
  unfolding amount_bytes script_bytes
  taproot_sha_fields tx spend = do
    prevouts ← concat_map prevout tx.vin
    amounts ← concat_map amount_bytes spend
    scripts ← concat_map script_bytes spend
    sequences ← concat_map sequence_bytes tx.vin
    outputs ← concat_map serialize_c_out tx.vout
    ok (
        sha256 prevouts
        ++ (sha256 amounts ++ (sha256 scripts ++ (sha256 sequences ++ sha256 outputs))))

  unfoldable pub taproot_sig_msg : CTransaction → ℕ → List SpendInput → ℕ → Result Bytes
  taproot_sig_msg tx input_index spend spend_type = do
    fields ← taproot_sha_fields tx spend
    version ← pack_signed tx.version
    locktime ← pack 4 tx.locktime
    index' ← pack 4 input_index
    ok (0x00 ∷ (version ++ (locktime ++ (fields ++ spend_type ∷ index'))))

  unfoldable pub taproot_keypath_sighash_in_range :
      CTransaction → ℕ → List SpendInput → Result Bytes
  taproot_keypath_sighash_in_range tx input_index spend = do
    sig_msg ← taproot_sig_msg tx input_index spend 0x00
    ok (tagged_hash sha256 tap_sighash (0x00 ∷ sig_msg))

  unfoldable pub taproot_keypath_sighash : CTransaction → ℕ → List SpendInput → Result Bytes
  taproot_keypath_sighash tx input_index spend =
      if not (length spend == length tx.vin)
      then err value_error
      else if leb (length tx.vin) input_index
      then err value_error
      else taproot_keypath_sighash_in_range tx input_index spend

  unfoldable pub taproot_scriptpath_sighash :
      CTransaction → ℕ → List SpendInput → Bytes → Result Bytes
  taproot_scriptpath_sighash tx input_index spend leaf_hash =
      if not (length spend == length tx.vin)
      then err value_error
      else if leb (length tx.vin) input_index
      then err value_error
      else do
        sig_msg ← taproot_sig_msg tx input_index spend 0x02
        ok (
            tagged_hash sha256 tap_sighash
              (0x00 ∷ (sig_msg ++ (leaf_hash ++ 0x00 ∷ 0xff ∷ 0xff ∷ 0xff ∷ 0xff ∷ []))))
