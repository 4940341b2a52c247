-- ===== src/Examples/Payments.antt =====
-- Signing, the selection of outputs, the fee loop and the network at concrete inputs.
use yubtc_python.Prelude.{
  ℕ, zero, suc, ◌≤◌, ◌<◌, ◌≡◌, refl, List, [], ◌∷◌, ◌++◌, length, take, replicate, ◌==◌,
  if◌then◌else◌, false, none, some, ◌⊎◌, inl, inr, ok, err, ◌>>=◌, value_error, arith,
}
use yubtc_python.Prelude.Int.{pos}
use yubtc_python.Prelude.Bytes.{Bytes, pack, pack_signed, le_bytes, signed_bytes}
use yubtc_python.Transaction.CompactSize.{compact_size}
use yubtc_python.Transaction.Model.{
  CIn, COut, CTransaction, var_bytes, serialize_c_in, serialize_c_out, serialize_stripped,
  any_witness, has_witness,
}
use yubtc_python.Transaction.Sighash.{
  SpendInput, bip143_sighash_in_range, taproot_keypath_sighash_in_range,
}
use yubtc_python.Transaction.Sighash.Commitment.{blanked, bip143-blanked, keypath-blanked}
use yubtc_python.Transaction.Signing.{Coincurve, sign_segwit}
use yubtc_python.Transaction.Signing.Independent.{signed_inputs, sign_segwit_lem}
use yubtc_python.Select.{Source, default_selection, ms_select_utxos}
use yubtc_python.Select.Prefix.{
  flat, add_all, IsShortest, default_selection-IsShortest, ms_select_utxos-IsShortest,
}
use yubtc_python.Net.{Outcome, fault, response, request_with_retries, run}
use yubtc_python.Net.Retry.{Ends, request_with_retries-IsRun}
use yubtc_python.Net.Failover.{run-cases}
use yubtc_python.Wallet.{BySize}
use yubtc_python.Wallet.Candidates.{IsBestPick, pick_best-IsBestPick}

-- A hash that is not SHA-256, and keys that are byte strings.
abbrev toy_hash : Bytes → Bytes
toy_hash b = length b ∷ take 31 (b ++ replicate 31 0)

abbrev toy : Coincurve
toy = record {
  PrivateKey = Bytes;
  private_key = ok;
  secret = λ k. k;
  public_key = λ k. 0x02 ∷ k;
  sign = λ k h. k ++ h;
  sign_schnorr = λ k h aux. k ++ (h ++ aux);
}

abbrev segwit_script : Bytes
segwit_script = 0x00 ∷ 0x14 ∷ replicate 20 7

abbrev input : CIn
input = record {
  txhash = replicate 32 0xab;
  n = 1;
  script = segwit_script;
  sequence = 0;
  witness = [];
}

abbrev output : COut
output = record { amount = 5; script = 0x51 ∷ [] }

abbrev tx : CTransaction
tx = record { version = pos 2; vin = input ∷ input ∷ []; vout = output ∷ []; locktime = 0 }

abbrev meta : SpendInput
meta = record { amount = 9; script_pubkey = segwit_script }

abbrev signers : List (Bytes × Bytes)
signers = (replicate 32 1, 0x02 ∷ []) ∷ (replicate 32 2, 0x03 ∷ []) ∷ []

sign_segwit_lem_example : sign_segwit toy_hash toy tx signers (some (meta ∷ meta ∷ [])) ≡ (
    if length signers == length tx.vin
    then (signed_inputs toy_hash toy tx (some (meta ∷ meta ∷ [])) 0 tx.vin signers >>= λ vs.
        ok (record tx { vin = vs }))
    else err value_error)
sign_segwit_lem_example = sign_segwit_lem toy_hash toy tx signers (some (meta ∷ meta ∷ []))

abbrev small : CTransaction
small = record { version = pos 2; vin = input ∷ []; vout = output ∷ []; locktime = 0 }

abbrev small_bytes : Bytes
small_bytes =
    2
    ∷ 0
    ∷ 0
    ∷ 0
    ∷ 1
    ∷ (replicate 32 0xab
        ++ 1
          ∷ 0
          ∷ 0
          ∷ 0
          ∷ 22
          ∷ (segwit_script
              ++ 0 ∷ 0 ∷ 0 ∷ 0 ∷ 1 ∷ 5 ∷ 0 ∷ 0 ∷ 0 ∷ 0 ∷ 0 ∷ 0 ∷ 0 ∷ 1 ∷ 0x51 ∷ 0 ∷ 0 ∷ 0 ∷ 0 ∷ []))

small-has_witness : has_witness small ≡ false
unfolding has_witness any_witness
small-has_witness = refl

small-stripped : serialize_stripped small ≡ ok small_bytes
unfolding serialize_stripped serialize_c_in serialize_c_out var_bytes compact_size pack pack_signed
    signed_bytes le_bytes
small-stripped = refl

bip143-blanked_example :
    bip143_sighash_in_range toy_hash (blanked tx) 1 (0x76 ∷ []) 9
    ≡ bip143_sighash_in_range toy_hash tx 1 (0x76 ∷ []) 9
bip143-blanked_example = bip143-blanked toy_hash tx 1 (0x76 ∷ []) 9

keypath-blanked_example :
    taproot_keypath_sighash_in_range toy_hash (blanked tx) 1 (meta ∷ meta ∷ [])
    ≡ taproot_keypath_sighash_in_range toy_hash tx 1 (meta ∷ meta ∷ [])
keypath-blanked_example = keypath-blanked toy_hash tx 1 (meta ∷ meta ∷ [])

abbrev sources : List Source
sources =
    record {
      nonce = 0;
      unspent = record { out_n = 0; amount = 5 } ∷ record { out_n = 1; amount = 7 } ∷ [];
    }
    ∷ record { nonce = 1; unspent = record { out_n = 0; amount = 9 } ∷ [] }
    ∷ []

default_selection-IsShortest_example :
    (n : ℕ) × (default_selection sources (some 10) ≡ add_all [] (take n (flat sources)))
    × IsShortest (λ (u : (ℕ × ℕ) × ℕ). u.1) (some 10) 0 0 (flat sources) n
default_selection-IsShortest_example = default_selection-IsShortest sources (some 10)

abbrev values : List ℕ
values = 5 ∷ 7 ∷ 9 ∷ []

ms_select_utxos-IsShortest_example :
    (n : ℕ) × (ms_select_utxos (λ (v : ℕ). v) values (some 10) ≡ take n values)
    × ((values ≡ []) ⊎ (1 ≤ n))
    × IsShortest (λ (v : ℕ). v) (some 10) 1 0 values n
ms_select_utxos-IsShortest_example = ms_select_utxos-IsShortest (λ (v : ℕ). v) values (some 10)

-- A connection error, then a 429 with a header, then an answer.
abbrev calls : ℕ → Outcome
calls zero = fault
calls (suc zero) = response (record { status_code = 429; retry_after = some (pos 3) })
calls (suc (suc n)) = response (record { status_code = 200; retry_after = none })

request_with_retries-IsRun_example : Ends calls 3 0 (request_with_retries calls 3)
request_with_retries-IsRun_example = request_with_retries-IsRun calls 3

-- The first backend fails, the others answer.
abbrev sites : ℕ → ℕ ⊎ Bytes
sites zero = inl 500
sites (suc n) = inr (n ∷ [])

run-cases_example :
    ((i : ℕ) × (r : Bytes) × (run sites 3 (some 0) ≡ (inr r, some i)) × (sites i ≡ inr r) × (i < 3))
    ⊎ ((trail : List (ℕ × ℕ)) × (run sites 3 (some 0) ≡ (inl trail, some 0))
        × ((i : ℕ) → i < 3 → (e : ℕ) × (sites i ≡ inl e)))
run-cases_example = run-cases sites 3 (some 0) (omega arith)

abbrev by_size : BySize ℕ
by_size = (250, (3000, 0) ∷ (2500, 1) ∷ []) ∷ (200, (100, 2) ∷ []) ∷ []

pick_best-IsBestPick_example : IsBestPick 10000 1000 by_size
pick_best-IsBestPick_example = pick_best-IsBestPick 10000 1000 by_size
