-- ===== src/Lib.antt =====
-- yubtc, a Bitcoin wallet: the parts that encode, parse, sign, choose and retry, and the roles that
-- take a PSBT from its creation to the transaction that goes to the network.
--
-- Prelude: numbers, lists, byte strings, errors as values, and the insertion sort by byte order.
--   `Result` is the value of code that may raise; Prelude/Exceptions.antt lists the exceptions. A byte
--   string is a list of numbers; where a statement needs them below 256, it says so. `struct.pack` is
--   `pack`, which fails out of range.
-- Hash: `tagged_hash` and `hash160` (yubtc/hash.py), `dsha256` (yubtc/transaction.py). SHA-256 and
--   RIPEMD-160 are parameters everywhere.
-- Transaction (yubtc/transaction.py):
--   CompactSize: `compact_size`, `toVarInt`, and `varint` and `varstr` of yubtc/misc.py;
--   Model: `CIn`, `COut`, `CTransaction`, their constructors with the guards, serialization, `weight`,
--   `vsize`, `id` and `wtxid`;
--   Sighash: the BIP-143 and BIP-341 digests;
--   Signing: `sign` and `sign_segwit`, with `sign_hash` and `sign_data` of yubtc/crypto.py. The
--   transaction that the loops update is explicit state; coincurve is the record `Coincurve`. The
--   inputs of a transaction are taken to be distinct objects, as the wallet builds them;
--   Taproot: `taproot_output_key` and its relatives (yubtc/crypto.py); the points of coincurve are the
--   record `Curve`.
-- Script (yubtc/script.py): opcodes, `CScript`, the lock scripts with their extractors, pushes;
--   Multisig: `make_multisig_redeem_script`, `extract_multisig_quorum` and the two spending forms;
--   Tapscript: `make_multisig_tapscript`, `extract_multisig_tapscript_quorum` and its witness.
-- Psbt (yubtc/psbt.py):
--   Reader: `_Reader`, whose position is state that every read returns;
--   KeyValue: `_split_key`, `_read_map`, `_write_map`;
--   Tx: the transactions inside a PSBT, `_parse_tx`, witness stacks;
--   Model: the fields of a PSBT; Parse and Serialize below it: `parse_psbt` with the interpretation of
--   every map, `serialize_psbt`;
--   Merge: the Combiner, `combine_psbt` with its merges;
--   Utxo: what the roles read of an input: the output it spends, the form of its lock script, the
--   pinned sighash types, and the checks of a committed quorum or leaf that the branches share;
--   Creator: `create_psbt` with its checks of every input;
--   Signer: `sign_psbt_input` with its branches; Walk: `sign_psbt`, which tries the keys of a seed;
--   Finalizer: `finalize_psbt_input` with its branches, `finalize_psbt`;
--   Extractor: `extract_transaction`;
--   Summary: `psbt_summary`;
--   Base64: `encode_base64` and `decode_base64`;
--   Lifecycle: the Signer, the Combiner and the Finalizer as steps of one relation between PSBTs.
-- Bech32: the regrouping of bytes into values of five bits and back (yubtc/bech32.py).
-- Select: `default_selection` (yubtc/select.py) and `ms_select_utxos` (yubtc/wallet.py).
-- Wallet: `_pick_best_fee_loop_candidate` (yubtc/wallet.py) and `is_dust` (yubtc/misc.py).
-- Net (yubtc/net.py): `_request_with_retries` over the outcomes of the calls, and `AutoBackend` over
--   what its backends do. Times are counted in half seconds; the overflow of the backoff is an error.
-- Examples: runs at concrete inputs.
--
-- How the parts interact: a PSBT holds transactions, which the reader and the key-value maps carry;
-- signing takes its scheme from the lock script of an input and its digest from Sighash; every encoder
-- writes its counts by the functions of CompactSize. The roles hand a PSBT on: where the code mutates
-- the object it was given, the model returns it, with the input at the index replaced. An exception
-- drops that state: a branch writes to its input behind its last check, and what the earlier rounds of
-- a loop wrote before an exception left it is not modelled. The digests read either class of
-- transaction through `as_c_transaction`.
--
-- Bounds and fuel. `_read_map` loops on fuel, one more than the bytes that remain: every entry takes at
-- least one. `toVarInt` loops on fuel `value + 1`: each round divides by 128. `_request_with_retries`
-- loops on fuel `retries + 1`; its backoff is a float in the source, which overflows at attempt 1024. The
-- walk over the nonces counts down from `PSBT_SIGN_MAX_NONCE`, so it needs no fuel. The inner loops of
-- the regrouping take at most two rounds and one round, which is their fuel. Counts and lengths are below
-- 2 ^ 64 where a statement says so.
--
-- Not modelled: addresses and the derivation of keys (base58check, the strings and checksums of bech32,
-- bip32, most of crypto), so the keys of a seed are a parameter of the walk; seeds; the wallet's
-- orchestration; HTTP and JSON; the terminal and the command line. The hashes and the curve are
-- third-party code. A negative locktime of `CTransaction` is left out.
pub mod Bech32
pub mod Examples
pub mod Hash
pub mod Net
pub mod Prelude
pub mod Psbt
pub mod Script
pub mod Select
pub mod Transaction
pub mod Wallet
