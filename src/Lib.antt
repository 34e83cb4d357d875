-- ===== src/Lib.antt =====
-- kRep: a reputation layer on Kaspa. Two parties sign an attestation of a trade, each keeps a chain of
-- its own, the ids are committed in the payload of a transaction that spends the trade's anchor, and
-- accumulators over those payloads let an owner prove facts about a chain. An escrow covenant settles
-- trades on chain and stands in for the signature of a party that defaults.
--
-- The parts and the files that model them:
--
-- Core/Attestation* is krep-core/src/lib.rs: `AttestationBody::canonical_bytes` and `validate_fields`,
-- `Attestation::id` and `verify`, `create_partial` and `countersign`.
-- Core/Chain* is krep-core/src/chain.rs: `Chain::append`, `verify`, `verify_anchored` and `score`. The
-- interface AnchorVerifier is a record (Core/Chain), which the chain takes as an argument.
-- Core/Field* is krep-core/src/field.rs: limbs, the sponge and the hashes of leaves and nodes.
-- Core/Kaspad* is krep-core/src/kaspad.rs: the verifier over a node. `resolve_async` and `scan` are
-- Core/Kaspad/Scan, `find_spender` is Core/Kaspad/Spend, `is_anchored` and `check_covenant` are
-- Core/Kaspad/Anchored. The state that Rust keeps in the struct is passed and returned.
-- Zk/Smt*, Zk/Merkle* and Zk/Scan* are krep-zk/src/smt.rs, merkle.rs and scan.rs: the two trees, the
-- leaves and the defaults read from chain data.
-- Escrow/State* is krep-escrow/src/state.rs, Escrow/Terms* the terms of krep-escrow/src/lib.rs.
-- Escrow/Script* is krep-escrow/src/script.rs: the shared sequences in Script, one function for each
-- branch in Script/Branches, `covenant_script` and its dispatcher in Script/Dispatch. Checks, Outputs,
-- Accepts and Fields say what the sequences check, Rules what a spend has to be, and Moves, Payouts,
-- Covenant and Transitions compare the two. Escrow/Transactions* is krep-escrow/src/tx.rs.
-- Board/Nip44* is krep-board/src/nip44.rs, Board/Event* event.rs, Board/Offer* offer.rs
-- and Board/Job* job.rs. Cli/Anchor* is the pure half of krep-cli/src/anchor.rs.
-- Base holds the lists, results, bytes and slices that all parts share, Tests the concrete runs.
--
-- How the code is rendered. A `Result` is Base's `Result` with `?` as bind, and the values that error
-- messages interpolate are left out. A `u64` is a native number, with `saturating_add` written out; an
-- `i64` is its two's complement. A hash map is an association list and a set a list. A script is the
-- list of the calls of the script builder, so the builder's own errors (its size limits) are left out,
-- and copying the bytes of a branch into the dispatcher is appending its list. `1 << w` of
-- `calc_padded_len` is not cut to the width of `usize`, which the lengths of messages never reach; nor
-- is `1 << depth` of `build_fixed_depth`, which overflows in Rust from a depth of 64 on, more than any
-- tree that can be built. The JSON of an event id is the value that `json!` builds (Value).
--
-- Loops are structural recursion wherever the code walks a list. Fuel stands in these places:
-- `chunks` takes the length of the list as fuel, and one round takes at least one element;
-- `parse_pushes` takes the length of the script, and one push takes at least one byte; `bit_width`
-- takes the 64 bits of a `usize`; the loops of kaspad.rs take the block budget that the code counts
-- down itself, and the loop of `solve_fee` its four passes, with the answer the code gives there.
--
-- What is a parameter: the keys (XOnly), BLAKE3 and Schnorr signatures (Crypto, Signer), the field and
-- the Poseidon2 permutation (FieldOps), the f64 division (Float) and the f64 fee rate (Network), the
-- node's RPC interface, HKDF, HMAC, ChaCha20 and base64 (Ciphers), the texts with hex,
-- JSON values and SHA-256 (Texts), the JSON of the board's structs (OfferJson, Json), reading a
-- signature (SignatureBytes), signature hashes (Signing), and the script machine (Vm) with what each
-- opcode does. Their laws are the documented
-- behaviour of those libraries; the law of OfferJson covers, beside serde_json, the serde code of the
-- chain in an offer (the hex modules of krep-core/src/lib.rs), which is not modelled. The tests
-- instantiate every one of them; Tests/Machine is a machine that runs the
-- covenant.
--
-- Not modelled: the gift wraps of krep-board and its relay client; the
-- commands, the wallet files, the roots, the prover and the servers of krep-cli, which are mostly I/O;
-- the exporters and tests; serde's modules and what only renders or calls a library.
pub mod Base
pub mod Keys
pub mod Core
pub mod Escrow
pub mod Board
pub mod Cli
pub mod Zk
mod Tests
