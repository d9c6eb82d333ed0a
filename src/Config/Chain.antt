-- ===== src/Config/Chain.antt =====
-- Reading envelopes, and the chain that their hashes and revisions make, of
-- crates/weaver-config/src/lib.rs.
use weaver.Prelude.{
  [], Bytes, Option, ℕ, Bool, List, if◌then◌else◌, ltb, ◌++◌, false, length, ◌+◌, ◌==◌, ◌∷◌, some,
  ◌&&◌, ◌-◌, ◌^◌, bytes_eq, none, not, leb, take, ◌||◌, drop,
}
use weaver.Prelude.Results.{Result, ok, err, ◌>>=◌, ◌>>◌, fail_if, ok_or}
use weaver.Config.{
  ConfigError, malformed_wire, chain_mismatch, update_batch_too_large, EncryptedConfigEnvelope,
  Hashing, max_update_envelopes, max_update_batch_bytes, envelope_parser,
}
pub mod Laws
pub mod Expectation
pub mod Batch
pub mod BatchCodec
use weaver.Crypto.{zeroes_32}
use weaver.Wire.{usize_max, decode}

-- `EncryptedConfigEnvelope::from_bytes`
unfoldable pub from_bytes : Bytes → Result ConfigError EncryptedConfigEnvelope
from_bytes bytes = do
  fail_if (ltb (length bytes) 64) malformed_wire
  let signed_len = length bytes - 64
  decode (envelope_parser (take signed_len bytes) (drop signed_len bytes)) (take signed_len bytes)

-- `EncryptedConfigEnvelope::to_bytes`
unfoldable pub to_bytes : EncryptedConfigEnvelope → Bytes
to_bytes self = self.signed_bytes ++ self.signature

pub record ConfigHead : Type 0 where
  pub epoch : ℕ
  pub revision : ℕ
  pub hash : Bytes

pub data ChainExpectation : Type 0 where
  genesis : ChainExpectation
  next checkpoint : ConfigHead → ChainExpectation

pub record ConfigUpdateBatch : Type 0 where
  pub network_id : Bytes
  pub base_head : ConfigHead
  pub envelopes : List Bytes

-- `checked_add(1)` on `u64`
abbrev pub checked_add_one : ℕ → Option ℕ
checked_add_one n = if ltb (n + 1) (2 ^ 64) then some (n + 1) else none

abbrev pub is_next : Option ℕ → ℕ → Bool
is_next none revision = false
is_next (some n) revision = n == revision

module _ ⦃h : Hashing⦄ where
  unfoldable pub envelope_hash : EncryptedConfigEnvelope → Bytes
  unfolding to_bytes
  envelope_hash self = h.hash (to_bytes self)

  -- The match guard of each expectation.
  abbrev pub meets : EncryptedConfigEnvelope → ChainExpectation → Bool
  meets envelope ChainExpectation.genesis =
      (envelope.revision == 0) && bytes_eq envelope.previous_hash zeroes_32
  meets envelope (ChainExpectation.next head) =
      is_next (checked_add_one head.revision) envelope.revision
      && (bytes_eq envelope.previous_hash head.hash && leb head.epoch envelope.epoch)
  meets envelope (ChainExpectation.checkpoint head) =
      (envelope.epoch == head.epoch)
      && ((envelope.revision == head.revision) && bytes_eq (envelope_hash envelope) head.hash)

  unfoldable pub validate_chain :
      EncryptedConfigEnvelope → ChainExpectation → Result ConfigError (Unit {0})
  validate_chain envelope expectation =
      if meets envelope expectation then ok tt else err chain_mismatch

  -- The loop of `ConfigUpdateBatch::new`.
  unfoldable pub check_envelopes :
      Bytes → ℕ → Bytes → ℕ → List Bytes → Result ConfigError (Unit {0})
  unfolding from_bytes envelope_hash
  check_envelopes network_id expected_revision expected_previous total [] = ok tt
  check_envelopes network_id expected_revision expected_previous total (raw ∷ envelopes) = do
    fail_if (ltb usize_max (total + length raw)) update_batch_too_large
    fail_if (ltb max_update_batch_bytes (total + length raw)) update_batch_too_large
    envelope ← from_bytes raw
    fail_if
        (not (bytes_eq envelope.network_id network_id)
          || (not (envelope.revision == expected_revision)
              || not (bytes_eq envelope.previous_hash expected_previous)))
        chain_mismatch
    next_revision ← ok_or (checked_add_one expected_revision) chain_mismatch
    check_envelopes network_id next_revision (envelope_hash envelope) (total + length raw) envelopes

  -- `ConfigUpdateBatch::new`
  unfoldable pub new_update_batch :
      Bytes → ConfigHead → List Bytes → Result ConfigError ConfigUpdateBatch
  new_update_batch network_id base_head envelopes = do
    fail_if (ltb max_update_envelopes (length envelopes)) update_batch_too_large
    expected_revision ← ok_or (checked_add_one base_head.revision) chain_mismatch
    check_envelopes network_id expected_revision base_head.hash 0 envelopes
    ok record { network_id = network_id; base_head = base_head; envelopes = envelopes }
