-- ===== src/Config.antt =====
-- crates/weaver-config/src/lib.rs: signed configuration envelopes, and the batches of consecutive
-- revisions that carry them. The ciphers and the hash are other packages; `Hashing` is blake3.
pub mod Chain
pub mod Snapshot
pub mod Open
pub mod Encode
use weaver.Prelude.{[], Bytes, ℕ, List, ◌*◌, ◌∷◌, ◌+◌, not, ◌==◌, ◌||◌, ltb}
use weaver.Wire.{
  Parser, ◌>>=◌, ◌>>◌, Malformed, return, magic, uint, lift, array, take_bytes, repeat, finish,
}
use weaver.Prelude.Results.{fail_if}
use weaver.Crypto.{CertificateError}

pub data SnapshotError : Type 0 where
  randomness_unavailable malformed_wire invalid_length invalid_validity_window : SnapshotError
  wrong_network not_yet_valid expired : SnapshotError
  duplicate_entry : Bytes → SnapshotError
  unknown_member unknown_application invalid_virtual_name unknown_admin : SnapshotError
  policy_limit_exceeded : SnapshotError
  credential : CertificateError → SnapshotError

pub data ConfigError : Type 0 where
  randomness_unavailable invalid_member_key invalid_recipient_count payload_too_large : ConfigError
  encryption_failed decryption_failed key_wrap_failed no_recipient_wrap : ConfigError
  malformed_wire : ConfigError
  unsupported_version : ℕ → ConfigError
  wrong_network wrong_signer permission_denied : ConfigError
  signature : CertificateError → ConfigError
  chain_mismatch payload_hash_mismatch envelope_payload_mismatch : ConfigError
  snapshot : SnapshotError → ConfigError
  recipient_set_mismatch update_batch_too_large : ConfigError

instance abbrev pub config_malformed : Malformed ConfigError
config_malformed = record { malformed = ConfigError.malformed_wire }

-- `blake3::hash`
pub record Hashing : Type 0 where
  pub hash : Bytes → Bytes

-- b"WVRCFG\0\x01"
abbrev pub envelope_magic : Bytes
envelope_magic = b'W' ∷ b'V' ∷ b'R' ∷ b'C' ∷ b'F' ∷ b'G' ∷ 0 ∷ 1 ∷ []

abbrev pub supported_format_version : ℕ
supported_format_version = 1

abbrev pub max_ciphertext : ℕ
max_ciphertext = 1024 * 1024 + 32

abbrev pub max_key_wraps : ℕ
max_key_wraps = 256

abbrev pub max_wrap_part : ℕ
max_wrap_part = 1024

abbrev pub max_update_envelopes : ℕ
max_update_envelopes = 1024

abbrev pub max_update_batch_bytes : ℕ
max_update_batch_bytes = 16 * 1024 * 1024

pub record KeyWrap : Type 0 where
  pub encapsulated_key : Bytes
  pub ciphertext : Bytes

pub record EncryptedConfigEnvelope : Type 0 where
  pub format_version : ℕ
  pub network_id : Bytes
  pub epoch : ℕ
  pub revision : ℕ
  pub previous_hash : Bytes
  pub payload_hash : Bytes
  pub nonce : Bytes
  pub ciphertext : Bytes
  pub member_key_wraps : List KeyWrap
  pub signer_key_id : Bytes
  pub signed_bytes : Bytes
  pub signature : Bytes

-- The length of a part of a wrap, and the part.
unfoldable pub wrap_part : Parser ConfigError Bytes
wrap_part = do
  len ← uint 2
  lift (fail_if ((len == 0) || ltb max_wrap_part len) ConfigError.malformed_wire)
  take_bytes len

unfoldable pub key_wrap : Parser ConfigError KeyWrap
unfolding wrap_part
key_wrap = do
  encapsulated_key ← wrap_part
  ciphertext ← wrap_part
  return record { encapsulated_key = encapsulated_key; ciphertext = ciphertext }

-- What `from_bytes` reads of the signed bytes.
unfoldable pub envelope_parser : Bytes → Bytes → Parser ConfigError EncryptedConfigEnvelope
unfolding key_wrap
envelope_parser signed_bytes signature_bytes = do
  magic envelope_magic
  format_version ← uint 2
  lift (
      fail_if (not (format_version == supported_format_version))
        (unsupported_version format_version))
  network_id ← array 32
  epoch ← uint 8
  revision ← uint 8
  previous_hash ← array 32
  payload_hash ← array 32
  nonce ← array 24
  ciphertext_len ← uint 4
  lift (fail_if (ltb max_ciphertext ciphertext_len) payload_too_large)
  ciphertext ← take_bytes ciphertext_len
  wrap_count ← uint 2
  lift (fail_if ((wrap_count == 0) || ltb max_key_wraps wrap_count) invalid_recipient_count)
  member_key_wraps ← repeat wrap_count key_wrap
  signer_key_id ← array 16
  finish
  return record {
    format_version = format_version;
    network_id = network_id;
    epoch = epoch;
    revision = revision;
    previous_hash = previous_hash;
    payload_hash = payload_hash;
    nonce = nonce;
    ciphertext = ciphertext;
    member_key_wraps = member_key_wraps;
    signer_key_id = signer_key_id;
    signed_bytes = signed_bytes;
    signature = signature_bytes;
  }
