-- ===== src/Config/Open.antt =====
-- Opening an envelope of crates/weaver-config/src/lib.rs: who may sign a revision, which revision a
-- reader accepts, and the snapshot it then holds.
pub mod Successor
pub mod Updates
use weaver.Prelude.Results.{Result, ok, ◌>>=◌, ◌>>◌, fail_if, ok_or, map_err}
use weaver.Crypto.Admin
use weaver.Prelude.{
  Bytes, ℕ, List, Option, codes, ◌++◌, ◌∷◌, [], none, not, some, bytes_eq, if◌then◌else◌, length,
  ◌||◌, ◌==◌,
}
use weaver.Config.Snapshot.Validate.{ValidatedNetworkConfig, validate}
use weaver.Config.{
  Hashing, KeyWrap, SnapshotError, ConfigError, EncryptedConfigEnvelope, no_recipient_wrap,
  wrong_signer, decryption_failed, envelope_payload_mismatch, payload_hash_mismatch,
}
use weaver.Crypto.{Primitives, NetworkRootPublic, lacks, verify_signature, permission_config_write}
use weaver.Config.Chain.{ConfigHead, ChainExpectation, validate_chain, envelope_hash}
use weaver.Wire.{to_be}
use weaver.Crypto.Admin.{VerifiedAdmin}
use weaver.Config.Snapshot.Admins.{verified_admin}
use weaver.Config.Snapshot.Decode

-- The ciphers of other packages: XChaCha20-Poly1305 by key, nonce, associated data and text, and
-- HPKE by secret key, encapsulated key, info, associated data and ciphertext.
pub record Ciphers : Type 0 where
  pub decrypt : Bytes → Bytes → Bytes → Bytes → Option Bytes
  pub hpke_open : Bytes → Bytes → Bytes → Bytes → Bytes → Option Bytes

pub record MemberEncryptionKeypair : Type 0 where
  pub secret : Bytes
  pub public : Bytes

pub record OpenedConfig : Type 0 where
  pub plaintext : Bytes
  pub head : ConfigHead

pub record OpenedNetworkConfig : Type 0 where
  pub config : ValidatedNetworkConfig
  pub head : ConfigHead

-- b"weaver.config-key-wrap.v1"
abbrev pub hpke_info : Bytes
hpke_info = codes "weaver.config-key-wrap.v1"

-- b"WVRCFGA\x01"
abbrev aad_magic : Bytes
aad_magic = b'W' ∷ b'V' ∷ b'R' ∷ b'C' ∷ b'F' ∷ b'G' ∷ b'A' ∷ 1 ∷ []

unfoldable pub envelope_aad : Bytes → ℕ → ℕ → Bytes → Bytes → Bytes
envelope_aad network_id epoch revision previous_hash payload_hash =
    aad_magic
    ++ (network_id ++ (to_be 8 epoch ++ (to_be 8 revision ++ (previous_hash ++ payload_hash))))

-- `?` on a `SnapshotError`
abbrev pub of_snapshot : {A : Type 0} → Result SnapshotError A → Result ConfigError A
of_snapshot = map_err ConfigError.snapshot

module _ ⦃k : Ciphers⦄ where
  unfoldable pub unwrap_content_key : MemberEncryptionKeypair → KeyWrap → Bytes → Option Bytes
  unwrap_content_key recipient wrap aad =
      elim (k.hpke_open recipient.secret wrap.encapsulated_key hpke_info aad wrap.ciphertext) [
        | none ↦ none
        | some key ↦ if length key == 32 then some key else none
      ]

  -- The loop over the wraps, which stops at the first that opens.
  unfoldable pub find_content_key : MemberEncryptionKeypair → Bytes → List KeyWrap → Option Bytes
  find_content_key recipient aad [] = none
  find_content_key recipient aad (wrap ∷ wraps) =
      let rest = find_content_key recipient aad wraps in
      elim (unwrap_content_key recipient wrap aad) [ none ↦ rest | some key ↦ some key ]

module _ ⦃k : Ciphers⦄ ⦃h : Hashing⦄ where
  unfoldable pub open_after_verified_signature :
      EncryptedConfigEnvelope
      → Bytes
      → MemberEncryptionKeypair
      → ChainExpectation
      → Result ConfigError OpenedConfig
  open_after_verified_signature self expected_network recipient chain = do
    fail_if (not (bytes_eq self.network_id expected_network)) ConfigError.wrong_network
    validate_chain self chain
    let aad =
        envelope_aad self.network_id self.epoch self.revision self.previous_hash self.payload_hash
    content_key ← ok_or (find_content_key recipient aad self.member_key_wraps) no_recipient_wrap
    plaintext ← ok_or (k.decrypt content_key self.nonce aad self.ciphertext) decryption_failed
    fail_if (not (bytes_eq (h.hash plaintext) self.payload_hash)) payload_hash_mismatch
    ok record {
      plaintext = plaintext;
      head = record { epoch = self.epoch; revision = self.revision; hash = envelope_hash self };
    }

module _ ⦃c : Primitives⦄ ⦃k : Ciphers⦄ ⦃h : Hashing⦄ where
  -- `EncryptedConfigEnvelope::open`
  unfoldable pub open_signed :
      EncryptedConfigEnvelope
      → NetworkRootPublic
      → Bytes
      → MemberEncryptionKeypair
      → ChainExpectation
      → Result ConfigError OpenedConfig
  open_signed self root expected_network recipient chain = do
    fail_if
        (not (bytes_eq self.network_id expected_network)
          || not (bytes_eq root.network_id expected_network))
        ConfigError.wrong_network
    fail_if (not (bytes_eq self.signer_key_id root.key_id)) wrong_signer
    map_err ConfigError.signature
        (verify_signature root.verifying_key self.signed_bytes self.signature)
    open_after_verified_signature self expected_network recipient chain

  unfoldable pub decode_and_validate_opened :
      EncryptedConfigEnvelope
      → NetworkRootPublic
      → OpenedConfig
      → ℕ
      → Result ConfigError OpenedNetworkConfig
  decode_and_validate_opened self root opened now_ms = do
    config ← of_snapshot (Decode.from_bytes opened.plaintext)
    fail_if
        (not (bytes_eq config.network_id self.network_id)
          || (not (config.epoch == self.epoch)
              || (not (config.revision == self.revision)
                  || not (bytes_eq config.previous_hash self.previous_hash))))
        envelope_payload_mismatch
    config ← of_snapshot (validate config root self.network_id now_ms)
    ok record { config = config; head = opened.head }

  unfoldable pub open_config :
      EncryptedConfigEnvelope
      → NetworkRootPublic
      → Bytes
      → MemberEncryptionKeypair
      → ChainExpectation
      → ℕ
      → Result ConfigError OpenedNetworkConfig
  open_config self root expected_network recipient chain now_ms = do
    opened ← open_signed self root expected_network recipient chain
    decode_and_validate_opened self root opened now_ms

  unfoldable pub open_config_with_verified_admin :
      EncryptedConfigEnvelope
      → NetworkRootPublic
      → VerifiedAdmin
      → MemberEncryptionKeypair
      → ChainExpectation
      → ℕ
      → Result ConfigError OpenedNetworkConfig
  open_config_with_verified_admin self root admin recipient chain now_ms = do
    fail_if
        (not (bytes_eq root.network_id self.network_id)
          || not (bytes_eq admin.payload.network_id self.network_id))
        ConfigError.wrong_network
    fail_if (not (bytes_eq self.signer_key_id admin.payload.key_id)) wrong_signer
    fail_if (lacks admin.payload.permissions permission_config_write) ConfigError.permission_denied
    map_err ConfigError.signature (Admin.verify_bytes admin self.signed_bytes self.signature)
    opened ← open_after_verified_signature self self.network_id recipient chain
    decode_and_validate_opened self root opened now_ms

  unfoldable pub open_next_config :
      EncryptedConfigEnvelope
      → NetworkRootPublic
      → ValidatedNetworkConfig
      → MemberEncryptionKeypair
      → ConfigHead
      → ℕ
      → Result ConfigError OpenedNetworkConfig
  open_next_config self root current_config recipient current_head now_ms = do
    fail_if
        (not (bytes_eq root.network_id self.network_id)
          || not (bytes_eq current_config.inner.network_id self.network_id))
        ConfigError.wrong_network
    admin ← of_snapshot (verified_admin current_config root self.signer_key_id now_ms)
    open_config_with_verified_admin self root admin recipient (ChainExpectation.next current_head)
        now_ms
