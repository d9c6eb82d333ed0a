-- ===== src/Crypto/Admin.antt =====
-- `AdminCertificate` of crates/weaver-crypto/src/lib.rs: the root-signed certificate of an online
-- administrator's key.
pub mod Codec
pub mod Verify
pub mod Chain
use weaver.Prelude.{
  ℕ, ◌+◌, ◌≡◌, Bool, ◌||◌, not, leb, ◌==◌, Bytes, bytes_eq, length, take, drop, List,
}
use weaver.Prelude.Results.{Result, ok, ◌>>=◌, ◌>>◌, fail_if}
use weaver.Crypto.{
  CertificateError, malformed_wire, wrong_network, wrong_issuer, revoked, derived_identity_mismatch,
  invalid_validity_window, Primitives, NetworkRootPublic, root_public, admin_key_id,
  verifying_key_of, validate_time, contains, verify_signature, append_signature, signature_len,
}
use Codec.{
  AdminCertificatePayload, encode_admin_payload, decode_admin_payload, admin_payload_len, Fits,
}

pub record AdminCertificate : Type 0 where
  pub payload : AdminCertificatePayload
  pub signed_payload : Bytes
  pub signature : Bytes

pub record VerifiedAdmin : Type 0 where
  pub payload : AdminCertificatePayload
  pub verifying_key : Bytes

unfoldable pub from_bytes : Bytes → Result CertificateError AdminCertificate
from_bytes bytes = do
  fail_if (not (length bytes == admin_payload_len + signature_len)) malformed_wire
  let signed_payload = take admin_payload_len bytes
  payload ← decode_admin_payload signed_payload
  ok record {
    payload = payload;
    signed_payload = signed_payload;
    signature = drop admin_payload_len bytes;
  }

unfoldable pub to_bytes : AdminCertificate → Bytes
to_bytes self = append_signature self.signed_payload self.signature

module _ ⦃c : Primitives⦄ where
  -- The payload that `issue` signs.
  unfoldable pub issued_payload : Bytes → Bytes → ℕ → ℕ → ℕ → ℕ → AdminCertificatePayload
  issued_payload root admin_public_key permissions serial not_before_ms expires_at_ms = record {
    network_id = (root_public root).network_id;
    key_id = admin_key_id admin_public_key;
    public_key = admin_public_key;
    permissions = permissions;
    serial = serial;
    not_before_ms = not_before_ms;
    expires_at_ms = expires_at_ms;
    issuer_key_id = (root_public root).key_id;
  }

  unfoldable pub sign_payload : Bytes → AdminCertificatePayload → AdminCertificate
  sign_payload root payload = record {
    payload = payload;
    signed_payload = encode_admin_payload payload;
    signature = c.sign root (encode_admin_payload payload);
  }

  unfoldable pub issue : Bytes → Bytes → ℕ → ℕ → ℕ → ℕ → Result CertificateError AdminCertificate
  unfolding issued_payload
  issue root admin_public_key permissions serial not_before_ms expires_at_ms = do
    fail_if (leb expires_at_ms not_before_ms) invalid_validity_window
    key ← verifying_key_of admin_public_key
    ok (
        sign_payload root
          (issued_payload root admin_public_key permissions serial not_before_ms expires_at_ms))

  unfoldable pub verify :
      AdminCertificate
      → NetworkRootPublic
      → Bytes
      → ℕ
      → List ℕ
      → Result CertificateError VerifiedAdmin
  verify self root expected_network now_ms revoked_serials = do
    fail_if
        (not (bytes_eq root.network_id expected_network)
          || not (bytes_eq self.payload.network_id expected_network))
        wrong_network
    fail_if (not (bytes_eq self.payload.issuer_key_id root.key_id)) wrong_issuer
    fail_if (not (bytes_eq (admin_key_id self.payload.public_key) self.payload.key_id))
        derived_identity_mismatch
    validate_time self.payload.not_before_ms self.payload.expires_at_ms now_ms
    fail_if (contains revoked_serials self.payload.serial) revoked
    verify_signature root.verifying_key self.signed_payload self.signature
    verifying_key ← verifying_key_of self.payload.public_key
    ok record { payload = self.payload; verifying_key = verifying_key }

  -- `VerifiedAdmin::verify_bytes`
  unfoldable pub verify_bytes : VerifiedAdmin → Bytes → Bytes → Result CertificateError (Unit {0})
  verify_bytes self payload signature = verify_signature self.verifying_key payload signature

-- A certificate whose signed bytes are its payload's encoding.
pub record IsWellFormed (self : AdminCertificate) : Type 0 where
  pub fits : Fits self.payload
  pub signed : self.signed_payload ≡ encode_admin_payload self.payload
  pub signature_length : length self.signature ≡ 64
