-- ===== src/Crypto/Member.antt =====
-- `MemberCertificate` of crates/weaver-crypto/src/lib.rs: a member's keys and roles, vouched for
-- by the network root or by an online administrator.
pub mod Codec
pub mod Verify
pub mod Chain
use weaver.Prelude.{
  Bytes, ◌≡◌, codes, length, ℕ, List, ◌++◌, ◌∷◌, [], leb, not, bytes_eq, ◌==◌, ◌+◌, ◌||◌, take,
  drop, ltb,
}
use weaver.Crypto.{
  Primitives, NetworkRootPublic, append_signature, CertificateError, derive_member_id,
  verifying_key_of, verify_signature, invalid_validity_window, admin_key_id, root_public,
  signature_len, wrong_network, key_mismatch, lacks, malformed_wire, wrong_issuer,
  derived_identity_mismatch, permission_issue_member, permission_denied, validate_time, contains,
  revoked,
}
use weaver.Prelude.Results.{Result, ◌>>=◌, ◌>>◌, fail_if, ok}
use weaver.Crypto.Admin.Codec.{AdminCertificatePayload}
use weaver.Crypto.Admin.{VerifiedAdmin, verify_bytes}
use Codec.{
  MemberCertificatePayload, encode_member_payload, decode_member_payload, member_payload_len, Fits,
}

pub record MemberCertificate : Type 0 where
  pub payload : MemberCertificatePayload
  pub signed_payload : Bytes
  pub signature : Bytes

pub record VerifiedMember : Type 0 where
  pub payload : MemberCertificatePayload

unfoldable pub from_bytes : Bytes → Result CertificateError MemberCertificate
from_bytes bytes = do
  fail_if (not (length bytes == member_payload_len + signature_len)) malformed_wire
  let signed_payload = take member_payload_len bytes
  payload ← decode_member_payload signed_payload
  ok record {
    payload = payload;
    signed_payload = signed_payload;
    signature = drop member_payload_len bytes;
  }

unfoldable pub to_bytes : MemberCertificate → Bytes
to_bytes self = append_signature self.signed_payload self.signature

-- b"weaver.member-presence-signature.v1\0"
pub presence_signature_transcript : Bytes → Bytes
presence_signature_transcript payload =
    (codes "weaver.member-presence-signature.v1" ++ 0 ∷ []) ++ payload

module _ ⦃c : Primitives⦄ where
  -- The payload that the two `issue` functions sign, of an issuer's network and key.
  unfoldable pub issued_payload :
      Bytes → Bytes → Bytes → Bytes → ℕ → ℕ → ℕ → ℕ → MemberCertificatePayload
  issued_payload network_id issuer_key_id member_signing_public encryption_public_key roles serial
        not_before_ms expires_at_ms =
      record {
        network_id = network_id;
        member_id = derive_member_id network_id member_signing_public;
        signing_public_key = member_signing_public;
        encryption_public_key = encryption_public_key;
        roles = roles;
        serial = serial;
        not_before_ms = not_before_ms;
        expires_at_ms = expires_at_ms;
        issuer_key_id = issuer_key_id;
      }

  unfoldable pub sign_payload : Bytes → MemberCertificatePayload → MemberCertificate
  sign_payload secret payload = record {
    payload = payload;
    signed_payload = encode_member_payload payload;
    signature = c.sign secret (encode_member_payload payload);
  }

  unfoldable pub issue :
      Bytes → Bytes → Bytes → ℕ → ℕ → ℕ → ℕ → Result CertificateError MemberCertificate
  issue root member_signing_public encryption_public_key roles serial not_before_ms expires_at_ms =
      do
        fail_if (leb expires_at_ms not_before_ms) invalid_validity_window
        ok (
            sign_payload root (
              issued_payload (root_public root).network_id (root_public root).key_id
                member_signing_public encryption_public_key roles serial not_before_ms
                expires_at_ms))

  unfoldable pub issue_by_admin :
      Bytes
      → AdminCertificatePayload
      → Bytes
      → Bytes
      → ℕ
      → ℕ
      → ℕ
      → ℕ
      → Result CertificateError MemberCertificate
  issue_by_admin admin admin_certificate member_signing_public encryption_public_key roles serial
        not_before_ms expires_at_ms =
      do
        fail_if
            (not (bytes_eq (c.public_key admin) admin_certificate.public_key)
              || not (bytes_eq (admin_key_id (c.public_key admin)) admin_certificate.key_id))
            key_mismatch
        fail_if (lacks admin_certificate.permissions permission_issue_member) permission_denied
        fail_if
            (leb expires_at_ms not_before_ms
              || (ltb not_before_ms admin_certificate.not_before_ms
                  || ltb admin_certificate.expires_at_ms expires_at_ms))
            invalid_validity_window
        ok (
            sign_payload admin (
              issued_payload admin_certificate.network_id admin_certificate.key_id
                member_signing_public encryption_public_key roles serial not_before_ms
                expires_at_ms))

  unfoldable pub verify :
      MemberCertificate
      → NetworkRootPublic
      → Bytes
      → ℕ
      → List ℕ
      → Result CertificateError VerifiedMember
  verify self root expected_network now_ms revoked_serials = do
    fail_if
        (not (bytes_eq root.network_id expected_network)
          || not (bytes_eq self.payload.network_id expected_network))
        wrong_network
    fail_if (not (bytes_eq self.payload.issuer_key_id root.key_id)) wrong_issuer
    fail_if
        (not (
          bytes_eq (derive_member_id expected_network self.payload.signing_public_key)
            self.payload.member_id))
        derived_identity_mismatch
    validate_time self.payload.not_before_ms self.payload.expires_at_ms now_ms
    fail_if (contains revoked_serials self.payload.serial) revoked
    verify_signature root.verifying_key self.signed_payload self.signature
    ok record { payload = self.payload }

  unfoldable pub verify_with_admin :
      MemberCertificate
      → VerifiedAdmin
      → Bytes
      → ℕ
      → List ℕ
      → Result CertificateError VerifiedMember
  verify_with_admin self admin expected_network now_ms revoked_serials = do
    fail_if
        (not (bytes_eq admin.payload.network_id expected_network)
          || not (bytes_eq self.payload.network_id expected_network))
        wrong_network
    fail_if (lacks admin.payload.permissions permission_issue_member) permission_denied
    fail_if (not (bytes_eq self.payload.issuer_key_id admin.payload.key_id)) wrong_issuer
    fail_if
        (ltb self.payload.not_before_ms admin.payload.not_before_ms
          || ltb admin.payload.expires_at_ms self.payload.expires_at_ms)
        invalid_validity_window
    fail_if
        (not (
          bytes_eq (derive_member_id expected_network self.payload.signing_public_key)
            self.payload.member_id))
        derived_identity_mismatch
    validate_time self.payload.not_before_ms self.payload.expires_at_ms now_ms
    fail_if (contains revoked_serials self.payload.serial) revoked
    verify_bytes admin self.signed_payload self.signature
    ok record { payload = self.payload }

  -- `SigningKeypair::sign_presence`
  pub sign_presence : Bytes → Bytes → Bytes
  sign_presence secret exact_payload = c.sign secret (presence_signature_transcript exact_payload)

  unfoldable pub verify_presence :
      MemberCertificate → Bytes → Bytes → Result CertificateError (Unit {0})
  verify_presence self exact_payload signature = do
    key ← verifying_key_of self.payload.signing_public_key
    verify_signature key (presence_signature_transcript exact_payload) signature

-- A certificate whose signed bytes are its payload's encoding.
pub record IsWellFormed (self : MemberCertificate) : Type 0 where
  pub fits : Fits self.payload
  pub signed : self.signed_payload ≡ encode_member_payload self.payload
  pub signature_length : length self.signature ≡ 64
