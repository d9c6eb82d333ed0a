-- ===== src/Crypto/App.antt =====
-- `AppRegistrationRequest` and `AppRegistration` of crates/weaver-crypto/src/lib.rs: the owner's
-- request for an application address, and the registration that the root or an administrator signs.
pub mod Codec
pub mod RequestCodec
pub mod Verify
use weaver.Crypto.Admin.{verify_bytes, VerifiedAdmin}
use Codec.{
  AppRegistrationPayload, encode_app_registration_payload, decode_app_registration_payload,
  app_reg_payload_len,
}
use weaver.Prelude.{Bytes, ℕ, not, bytes_eq, length, ◌==◌, ◌||◌, ◌+◌, take, drop}
use weaver.Crypto.{
  Primitives, NetworkRootPublic, append_signature, CertificateError, derive_app_addr, root_public,
  wrong_network, admin_key_id, derived_identity_mismatch, lacks, wrong_issuer, key_mismatch,
  permission_register_app, signature_len, verify_signature, malformed_wire, permission_denied,
  verifying_key_of,
}
use weaver.Prelude.Results.{Result, ◌>>◌, fail_if, ◌>>=◌, ok}
use weaver.Crypto.Admin.Codec.{AdminCertificatePayload}
use RequestCodec.{
  AppRegistrationRequestPayload, encode_app_registration_request_payload,
  decode_app_registration_request_payload, app_reg_request_payload_len,
}

pub record AppRegistrationRequest : Type 0 where
  pub payload : AppRegistrationRequestPayload
  pub signed_payload : Bytes
  pub signature : Bytes

pub record VerifiedAppRegistrationRequest : Type 0 where
  pub payload : AppRegistrationRequestPayload

pub record AppRegistration : Type 0 where
  pub payload : AppRegistrationPayload
  pub signed_payload : Bytes
  pub signature : Bytes

pub record VerifiedApp : Type 0 where
  pub payload : AppRegistrationPayload

unfoldable pub request_from_bytes : Bytes → Result CertificateError AppRegistrationRequest
request_from_bytes bytes = do
  fail_if (not (length bytes == app_reg_request_payload_len + signature_len)) malformed_wire
  let signed_payload = take app_reg_request_payload_len bytes
  payload ← decode_app_registration_request_payload signed_payload
  ok record {
    payload = payload;
    signed_payload = signed_payload;
    signature = drop app_reg_request_payload_len bytes;
  }

unfoldable pub from_bytes : Bytes → Result CertificateError AppRegistration
from_bytes bytes = do
  fail_if (not (length bytes == app_reg_payload_len + signature_len)) malformed_wire
  let signed_payload = take app_reg_payload_len bytes
  payload ← decode_app_registration_payload signed_payload
  ok record {
    payload = payload;
    signed_payload = signed_payload;
    signature = drop app_reg_payload_len bytes;
  }

unfoldable pub request_to_bytes : AppRegistrationRequest → Bytes
request_to_bytes self = append_signature self.signed_payload self.signature

unfoldable pub to_bytes : AppRegistration → Bytes
to_bytes self = append_signature self.signed_payload self.signature

module _ ⦃c : Primitives⦄ where
  unfoldable pub create_request : Bytes → Bytes → ℕ → AppRegistrationRequest
  create_request app_root network_id policy =
      let payload : AppRegistrationRequestPayload = record {
        network_id = network_id;
        app_addr = derive_app_addr (c.public_key app_root);
        app_root_public_key = c.public_key app_root;
        policy = policy;
      } in
      record {
        payload = payload;
        signed_payload = encode_app_registration_request_payload payload;
        signature = c.sign app_root (encode_app_registration_request_payload payload);
      }

  unfoldable pub verify_request :
      AppRegistrationRequest → Bytes → Result CertificateError VerifiedAppRegistrationRequest
  verify_request self expected_network = do
    fail_if (not (bytes_eq self.payload.network_id expected_network)) wrong_network
    fail_if
        (not (bytes_eq (derive_app_addr self.payload.app_root_public_key) self.payload.app_addr))
        derived_identity_mismatch
    key ← verifying_key_of self.payload.app_root_public_key
    verify_signature key self.signed_payload self.signature
    ok record { payload = self.payload }

  unfoldable pub sign_payload : Bytes → AppRegistrationPayload → AppRegistration
  sign_payload secret payload = record {
    payload = payload;
    signed_payload = encode_app_registration_payload payload;
    signature = c.sign secret (encode_app_registration_payload payload);
  }

  unfoldable pub issue : Bytes → Bytes → ℕ → AppRegistration
  issue root app_root policy = sign_payload root record {
    network_id = (root_public root).network_id;
    app_addr = derive_app_addr (c.public_key app_root);
    app_root_public_key = c.public_key app_root;
    policy = policy;
    issuer_key_id = (root_public root).key_id;
  }

  unfoldable pub issue_by_admin :
      Bytes
      → AdminCertificatePayload
      → VerifiedAppRegistrationRequest
      → Result CertificateError AppRegistration
  issue_by_admin admin admin_certificate request = do
    fail_if
        (not (bytes_eq (c.public_key admin) admin_certificate.public_key)
          || not (bytes_eq (admin_key_id (c.public_key admin)) admin_certificate.key_id))
        key_mismatch
    fail_if (lacks admin_certificate.permissions permission_register_app) permission_denied
    fail_if (not (bytes_eq request.payload.network_id admin_certificate.network_id)) wrong_network
    ok (
        sign_payload admin record {
          network_id = request.payload.network_id;
          app_addr = request.payload.app_addr;
          app_root_public_key = request.payload.app_root_public_key;
          policy = request.payload.policy;
          issuer_key_id = admin_certificate.key_id;
        })

  unfoldable pub verify :
      AppRegistration → NetworkRootPublic → Bytes → Result CertificateError VerifiedApp
  verify self root expected_network = do
    fail_if
        (not (bytes_eq root.network_id expected_network)
          || not (bytes_eq self.payload.network_id expected_network))
        wrong_network
    fail_if (not (bytes_eq self.payload.issuer_key_id root.key_id)) wrong_issuer
    fail_if
        (not (bytes_eq (derive_app_addr self.payload.app_root_public_key) self.payload.app_addr))
        derived_identity_mismatch
    verify_signature root.verifying_key self.signed_payload self.signature
    ok record { payload = self.payload }

  unfoldable pub verify_with_admin :
      AppRegistration → VerifiedAdmin → Bytes → Result CertificateError VerifiedApp
  verify_with_admin self admin expected_network = do
    fail_if
        (not (bytes_eq admin.payload.network_id expected_network)
          || not (bytes_eq self.payload.network_id expected_network))
        wrong_network
    fail_if (lacks admin.payload.permissions permission_register_app) permission_denied
    fail_if (not (bytes_eq self.payload.issuer_key_id admin.payload.key_id)) wrong_issuer
    fail_if
        (not (bytes_eq (derive_app_addr self.payload.app_root_public_key) self.payload.app_addr))
        derived_identity_mismatch
    verify_bytes admin self.signed_payload self.signature
    ok record { payload = self.payload }
