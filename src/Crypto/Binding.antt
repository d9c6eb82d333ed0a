-- ===== src/Crypto/Binding.antt =====
-- `AppBinding` of crates/weaver-crypto/src/lib.rs: an application owner lets a member serve the
-- application, or use it from one device.
pub mod Codec
pub mod Verify
use weaver.Prelude.{
  Bytes, ◌≡◌, Option, length, ℕ, List, ltb, not, bytes_eq, ◌+◌, ◌||◌, ◌-◌, leb, take, drop,
}
use weaver.Crypto.{
  Primitives, append_signature, CertificateError, derive_app_addr, too_many_services, signature_len,
  malformed_wire, wrong_network, binding_mismatch, expired, verifying_key_of, verify_signature,
}
use weaver.Prelude.Results.{Result, ◌>>◌, fail_if, ok, ◌>>=◌}
use weaver.Crypto.App.{VerifiedApp}
use weaver.Crypto.Member.{VerifiedMember}
use Codec.{
  AppRole, AppBindingPayload, encode_app_binding_payload, decode_app_binding_payload,
  app_bind_fixed_len, max_services_per_binding, validate_app_role, Fits,
}

pub record AppBinding : Type 0 where
  pub payload : AppBindingPayload
  pub signed_payload : Bytes
  pub signature : Bytes

unfoldable pub from_bytes : Bytes → Result CertificateError AppBinding
from_bytes bytes = do
  fail_if (ltb (length bytes) (app_bind_fixed_len + signature_len)) malformed_wire
  let payload_len = length bytes - signature_len
  let signed_payload = take payload_len bytes
  payload ← decode_app_binding_payload signed_payload
  ok record {
    payload = payload;
    signed_payload = signed_payload;
    signature = drop payload_len bytes;
  }

unfoldable pub to_bytes : AppBinding → Bytes
to_bytes self = append_signature self.signed_payload self.signature

module _ ⦃c : Primitives⦄ where
  unfoldable pub sign_payload : Bytes → AppBindingPayload → AppBinding
  sign_payload secret payload = record {
    payload = payload;
    signed_payload = encode_app_binding_payload payload;
    signature = c.sign secret (encode_app_binding_payload payload);
  }

  -- The payload that `issue` signs.
  unfoldable pub issued_payload :
      Bytes → Bytes → Bytes → AppRole → Option Bytes → ℕ → List Bytes → AppBindingPayload
  issued_payload app_root network_id subject role device_id expires_at_ms services = record {
    network_id = network_id;
    app_addr = derive_app_addr (c.public_key app_root);
    subject = subject;
    role = role;
    device_id = device_id;
    expires_at_ms = expires_at_ms;
    services = services;
  }

  unfoldable pub issue :
      Bytes
      → Bytes
      → Bytes
      → AppRole
      → Option Bytes
      → ℕ
      → List Bytes
      → Result CertificateError AppBinding
  issue app_root network_id subject role device_id expires_at_ms services = do
    validate_app_role role device_id
    fail_if (ltb max_services_per_binding (length services)) too_many_services
    ok (
        sign_payload app_root
          (issued_payload app_root network_id subject role device_id expires_at_ms services))

  unfoldable pub verify :
      AppBinding → VerifiedApp → VerifiedMember → Bytes → ℕ → Result CertificateError (Unit {0})
  verify self app member expected_network now_ms = do
    fail_if
        (not (bytes_eq self.payload.network_id expected_network)
          || (not (bytes_eq app.payload.network_id expected_network)
              || not (bytes_eq member.payload.network_id expected_network)))
        wrong_network
    fail_if
        (not (bytes_eq self.payload.app_addr app.payload.app_addr)
          || not (bytes_eq self.payload.subject member.payload.member_id))
        binding_mismatch
    validate_app_role self.payload.role self.payload.device_id
    fail_if (leb self.payload.expires_at_ms now_ms) expired
    key ← verifying_key_of app.payload.app_root_public_key
    verify_signature key self.signed_payload self.signature

-- A binding whose signed bytes are its payload's encoding.
pub record IsWellFormed (self : AppBinding) : Type 0 where
  pub fits : Fits self.payload
  pub signed : self.signed_payload ≡ encode_app_binding_payload self.payload
  pub signature_length : length self.signature ≡ 64
