-- ===== src/Crypto/Endpoint.antt =====
-- `EndpointBinding` of crates/weaver-crypto/src/lib.rs: a member's signed claim of a transport endpoint.
pub mod Codec
pub mod Verify
use weaver.Prelude.{Bytes, ◌≡◌, length, ℕ, bytes_eq, not, ◌==◌, ◌||◌, ◌+◌, leb, take, drop}
use weaver.Crypto.{
  Primitives, append_signature, CertificateError, key_mismatch, zeroes_32, malformed_key,
  wrong_network, binding_mismatch, derive_member_id, signature_len, malformed_wire, expired,
  verifying_key_of, verify_signature,
}
use weaver.Prelude.Results.{Result, ◌>>◌, fail_if, ok, ◌>>=◌}
use weaver.Crypto.Member.Codec.{MemberCertificatePayload}
use weaver.Crypto.Member.{VerifiedMember}
use weaver.Crypto.Join.{VerifiedJoinRequest}
use Codec.{
  EndpointBindingPayload, encode_endpoint_payload, decode_endpoint_payload, endpoint_payload_len,
  Fits,
}

pub record EndpointBinding : Type 0 where
  pub payload : EndpointBindingPayload
  pub signed_payload : Bytes
  pub signature : Bytes

unfoldable pub from_bytes : Bytes → Result CertificateError EndpointBinding
from_bytes bytes = do
  fail_if (not (length bytes == endpoint_payload_len + signature_len)) malformed_wire
  let signed_payload = take endpoint_payload_len bytes
  payload ← decode_endpoint_payload signed_payload
  ok record {
    payload = payload;
    signed_payload = signed_payload;
    signature = drop endpoint_payload_len bytes;
  }

unfoldable pub to_bytes : EndpointBinding → Bytes
to_bytes self = append_signature self.signed_payload self.signature

module _ ⦃c : Primitives⦄ where
  unfoldable pub sign_payload : Bytes → EndpointBindingPayload → EndpointBinding
  sign_payload secret payload = record {
    payload = payload;
    signed_payload = encode_endpoint_payload payload;
    signature = c.sign secret (encode_endpoint_payload payload);
  }

  unfoldable pub issue :
      Bytes → MemberCertificatePayload → Bytes → ℕ → ℕ → Result CertificateError EndpointBinding
  issue member_key member endpoint_id sequence expires_at_ms = do
    fail_if (not (bytes_eq (c.public_key member_key) member.signing_public_key)) key_mismatch
    ok (
        sign_payload member_key record {
          network_id = member.network_id;
          member_id = member.member_id;
          endpoint_id = endpoint_id;
          sequence = sequence;
          expires_at_ms = expires_at_ms;
        })

  -- The payload that `issue_for_join` signs.
  unfoldable pub join_payload : Bytes → Bytes → Bytes → ℕ → ℕ → EndpointBindingPayload
  join_payload member_key network_id endpoint_id sequence expires_at_ms = record {
    network_id = network_id;
    member_id = derive_member_id network_id (c.public_key member_key);
    endpoint_id = endpoint_id;
    sequence = sequence;
    expires_at_ms = expires_at_ms;
  }

  unfoldable pub issue_for_join :
      Bytes → Bytes → Bytes → ℕ → ℕ → Result CertificateError EndpointBinding
  issue_for_join member_key network_id endpoint_id sequence expires_at_ms = do
    fail_if (bytes_eq endpoint_id zeroes_32) malformed_key
    ok (
        sign_payload member_key
          (join_payload member_key network_id endpoint_id sequence expires_at_ms))

  unfoldable pub verify :
      EndpointBinding → VerifiedMember → Bytes → Bytes → ℕ → Result CertificateError (Unit {0})
  verify self member expected_network expected_endpoint now_ms = do
    fail_if
        (not (bytes_eq self.payload.network_id expected_network)
          || not (bytes_eq member.payload.network_id expected_network))
        wrong_network
    fail_if
        (not (bytes_eq self.payload.member_id member.payload.member_id)
          || not (bytes_eq self.payload.endpoint_id expected_endpoint))
        binding_mismatch
    fail_if (leb self.payload.expires_at_ms now_ms) expired
    key ← verifying_key_of member.payload.signing_public_key
    verify_signature key self.signed_payload self.signature

  unfoldable pub verify_for_join :
      EndpointBinding → VerifiedJoinRequest → Bytes → ℕ → Result CertificateError (Unit {0})
  verify_for_join self request expected_network now_ms = do
    fail_if
        (not (bytes_eq self.payload.network_id expected_network)
          || not (bytes_eq request.payload.network_id expected_network))
        wrong_network
    fail_if
        (not (bytes_eq self.payload.member_id request.payload.member_id)
          || (not (bytes_eq self.payload.endpoint_id request.payload.endpoint_id)
              || (not (self.payload.sequence == 0)
                  || not (self.payload.expires_at_ms == request.payload.expires_at_ms))))
        binding_mismatch
    fail_if (leb self.payload.expires_at_ms now_ms) expired
    key ← verifying_key_of request.payload.signing_public_key
    verify_signature key self.signed_payload self.signature

-- A binding whose signed bytes are its payload's encoding.
pub record IsWellFormed (self : EndpointBinding) : Type 0 where
  pub fits : Fits self.payload
  pub signed : self.signed_payload ≡ encode_endpoint_payload self.payload
  pub signature_length : length self.signature ≡ 64
