-- ===== src/Crypto/Join.antt =====
-- `JoinRequest` of crates/weaver-crypto/src/lib.rs: a candidate's self-signed request for membership.
pub mod Codec
pub mod Verify
pub mod Prepared
pub mod Candidate
use weaver.Prelude.{Bytes, ◌≡◌, Bool, length, ℕ, bytes_eq, ◌||◌, not, ◌==◌, leb, ◌+◌, take, drop}
use weaver.Crypto.{
  Primitives, append_signature, CertificateError, derive_member_id, zeroes_32, malformed_key,
  wrong_network, expired, signature_len, derived_identity_mismatch, malformed_wire,
  verifying_key_of, verify_signature,
}
use weaver.Prelude.Results.{Result, ◌>>◌, fail_if, ok, ◌>>=◌}
use Codec.{
  JoinRequestPayload, encode_join_request_payload, decode_join_request_payload,
  join_request_payload_len, Fits,
}

pub record JoinRequest : Type 0 where
  pub payload : JoinRequestPayload
  pub signed_payload : Bytes
  pub signature : Bytes

pub record VerifiedJoinRequest : Type 0 where
  pub payload : JoinRequestPayload

unfoldable pub from_bytes : Bytes → Result CertificateError JoinRequest
from_bytes bytes = do
  fail_if (not (length bytes == join_request_payload_len + signature_len)) malformed_wire
  let signed_payload = take join_request_payload_len bytes
  payload ← decode_join_request_payload signed_payload
  ok record {
    payload = payload;
    signed_payload = signed_payload;
    signature = drop join_request_payload_len bytes;
  }

unfoldable pub to_bytes : JoinRequest → Bytes
to_bytes self = append_signature self.signed_payload self.signature

-- One of the three arrays is all zeroes.
unfoldable pub has_zero_key : Bytes → Bytes → Bytes → Bool
has_zero_key encryption_public_key endpoint_id nonce =
    bytes_eq encryption_public_key zeroes_32
    || (bytes_eq endpoint_id zeroes_32 || bytes_eq nonce zeroes_32)

module _ ⦃c : Primitives⦄ where
  unfoldable pub created_payload :
      Bytes → Bytes → Bytes → Bytes → Bytes → ℕ → ℕ → JoinRequestPayload
  created_payload network_id member_signing encryption_public_key endpoint_id nonce requested_roles
        expires_at_ms =
      record {
        network_id = network_id;
        member_id = derive_member_id network_id (c.public_key member_signing);
        signing_public_key = c.public_key member_signing;
        encryption_public_key = encryption_public_key;
        endpoint_id = endpoint_id;
        nonce = nonce;
        requested_roles = requested_roles;
        expires_at_ms = expires_at_ms;
      }

  unfoldable pub sign_payload : Bytes → JoinRequestPayload → JoinRequest
  sign_payload secret payload = record {
    payload = payload;
    signed_payload = encode_join_request_payload payload;
    signature = c.sign secret (encode_join_request_payload payload);
  }

  unfoldable pub create :
      Bytes → Bytes → Bytes → Bytes → Bytes → ℕ → ℕ → Result CertificateError JoinRequest
  create network_id member_signing encryption_public_key endpoint_id nonce requested_roles
        expires_at_ms =
      do
        fail_if (has_zero_key encryption_public_key endpoint_id nonce) malformed_key
        ok (
            sign_payload member_signing (
              created_payload network_id member_signing encryption_public_key endpoint_id nonce
                requested_roles expires_at_ms))

  unfoldable pub verify : JoinRequest → Bytes → ℕ → Result CertificateError VerifiedJoinRequest
  verify self expected_network now_ms = do
    fail_if (not (bytes_eq self.payload.network_id expected_network)) wrong_network
    fail_if (leb self.payload.expires_at_ms now_ms) expired
    fail_if
        (has_zero_key self.payload.encryption_public_key self.payload.endpoint_id
          self.payload.nonce)
        malformed_key
    fail_if
        (not (
          bytes_eq (derive_member_id expected_network self.payload.signing_public_key)
            self.payload.member_id))
        derived_identity_mismatch
    key ← verifying_key_of self.payload.signing_public_key
    verify_signature key self.signed_payload self.signature
    ok record { payload = self.payload }

-- A request whose signed bytes are its payload's encoding.
pub record IsWellFormed (self : JoinRequest) : Type 0 where
  pub fits : Fits self.payload
  pub signed : self.signed_payload ≡ encode_join_request_payload self.payload
  pub signature_length : length self.signature ≡ 64
