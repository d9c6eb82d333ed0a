-- ===== src/Crypto/Endpoint/Verify.antt =====
-- What the checks of an endpoint binding accept.
use weaver.Crypto.{Primitives, append_signature}
use weaver.Crypto.Member.{VerifiedMember}
use weaver.Prelude.{Bytes, ◌≡◌, ℕ, ap, ◌<◌, length, true, ◌↔◌, ◌∙◌, ◌+◌, arith, length-append}
use weaver.Prelude.Results.{ok}
use weaver.Crypto.Laws.{
  guard_eq_two, length-append_signature, guard_key, last_signature, take-append_signature,
  drop-append_signature, pass_eq_two, pass_key, signature_ok, guard_unexpired, pass_unexpired,
  guard_binding, pass_binding,
}
use weaver.Crypto.Endpoint.Codec.{
  length-encode_endpoint_payload, endpoint_payload_len, decode_endpoint_payload,
  decode-encode_endpoint_payload,
}
use weaver.Crypto.Join.{VerifiedJoinRequest}
use weaver.Crypto.Endpoint.{
  from_bytes, EndpointBinding, to_bytes, IsWellFormed, verify, verify_for_join,
}

pub from_bytes-to_bytes :
    (self : EndpointBinding) → IsWellFormed self → from_bytes (to_bytes self) ≡ ok self
unfolding from_bytes to_bytes
from_bytes-to_bytes self w =
    let l = ap length w.signed ∙ length-encode_endpoint_payload self.payload w.fits in
    rw (
      length-append_signature endpoint_payload_len self.signed_payload self.signature l
          w.signature_length,
      take-append_signature endpoint_payload_len self.signed_payload self.signature l,
      drop-append_signature endpoint_payload_len self.signed_payload self.signature l,
      ap decode_endpoint_payload w.signed ∙ decode-encode_endpoint_payload self.payload w.fits,
    )

pub length-to_bytes :
    (self : EndpointBinding)
    → IsWellFormed self
    → length (to_bytes self) ≡ endpoint_payload_len + 64
unfolding to_bytes append_signature
length-to_bytes self w = omega (
  arith,
  length-append self.signed_payload self.signature,
  ap length w.signed ∙ length-encode_endpoint_payload self.payload w.fits,
  w.signature_length,
)

module _ ⦃c : Primitives⦄ (self : EndpointBinding) (member : VerifiedMember)
    (expected endpoint : Bytes) (now : ℕ) where
  pub record IsBound : Type 0 where
    pub network : self.payload.network_id ≡ expected
    pub member_network : member.payload.network_id ≡ expected
    pub subject : self.payload.member_id ≡ member.payload.member_id
    pub endpoint_id : self.payload.endpoint_id ≡ endpoint
    pub unexpired : now < self.payload.expires_at_ms
    pub keyed : c.is_key member.payload.signing_public_key ≡ true
    pub signed :
        c.signed_by member.payload.signing_public_key self.signed_payload self.signature ≡ true

  -- The check of an endpoint binding succeeds exactly when binding and member are of the expected
  -- network, the binding names the member and the endpoint, has not expired, and bears the member's
  -- signature.
  pub verify-IsBound_iff : (verify self member expected endpoint now ≡ ok tt) ↔ IsBound
  unfolding verify
  verify-IsBound_iff = (accepted, complete)
    where
      accepted : verify self member expected endpoint now ≡ ok tt → IsBound
      accepted h =
          let (n, m, h) = guard_eq_two _ _ _ _ _ _ h in
          let (s, e, h) = guard_eq_two _ _ _ _ _ _ h in
          let (x, h) = guard_unexpired _ self.payload.expires_at_ms now _ h in
          let (k, h) = guard_key _ _ h in
          let g = last_signature _ _ _ h in
          record {
            network = n;
            member_network = m;
            subject = s;
            endpoint_id = e;
            unexpired = x;
            keyed = k;
            signed = g;
          }

      complete : IsBound → verify self member expected endpoint now ≡ ok tt
      complete t =
          pass_eq_two _ _ t.network t.member_network
          ∙ pass_eq_two _ _ t.subject t.endpoint_id
          ∙ pass_unexpired _ _ t.unexpired
          ∙ pass_key _ t.keyed
          ∙ signature_ok t.signed

module _ ⦃c : Primitives⦄ (self : EndpointBinding) (request : VerifiedJoinRequest)
    (expected : Bytes) (now : ℕ) where
  pub record IsJoinBound : Type 0 where
    pub network : self.payload.network_id ≡ expected
    pub request_network : request.payload.network_id ≡ expected
    pub subject : self.payload.member_id ≡ request.payload.member_id
    pub endpoint_id : self.payload.endpoint_id ≡ request.payload.endpoint_id
    pub first : self.payload.sequence ≡ 0
    pub same_expiry : self.payload.expires_at_ms ≡ request.payload.expires_at_ms
    pub unexpired : now < self.payload.expires_at_ms
    pub keyed : c.is_key request.payload.signing_public_key ≡ true
    pub signed :
        c.signed_by request.payload.signing_public_key self.signed_payload self.signature ≡ true

  -- The check of the binding in a join request succeeds exactly when it binds the request's member
  -- and endpoint, with sequence 0 and the request's expiry, in the expected network, before it
  -- expires, under the signature of the request's key.
  pub verify_for_join_iff : (verify_for_join self request expected now ≡ ok tt) ↔ IsJoinBound
  unfolding verify_for_join
  verify_for_join_iff = (accepted, complete)
    where
      accepted : verify_for_join self request expected now ≡ ok tt → IsJoinBound
      accepted h =
          let (n, m, h) = guard_eq_two _ _ _ _ _ _ h in
          let (s, e, f, x, h) =
            guard_binding _ self.payload.member_id request.payload.member_id
              self.payload.endpoint_id request.payload.endpoint_id self.payload.sequence 0
              self.payload.expires_at_ms request.payload.expires_at_ms _ h in
          let (u, h) = guard_unexpired _ self.payload.expires_at_ms now _ h in
          let (k, h) = guard_key _ _ h in
          record {
            network = n;
            request_network = m;
            subject = s;
            endpoint_id = e;
            first = f;
            same_expiry = x;
            unexpired = u;
            keyed = k;
            signed = last_signature _ _ _ h;
          }

      complete : IsJoinBound → verify_for_join self request expected now ≡ ok tt
      complete t =
          pass_eq_two _ _ t.network t.request_network
          ∙ pass_binding _ _ t.subject t.endpoint_id t.first t.same_expiry
          ∙ pass_unexpired _ _ t.unexpired
          ∙ pass_key _ t.keyed
          ∙ signature_ok t.signed
