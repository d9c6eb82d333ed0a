-- ===== src/Crypto/Join/Verify.antt =====
-- What the check of a join request accepts, and that a created request passes it.
use weaver.Crypto.{Primitives, derive_member_id, append_signature, zeroes_32}
use weaver.Prelude.{
  bytes_eq, bytes_eq_differs, bytes_eq_sound, Bool-cases, ||-eq-false, ◌≢◌, inl, inr, refl, Bytes,
  ℕ, ◌≡◌, ◌<◌, ap, ◌↔◌, false, length, ◌∙◌, true, sym, ◌+◌, arith, length-append,
}
use weaver.Prelude.Results.{ok, ok-injective}
use weaver.Crypto.Laws.{
  pass_eq, guard_eq, guard_false, pass_false, length-append_signature, guard_key, pass_key,
  guard_signature, pass_signature, take-append_signature, drop-append_signature, guard_unexpired,
  pass_unexpired,
}
use weaver.Crypto.Join.Codec.{
  length-encode_join_request_payload, join_request_payload_len, decode_join_request_payload,
  decode-encode_join_request_payload,
}
use weaver.Crypto.Join.{
  from_bytes, JoinRequest, to_bytes, IsWellFormed, verify, VerifiedJoinRequest, has_zero_key,
}

pub from_bytes-to_bytes :
    (self : JoinRequest) → IsWellFormed self → from_bytes (to_bytes self) ≡ ok self
unfolding from_bytes to_bytes
from_bytes-to_bytes self w =
    let l = ap length w.signed ∙ length-encode_join_request_payload self.payload w.fits in
    rw (
      length-append_signature join_request_payload_len self.signed_payload self.signature l
          w.signature_length,
      take-append_signature join_request_payload_len self.signed_payload self.signature l,
      drop-append_signature join_request_payload_len self.signed_payload self.signature l,
      ap decode_join_request_payload w.signed
          ∙ decode-encode_join_request_payload self.payload w.fits,
    )

pub length-to_bytes :
    (self : JoinRequest)
    → IsWellFormed self
    → length (to_bytes self) ≡ join_request_payload_len + 64
unfolding to_bytes append_signature
length-to_bytes self w = omega (
  arith,
  length-append self.signed_payload self.signature,
  ap length w.signed ∙ length-encode_join_request_payload self.payload w.fits,
  w.signature_length,
)

differs : (x y : Bytes) → (bytes_eq x y ≡ false) ↔ (x ≢ y)
differs x y = (
  bytes_eq_differs x y,
  λ d. elim (Bool-cases (bytes_eq x y)) [ inl t ↦ absurd (d (bytes_eq_sound x y t)) | inr f ↦ f ],
)

pub has_zero_key_iff :
    (encryption_public_key endpoint_id nonce : Bytes)
    → (has_zero_key encryption_public_key endpoint_id nonce ≡ false)
      ↔ ((encryption_public_key ≢ zeroes_32) × (endpoint_id ≢ zeroes_32) × (nonce ≢ zeroes_32))
unfolding has_zero_key
has_zero_key_iff encryption_public_key endpoint_id nonce = (
  λ h.
      let (a, h) = ||-eq-false (bytes_eq encryption_public_key zeroes_32) _ h in
      let (b, o) = ||-eq-false (bytes_eq endpoint_id zeroes_32) _ h in
      ((differs _ _).0 a, (differs _ _).0 b, (differs _ _).0 o),
  λ (a, b, o). rw ((differs _ _).1 a, (differs _ _).1 b, (differs _ _).1 o) refl,
)

module _ ⦃c : Primitives⦄ (self : JoinRequest) (expected : Bytes) (now : ℕ) where
  -- What the check asks for.
  pub record IsAuthentic : Type 0 where
    pub network : self.payload.network_id ≡ expected
    pub unexpired : now < self.payload.expires_at_ms
    pub encryption_key : self.payload.encryption_public_key ≢ zeroes_32
    pub endpoint : self.payload.endpoint_id ≢ zeroes_32
    pub nonce : self.payload.nonce ≢ zeroes_32
    pub derived : derive_member_id expected self.payload.signing_public_key ≡ self.payload.member_id
    pub keyed : c.is_key self.payload.signing_public_key ≡ true
    pub signed :
        c.signed_by self.payload.signing_public_key self.signed_payload self.signature ≡ true

  pub verify-IsAuthentic :
      {v : VerifiedJoinRequest}
      → verify self expected now ≡ ok v
      → IsAuthentic × (v ≡ record { payload = self.payload })
  unfolding verify
  verify-IsAuthentic h =
      let (n, h) = guard_eq _ _ _ _ h in
      let (e, h) = guard_unexpired _ self.payload.expires_at_ms now _ h in
      let (z, h) = guard_false _ _ _ h in
      let (a, b, o) = (has_zero_key_iff _ _ _).0 z in
      let (d, h) = guard_eq _ _ _ _ h in
      let (k, h) = guard_key _ _ h in
      let (g, h) = guard_signature _ _ _ _ h in
      (
        record {
          network = n;
          unexpired = e;
          encryption_key = a;
          endpoint = b;
          nonce = o;
          derived = d;
          keyed = k;
          signed = g;
        },
        sym (ok-injective h),
      )

  pub IsAuthentic-verify :
      IsAuthentic → verify self expected now ≡ ok (record { payload = self.payload })
  unfolding verify
  IsAuthentic-verify t =
      pass_eq _ _ t.network
      ∙ pass_unexpired _ _ t.unexpired
      ∙ pass_false _ _ ((has_zero_key_iff _ _ _).1 (t.encryption_key, t.endpoint, t.nonce))
      ∙ pass_eq _ _ t.derived
      ∙ pass_key _ t.keyed
      ∙ pass_signature _ t.signed

  -- The check of a join request returns a verified request exactly when the request is of the
  -- expected network, has not expired, has an encryption key, an endpoint identifier and a nonce that
  -- are each not all zeroes, names the member derived from its signing key, which is a key, and bears
  -- that key's signature; the result then has the request's payload.
  pub verify_join_iff :
      (v : VerifiedJoinRequest)
      → (verify self expected now ≡ ok v) ↔ (IsAuthentic × (v ≡ record { payload = self.payload }))
  verify_join_iff v = (verify-IsAuthentic, λ t. IsAuthentic-verify t.0 ∙ ap ok (sym t.1))
