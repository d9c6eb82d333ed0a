-- ===== src/Crypto/Join/Candidate.antt =====
-- `PreparedJoinRequest::create` and `verify`: what a candidate sends, and the authority's check of it.
use weaver.Crypto.Join
use weaver.Crypto.{Primitives, IsSound, CertificateError, zeroes_32, derive_member_id}
use weaver.Prelude.{Bytes, ℕ, ◌≡◌, length, ◌<◌, false, ◌^◌, bytes_eq, sym, refl, arith}
use weaver.Crypto.Join.Prepared.{PreparedJoinRequest}
use weaver.Prelude.Results.{Result, ok, ◌>>=◌, ◌>>◌, guard_result, ok-injective}
use weaver.Crypto.Join.{VerifiedJoinRequest, has_zero_key, created_payload, from_bytes, to_bytes}
use weaver.Crypto.Endpoint.{join_payload}
use weaver.Crypto.Endpoint
use weaver.Crypto.Join.Prepared

module _ ⦃c : Primitives⦄ where
  unfoldable pub create :
      Bytes → Bytes → Bytes → Bytes → Bytes → ℕ → ℕ → Result CertificateError PreparedJoinRequest
  create network_id member_signing encryption_public_key endpoint_id nonce requested_roles
        expires_at_ms =
      do
        request ←
            Join.create network_id member_signing encryption_public_key endpoint_id nonce
              requested_roles expires_at_ms
        endpoint_binding ←
            Endpoint.issue_for_join member_signing network_id endpoint_id 0 expires_at_ms
        ok record { request = request; endpoint_binding = endpoint_binding }

  unfoldable pub verify :
      PreparedJoinRequest → Bytes → ℕ → Result CertificateError VerifiedJoinRequest
  verify self expected_network now_ms = do
    request ← Join.verify self.request expected_network now_ms
    Endpoint.verify_for_join self.endpoint_binding request expected_network now_ms
    ok request

module _ ⦃c : Primitives⦄ (network secret encryption endpoint nonce : Bytes)
    (roles expires : ℕ) where
  -- The request and the binding that `create` signs.
  unfoldable pub prepared : PreparedJoinRequest
  prepared = record {
    request =
        Join.sign_payload secret
          (created_payload network secret encryption endpoint nonce roles expires);
    endpoint_binding =
        Endpoint.sign_payload secret (join_payload secret network endpoint 0 expires);
  }

  create-eq-ok :
      {p : PreparedJoinRequest}
      → create network secret encryption endpoint nonce roles expires ≡ ok p
      → (has_zero_key encryption endpoint nonce ≡ false) × (p ≡ prepared)
  unfolding create Join.create Endpoint.issue_for_join prepared
  create-eq-ok h =
      let (z, h) = guard_result _ (has_zero_key encryption endpoint nonce) _ _ h in
      let (y, h) = guard_result _ (bytes_eq endpoint zeroes_32) _ _ h in (z, sym (ok-injective h))

  module _ (s : IsSound c) where
    prepared-IsAuthentic :
        (now : ℕ)
        → now < expires
        → has_zero_key encryption endpoint nonce ≡ false
        → Join.Verify.IsAuthentic prepared.request network now
    unfolding prepared Join.sign_payload created_payload
    prepared-IsAuthentic now t z =
        let (a, b, o) = (Join.Verify.has_zero_key_iff _ _ _).0 z in
        record {
          network = refl;
          unexpired = t;
          encryption_key = a;
          endpoint = b;
          nonce = o;
          derived = refl;
          keyed = s.public_is_key secret;
          signed = s.accepts secret _;
        }

    prepared-IsJoinBound :
        (now : ℕ)
        → now < expires
        → Endpoint.Verify.IsJoinBound prepared.endpoint_binding
            (record { payload = prepared.request.payload })
            network
            now
    unfolding prepared Join.sign_payload created_payload Endpoint.sign_payload join_payload
    prepared-IsJoinBound now t = record {
      network = refl;
      request_network = refl;
      subject = refl;
      endpoint_id = refl;
      first = refl;
      same_expiry = refl;
      unexpired = t;
      keyed = s.public_is_key secret;
      signed = s.accepts secret _;
    }

    prepared_request-IsWellFormed :
        length network ≡ 32
        → length encryption ≡ 32
        → length endpoint ≡ 32
        → length nonce ≡ 32
        → roles < 256 ^ 4
        → expires < 256 ^ 8
        → Join.IsWellFormed prepared.request
    unfolding prepared Join.sign_payload created_payload derive_member_id
    prepared_request-IsWellFormed ln le lp lo r e = record {
      fits = record {
        network_id = ln;
        member_id = s.length_derived _ _;
        signing_public_key = s.length_public secret;
        encryption_public_key = le;
        endpoint_id = lp;
        nonce = lo;
        requested_roles = r;
        expires_at_ms = e;
      };
      signed = refl;
      signature_length = s.length_sign _ _;
    }

    prepared_binding-IsWellFormed :
        length network ≡ 32
        → length endpoint ≡ 32
        → expires < 256 ^ 8
        → Endpoint.IsWellFormed prepared.endpoint_binding
    unfolding prepared Endpoint.sign_payload join_payload derive_member_id
    prepared_binding-IsWellFormed ln lp e = record {
      fits = record {
        network_id = ln;
        member_id = s.length_derived _ _;
        endpoint_id = lp;
        sequence = omega arith;
        expires_at_ms = e;
      };
      signed = refl;
      signature_length = s.length_sign _ _;
    }

    -- With sound primitives, a prepared request that `create` makes for a network, encryption key,
    -- endpoint and nonce of 32 bytes, from numbers that fit their fields, is read back from its
    -- bytes, and the check of its network accepts it until it expires.
    pub verify-create :
        length network ≡ 32
        → length encryption ≡ 32
        → length endpoint ≡ 32
        → length nonce ≡ 32
        → roles < 256 ^ 4
        → expires < 256 ^ 8
        → (now : ℕ) → now < expires
        → {p : PreparedJoinRequest}
        → create network secret encryption endpoint nonce roles expires ≡ ok p
        → (Prepared.from_bytes (Prepared.to_bytes p) ≡ ok p)
          × (verify p network now ≡ ok (record { payload = p.request.payload }))
    unfolding verify
    verify-create ln le lp lo r e now t h =
        let (z, i) = create-eq-ok h in
        rw i (
          Prepared.from_bytes-to_bytes_prepared prepared
              (prepared_request-IsWellFormed ln le lp lo r e)
              (prepared_binding-IsWellFormed ln lp e),
          rw (
            Join.Verify.IsAuthentic-verify _ _ _ (prepared-IsAuthentic now t z),
            (Endpoint.Verify.verify_for_join_iff _ _ _ _).1 (prepared-IsJoinBound now t),
          ),
        )
