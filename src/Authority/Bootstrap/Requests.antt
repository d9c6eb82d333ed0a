-- ===== src/Authority/Bootstrap/Requests.antt =====
-- `BootstrapRedeemRequest` of crates/weaver-relay-core/src/invitation.rs.
use weaver.Prelude.{
  false, Bytes, ◌<◌, length, ltb, ◌≤◌, ◌≡◌, ◌||◌, ℕ, arith, ◌++◌, ◌==◌, subst, ||-eq-false, refl,
}
use weaver.Authority.Invitation.{invitation_malformed, Addresses}
use weaver.Prelude.Results.{
  Result, ok, ◌>>=◌, ◌>>◌, fail_if, fail_if-eq-ok, >>=-eq-ok, ok-injective, fail_if-ok, map_err-ok,
}
use weaver.Authority.Bootstrap.{
  BootstrapRedeemRequest, request_parser, wide_blob, wide_blob_allow_empty, max_bootstrap_payload,
  bootstrap_request_magic,
}
use weaver.Authority.Bootstrap.Messages.{push_u32_blob}
use weaver.Authority.{AuthorityError}
use weaver.Authority.Invitation.Signed.{invitation_to_bytes, invitation_from_bytes}
use weaver.Wire.{decode, usize_max}
use weaver.Wire.Reads.{
  Reads, Reads-last, decode-Ends, Ends, Reads-bind, Ends-bind, uint-Reads, Reads-skip, magic-Reads,
  Ends-skip, bound_guard-Reads, lift-Reads, take_bytes-Reads, Ends-last, Reads-return, finish-Ends,
  Ends-return,
}
use weaver.Crypto.Join.Prepared

module _ ⦃a : Addresses⦄ where
  unfoldable pub request_to_bytes : BootstrapRedeemRequest → Result AuthorityError Bytes
  request_to_bytes self = do
    let invitation = invitation_to_bytes self.invitation
    let prepared = Prepared.to_bytes self.prepared
    fail_if
        (ltb max_bootstrap_payload (length invitation)
          || ltb max_bootstrap_payload (length prepared))
        AuthorityError.invalid_invitation
    first ← push_u32_blob invitation
    second ← push_u32_blob prepared
    ok (bootstrap_request_magic ++ (first ++ second))

  unfoldable pub request_from_bytes : Bytes → Result AuthorityError BootstrapRedeemRequest
  request_from_bytes = decode request_parser

  wide_blob-Reads :
      (v : Bytes) {b : Bytes}
      → 0 < length v
      → length v ≤ max_bootstrap_payload
      → push_u32_blob v ≡ ok b
      → Reads (wide_blob max_bootstrap_payload) v b
  unfolding push_u32_blob wide_blob wide_blob_allow_empty
  wide_blob-Reads v p l h =
      let (t, h) = fail_if-eq-ok (ltb 4294967295 (length v)) _ _ h in
      let filled : (length v == 0) ≡ false = ground arith in
      subst (Reads _ v) (ok-injective h) (
        Reads-last _
          (Reads-bind _ (uint-Reads 4 (length v) (omega (arith, l)))
            (Reads-skip _ (bound_guard-Reads _ _ _ l) (take_bytes-Reads (length v) v refl)))
          (Reads-skip _ (lift-Reads (fail_if-ok _ filled)) Reads-return))

  -- A request of which both parts are read back from their own bytes is read back.
  pub request_from_bytes-request_to_bytes :
      (self : BootstrapRedeemRequest) (bytes : Bytes)
      → 0 < length (invitation_to_bytes self.invitation)
      → 0 < length (Prepared.to_bytes self.prepared)
      → invitation_from_bytes (invitation_to_bytes self.invitation) ≡ ok self.invitation
      → Prepared.from_bytes (Prepared.to_bytes self.prepared) ≡ ok self.prepared
      → length bytes ≤ usize_max
      → request_to_bytes self ≡ ok bytes
      → request_from_bytes bytes ≡ ok self
  unfolding request_to_bytes request_from_bytes request_parser
  request_from_bytes-request_to_bytes self bytes i p read_invitation read_prepared short h =
      let (t, h) =
        fail_if-eq-ok
          (ltb max_bootstrap_payload (length (invitation_to_bytes self.invitation))
            || ltb max_bootstrap_payload (length (Prepared.to_bytes self.prepared)))
          _ _ h in
      let (x, y) = ||-eq-false _ _ t in
      let (b, e, h) = >>=-eq-ok (push_u32_blob (invitation_to_bytes self.invitation)) _ h in
      let (d, f, h) = >>=-eq-ok (push_u32_blob (Prepared.to_bytes self.prepared)) _ h in
      decode-Ends short (
        subst (Ends _ self) (ok-injective h) (
          Ends-bind _ magic-Reads (
            Ends-bind _ (wide_blob-Reads _ i (within _ _ x) e) (
              Ends-skip _ (lift-Reads read_invitation) (
                Ends-last _ (wide_blob-Reads _ p (within _ _ y) f) (
                  Ends-skip _ (lift-Reads (map_err-ok _ read_prepared))
                    (finish-Ends Ends-return)))))))
    where
      within : (n m : ℕ) → ltb m n ≡ false → n ≤ m
      within n m h = ground arith
