-- ===== src/Authority/Invitation/Reading.antt =====
-- Reading an `InvitationBundle` of crates/weaver-relay-core/src/invitation.rs from its bytes.
use weaver.Prelude.{
  [], false, some, Bytes, ◌≡◌, length, ◌≤◌, length-append, subst, ltb, arith, ◌*◌, ◌++◌, ◌-◌, ap,
  take-append, drop-append, refl,
}
use weaver.Authority.Invitation.Signed.{
  push_invitation_blob, encode_invitation, invitation_from_bytes, push_addresses,
  push_bootstrap_relay, invitation_to_bytes,
}
use weaver.Prelude.Results.{ok, fail_if-eq-ok, ok-injective, >>=-eq-ok}
use weaver.Wire.Reads.{
  Ends, lift-Reads, uint-Reads, Ends-bind, magic-Reads, array-Reads, Ends-skip, decode-Ends,
  bound_guard-Reads, Ends-last, finish-Ends, Ends-return,
}
use weaver.Wire.{usize_max}
use weaver.Core.{validate_virtual_name}
use weaver.Authority.{AuthorityError}
use weaver.Authority.Invitation.{
  invitation_malformed, Addresses, InvitationBundle, invitation_parser, service_name_of,
}
use weaver.Wire.Fails.{Fails, Fails-first, Fails-bind, decode-Fails}
use weaver.Authority.Invitation.Texts.{
  relay-cases, relay-Reads, relay-Fails, blob-Reads, text-Reads,
}
use weaver.Authority.Invitation.Issued.{IsIssued, addresses-Reads}
use weaver.Prelude.{◌≢◌, ◌⊎◌, inl, inr, ◌∙◌, sym}
use weaver.Prelude.Results.{err}
use weaver.Wire.{decode}

module _ ⦃a : Addresses⦄ where
  invitation-Ends :
      (self : InvitationBundle)
      → IsIssued self
      → self.bootstrap_relay ≢ some []
      → Ends (invitation_parser self.signed_bytes self.signature) self self.signed_bytes
  unfolding encode_invitation invitation_parser
  invitation-Ends self i n =
      let (t, h) = fail_if-eq-ok (ltb 255 (length self.bootstrap_direct_addresses)) _ _ i.signed in
      let (b, p, h) = >>=-eq-ok (push_addresses self.bootstrap_direct_addresses) _ h in
      let (r, q, h) = >>=-eq-ok (push_bootstrap_relay self.bootstrap_relay) _ h in
      let (v, s, h) = >>=-eq-ok (push_invitation_blob self.service_name) _ h in
      let (c, u, h) = >>=-eq-ok (push_invitation_blob self.admin_certificate) _ h in
      subst (Ends _ self) (ok-injective h) (
        Ends-bind _ magic-Reads (
          Ends-bind _ (array-Reads 32 self.invitation_id i.invitation_id) (
            Ends-bind _ (array-Reads 32 self.network_id i.network_id) (
              Ends-bind _ (array-Reads 32 self.root_public_key i.root_public_key) (
                Ends-bind _ (array-Reads 32 self.bootstrap_endpoint_id i.bootstrap_endpoint_id) (
                  Ends-bind _
                    (uint-Reads 1 (length self.bootstrap_direct_addresses)
                      (omega (arith, i.address_count)))
                    (Ends-skip _ (bound_guard-Reads _ _ _ i.address_count) (
                      Ends-bind _ (addresses-Reads self.bootstrap_direct_addresses i.addresses p) (
                        Ends-bind _ (relay-Reads self.bootstrap_relay i.relay n q) (
                          Ends-bind _ (array-Reads 32 self.client_app_addr i.client_app_addr) (
                            Ends-bind _ (text-Reads 255 self.service_name i.service_text s) (
                              Ends-skip _ (lift-Reads (service_ok self.service_name i.service_name))
                                (Ends-bind _ (uint-Reads 8 self.expires_at_ms i.expires_at_ms) (
                                  Ends-bind _
                                    (blob-Reads (16 * 1024) self.admin_certificate
                                      i.certificate_some i.certificate_fits u)
                                    (Ends-last _ (array-Reads 16 self.signer_key_id i.signer_key_id)
                                      (finish-Ends Ends-return))))))))))))))))
    where
      service_ok :
          (name : Bytes) → validate_virtual_name name ≡ ok tt → service_name_of name ≡ ok tt
      service_ok name e = unfold service_name_of in rw e

  invitation-Fails :
      (self : InvitationBundle)
      → IsIssued self
      → self.bootstrap_relay ≡ some []
      → Fails
          (invitation_parser self.signed_bytes self.signature)
          AuthorityError.invalid_invitation
          self.signed_bytes
  unfolding encode_invitation invitation_parser
  invitation-Fails self i empty =
      let (t, h) = fail_if-eq-ok (ltb 255 (length self.bootstrap_direct_addresses)) _ _ i.signed in
      let (b, p, h) = >>=-eq-ok (push_addresses self.bootstrap_direct_addresses) _ h in
      let (r, q, h) = >>=-eq-ok (push_bootstrap_relay self.bootstrap_relay) _ h in
      let (v, s, h) = >>=-eq-ok (push_invitation_blob self.service_name) _ h in
      let (c, u, h) = >>=-eq-ok (push_invitation_blob self.admin_certificate) _ h in
      subst
        (Fails (invitation_parser self.signed_bytes self.signature)
          AuthorityError.invalid_invitation)
        (ok-injective h)
        (Fails-bind _ magic-Reads (
          Fails-bind _ (array-Reads 32 self.invitation_id i.invitation_id) (
            Fails-bind _ (array-Reads 32 self.network_id i.network_id) (
              Fails-bind _ (array-Reads 32 self.root_public_key i.root_public_key) (
                Fails-bind _ (array-Reads 32 self.bootstrap_endpoint_id i.bootstrap_endpoint_id) (
                  Fails-bind _
                    (uint-Reads 1 (length self.bootstrap_direct_addresses)
                      (omega (arith, i.address_count)))
                    (Fails-bind _ (bound_guard-Reads _ _ _ i.address_count) (
                      Fails-bind _ (addresses-Reads self.bootstrap_direct_addresses i.addresses p) (
                        Fails-first _
                          (relay-Fails _ (ap push_bootstrap_relay (sym empty) ∙ q)))))))))))

  long_enough : (self : InvitationBundle) → IsIssued self → 8 ≤ length self.signed_bytes
  unfolding encode_invitation
  long_enough self i =
      let (t, h) = fail_if-eq-ok (ltb 255 (length self.bootstrap_direct_addresses)) _ _ i.signed in
      let (b, p, h) = >>=-eq-ok (push_addresses self.bootstrap_direct_addresses) _ h in
      let (r, q, h) = >>=-eq-ok (push_bootstrap_relay self.bootstrap_relay) _ h in
      let (v, s, h) = >>=-eq-ok (push_invitation_blob self.service_name) _ h in
      let (c, u, h) = >>=-eq-ok (push_invitation_blob self.admin_certificate) _ h in
      omega (arith, ap length (ok-injective h))

  -- `from_bytes` of the bytes is the decoding of the signed ones.
  cut :
      (self : InvitationBundle)
      → IsIssued self
      → invitation_from_bytes (invitation_to_bytes self)
        ≡ decode (invitation_parser self.signed_bytes self.signature) self.signed_bytes
  unfolding invitation_from_bytes invitation_to_bytes
  cut self i =
      let n = length-append self.signed_bytes self.signature in
      let long : ltb (length (self.signed_bytes ++ self.signature)) 72 ≡ false =
        ground (arith, n, i.signature, long_enough self i) in
      let cut : length (self.signed_bytes ++ self.signature) - 64 ≡ length self.signed_bytes =
        omega (arith, n, i.signature) in
      rw
        (
          long,
          cut,
          take-append self.signed_bytes self.signature,
          drop-append self.signed_bytes self.signature,
        )
        refl

  signed_fits :
      (self : InvitationBundle)
      → length (invitation_to_bytes self) ≤ usize_max
      → length self.signed_bytes ≤ usize_max
  unfolding invitation_to_bytes
  signed_fits self l = omega (arith, length-append self.signed_bytes self.signature)

  -- An invitation as `create_invitation` makes it, whose bytes fit a `usize` and whose addresses read
  -- back from their texts, is read back from its bytes unless its relay is the empty string; with that
  -- relay, which `create_invitation` does not refuse, its bytes are refused as an invalid invitation.
  pub invitation_from_bytes-invitation_to_bytes :
      (self : InvitationBundle)
      → IsIssued self
      → length (invitation_to_bytes self) ≤ usize_max
      → ((self.bootstrap_relay ≢ some [])
          × (invitation_from_bytes (invitation_to_bytes self) ≡ ok self))
        ⊎ ((self.bootstrap_relay ≡ some [])
            × (invitation_from_bytes (invitation_to_bytes self)
                ≡ err AuthorityError.invalid_invitation))
  invitation_from_bytes-invitation_to_bytes self i l = elim (relay-cases self.bootstrap_relay) [
    | inl n ↦ inl (n, cut self i ∙ decode-Ends (signed_fits self l) (invitation-Ends self i n))
    | inr e ↦ inr (e, cut self i ∙ decode-Fails (signed_fits self l) (invitation-Fails self i e))
  ]
