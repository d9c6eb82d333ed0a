-- ===== src/Authority/Invitation/Issued.antt =====
-- What holds of an `InvitationBundle` that crates/weaver-relay-core/src/invitation.rs issues, and how
-- its addresses are read back.
use weaver.Prelude.{[], some, ◌∷◌, Bytes, ◌<◌, ◌≡◌, length, ◌≤◌, All, List, subst, ◌^◌, ◌*◌}
use weaver.Authority.Invitation.Signed.{push_invitation_blob, encode_invitation, push_addresses}
use weaver.Prelude.Results.{ok, ok-injective, >>=-eq-ok, ok_or}
use weaver.Wire.Reads.{Reads, Reads-last, Reads-repeat_none, lift-Reads, Reads-repeat_more}
use weaver.Wire.{repeat}
use weaver.Core.{validate_virtual_name}
use weaver.Authority.{AuthorityError}
use weaver.Authority.Invitation.{
  invitation_malformed, Addresses, InvitationBundle, address, address_of, max_direct_addresses,
}
use weaver.Authority.Invitation.Texts.{IsText, IsRelay, text-Reads}

module _ ⦃a : Addresses⦄ where
  -- An address whose text reads back.
  pub record IsAddress (address : a.SocketAddr) : Type 0 where
    pub text : IsText 128 (a.to_string address)
    pub parsed : a.from_str (a.to_string address) ≡ some address

  pub addresses-Reads :
      (addresses : List a.SocketAddr) {b : Bytes}
      → All IsAddress addresses
      → push_addresses addresses ≡ ok b
      → Reads (repeat (length addresses) address) addresses b
  unfolding push_addresses address address_of
  addresses-Reads [] i h = subst (Reads _ []) (ok-injective h) (Reads-repeat_none address)
  addresses-Reads (x ∷ addresses) i h =
      let (b, e, h) = >>=-eq-ok (push_invitation_blob (a.to_string x)) _ h in
      let (d, f, h) = >>=-eq-ok (push_addresses addresses) _ h in
      subst (Reads _ (x ∷ addresses)) (ok-injective h) (
        Reads-repeat_more address (length addresses)
          (Reads-last _ (text-Reads 128 (a.to_string x) i.0.text e)
            (lift-Reads (parsed_address x i.0)))
          (addresses-Reads addresses i.1 f))
    where
      parsed_address :
          (x : a.SocketAddr)
          → IsAddress x
          → ok_or (a.from_str (a.to_string x)) AuthorityError.invalid_invitation ≡ ok x
      parsed_address x i = rw i.parsed

  -- An invitation as `create_invitation` makes it: the sizes of its fields, what that function and the
  -- types ask of its texts and of its relay, addresses that read back from their texts, and its signed
  -- bytes the encoding of its fields.
  pub record IsIssued (self : InvitationBundle) : Type 0 where
    pub invitation_id : length self.invitation_id ≡ 32
    pub network_id : length self.network_id ≡ 32
    pub root_public_key : length self.root_public_key ≡ 32
    pub bootstrap_endpoint_id : length self.bootstrap_endpoint_id ≡ 32
    pub address_count : length self.bootstrap_direct_addresses ≤ max_direct_addresses
    pub addresses : All IsAddress self.bootstrap_direct_addresses
    pub relay : IsRelay self.bootstrap_relay
    pub client_app_addr : length self.client_app_addr ≡ 32
    pub service_text : IsText 255 self.service_name
    pub service_name : validate_virtual_name self.service_name ≡ ok tt
    pub expires_at_ms : self.expires_at_ms < 2 ^ 64
    pub certificate_some : 0 < length self.admin_certificate
    pub certificate_fits : length self.admin_certificate ≤ 16 * 1024
    pub signer_key_id : length self.signer_key_id ≡ 16
    pub signed : encode_invitation self ≡ ok self.signed_bytes
    pub signature : length self.signature ≡ 64
