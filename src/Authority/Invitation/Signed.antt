-- ===== src/Authority/Invitation/Signed.antt =====
-- Writing and checking an `InvitationBundle` of crates/weaver-relay-core/src/invitation.rs.
use weaver.Prelude.{
  [], none, some, ◌∷◌, Bytes, Option, List, ltb, ◌++◌, length, ℕ, not, bytes_eq, ◌+◌, ◌||◌, leb,
  ◌-◌, take, drop,
}
use weaver.Prelude.Results.{Result, ok, ◌>>=◌, ◌>>◌, fail_if}
use weaver.Authority.Invitation.{
  invitation_malformed, Addresses, InvitationBundle, invitation_magic, invitation_parser,
}
use weaver.Authority.{AuthorityError}
use weaver.Crypto.{Primitives, NetworkRootPublic, signature_len}
use weaver.Wire.{to_be, decode}
use weaver.Authority.Ticket.{of_crypto}
use weaver.Crypto.Admin

unfoldable pub push_invitation_blob : Bytes → Result AuthorityError Bytes
push_invitation_blob value = do
  fail_if (ltb 65535 (length value)) AuthorityError.invalid_invitation
  ok (to_be 2 (length value) ++ value)

unfoldable pub push_bootstrap_relay : Option Bytes → Result AuthorityError Bytes
push_bootstrap_relay none = ok (0 ∷ [])
push_bootstrap_relay (some relay) = do bytes ← push_invitation_blob relay; ok (1 ∷ bytes)

module _ ⦃a : Addresses⦄ where
  unfoldable pub push_addresses : List a.SocketAddr → Result AuthorityError Bytes
  push_addresses [] = ok []
  push_addresses (address ∷ addresses) = do
    bytes ← push_invitation_blob (a.to_string address)
    rest ← push_addresses addresses
    ok (bytes ++ rest)

  -- `InvitationBundle::encode_signed`
  unfoldable pub encode_invitation : InvitationBundle → Result AuthorityError Bytes
  encode_invitation self = do
    fail_if (ltb 255 (length self.bootstrap_direct_addresses)) AuthorityError.invalid_invitation
    addresses ← push_addresses self.bootstrap_direct_addresses
    relay ← push_bootstrap_relay self.bootstrap_relay
    service_name ← push_invitation_blob self.service_name
    admin_certificate ← push_invitation_blob self.admin_certificate
    ok (
        invitation_magic
        ++ (self.invitation_id
            ++ (self.network_id
                ++ (self.root_public_key
                    ++ (self.bootstrap_endpoint_id
                        ++ (to_be 1 (length self.bootstrap_direct_addresses)
                            ++ (addresses
                                ++ (relay
                                    ++ (self.client_app_addr
                                        ++ (service_name
                                            ++ (to_be 8 self.expires_at_ms
                                                ++ (admin_certificate
                                                    ++ self.signer_key_id))))))))))))

  unfoldable pub invitation_to_bytes : InvitationBundle → Bytes
  invitation_to_bytes self = self.signed_bytes ++ self.signature

  unfoldable pub invitation_from_bytes : Bytes → Result AuthorityError InvitationBundle
  invitation_from_bytes bytes = do
    fail_if (ltb (length bytes) (length invitation_magic + signature_len))
        AuthorityError.invalid_invitation
    let signed_len = length bytes - signature_len
    decode (invitation_parser (take signed_len bytes) (drop signed_len bytes))
        (take signed_len bytes)

module _ ⦃a : Addresses⦄ ⦃c : Primitives⦄ where
  -- `InvitationBundle::verify`
  unfoldable pub verify_invitation :
      InvitationBundle → NetworkRootPublic → ℕ → Result AuthorityError (Unit {0})
  verify_invitation self expected_root now_ms = do
    fail_if
        (not (bytes_eq self.root_public_key expected_root.verifying_key)
          || (not (bytes_eq self.network_id expected_root.network_id)
              || (leb self.expires_at_ms now_ms || not (a.is_endpoint self.bootstrap_endpoint_id))))
        AuthorityError.invalid_invitation
    certificate ← of_crypto (Admin.from_bytes self.admin_certificate)
    admin ← of_crypto (Admin.verify certificate expected_root self.network_id now_ms [])
    fail_if (not (bytes_eq admin.payload.key_id self.signer_key_id))
        AuthorityError.invalid_invitation
    of_crypto (Admin.verify_bytes admin self.signed_bytes self.signature)
