-- ===== src/Authority/Invitation/Accepts.antt =====
-- What `InvitationBundle::verify` of crates/weaver-relay-core/src/invitation.rs accepts.
use weaver.Prelude.{
  true, false, ℕ, Bool, ◌≡◌, not, ◌<◌, leb, ◌||◌, ◌↔◌, arith, [], bytes_eq, bytes_eq_iff, ◌∙◌,
  bytes_eq_sound, ap,
}
use weaver.Authority.Invitation.{Addresses, InvitationBundle}
use weaver.Crypto.{Primitives, NetworkRootPublic}
use weaver.Authority.Invitation.Signed.{verify_invitation}
use weaver.Prelude.Results.{
  ok, >>=-ok, fail_if-eq-ok, fail_if-ok, >>=-eq-ok, map_err-ok, map_err-eq-ok,
}
use weaver.Crypto.Admin.{AdminCertificate, VerifiedAdmin}
use weaver.Authority.Ticket.{of_crypto}
use weaver.Crypto.Admin

module _ ⦃a : Addresses⦄ ⦃c : Primitives⦄ (self : InvitationBundle) (root : NetworkRootPublic)
    (now_ms : ℕ) where
  -- An invitation into the network of the root, with an endpoint to call, that an administrator
  -- whom the root certified has signed.
  pub record IsInvitation : Type 0 where
    pub root_key : self.root_public_key ≡ root.verifying_key
    pub network : self.network_id ≡ root.network_id
    pub unexpired : now_ms < self.expires_at_ms
    pub endpoint : a.is_endpoint self.bootstrap_endpoint_id ≡ true
    pub certificate : AdminCertificate
    pub decoded : Admin.from_bytes self.admin_certificate ≡ ok certificate
    pub admin : VerifiedAdmin
    pub certified : Admin.verify certificate root self.network_id now_ms [] ≡ ok admin
    pub signer : admin.payload.key_id ≡ self.signer_key_id
    pub signed : Admin.verify_bytes admin self.signed_bytes self.signature ≡ ok tt

  tested :
      (w x y z : Bool)
      → (not w || (not x || (y || not z))) ≡ false
      → (w ≡ true) × (x ≡ true) × (y ≡ false) × (z ≡ true)
  tested w x y z q = (ground arith, ground arith, ground arith, ground arith)

  all_tested :
      (w x y z : Bool)
      → w ≡ true
      → x ≡ true
      → y ≡ false
      → z ≡ true
      → (not w || (not x || (y || not z))) ≡ false
  all_tested w x y z p q r s = ground arith

  accepts : verify_invitation self root now_ms ≡ ok tt → IsInvitation
  unfolding verify_invitation
  accepts q =
      let (t, q) = fail_if-eq-ok (not (bytes_eq self.root_public_key _) || _) _ _ q in
      let (w, x, y, z) = tested _ _ _ _ t in
      let (certificate, d, q) =
        >>=-eq-ok (of_crypto (Admin.from_bytes self.admin_certificate)) _ q in
      let (admin, v, q) = >>=-eq-ok (of_crypto (Admin.verify certificate _ _ _ _)) _ q in
      let (s, q) = fail_if-eq-ok (not (bytes_eq admin.payload.key_id self.signer_key_id)) _ _ q in
      record {
        root_key = bytes_eq_sound _ _ w;
        network = bytes_eq_sound _ _ x;
        unexpired = later _ _ y;
        endpoint = z;
        certificate = certificate;
        decoded = map_err-eq-ok _ _ d;
        admin = admin;
        certified = map_err-eq-ok _ _ v;
        signer = bytes_eq_sound _ _ (is_true _ s);
        signed = map_err-eq-ok _ _ q;
      }
    where
      later : (n m : ℕ) → leb m n ≡ false → n < m
      later n m e = ground arith

      is_true : (a : Bool) → not a ≡ false → a ≡ true
      is_true a e = ground arith

  complete : IsInvitation → verify_invitation self root now_ms ≡ ok tt
  unfolding verify_invitation
  complete i =
      let unexpired : leb self.expires_at_ms now_ms ≡ false = ground (arith, i.unexpired) in
      >>=-ok _ _ (
        fail_if-ok _ (
          all_tested _ _ _ _ ((bytes_eq_iff _ _).1 i.root_key) ((bytes_eq_iff _ _).1 i.network)
            unexpired i.endpoint))
      ∙ >>=-ok _ _ (map_err-ok _ i.decoded)
      ∙ >>=-ok _ _ (map_err-ok _ i.certified)
      ∙ >>=-ok _ _ (fail_if-ok _ (ap not ((bytes_eq_iff _ _).1 i.signer)))
      ∙ map_err-ok _ i.signed

  -- `verify` accepts an invitation exactly when it names the root and its network, has not expired,
  -- has an endpoint to call, and an administrator whom the root certified has signed it.
  pub verify_invitation_iff : (verify_invitation self root now_ms ≡ ok tt) ↔ IsInvitation
  verify_invitation_iff = (accepts, complete)
