-- ===== src/Authority/Ticket/Checks.antt =====
-- What `JoinTicket::verify` of crates/weaver-relay-core/src/lib.rs accepts.
use weaver.Prelude.{
  true, false, Bytes, ℕ, Bool, ◌≡◌, not, ◌<◌, leb, ◌||◌, ◌↔◌, arith, [], bytes_eq, bytes_eq_sound,
  ==_iff, bytes_eq_iff, ◌∙◌, ap,
}
use weaver.Crypto.Admin
use weaver.Crypto.Member
use weaver.Crypto.Endpoint
use weaver.Crypto.{Primitives, NetworkRootPublic}
use weaver.Config.{Hashing, EncryptedConfigEnvelope}
use weaver.Authority.{JoinTicket, AuthorityError}
use weaver.Authority.Ticket.{verify_ticket, of_crypto, of_config}
use weaver.Prelude.Results.{
  fail_if, ok, fail_if-eq-ok, >>=-eq-ok, map_err-eq-ok, >>=-ok, fail_if-ok, map_err-ok,
}
use weaver.Crypto.Admin.{AdminCertificate, VerifiedAdmin}
use weaver.Crypto.Member.{MemberCertificate, VerifiedMember}
use weaver.Crypto.Endpoint.{EndpointBinding}
use weaver.Config.Chain

module _ ⦃c : Primitives⦄ ⦃h : Hashing⦄ (self : JoinTicket) (root : NetworkRootPublic)
    (network nonce endpoint : Bytes) (now_ms : ℕ) where
  -- A ticket for this request, device and network: an administrator whom the root certified has
  -- signed it and issued the membership in it, the member has bound the endpoint, and the embedded
  -- envelope is the head that the ticket names.
  pub record IsTicket : Type 0 where
    pub network_id : self.network_id ≡ network
    pub root_network : root.network_id ≡ network
    pub request_nonce : self.request_nonce ≡ nonce
    pub unexpired : now_ms < self.expires_at_ms
    pub certificate : AdminCertificate
    pub certificate_decoded : Admin.from_bytes self.admin_certificate ≡ ok certificate
    pub admin : VerifiedAdmin
    pub certified : Admin.verify certificate root network now_ms [] ≡ ok admin
    pub signer : self.signer_key_id ≡ admin.payload.key_id
    pub signed : Admin.verify_bytes admin self.signed_bytes self.signature ≡ ok tt
    pub member : MemberCertificate
    pub member_decoded : Member.from_bytes self.member_certificate ≡ ok member
    pub verified_member : VerifiedMember
    pub issued : Member.verify_with_admin member admin network now_ms [] ≡ ok verified_member
    pub binding : EndpointBinding
    pub binding_decoded : Endpoint.from_bytes self.endpoint_binding ≡ ok binding
    pub bound : Endpoint.verify binding verified_member network endpoint now_ms ≡ ok tt
    pub envelope : EncryptedConfigEnvelope
    pub envelope_decoded : Chain.from_bytes self.embedded_config ≡ ok envelope
    pub envelope_network : envelope.network_id ≡ network
    pub epoch : envelope.epoch ≡ self.config_head.epoch
    pub revision : envelope.revision ≡ self.config_head.revision
    pub hash : Chain.envelope_hash envelope ≡ self.config_head.hash

  same_request :
      (a b d e : Bool)
      → (not a || (not b || (not d || e))) ≡ false
      → (a ≡ true) × (b ≡ true) × (d ≡ true) × (e ≡ false)
  same_request a b d e q = (ground arith, ground arith, ground arith, ground arith)

  same_head :
      (a b d e : Bool)
      → fail_if (not a || (not b || (not d || not e))) AuthorityError.invalid_join_ticket ≡ ok tt
      → (a ≡ true) × (b ≡ true) × (d ≡ true) × (e ≡ true)
  same_head a b d e q = (ground arith, ground arith, ground arith, ground arith)

  all_same :
      (a b d e : Bool)
      → a ≡ true
      → b ≡ true
      → d ≡ true
      → e ≡ false
      → (not a || (not b || (not d || e))) ≡ false
  all_same a b d e p q r s = ground arith

  accepted : verify_ticket self root network nonce endpoint now_ms ≡ ok tt → IsTicket
  unfolding verify_ticket
  accepted q =
      let (t, q) = fail_if-eq-ok (not (bytes_eq self.network_id network) || _) _ _ q in
      let (w, x, y, z) = same_request _ _ _ _ t in
      let (certificate, d, q) =
        >>=-eq-ok (of_crypto (Admin.from_bytes self.admin_certificate)) _ q in
      let (admin, v, q) = >>=-eq-ok (of_crypto (Admin.verify certificate _ _ _ _)) _ q in
      let (s, q) = fail_if-eq-ok (not (bytes_eq self.signer_key_id admin.payload.key_id)) _ _ q in
      let (u, g, q) = >>=-eq-ok (of_crypto (Admin.verify_bytes admin _ _)) _ q in
      let (member, m, q) = >>=-eq-ok (of_crypto (Member.from_bytes self.member_certificate)) _ q in
      let (verified, i, q) = >>=-eq-ok (of_crypto (Member.verify_with_admin member _ _ _ _)) _ q in
      let (binding, b, q) = >>=-eq-ok (of_crypto (Endpoint.from_bytes self.endpoint_binding)) _ q in
      let (p, o, q) = >>=-eq-ok (of_crypto (Endpoint.verify binding _ _ _ _)) _ q in
      let (envelope, e, q) = >>=-eq-ok (of_config (Chain.from_bytes self.embedded_config)) _ q in
      let (j, k, l, n) = same_head _ _ _ _ q in
      record {
        network_id = bytes_eq_sound _ _ w;
        root_network = bytes_eq_sound _ _ x;
        request_nonce = bytes_eq_sound _ _ y;
        unexpired = later _ _ z;
        certificate = certificate;
        certificate_decoded = map_err-eq-ok _ _ d;
        admin = admin;
        certified = map_err-eq-ok _ _ v;
        signer = bytes_eq_sound _ _ (is_true _ s);
        signed = map_err-eq-ok _ _ g;
        member = member;
        member_decoded = map_err-eq-ok _ _ m;
        verified_member = verified;
        issued = map_err-eq-ok _ _ i;
        binding = binding;
        binding_decoded = map_err-eq-ok _ _ b;
        bound = map_err-eq-ok _ _ o;
        envelope = envelope;
        envelope_decoded = map_err-eq-ok _ _ e;
        envelope_network = bytes_eq_sound _ _ j;
        epoch = (==_iff _ _).0 k;
        revision = (==_iff _ _).0 l;
        hash = bytes_eq_sound _ _ n;
      }
    where
      later : (n m : ℕ) → leb m n ≡ false → n < m
      later n m e = ground arith

      is_true : (a : Bool) → not a ≡ false → a ≡ true
      is_true a e = ground arith

  complete : IsTicket → verify_ticket self root network nonce endpoint now_ms ≡ ok tt
  unfolding verify_ticket
  complete t =
      let unexpired : leb self.expires_at_ms now_ms ≡ false = ground (arith, t.unexpired) in
      >>=-ok _ _ (
        fail_if-ok _ (
          all_same _ _ _ _ ((bytes_eq_iff _ _).1 t.network_id) ((bytes_eq_iff _ _).1 t.root_network)
            ((bytes_eq_iff _ _).1 t.request_nonce) unexpired))
      ∙ >>=-ok _ _ (map_err-ok _ t.certificate_decoded)
      ∙ >>=-ok _ _ (map_err-ok _ t.certified)
      ∙ >>=-ok _ _ (fail_if-ok _ (ap not ((bytes_eq_iff _ _).1 t.signer)))
      ∙ >>=-ok _ _ (map_err-ok _ t.signed)
      ∙ >>=-ok _ _ (map_err-ok _ t.member_decoded)
      ∙ >>=-ok _ _ (map_err-ok _ t.issued)
      ∙ >>=-ok _ _ (map_err-ok _ t.binding_decoded)
      ∙ >>=-ok _ _ (map_err-ok _ t.bound)
      ∙ >>=-ok _ _ (map_err-ok _ t.envelope_decoded)
      ∙ fail_if-ok _ (
          all_same _ _ _ _ ((bytes_eq_iff _ _).1 t.envelope_network) ((==_iff _ _).1 t.epoch)
            ((==_iff _ _).1 t.revision) (ap not ((bytes_eq_iff _ _).1 t.hash)))

  -- `verify` accepts a ticket exactly when it is for this request, device and network and not
  -- expired, a certified administrator has signed it and issued the membership in it, the member has
  -- bound the endpoint, and the embedded envelope is the head that the ticket names.
  pub verify_ticket_iff : (verify_ticket self root network nonce endpoint now_ms ≡ ok tt) ↔ IsTicket
  verify_ticket_iff = (accepted, complete)
