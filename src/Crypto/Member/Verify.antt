-- ===== src/Crypto/Member/Verify.antt =====
-- What the two checks of a member's certificate accept.
use weaver.Crypto.Member.{MemberCertificate, verify, verify_with_admin, VerifiedMember}
use weaver.Prelude.{Bytes, ℕ, List, ◌≡◌, true, ◌≤◌, false, ◌<◌, ◌∙◌, ◌↔◌, ap, sym}
use weaver.Crypto.Admin.{VerifiedAdmin, verify_bytes}
use weaver.Prelude.Results.{ok}
use weaver.Crypto.Laws.{
  contains_iff, IsAbsent, guard_eq_two, pass_eq_two, guard_eq, guard_false, guard_time,
  guard_window, pass_eq, pass_false, guard_signature, pass_time, pass_window, pass_signature,
}
use weaver.Crypto.{Primitives, NetworkRootPublic, derive_member_id, lacks, permission_issue_member}

module _ ⦃c : Primitives⦄ where
  -- What both checks ask of the certificate itself.
  pub record IsCurrent (self : MemberCertificate) (expected : Bytes) (now : ℕ) (revoked : List ℕ)
      : Type 0 where
    pub network : self.payload.network_id ≡ expected
    pub derived : derive_member_id expected self.payload.signing_public_key ≡ self.payload.member_id
    pub begun : self.payload.not_before_ms ≤ now
    pub unexpired : now < self.payload.expires_at_ms
    pub unrevoked : IsAbsent revoked self.payload.serial

  -- What the root vouches for.
  pub record IsTrusted (self : MemberCertificate) (root : NetworkRootPublic) (expected : Bytes)
      (now : ℕ) (revoked : List ℕ) : Type 0 where
    pub root_network : root.network_id ≡ expected
    pub current : IsCurrent self expected now revoked
    pub issuer : self.payload.issuer_key_id ≡ root.key_id
    pub signed : c.signed_by root.verifying_key self.signed_payload self.signature ≡ true

  -- What an administrator vouches for: the window of the certificate lies in the administrator's.
  pub record IsDelegated (self : MemberCertificate) (admin : VerifiedAdmin) (expected : Bytes)
      (now : ℕ) (revoked : List ℕ) : Type 0 where
    pub admin_network : admin.payload.network_id ≡ expected
    pub current : IsCurrent self expected now revoked
    pub issuer : self.payload.issuer_key_id ≡ admin.payload.key_id
    pub permitted : lacks admin.payload.permissions permission_issue_member ≡ false
    pub starts_within : admin.payload.not_before_ms ≤ self.payload.not_before_ms
    pub ends_within : self.payload.expires_at_ms ≤ admin.payload.expires_at_ms
    pub signed : c.signed_by admin.verifying_key self.signed_payload self.signature ≡ true

  abbrev pub verified : MemberCertificate → VerifiedMember
  verified self = record { payload = self.payload }

  pub verify-IsTrusted :
      (self : MemberCertificate) (root : NetworkRootPublic) (expected : Bytes) (now : ℕ)
      (revoked : List ℕ) {v : VerifiedMember}
      → verify self root expected now revoked ≡ ok v
      → IsTrusted self root expected now revoked × (v ≡ verified self)
  unfolding verify
  verify-IsTrusted self root expected now revoked h =
      let (a, b, h) = guard_eq_two _ _ _ _ _ _ h in
      let (i, h) = guard_eq _ _ _ _ h in
      let (d, h) = guard_eq _ _ _ _ h in
      let (s, e, h) = guard_time _ _ _ _ h in
      let (u, h) = guard_false _ _ _ h in
      let (g, h) = guard_signature _ _ _ _ h in
      (
        record {
          root_network = a;
          current = record {
            network = b;
            derived = d;
            begun = s;
            unexpired = e;
            unrevoked = (contains_iff _ _).0 u;
          };
          issuer = i;
          signed = g;
        },
        cc,
      )

  pub IsTrusted-verify :
      (self : MemberCertificate) (root : NetworkRootPublic) (expected : Bytes) (now : ℕ)
      (revoked : List ℕ)
      → IsTrusted self root expected now revoked
      → verify self root expected now revoked ≡ ok (verified self)
  unfolding verify
  IsTrusted-verify self root expected now revoked t =
      pass_eq_two _ _ t.root_network t.current.network
      ∙ pass_eq _ _ t.issuer
      ∙ pass_eq _ _ t.current.derived
      ∙ pass_time _ t.current.begun t.current.unexpired
      ∙ pass_false _ _ ((contains_iff _ _).1 t.current.unrevoked)
      ∙ pass_signature _ t.signed

  pub verify_with_admin-IsDelegated :
      (self : MemberCertificate) (admin : VerifiedAdmin) (expected : Bytes) (now : ℕ)
      (revoked : List ℕ) {v : VerifiedMember}
      → verify_with_admin self admin expected now revoked ≡ ok v
      → IsDelegated self admin expected now revoked × (v ≡ verified self)
  unfolding verify_with_admin verify_bytes
  verify_with_admin-IsDelegated self admin expected now revoked h =
      let (a, b, h) = guard_eq_two _ _ _ _ _ _ h in
      let (p, h) = guard_false _ (lacks admin.payload.permissions permission_issue_member) _ h in
      let (i, h) = guard_eq _ _ _ _ h in
      let (w, x, h) = guard_window _ _ _ _ _ _ h in
      let (d, h) = guard_eq _ _ _ _ h in
      let (s, e, h) = guard_time _ _ _ _ h in
      let (u, h) = guard_false _ _ _ h in
      let (g, h) = guard_signature _ _ _ _ h in
      (
        record {
          admin_network = a;
          current = record {
            network = b;
            derived = d;
            begun = s;
            unexpired = e;
            unrevoked = (contains_iff _ _).0 u;
          };
          issuer = i;
          permitted = p;
          starts_within = w;
          ends_within = x;
          signed = g;
        },
        cc,
      )

  pub IsDelegated-verify_with_admin :
      (self : MemberCertificate) (admin : VerifiedAdmin) (expected : Bytes) (now : ℕ)
      (revoked : List ℕ)
      → IsDelegated self admin expected now revoked
      → verify_with_admin self admin expected now revoked ≡ ok (verified self)
  unfolding verify_with_admin verify_bytes
  IsDelegated-verify_with_admin self admin expected now revoked t =
      pass_eq_two _ _ t.admin_network t.current.network
      ∙ pass_false _ _ t.permitted
      ∙ pass_eq _ _ t.issuer
      ∙ pass_window _ _ t.starts_within t.ends_within
      ∙ pass_eq _ _ t.current.derived
      ∙ pass_time _ t.current.begun t.current.unexpired
      ∙ pass_false _ _ ((contains_iff _ _).1 t.current.unrevoked)
      ∙ pass_signature _ t.signed

  -- The root's check of a member's certificate returns a verified member exactly when root and
  -- certificate are of the expected network, the certificate names the root's key, its member
  -- identifier is derived from its signing key, `now` is in its window, its serial is not revoked and
  -- the root has signed it; the member then has the certificate's payload.
  pub verify_member_iff :
      (self : MemberCertificate) (root : NetworkRootPublic) (expected : Bytes) (now : ℕ)
      (revoked : List ℕ) (v : VerifiedMember)
      → (verify self root expected now revoked ≡ ok v)
        ↔ (IsTrusted self root expected now revoked × (v ≡ verified self))
  verify_member_iff self root expected now revoked v = (
    verify-IsTrusted self root expected now revoked,
    λ t. IsTrusted-verify self root expected now revoked t.0 ∙ ap ok (sym t.1),
  )

  -- The administrator's check of a member's certificate returns a verified member exactly when the
  -- administrator, of the expected network, may issue members, the certificate is of that network,
  -- names the administrator's key, lies in the administrator's window, has a derived member
  -- identifier, is in its own window at `now`, is not revoked and bears the administrator's
  -- signature; the member then has the certificate's payload.
  pub verify-IsDelegated_iff :
      (self : MemberCertificate) (admin : VerifiedAdmin) (expected : Bytes) (now : ℕ)
      (revoked : List ℕ) (v : VerifiedMember)
      → (verify_with_admin self admin expected now revoked ≡ ok v)
        ↔ (IsDelegated self admin expected now revoked × (v ≡ verified self))
  verify-IsDelegated_iff self admin expected now revoked v = (
    verify_with_admin-IsDelegated self admin expected now revoked,
    λ t. IsDelegated-verify_with_admin self admin expected now revoked t.0 ∙ ap ok (sym t.1),
  )
