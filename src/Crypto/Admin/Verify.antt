-- ===== src/Crypto/Admin/Verify.antt =====
-- What the root's check of an administrator's certificate accepts.
use weaver.Prelude.{ℕ, ◌≤◌, ◌<◌, ◌≡◌, ◌∙◌, true, Bytes, List, ◌↔◌, ap, sym}
use weaver.Prelude.Results.{ok}
use weaver.Crypto.{Primitives, NetworkRootPublic, admin_key_id}
use weaver.Crypto.Laws.{
  contains_iff, IsAbsent, guard_eq, guard_eq_two, guard_false, guard_time, guard_signature,
  guard_key, pass_eq, pass_eq_two, pass_false, pass_time, pass_signature, pass_key,
}
use weaver.Crypto.Admin.{AdminCertificate, VerifiedAdmin, verify}

module _ ⦃c : Primitives⦄ where
  -- All that the root vouches for in an administrator's certificate.
  pub record IsTrusted (self : AdminCertificate) (root : NetworkRootPublic) (expected : Bytes)
      (now : ℕ) (revoked : List ℕ) : Type 0 where
    pub root_network : root.network_id ≡ expected
    pub network : self.payload.network_id ≡ expected
    pub issuer : self.payload.issuer_key_id ≡ root.key_id
    pub derived : admin_key_id self.payload.public_key ≡ self.payload.key_id
    pub begun : self.payload.not_before_ms ≤ now
    pub unexpired : now < self.payload.expires_at_ms
    pub unrevoked : IsAbsent revoked self.payload.serial
    pub signed : c.signed_by root.verifying_key self.signed_payload self.signature ≡ true
    pub keyed : c.is_key self.payload.public_key ≡ true

  abbrev pub verified : AdminCertificate → VerifiedAdmin
  verified self = record { payload = self.payload; verifying_key = self.payload.public_key }

  pub verify-IsTrusted :
      (self : AdminCertificate) (root : NetworkRootPublic) (expected : Bytes) (now : ℕ)
      (revoked : List ℕ) {v : VerifiedAdmin}
      → verify self root expected now revoked ≡ ok v
      → IsTrusted self root expected now revoked × (v ≡ verified self)
  unfolding verify
  verify-IsTrusted self root expected now revoked h =
      let (a, b, h) = guard_eq_two _ _ _ _ _ _ h in
      let (i, h) = guard_eq _ _ _ _ h in
      let (d, h) = guard_eq _ _ _ _ h in
      let (s, e, h) = guard_time _ _ _ _ h in
      let (u, h) = guard_false _ _ _ h in
      let (g, h) = guard_signature _ _ _ _ h in
      let (k, h) = guard_key _ _ h in
      (
        record {
          root_network = a;
          network = b;
          issuer = i;
          derived = d;
          begun = s;
          unexpired = e;
          unrevoked = (contains_iff _ _).0 u;
          signed = g;
          keyed = k;
        },
        cc,
      )

  pub IsTrusted-verify :
      (self : AdminCertificate) (root : NetworkRootPublic) (expected : Bytes) (now : ℕ)
      (revoked : List ℕ)
      → IsTrusted self root expected now revoked
      → verify self root expected now revoked ≡ ok (verified self)
  unfolding verify
  IsTrusted-verify self root expected now revoked t =
      pass_eq_two _ _ t.root_network t.network
      ∙ pass_eq _ _ t.issuer
      ∙ pass_eq _ _ t.derived
      ∙ pass_time _ t.begun t.unexpired
      ∙ pass_false _ _ ((contains_iff _ _).1 t.unrevoked)
      ∙ pass_signature _ t.signed
      ∙ pass_key _ t.keyed

  -- The root's check returns a verified administrator exactly when the certificate is trusted, and
  -- then it returns the certificate's payload and key: the root and the certificate are of the
  -- expected network, the certificate names the root's key, its key identifier is derived from its
  -- public key, which is a key, `now` is in its window, its serial is not revoked, and the root has
  -- signed it.
  pub verify_admin_iff :
      (self : AdminCertificate) (root : NetworkRootPublic) (expected : Bytes) (now : ℕ)
      (revoked : List ℕ) (v : VerifiedAdmin)
      → (verify self root expected now revoked ≡ ok v)
        ↔ (IsTrusted self root expected now revoked × (v ≡ verified self))
  verify_admin_iff self root expected now revoked v = (
    verify-IsTrusted self root expected now revoked,
    λ t. IsTrusted-verify self root expected now revoked t.0 ∙ ap ok (sym t.1),
  )
