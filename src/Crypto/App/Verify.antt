-- ===== src/Crypto/App/Verify.antt =====
-- From an owner's request to the registration that an administrator signs, and its check.
use weaver.Crypto.App.{
  AppRegistration, issue_by_admin, verify_request, verify_with_admin, AppRegistrationRequest,
  create_request, VerifiedApp, VerifiedAppRegistrationRequest, sign_payload,
}
use weaver.Crypto.Admin.{VerifiedAdmin, verify_bytes}
use weaver.Prelude.{Bytes, ℕ, ◌≡◌, false, true, ◌∙◌, sym, ap, refl, subst, ◌↔◌}
use weaver.Prelude.Results.{ok, ok-injective}
use weaver.Crypto.Laws.{
  guard_eq_two, pass_eq, pass_eq_two, guard_false, guard_eq, pass_false, pass_key, guard_key,
  guard_signature, pass_signature,
}
use weaver.Crypto.App.RequestCodec.{AppRegistrationRequestPayload}
use weaver.Crypto.{
  Primitives, IsSound, lacks, derive_app_addr, permission_register_app, admin_key_id,
}

module _ ⦃c : Primitives⦄ where
  -- A request that `verify_request` accepts names the address derived from its key.
  pub verify_request_sound :
      (self : AppRegistrationRequest) (network : Bytes) {v : VerifiedAppRegistrationRequest}
      → verify_request self network ≡ ok v
      → (self.payload.network_id ≡ network)
        × (derive_app_addr self.payload.app_root_public_key ≡ self.payload.app_addr)
        × (c.signed_by self.payload.app_root_public_key self.signed_payload self.signature ≡ true)
        × (v.payload ≡ self.payload)
  unfolding verify_request
  verify_request_sound self network h =
      let (n, h) = guard_eq _ _ _ _ h in
      let (d, h) = guard_eq _ _ _ _ h in
      let (k, h) = guard_key _ _ h in
      let (g, h) = guard_signature _ _ _ _ h in
      (n, d, g, ap (λ v. v.payload) (sym (ok-injective h)))

  pub create_request-verify_request :
      IsSound c
      → (app_root network : Bytes) (policy : ℕ)
      → verify_request (create_request app_root network policy) network
        ≡ ok (record { payload = (create_request app_root network policy).payload })
  unfolding verify_request create_request
  create_request-verify_request s app_root network policy =
      pass_eq _ _ {x = network} refl
      ∙ pass_eq _ _ {x = derive_app_addr (c.public_key app_root)} refl
      ∙ pass_key _ (s.public_is_key app_root)
      ∙ pass_signature _ (s.accepts app_root _)

  -- What an administrator's registration must satisfy.
  pub record IsRegistered (self : AppRegistration) (admin : VerifiedAdmin) (expected : Bytes)
      : Type 0 where
    pub admin_network : admin.payload.network_id ≡ expected
    pub network : self.payload.network_id ≡ expected
    pub permitted : lacks admin.payload.permissions permission_register_app ≡ false
    pub issuer : self.payload.issuer_key_id ≡ admin.payload.key_id
    pub derived : derive_app_addr self.payload.app_root_public_key ≡ self.payload.app_addr
    pub signed : c.signed_by admin.verifying_key self.signed_payload self.signature ≡ true

  pub verify_with_admin-IsRegistered :
      (self : AppRegistration) (admin : VerifiedAdmin) (expected : Bytes) {v : VerifiedApp}
      → verify_with_admin self admin expected ≡ ok v
      → IsRegistered self admin expected × (v ≡ record { payload = self.payload })
  unfolding verify_with_admin verify_bytes
  verify_with_admin-IsRegistered self admin expected h =
      let (a, n, h) = guard_eq_two _ _ _ _ _ _ h in
      let (p, h) = guard_false _ (lacks admin.payload.permissions permission_register_app) _ h in
      let (i, h) = guard_eq _ _ _ _ h in
      let (d, h) = guard_eq _ _ _ _ h in
      let (g, h) = guard_signature _ _ _ _ h in
      (
        record {
          admin_network = a;
          network = n;
          permitted = p;
          issuer = i;
          derived = d;
          signed = g;
        },
        sym (ok-injective h),
      )

  pub IsRegistered-verify_with_admin :
      (self : AppRegistration) (admin : VerifiedAdmin) (expected : Bytes)
      → IsRegistered self admin expected
      → verify_with_admin self admin expected ≡ ok (record { payload = self.payload })
  unfolding verify_with_admin verify_bytes
  IsRegistered-verify_with_admin self admin expected t =
      pass_eq_two _ _ t.admin_network t.network
      ∙ pass_false _ _ t.permitted
      ∙ pass_eq _ _ t.issuer
      ∙ pass_eq _ _ t.derived
      ∙ pass_signature _ t.signed

  -- The check of a registration returns a verified application exactly when the administrator and
  -- the registration are of the expected network, the administrator may register applications and
  -- is the one it names, the address is derived from the application's key, and the administrator
  -- has signed it; the application then has the registration's payload.
  pub verify_registration_iff :
      (self : AppRegistration) (admin : VerifiedAdmin) (expected : Bytes) (v : VerifiedApp)
      → (verify_with_admin self admin expected ≡ ok v)
        ↔ (IsRegistered self admin expected × (v ≡ record { payload = self.payload }))
  verify_registration_iff self admin expected v = (
    verify_with_admin-IsRegistered self admin expected,
    λ t. IsRegistered-verify_with_admin self admin expected t.0 ∙ ap ok (sym t.1),
  )

  -- With sound primitives, what an administrator issues for a request that `verify_request`
  -- accepted in the administrator's network passes the check of that administrator, with the
  -- verifying key of its own certificate, and keeps the address, the key and the policy of the
  -- request.
  pub verify_registration-issue_by_admin :
      IsSound c
      → (admin : Bytes) (v : VerifiedAdmin) (request : AppRegistrationRequest)
        (q : VerifiedAppRegistrationRequest)
      → v.verifying_key ≡ v.payload.public_key
      → verify_request request v.payload.network_id ≡ ok q
      → {app : AppRegistration} → issue_by_admin admin v.payload q ≡ ok app
      → (verify_with_admin app v v.payload.network_id ≡ ok (record { payload = app.payload }))
        × (app.payload.app_addr ≡ request.payload.app_addr)
        × (app.payload.app_root_public_key ≡ request.payload.app_root_public_key)
        × (app.payload.policy ≡ request.payload.policy)
  unfolding issue_by_admin sign_payload
  verify_registration-issue_by_admin s admin v request q same r h =
      let (n, d, g, e) = verify_request_sound request v.payload.network_id r in
      let (k, i, h) =
        guard_eq_two _ (c.public_key admin) v.payload.public_key (admin_key_id (c.public_key admin))
          v.payload.key_id _ h in
      let (p, h) = guard_false _ (lacks v.payload.permissions permission_register_app) _ h in
      let (w, h) = guard_eq _ q.payload.network_id v.payload.network_id _ h in
      let f = sym (ok-injective h) in
      rw f (
        IsRegistered-verify_with_admin _ _ _ (record {
          admin_network = refl;
          network = w;
          permitted = p;
          issuer = refl;
          derived =
              subst
                (λ (t : AppRegistrationRequestPayload).
                  derive_app_addr t.app_root_public_key ≡ t.app_addr)
                (sym e) d;
          signed = rw (same, ← k) (s.accepts admin _);
        }),
        ap (λ t. t.app_addr) e,
        ap (λ t. t.app_root_public_key) e,
        ap (λ t. t.policy) e,
      )
