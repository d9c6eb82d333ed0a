-- ===== src/Config/Snapshot/Valid.antt =====
-- What the steps of `validate` of crates/weaver-config/src/snapshot.rs accept.
use weaver.Prelude.{
  false, ◌∷◌, Bytes, ◌≡◌, ℕ, ◌⊎◌, subst, sym, Bool-cases, refl, bytes_eq, inl, inr,
}
use weaver.Crypto.Admin
use weaver.Crypto.Member
use weaver.Prelude.Results.{
  ok, >>=-eq-ok, fail_if-eq-ok, ok-injective, map_err-eq-ok, ok_or, ◌>>=◌, ok_or-eq-ok,
}
use weaver.Config.Snapshot.Validate.{
  insert_new, admit_admin, collect_serials, certified, admit_app, admit_member, verify_app,
  verify_member,
}
use weaver.Crypto.{Primitives, NetworkRootPublic}
use weaver.Config.Snapshot.{NetworkConfigV1, AdminKey}
use weaver.Crypto.Admin.{VerifiedAdmin, AdminCertificate}
use weaver.Crypto.Member.{VerifiedMember, MemberCertificate}
use weaver.Crypto.App.{VerifiedApp, AppRegistration}
use weaver.Prelude.Loops.{Table, Entries, contains_key, Entries-insert, get}
use mathlib.Core.List.{Memᴰ}
use weaver.Config.{unknown_admin}
use weaver.Crypto.App

pub insert_new-eq-ok :
    {V : Type 0} (what k : Bytes) (v : V) (s : Table V) {t : Table V}
    → insert_new what k v s ≡ ok t
    → (contains_key k s ≡ false) × (t ≡ (k, v) ∷ s)
unfolding insert_new
insert_new-eq-ok what k v s h =
    let (n, h) = fail_if-eq-ok (contains_key k s) _ _ h in (n, sym (ok-injective h))

module _ ⦃c : Primitives⦄ (self : NetworkConfigV1) (root : NetworkRootPublic)
    (expected_network : Bytes) (now_ms : ℕ) where
  -- An administrator that the snapshot lists and the root vouches for.
  pub record IsAdmin (admin : VerifiedAdmin) : Type 0 where
    pub key : AdminKey
    pub listed : Memᴰ key self.admin_keys
    pub certificate : AdminCertificate
    pub decoded : Admin.from_bytes key.certificate ≡ ok certificate
    pub verified :
        Admin.verify certificate root expected_network now_ms (collect_serials self.revoked_serials)
        ≡ ok admin

  -- A member certificate that the root or such an administrator vouches for.
  unfoldable pub IsVouched : MemberCertificate → VerifiedMember → Type 0
  IsVouched certificate member =
      (Member.verify certificate root expected_network now_ms (collect_serials self.revoked_serials)
        ≡ ok member)
      ⊎ ((admin : VerifiedAdmin) × IsAdmin admin
          × (Member.verify_with_admin certificate admin expected_network now_ms
                (collect_serials self.revoked_serials)
              ≡ ok member))

  abbrev pub IsMember : Bytes → VerifiedMember → Type 0
  IsMember raw member =
      (certificate : MemberCertificate) × (Member.from_bytes raw ≡ ok certificate)
      × IsVouched certificate member

  -- The same for an application.
  unfoldable pub IsRegistered : AppRegistration → VerifiedApp → Type 0
  IsRegistered registration app =
      (App.verify registration root expected_network ≡ ok app)
      ⊎ ((admin : VerifiedAdmin) × IsAdmin admin
          × (App.verify_with_admin registration admin expected_network ≡ ok app))

  abbrev pub IsApp : Bytes → VerifiedApp → Type 0
  IsApp raw app =
      (registration : AppRegistration) × (App.from_bytes raw ≡ ok registration)
      × IsRegistered registration app

  abbrev pub Admins : Table VerifiedAdmin → Type 0
  Admins = Entries (λ key admin. IsAdmin admin)

  abbrev pub Members : Table VerifiedMember → Type 0
  Members = Entries (λ key member.
      (raw : Bytes) × Memᴰ raw self.members
      × IsMember raw member
      × (member.payload.member_id ≡ key))

  abbrev pub Apps : Table VerifiedApp → Type 0
  Apps =
      Entries (λ key app.
        (raw : Bytes) × Memᴰ raw self.apps × IsApp raw app × (app.payload.app_addr ≡ key))

  pub admit_admin-Admins :
      (key : AdminKey) (s t : Table VerifiedAdmin)
      → Memᴰ key self.admin_keys
      → Admins s
      → admit_admin self root expected_network now_ms (collect_serials self.revoked_serials) key s
        ≡ ok t
      → Admins t
  unfolding admit_admin
  admit_admin-Admins key s t m all h =
      let (certificate, d, h) = >>=-eq-ok (certified (Admin.from_bytes key.certificate)) _ h in
      let (admin, v, h) =
        >>=-eq-ok (certified (Admin.verify certificate root expected_network now_ms _)) _ h in
      let (n, e) = insert_new-eq-ok _ _ _ s h in
      subst Admins (sym e) (
        Entries-insert _ _ admin s all record {
          key = key;
          listed = m;
          certificate = certificate;
          decoded = map_err-eq-ok _ _ d;
          verified = map_err-eq-ok _ _ v;
        })

  verify_member-verified :
      (admins : Table VerifiedAdmin) (certificate : MemberCertificate) {member : VerifiedMember}
      → Admins admins
      → verify_member self root expected_network now_ms
          (collect_serials self.revoked_serials)
          admins
          certificate
        ≡ ok member
      → IsVouched certificate member
  unfolding verify_member IsVouched
  verify_member-verified admins certificate {member} all h =
      elim (Bool-cases (bytes_eq certificate.payload.issuer_key_id root.key_id)) [
        | inl e ↦
            let h' : certified (
                  Member.verify certificate root expected_network now_ms
                    (collect_serials self.revoked_serials))
                ≡ ok member =
              rw e at h in
            inl (map_err-eq-ok _ _ h')
        | inr e ↦
            let h' : (ok_or (get certificate.payload.issuer_key_id admins) unknown_admin
                  >>= λ admin. certified (
                      Member.verify_with_admin certificate admin expected_network now_ms
                        (collect_serials self.revoked_serials)))
                ≡ ok member =
              rw e at h in
            let (admin, g, k) = ok_or-eq-ok (get _ admins) _ _ h' in
            inr (admin, all _ admin g, map_err-eq-ok _ _ k)
      ]

  pub admit_member-IsMember :
      (admins : Table VerifiedAdmin) (raw : Bytes) (s : Table VerifiedMember)
      {t : Table VerifiedMember}
      → Admins admins
      → admit_member self root expected_network now_ms
          (collect_serials self.revoked_serials)
          admins
          raw
          s
        ≡ ok t
      → (member : VerifiedMember) × IsMember raw member
        × (contains_key member.payload.member_id s ≡ false)
        × (t ≡ (member.payload.member_id, member) ∷ s)
  unfolding admit_member
  admit_member-IsMember admins raw s all h =
      let (certificate, d, h) = >>=-eq-ok (certified (Member.from_bytes raw)) _ h in
      let (member, v, h) = >>=-eq-ok (verify_member _ _ _ _ _ admins certificate) _ h in
      let (n, e) = insert_new-eq-ok _ _ _ s h in
      (
        member,
        (certificate, map_err-eq-ok _ _ d, verify_member-verified admins certificate all v),
        n,
        e,
      )

  pub admit_member-Members :
      (admins : Table VerifiedAdmin) (raw : Bytes) (s t : Table VerifiedMember)
      → Admins admins
      → Memᴰ raw self.members
      → Members s
      → admit_member self root expected_network now_ms
          (collect_serials self.revoked_serials)
          admins
          raw
          s
        ≡ ok t
      → Members t
  admit_member-Members admins raw s t all m old h =
      let (member, v, n, e) = admit_member-IsMember admins raw s all h in
      subst Members (sym e) (Entries-insert _ _ member s old (raw, m, v, refl))

  verify_app-verified :
      (admins : Table VerifiedAdmin) (registration : AppRegistration) {app : VerifiedApp}
      → Admins admins
      → verify_app self root expected_network now_ms admins registration ≡ ok app
      → IsRegistered registration app
  unfolding verify_app IsRegistered
  verify_app-verified admins registration {app} all h =
      elim (Bool-cases (bytes_eq registration.payload.issuer_key_id root.key_id)) [
        | inl e ↦
            let h' : certified (App.verify registration root expected_network) ≡ ok app =
              rw e at h in
            inl (map_err-eq-ok _ _ h')
        | inr e ↦
            let h' : (ok_or (get registration.payload.issuer_key_id admins) unknown_admin
                  >>= λ admin.
                      certified (App.verify_with_admin registration admin expected_network))
                ≡ ok app =
              rw e at h in
            let (admin, g, k) = ok_or-eq-ok (get _ admins) _ _ h' in
            inr (admin, all _ admin g, map_err-eq-ok _ _ k)
      ]

  pub admit_app-IsApp :
      (admins : Table VerifiedAdmin) (raw : Bytes) (s : Table VerifiedApp) {t : Table VerifiedApp}
      → Admins admins
      → admit_app self root expected_network now_ms admins raw s ≡ ok t
      → (app : VerifiedApp) × IsApp raw app
        × (contains_key app.payload.app_addr s ≡ false)
        × (t ≡ (app.payload.app_addr, app) ∷ s)
  unfolding admit_app
  admit_app-IsApp admins raw s all h =
      let (registration, d, h) = >>=-eq-ok (certified (App.from_bytes raw)) _ h in
      let (app, v, h) = >>=-eq-ok (verify_app _ _ _ _ admins registration) _ h in
      let (n, e) = insert_new-eq-ok _ _ _ s h in
      (
        app,
        (registration, map_err-eq-ok _ _ d, verify_app-verified admins registration all v),
        n,
        e,
      )

  pub admit_app-Apps :
      (admins : Table VerifiedAdmin) (raw : Bytes) (s t : Table VerifiedApp)
      → Admins admins
      → Memᴰ raw self.apps
      → Apps s
      → admit_app self root expected_network now_ms admins raw s ≡ ok t
      → Apps t
  admit_app-Apps admins raw s t all m old h =
      let (app, v, n, e) = admit_app-IsApp admins raw s all h in
      subst Apps (sym e) (Entries-insert _ _ app s old (raw, m, v, refl))
