-- ===== src/Config/Snapshot/Loops.antt =====
-- What the loops of `validate` of crates/weaver-config/src/snapshot.rs accept.
use weaver.Prelude.{ap}
use weaver.Prelude.{arith}
use weaver.Prelude.{[], Bytes, ℕ, ◌≡◌, length, All, All-map}
use weaver.Crypto.Admin
use weaver.Crypto.{Primitives, NetworkRootPublic}
use weaver.Config.Snapshot.{NetworkConfigV1, AdminKey}
use weaver.Crypto.Member.{VerifiedMember}
use weaver.Crypto.App.{VerifiedApp}
use weaver.Config.Snapshot.Validate.{
  admit_admin, collect_serials, certified, admit_app, admit_member,
}
use weaver.Crypto.Admin.{AdminCertificate, VerifiedAdmin}
use mathlib.Core.List.{Memᴰ}
use weaver.Prelude.Loops.{
  Table, for_each, for_each_keeps, Entries-none, for_each_steps, for_each-length,
}
use weaver.Config.Snapshot.Valid.{
  IsApp, IsMember, Admins, admit_admin-Admins, Apps, Members, admit_app-Apps, admit_app-IsApp,
  admit_member-Members, admit_member-IsMember,
}
use weaver.Prelude.Results.{ok, >>=-eq-ok, map_err-eq-ok}

module _ ⦃c : Primitives⦄ (self : NetworkConfigV1) (root : NetworkRootPublic)
    (expected_network : Bytes) (now_ms : ℕ) where
  -- An administrator's certificate that the root vouches for.
  abbrev pub IsCertified : AdminKey → Type 0
  IsCertified key =
      (certificate : AdminCertificate) × (admin : VerifiedAdmin) × (Admin.from_bytes key.certificate
        ≡ ok certificate)
      × (Admin.verify certificate root expected_network now_ms
            (collect_serials self.revoked_serials)
          ≡ ok admin)

  -- The member `id` of the snapshot.
  abbrev pub IsListedMember : Bytes → VerifiedMember → Type 0
  IsListedMember id member =
      (raw : Bytes) × Memᴰ raw self.members
      × IsMember self root expected_network now_ms raw member
      × (member.payload.member_id ≡ id)

  -- The application at `app_addr` in the snapshot.
  abbrev pub IsListedApp : Bytes → VerifiedApp → Type 0
  IsListedApp app_addr app =
      (raw : Bytes) × Memᴰ raw self.apps
      × IsApp self root expected_network now_ms raw app
      × (app.payload.app_addr ≡ app_addr)

  pub for_each-Admins :
      {admins : Table VerifiedAdmin}
      → for_each
          (admit_admin self root expected_network now_ms (collect_serials self.revoked_serials))
          self.admin_keys
          []
        ≡ ok admins
      → Admins self root expected_network now_ms admins × All IsCertified self.admin_keys
  unfolding admit_admin
  for_each-Admins h = (
    for_each_keeps _ (Admins self root expected_network now_ms) self.admin_keys
        (λ key s t. admit_admin-Admins self root expected_network now_ms key s t) (Entries-none _)
        h,
    All-map
        (λ key (s, t, u, h).
          let (certificate, d, h) = >>=-eq-ok (certified (Admin.from_bytes key.certificate)) _ h in
          let (admin, v, h) = >>=-eq-ok (certified (Admin.verify certificate _ _ _ _)) _ h in
          (certificate, admin, map_err-eq-ok _ _ d, map_err-eq-ok _ _ v))
        self.admin_keys (for_each_steps _ (λ s. Unit {0}) self.admin_keys (λ key s t u e. tt) tt h),
  )

  pub for_each-Members :
      (admins : Table VerifiedAdmin) {members : Table VerifiedMember}
      → Admins self root expected_network now_ms admins
      → for_each
          (admit_member self root expected_network now_ms
            (collect_serials self.revoked_serials)
            admins)
          self.members
          []
        ≡ ok members
      → Members self root expected_network now_ms members
        × All
            (λ raw.
              (member : VerifiedMember) × IsMember self root expected_network now_ms raw member)
            self.members
  for_each-Members admins all h = (
    for_each_keeps _ (Members self root expected_network now_ms) self.members
        (λ raw s t. admit_member-Members self root expected_network now_ms admins raw s t all)
        (Entries-none _) h,
    All-map
        (λ raw (s, t, u, h).
          let (member, v, new, e) =
            admit_member-IsMember self root expected_network now_ms admins raw s all h in
          (member, v))
        self.members (for_each_steps _ (λ s. Unit {0}) self.members (λ raw s t u e. tt) tt h),
  )

  -- Every accepted certificate has its own entry. The key of an insertion is in the verified
  -- certificate, not in the raw one, so the length is counted here.
  pub members_length :
      (admins : Table VerifiedAdmin) {members : Table VerifiedMember}
      → Admins self root expected_network now_ms admins
      → for_each
          (admit_member self root expected_network now_ms
            (collect_serials self.revoked_serials)
            admins)
          self.members
          []
        ≡ ok members
      → length members ≡ length self.members
  members_length admins all h =
      let counted =
        for_each-length _
          (λ raw s t e.
            let (member, v, new, f) =
              admit_member-IsMember self root expected_network now_ms admins raw s all e in
            ap length f)
          self.members [] _ h in
      omega (arith, counted)

  pub for_each-Apps :
      (admins : Table VerifiedAdmin) {apps : Table VerifiedApp}
      → Admins self root expected_network now_ms admins
      → for_each (admit_app self root expected_network now_ms admins) self.apps [] ≡ ok apps
      → Apps self root expected_network now_ms apps
        × All
            (λ raw. (app : VerifiedApp) × IsApp self root expected_network now_ms raw app)
            self.apps
  for_each-Apps admins all h = (
    for_each_keeps _ (Apps self root expected_network now_ms) self.apps
        (λ raw s t. admit_app-Apps self root expected_network now_ms admins raw s t all)
        (Entries-none _) h,
    All-map
        (λ raw (s, t, u, h).
          let (app, v, new, e) =
            admit_app-IsApp self root expected_network now_ms admins raw s all h in
          (app, v))
        self.apps (for_each_steps _ (λ s. Unit {0}) self.apps (λ raw s t u e. tt) tt h),
  )
