-- ===== src/Config/Snapshot/Validate.antt =====
-- `NetworkConfigV1::validate` of crates/weaver-config/src/snapshot.rs. Each loop of the source is a
-- step function under `for_each`; a `HashMap` is a `Table`, a `HashSet` a list or a `Table` of units.
use weaver.Crypto.Admin
use weaver.Crypto.Member
use weaver.Crypto.Endpoint
use weaver.Crypto.App
use weaver.Crypto.Binding
use weaver.Prelude.Loops.{Table, get, contains_key, for_each}
use weaver.Prelude.Results.{Result, ok, ◌>>=◌, ◌>>◌, fail_if, map_err, ok_or}
use weaver.Config.Snapshot.{
  NetworkConfigV1, PresenceServiceDescriptor, RelayDescriptor, validate_url, AdminKey,
  VirtualDnsRecord, validate_shape,
}
use weaver.Crypto.{CertificateError, Primitives, NetworkRootPublic, contains}
use weaver.Config.{
  SnapshotError, duplicate_entry, unknown_application, unknown_member, unknown_admin,
}
use weaver.Crypto.Binding.Codec.{AppBindingPayload, AppRole}
use weaver.Crypto.App.{VerifiedApp, AppRegistration}
use weaver.Crypto.Admin.{VerifiedAdmin}
use weaver.Crypto.Member.{VerifiedMember, MemberCertificate}
use weaver.Prelude.{
  ℕ, Bytes, List, [], ◌∷◌, if◌then◌else◌, ◌++◌, leb, ltb, codes, length, not, bytes_eq, ◌||◌, ◌==◌,
}

pub record ValidatedNetworkConfig : Type 0 where
  pub inner : NetworkConfigV1

-- `?` on a `CertificateError`
abbrev pub certified : {A : Type 0} → Result CertificateError A → Result SnapshotError A
certified = map_err SnapshotError.credential

-- `if map.insert(key, value).is_some() { return Err(DuplicateEntry(what)); }`
unfoldable pub insert_new :
    {V : Type 0} → Bytes → Bytes → V → Table V → Result SnapshotError (Table V)
insert_new what key value entries = do
  fail_if (contains_key key entries) (duplicate_entry what)
  ok ((key, value) ∷ entries)

-- `self.revoked_serials.iter().copied().collect::<HashSet<_>>()`
unfoldable pub collect_serials : List ℕ → List ℕ
collect_serials [] = []
collect_serials (serial ∷ serials) =
    let set = collect_serials serials in if contains set serial then set else serial ∷ set

-- `AppRole` as it is compared.
abbrev pub role_key : AppRole → Bytes
role_key AppRole.client = 0 ∷ []
role_key AppRole.server = 1 ∷ []

-- `(payload.app_addr, payload.subject, payload.role)`; the first two have 32 bytes each.
abbrev pub binding_key : AppBindingPayload → Bytes
binding_key payload = role_key payload.role ++ (payload.app_addr ++ payload.subject)

unfoldable pub check_relay :
    ℕ → RelayDescriptor → Table (Unit {0}) → Result SnapshotError (Table (Unit {0}))
check_relay now_ms relay relay_endpoints = do
  validate_url relay.url
  fail_if (leb relay.expires_at_ms now_ms) SnapshotError.expired
  insert_new (codes "relay endpoint") relay.endpoint_id tt relay_endpoints

unfoldable pub check_presence :
    ℕ → PresenceServiceDescriptor → Table (Unit {0}) → Result SnapshotError (Table (Unit {0}))
check_presence now_ms service presence_endpoints = do
  validate_url service.url
  fail_if (leb service.expires_at_ms now_ms) SnapshotError.expired
  insert_new (codes "presence endpoint") service.endpoint_id tt presence_endpoints

unfoldable pub validate_descriptors :
    List RelayDescriptor → List PresenceServiceDescriptor → ℕ → Result SnapshotError (Unit {0})
validate_descriptors relays presence now_ms = do
  relay_endpoints ← for_each (check_relay now_ms) relays []
  presence_endpoints ← for_each (check_presence now_ms) presence []
  ok tt

-- The loop over `virtual_dns`.
unfoldable pub check_name :
    NetworkConfigV1
    → Table VerifiedApp
    → VirtualDnsRecord
    → Table (Unit {0})
    → Result SnapshotError (Table (Unit {0}))
check_name self apps record' virtual_names = do
  fail_if (not (contains_key record'.app_addr apps)) unknown_application
  fail_if
      (leb record'.expires_at_ms self.issued_at_ms || ltb self.expires_at_ms record'.expires_at_ms)
      SnapshotError.invalid_validity_window
  insert_new (codes "virtual DNS name") record'.name tt virtual_names

module _ ⦃c : Primitives⦄ (self : NetworkConfigV1) (root : NetworkRootPublic)
    (expected_network : Bytes) (now_ms : ℕ) where
  -- The loop over `admin_keys`.
  unfoldable pub admit_admin :
      List ℕ → AdminKey → Table VerifiedAdmin → Result SnapshotError (Table VerifiedAdmin)
  admit_admin revoked key admins = do
    certificate ← certified (Admin.from_bytes key.certificate)
    admin ← certified (Admin.verify certificate root expected_network now_ms revoked)
    insert_new (codes "admin key") admin.payload.key_id admin admins

  -- Who issued a certificate: the root, or an administrator of the snapshot.
  unfoldable pub verify_member :
      List ℕ → Table VerifiedAdmin → MemberCertificate → Result SnapshotError VerifiedMember
  verify_member revoked admins certificate =
      if bytes_eq certificate.payload.issuer_key_id root.key_id
      then certified (Member.verify certificate root expected_network now_ms revoked)
      else do
        admin ← ok_or (get certificate.payload.issuer_key_id admins) unknown_admin
        certified (Member.verify_with_admin certificate admin expected_network now_ms revoked)

  -- The loop over `members`.
  unfoldable pub admit_member :
      List ℕ
      → Table VerifiedAdmin
      → Bytes
      → Table VerifiedMember
      → Result SnapshotError (Table VerifiedMember)
  admit_member revoked admins raw members = do
    certificate ← certified (Member.from_bytes raw)
    member ← verify_member revoked admins certificate
    insert_new (codes "member") member.payload.member_id member members

  -- The loop over `endpoint_bindings`.
  unfoldable pub check_endpoint :
      Table VerifiedMember → Bytes → Table (Unit {0}) → Result SnapshotError (Table (Unit {0}))
  check_endpoint members raw endpoints = do
    binding ← certified (Endpoint.from_bytes raw)
    member ← ok_or (get binding.payload.member_id members) unknown_member
    certified (Endpoint.verify binding member expected_network binding.payload.endpoint_id now_ms)
    insert_new (codes "endpoint") binding.payload.endpoint_id tt endpoints

  unfoldable pub verify_app :
      Table VerifiedAdmin → AppRegistration → Result SnapshotError VerifiedApp
  verify_app admins registration =
      if bytes_eq registration.payload.issuer_key_id root.key_id
      then certified (App.verify registration root expected_network)
      else do
        admin ← ok_or (get registration.payload.issuer_key_id admins) unknown_admin
        certified (App.verify_with_admin registration admin expected_network)

  -- The loop over `apps`.
  unfoldable pub admit_app :
      Table VerifiedAdmin → Bytes → Table VerifiedApp → Result SnapshotError (Table VerifiedApp)
  admit_app admins raw apps = do
    registration ← certified (App.from_bytes raw)
    app ← verify_app admins registration
    insert_new (codes "application") app.payload.app_addr app apps

  -- The loop over `app_bindings`.
  unfoldable pub check_binding :
      Table VerifiedMember
      → Table VerifiedApp
      → Bytes
      → Table (Unit {0})
      → Result SnapshotError (Table (Unit {0}))
  check_binding members apps raw binding_subjects = do
    binding ← certified (Binding.from_bytes raw)
    app ← ok_or (get binding.payload.app_addr apps) unknown_application
    member ← ok_or (get binding.payload.subject members) unknown_member
    fail_if (ltb self.policies.max_services_per_binding (length binding.payload.services))
        SnapshotError.policy_limit_exceeded
    certified (Binding.verify binding app member expected_network now_ms)
    insert_new (codes "application binding") (binding_key binding.payload) tt binding_subjects

  -- The checks before the loops.
  unfoldable pub check_header : Result SnapshotError (Unit {0})
  check_header = do
    validate_shape self
    fail_if
        (not (bytes_eq self.network_id expected_network)
          || not (bytes_eq root.network_id expected_network))
        SnapshotError.wrong_network
    fail_if (ltb now_ms self.issued_at_ms) SnapshotError.not_yet_valid
    fail_if (leb self.expires_at_ms now_ms) SnapshotError.expired
    fail_if (not (length (collect_serials self.revoked_serials) == length self.revoked_serials))
        (duplicate_entry (codes "revoked serial"))

  -- `NetworkConfigV1::validate`
  unfoldable pub validate : Result SnapshotError ValidatedNetworkConfig
  validate = do
    check_header
    let revoked = collect_serials self.revoked_serials
    admins ← for_each (admit_admin revoked) self.admin_keys []
    members ← for_each (admit_member revoked admins) self.members []
    fail_if (ltb self.policies.max_members (length members)) SnapshotError.policy_limit_exceeded
    endpoints ← for_each (check_endpoint members) self.endpoint_bindings []
    apps ← for_each (admit_app admins) self.apps []
    binding_subjects ← for_each (check_binding members apps) self.app_bindings []
    virtual_names ← for_each (check_name self apps) self.virtual_dns []
    validate_descriptors self.relays self.presence_services now_ms
    ok record { inner = self }
