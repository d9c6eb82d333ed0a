-- ===== src/Config/Snapshot.antt =====
-- `NetworkConfigV1` of crates/weaver-config/src/snapshot.rs: the plaintext of a configuration
-- revision, its shape, and its encoding. What a `push` function appends is its result.
pub mod Codec
pub mod Decode
pub mod Validate
pub mod Valid
pub mod Loops
pub mod Bindings
pub mod Accepted
pub mod Resolve
pub mod Admins
use weaver.Prelude.{
  [], Bytes, List, leb, ℕ, if◌then◌else◌, length, ltb, map, ◌*◌, ◌++◌, ◌∷◌, ◌==◌, ◌||◌, not,
}
use weaver.Prelude.Results.{Result, ok, err, ◌>>=◌, ◌>>◌, fail_if}
use weaver.Wire.{to_be}
use weaver.Core.{is_ascii}
use weaver.Config.{SnapshotError}

-- b"WVRSNP\0\x01" and b"WVRSNP\0\x02"
abbrev pub snapshot_magic_v1 : Bytes
snapshot_magic_v1 = b'W' ∷ b'V' ∷ b'R' ∷ b'S' ∷ b'N' ∷ b'P' ∷ 0 ∷ 1 ∷ []

abbrev pub snapshot_magic_v2 : Bytes
snapshot_magic_v2 = b'W' ∷ b'V' ∷ b'R' ∷ b'S' ∷ b'N' ∷ b'P' ∷ 0 ∷ 2 ∷ []

abbrev pub max_members : ℕ
max_members = 256

abbrev pub max_apps : ℕ
max_apps = 256

abbrev pub max_bindings : ℕ
max_bindings = 1024

abbrev pub max_virtual_dns_records : ℕ
max_virtual_dns_records = 1024

abbrev pub max_relays : ℕ
max_relays = 64

abbrev pub max_presence_services : ℕ
max_presence_services = 64

abbrev pub max_admin_keys : ℕ
max_admin_keys = 16

abbrev pub max_revoked_serials : ℕ
max_revoked_serials = 4096

abbrev pub max_credential_bytes : ℕ
max_credential_bytes = 16 * 1024

abbrev pub max_url_bytes : ℕ
max_url_bytes = 2048

pub record AdminKey : Type 0 where
  pub certificate : Bytes

-- `roles` are the bits of `RelayRoles`.
pub record RelayDescriptor : Type 0 where
  pub endpoint_id : Bytes
  pub url : Bytes
  pub roles : ℕ
  pub expires_at_ms : ℕ

pub record PresenceServiceDescriptor : Type 0 where
  pub endpoint_id : Bytes
  pub url : Bytes
  pub expires_at_ms : ℕ

pub record VirtualDnsRecord : Type 0 where
  pub name : Bytes
  pub app_addr : Bytes
  pub expires_at_ms : ℕ

pub record EpochSecrets : Type 0 where
  pub presence_index_seed : Bytes
  pub presence_encryption_seed : Bytes
  pub lan_discovery_seed : Bytes
  pub relay_access_seed : Bytes

pub record NetworkPolicy : Type 0 where
  pub flags : ℕ
  pub max_members : ℕ
  pub max_services_per_binding : ℕ

pub record NetworkConfigV1 : Type 0 where
  pub network_id : Bytes
  pub epoch : ℕ
  pub revision : ℕ
  pub previous_hash : Bytes
  pub issued_at_ms : ℕ
  pub expires_at_ms : ℕ
  pub admin_keys : List AdminKey
  pub members : List Bytes
  pub endpoint_bindings : List Bytes
  pub revoked_serials : List ℕ
  pub apps : List Bytes
  pub app_bindings : List Bytes
  pub virtual_dns : List VirtualDnsRecord
  pub relays : List RelayDescriptor
  pub presence_services : List PresenceServiceDescriptor
  pub epoch_secrets : EpochSecrets
  pub policies : NetworkPolicy

unfoldable pub validate_url : Bytes → Result SnapshotError (Unit {0})
validate_url url =
    fail_if ((length url == 0) || (ltb max_url_bytes (length url) || not (is_ascii url)))
      SnapshotError.invalid_length

unfoldable pub check_len : ℕ → ℕ → Result SnapshotError (Unit {0})
check_len actual maximum = if leb actual maximum then ok tt else err SnapshotError.invalid_length

-- `u16::try_from`
unfoldable pub push_count : ℕ → Result SnapshotError Bytes
push_count count = do fail_if (ltb 65535 count) SnapshotError.invalid_length; ok (to_be 2 count)

unfoldable pub push_blob : Bytes → Result SnapshotError Bytes
push_blob value = do
  fail_if ((length value == 0) || ltb max_credential_bytes (length value))
      SnapshotError.invalid_length
  len ← push_count (length value)
  ok (len ++ value)

-- `for value in values { push(out, value)?; }`
unfoldable pub push_each :
    {A : Type 0} → (A → Result SnapshotError Bytes) → List A → Result SnapshotError Bytes
push_each push [] = ok []
push_each push (value ∷ values) = do
  bytes ← push value
  rest ← push_each push values
  ok (bytes ++ rest)

-- A count, and the values.
unfoldable pub push_list :
    {A : Type 0} → (A → Result SnapshotError Bytes) → List A → Result SnapshotError Bytes
push_list push values = do
  count ← push_count (length values)
  body ← push_each push values
  ok (count ++ body)

unfoldable pub push_blobs : List Bytes → Result SnapshotError Bytes
push_blobs = push_list push_blob

unfoldable pub push_string : Bytes → Result SnapshotError Bytes
push_string value = do validate_url value; len ← push_count (length value); ok (len ++ value)

unfoldable pub push_admin_key : AdminKey → Result SnapshotError Bytes
push_admin_key key = push_blob key.certificate

unfoldable pub push_serial : ℕ → Result SnapshotError Bytes
push_serial serial = ok (to_be 8 serial)

unfoldable pub push_dns_record : VirtualDnsRecord → Result SnapshotError Bytes
push_dns_record record' = do
  name ← push_string record'.name
  ok (name ++ (record'.app_addr ++ to_be 8 record'.expires_at_ms))

unfoldable pub push_relay : RelayDescriptor → Result SnapshotError Bytes
push_relay relay = do
  url ← push_string relay.url
  ok (relay.endpoint_id ++ (url ++ (to_be 4 relay.roles ++ to_be 8 relay.expires_at_ms)))

unfoldable pub push_presence : PresenceServiceDescriptor → Result SnapshotError Bytes
push_presence service = do
  url ← push_string service.url
  ok (service.endpoint_id ++ (url ++ to_be 8 service.expires_at_ms))

abbrev pub credentials : NetworkConfigV1 → List Bytes
credentials self =
    map (λ (key : AdminKey). key.certificate) self.admin_keys
    ++ (self.members ++ (self.endpoint_bindings ++ (self.apps ++ self.app_bindings)))

unfoldable pub check_credentials : List Bytes → Result SnapshotError (Unit {0})
check_credentials [] = ok tt
check_credentials (raw ∷ rest) = do
  fail_if ((length raw == 0) || ltb max_credential_bytes (length raw)) SnapshotError.invalid_length
  check_credentials rest

unfoldable pub validate_shape : NetworkConfigV1 → Result SnapshotError (Unit {0})
validate_shape self = do
  fail_if (leb self.expires_at_ms self.issued_at_ms) SnapshotError.invalid_validity_window
  check_len (length self.admin_keys) max_admin_keys
  check_len (length self.members) max_members
  check_len (length self.endpoint_bindings) max_members
  check_len (length self.revoked_serials) max_revoked_serials
  check_len (length self.apps) max_apps
  check_len (length self.app_bindings) max_bindings
  check_len (length self.virtual_dns) max_virtual_dns_records
  check_len (length self.relays) max_relays
  check_len (length self.presence_services) max_presence_services
  check_credentials (credentials self)
  fail_if
      ((self.policies.max_members == 0)
        || (ltb max_members self.policies.max_members
            || ((self.policies.max_services_per_binding == 0)
                || ltb 64 self.policies.max_services_per_binding)))
      SnapshotError.policy_limit_exceeded

abbrev pub secret_bytes : EpochSecrets → Bytes
secret_bytes secrets =
    secrets.presence_index_seed
    ++ (secrets.presence_encryption_seed
        ++ (secrets.lan_discovery_seed ++ secrets.relay_access_seed))

abbrev pub policy_bytes : NetworkPolicy → Bytes
policy_bytes policies =
    to_be 4 policies.flags
    ++ (to_be 2 policies.max_members ++ to_be 2 policies.max_services_per_binding)

-- The encoded lists of a snapshot.
pub record Sections : Type 0 where
  pub admin_keys : Bytes
  pub members : Bytes
  pub endpoint_bindings : Bytes
  pub revoked_serials : Bytes
  pub apps : Bytes
  pub app_bindings : Bytes
  pub virtual_dns : Bytes
  pub relays : Bytes
  pub presence_services : Bytes

-- The middle of `to_bytes`, in its order.
unfoldable pub push_sections : NetworkConfigV1 → Result SnapshotError Sections
push_sections self = do
  admin_keys ← push_list push_admin_key self.admin_keys
  members ← push_blobs self.members
  endpoint_bindings ← push_blobs self.endpoint_bindings
  revoked_serials ← push_list push_serial self.revoked_serials
  apps ← push_blobs self.apps
  app_bindings ← push_blobs self.app_bindings
  virtual_dns ← push_list push_dns_record self.virtual_dns
  relays ← push_list push_relay self.relays
  presence_services ← push_list push_presence self.presence_services
  ok record {
    admin_keys = admin_keys;
    members = members;
    endpoint_bindings = endpoint_bindings;
    revoked_serials = revoked_serials;
    apps = apps;
    app_bindings = app_bindings;
    virtual_dns = virtual_dns;
    relays = relays;
    presence_services = presence_services;
  }

-- What `to_bytes` writes around the lists.
abbrev pub around : NetworkConfigV1 → Bytes → Bytes
around self lists =
    snapshot_magic_v2
    ++ (self.network_id
        ++ (to_be 8 self.epoch
            ++ (to_be 8 self.revision
                ++ (self.previous_hash
                    ++ (to_be 8 self.issued_at_ms ++ (to_be 8 self.expires_at_ms ++ lists))))))

abbrev pub assemble : NetworkConfigV1 → Sections → Bytes
assemble self sections = around self (
    sections.admin_keys
    ++ (sections.members
        ++ (sections.endpoint_bindings
            ++ (sections.revoked_serials
                ++ (sections.apps
                    ++ (sections.app_bindings
                        ++ (sections.virtual_dns
                            ++ (sections.relays
                                ++ (sections.presence_services
                                    ++ (secret_bytes self.epoch_secrets
                                        ++ policy_bytes self.policies))))))))))

unfoldable pub to_bytes : NetworkConfigV1 → Result SnapshotError Bytes
to_bytes self = do validate_shape self; sections ← push_sections self; ok (assemble self sections)
