-- ===== src/Config/Snapshot/Codec.antt =====
-- Reading a `NetworkConfigV1`: the decoder of crates/weaver-config/src/snapshot.rs.
use weaver.Prelude.{true, false}
use weaver.Prelude.{[], Bool, Bytes, ℕ, List, if◌then◌else◌, ◌==◌, ◌||◌, ltb, not, is_utf8}
use weaver.Wire.{
  Parser, ◌>>=◌, ◌>>◌, return, lift, uint, array, take_bytes, magic, finish, repeat, Malformed,
}
use weaver.Config.Snapshot.{
  AdminKey, EpochSecrets, NetworkPolicy, PresenceServiceDescriptor, RelayDescriptor,
  VirtualDnsRecord, NetworkConfigV1, check_len, max_virtual_dns_records, snapshot_magic_v2,
  snapshot_magic_v1, max_admin_keys, max_credential_bytes, max_url_bytes, max_members,
  max_revoked_serials, max_apps, validate_url, max_bindings, max_relays, max_presence_services,
}
use weaver.Prelude.Results.{Result, fail_if, map_err}
use weaver.Core.{validate_virtual_name}
use weaver.Config.{SnapshotError}

instance abbrev pub snapshot_malformed : Malformed SnapshotError
snapshot_malformed = record { malformed = SnapshotError.malformed_wire }

-- `Decoder::count`
unfoldable pub count : ℕ → Parser SnapshotError ℕ
count maximum = do count ← uint 2; lift (check_len count maximum); return count

-- `Decoder::blob`
unfoldable pub blob : Parser SnapshotError Bytes
blob = do
  len ← uint 2
  lift (fail_if ((len == 0) || ltb max_credential_bytes len) SnapshotError.invalid_length)
  take_bytes len

-- A count, and that many items.
unfoldable pub list_of : {A : Type 0} → ℕ → Parser SnapshotError A → Parser SnapshotError (List A)
list_of maximum item = do count ← count maximum; repeat count item

-- `Decoder::blobs`
unfoldable pub blobs : ℕ → Parser SnapshotError (List Bytes)
unfolding list_of
blobs maximum = list_of maximum blob

-- `Decoder::string`
unfoldable pub string : Parser SnapshotError Bytes
string = do
  len ← uint 2
  lift (fail_if ((len == 0) || ltb max_url_bytes len) SnapshotError.invalid_length)
  value ← take_bytes len
  lift (fail_if (not (is_utf8 value)) SnapshotError.malformed_wire)
  lift (validate_url value)
  return value

unfoldable pub admin_key : Parser SnapshotError AdminKey
admin_key = do certificate ← blob; return record { certificate = certificate }

-- `VirtualName::new(name).map_err(|_| SnapshotError::InvalidVirtualName)`
unfoldable pub virtual_name : Bytes → Result SnapshotError (Unit {0})
virtual_name name = map_err (λ e. SnapshotError.invalid_virtual_name) (validate_virtual_name name)

unfoldable pub dns_record : Parser SnapshotError VirtualDnsRecord
dns_record = do
  name ← string
  lift (virtual_name name)
  app_addr ← array 32
  expires_at_ms ← uint 8
  return record { name = name; app_addr = app_addr; expires_at_ms = expires_at_ms }

unfoldable pub relay : Parser SnapshotError RelayDescriptor
relay = do
  endpoint_id ← array 32
  url ← string
  roles ← uint 4
  expires_at_ms ← uint 8
  return
      record { endpoint_id = endpoint_id; url = url; roles = roles; expires_at_ms = expires_at_ms }

unfoldable pub presence_service : Parser SnapshotError PresenceServiceDescriptor
presence_service = do
  endpoint_id ← array 32
  url ← string
  expires_at_ms ← uint 8
  return record { endpoint_id = endpoint_id; url = url; expires_at_ms = expires_at_ms }

unfoldable pub epoch_secrets : Parser SnapshotError EpochSecrets
epoch_secrets = do
  presence_index_seed ← array 32
  presence_encryption_seed ← array 32
  lan_discovery_seed ← array 32
  relay_access_seed ← array 32
  return record {
    presence_index_seed = presence_index_seed;
    presence_encryption_seed = presence_encryption_seed;
    lan_discovery_seed = lan_discovery_seed;
    relay_access_seed = relay_access_seed;
  }

unfoldable pub network_policy : Parser SnapshotError NetworkPolicy
network_policy = do
  flags ← uint 4
  max_members ← uint 2
  max_services_per_binding ← uint 2
  return record {
    flags = flags;
    max_members = max_members;
    max_services_per_binding = max_services_per_binding;
  }

-- The names are there from the second version on.
unfoldable pub virtual_dns : Bool → Parser SnapshotError (List VirtualDnsRecord)
virtual_dns true = list_of max_virtual_dns_records dns_record
virtual_dns false = return []

-- What `from_bytes` reads, after it has looked at the magic.
unfoldable pub config_parser : Bool → Parser SnapshotError NetworkConfigV1
config_parser has_virtual_dns = do
  magic (if has_virtual_dns then snapshot_magic_v2 else snapshot_magic_v1)
  network_id ← array 32
  epoch ← uint 8
  revision ← uint 8
  previous_hash ← array 32
  issued_at_ms ← uint 8
  expires_at_ms ← uint 8
  admin_keys ← list_of max_admin_keys admin_key
  members ← blobs max_members
  endpoint_bindings ← blobs max_members
  revoked_serials ← list_of max_revoked_serials (uint 8)
  apps ← blobs max_apps
  app_bindings ← blobs max_bindings
  virtual_dns ← virtual_dns has_virtual_dns
  relays ← list_of max_relays relay
  presence_services ← list_of max_presence_services presence_service
  epoch_secrets ← epoch_secrets
  policies ← network_policy
  finish
  return record {
    network_id = network_id;
    epoch = epoch;
    revision = revision;
    previous_hash = previous_hash;
    issued_at_ms = issued_at_ms;
    expires_at_ms = expires_at_ms;
    admin_keys = admin_keys;
    members = members;
    endpoint_bindings = endpoint_bindings;
    revoked_serials = revoked_serials;
    apps = apps;
    app_bindings = app_bindings;
    virtual_dns = virtual_dns;
    relays = relays;
    presence_services = presence_services;
    epoch_secrets = epoch_secrets;
    policies = policies;
  }
