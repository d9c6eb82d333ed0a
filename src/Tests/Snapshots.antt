-- ===== src/Tests/Snapshots.antt =====
-- A snapshot with an administrator, an application and a name.
use weaver.Tests.Joining.{sent}
use weaver.Prelude.{some, length, ◌↔◌, ◌≤◌, ◌<◌, arith, leb→le, All}
use weaver.Config.Snapshot.Decode.{from_bytes, from_bytes-to_bytes_snapshot, WellSized}
use weaver.Config.Snapshot.{
  to_bytes, assemble, push_sections, push_list, push_count, push_each, push_admin_key, push_blob,
  push_blobs, push_serial, push_dns_record, push_string, push_relay, push_presence, Sections,
}
use weaver.Prelude.{[], ◌∷◌, Bytes, codes, ◌≡◌, refl}
use weaver.Crypto.Admin
use weaver.Config.Snapshot.{
  NetworkConfigV1, RelayDescriptor, VirtualDnsRecord, validate_shape, check_len, check_credentials,
  validate_url,
}
use weaver.Config.Snapshot.Validate.{
  validate, check_header, collect_serials, admit_admin, insert_new, admit_app, verify_app,
  check_name, validate_descriptors, check_relay,
}
use weaver.Tests.Toy.{toy, fit, network, root}
use weaver.Tests.Issuing.{admin_certificate}
use weaver.Tests.Applications.{registration}
use weaver.Crypto.{
  contains, validate_time, verify_signature, verifying_key_of, append_signature, lacks, root_public,
  root_public_of, derive_network_id, derive_key_id, admin_key_id, derive_app_addr,
}
use weaver.Prelude.Loops.{for_each, get}
use weaver.Wire.{
  decode, start, take_bytes, array, magic, uint, finish, from_be, from_be_acc, to_be, usize_max,
}
use weaver.Crypto.Admin.Codec.{decode_admin_payload, encode_admin_payload}
use weaver.Crypto.App.Codec.{decode_app_registration_payload, encode_app_registration_payload}
use weaver.Prelude.Results.{ok, err}
use weaver.Core.{validate_virtual_name, split, check_labels}
use weaver.Config.Snapshot.Accepted.{IsAccepted, validate-IsAccepted}
use weaver.Config.Snapshot.Resolve.{
  resolve_virtual_name, find_record, Answers, resolve_virtual_name-IsListedApp,
  resolve_virtual_name_iff,
}
use weaver.Crypto.App.{VerifiedApp}
use weaver.Config.Snapshot.Loops.{IsListedApp}
use weaver.Authority.Revision.{
  ensure_join_is_unique, next_serial, greatest, admin_maximum, member_maximum,
}
use weaver.Authority.Revision.Serial.{next_serial-IsNewSerial, IsNewSerial}
use weaver.Authority.Revision.Unique.{IsOther, IsElsewhere, ensure_join_is_unique_iff}
use weaver.Crypto.App

abbrev name : Bytes
name = codes "room.virtual"

abbrev record' : VirtualDnsRecord
record' = record { name = name; app_addr = registration.payload.app_addr; expires_at_ms = 190 }

abbrev relay : RelayDescriptor
relay = record {
  endpoint_id = fit 32 (7 ∷ []);
  url = codes "https://relay";
  roles = 3;
  expires_at_ms = 170;
}

abbrev pub config : NetworkConfigV1
config = record {
  network_id = network;
  epoch = 1;
  revision = 2;
  previous_hash = fit 32 (5 ∷ []);
  issued_at_ms = 100;
  expires_at_ms = 200;
  admin_keys = record { certificate = Admin.to_bytes admin_certificate } ∷ [];
  members = [];
  endpoint_bindings = [];
  revoked_serials = 8 ∷ [];
  apps = App.to_bytes registration ∷ [];
  app_bindings = [];
  virtual_dns = record' ∷ [];
  relays = relay ∷ [];
  presence_services = [];
  epoch_secrets = record {
    presence_index_seed = fit 32 [];
    presence_encryption_seed = fit 32 [];
    lan_discovery_seed = fit 32 [];
    relay_access_seed = fit 32 [];
  };
  policies = record { flags = 0; max_members = 4; max_services_per_binding = 2 };
}

pub validated : validate config (root_public root) network 150 ≡ ok (record { inner = config })
unfolding validate check_header validate_shape check_len check_credentials collect_serials contains
    for_each admit_admin Admin.from_bytes Admin.to_bytes Admin.verify insert_new get
    decode_admin_payload decode validate_time admit_app verify_app App.from_bytes App.to_bytes
    App.verify_with_admin check_name validate_descriptors check_relay validate_url start take_bytes
    array magic uint finish from_be from_be_acc to_be verify_signature verifying_key_of
    Admin.sign_payload Admin.issued_payload encode_admin_payload append_signature App.create_request
    decode_app_registration_payload App.sign_payload lacks encode_app_registration_payload
    root_public root_public_of derive_network_id derive_key_id admin_key_id derive_app_addr
    Admin.verify_bytes
validated = refl

abbrev sections : Sections
unfolding push_sections push_list push_count push_each push_admin_key push_blob push_blobs
    push_serial push_dns_record push_string push_relay push_presence validate_url to_be
sections = elim (push_sections config) [
  | ok s ↦ s
  | err e ↦ record {
    admin_keys = [];
    members = [];
    endpoint_bindings = [];
    revoked_serials = [];
    apps = [];
    app_bindings = [];
    virtual_dns = [];
    relays = [];
    presence_services = [];
  }
]

encoded : to_bytes config ≡ ok (assemble config sections)
unfolding to_bytes push_sections push_list push_count push_each push_admin_key push_blob push_blobs
    push_serial push_dns_record push_string push_relay push_presence validate_url to_be
    Admin.to_bytes Admin.sign_payload Admin.issued_payload encode_admin_payload append_signature
    App.to_bytes App.create_request App.sign_payload encode_app_registration_payload root_public
    root_public_of derive_network_id derive_key_id admin_key_id derive_app_addr validate_shape
    check_len check_credentials
encoded = refl

config_sized : WellSized config
unfolding App.sign_payload validate_virtual_name split check_labels derive_app_addr
    App.create_request root_public root_public_of derive_network_id
config_sized = record {
  network_id = refl;
  epoch = omega arith;
  revision = omega arith;
  previous_hash = refl;
  issued_at_ms = omega arith;
  expires_at_ms = omega arith;
  revoked_serials = (omega arith, tt);
  virtual_dns = (record { name = refl; app_addr = refl; expires_at_ms = omega arith }, tt);
  relays = (record { endpoint_id = refl; roles = omega arith; expires_at_ms = omega arith }, tt);
  presence_services = tt;
  epoch_secrets = record {
    presence_index_seed = refl;
    presence_encryption_seed = refl;
    lan_discovery_seed = refl;
    relay_access_seed = refl;
  };
  policies = record {
    flags = omega arith;
    max_members = omega arith;
    max_services_per_binding = omega arith;
  };
}

short : length (assemble config sections) ≤ usize_max
unfolding push_sections push_list push_count push_each push_admin_key push_blob push_blobs
    push_serial push_dns_record push_string push_relay push_presence validate_url to_be
    Admin.to_bytes Admin.sign_payload Admin.issued_payload encode_admin_payload append_signature
    App.to_bytes App.create_request App.sign_payload encode_app_registration_payload root_public
    root_public_of derive_network_id derive_key_id admin_key_id derive_app_addr
short = leb→le _ _ refl

from_bytes-to_bytes_snapshot_example : from_bytes (assemble config sections) ≡ ok config
from_bytes-to_bytes_snapshot_example =
    from_bytes-to_bytes_snapshot config (assemble config sections) config_sized short encoded

validate-IsAccepted_example : (config ≡ config) × IsAccepted config (root_public root) network 150
validate-IsAccepted_example =
    validate-IsAccepted config (root_public root) network 150 (record { inner = config }) validated

resolve_virtual_name_iff_example :
    (resolve_virtual_name (record { inner = config }) name 160 ≡ some registration.payload.app_addr)
    ↔ Answers config.virtual_dns name 160 registration.payload.app_addr
resolve_virtual_name_iff_example =
    resolve_virtual_name_iff config (root_public root) network 150 (record { inner = config }) name
      160 registration.payload.app_addr validated

resolved :
    resolve_virtual_name (record { inner = config }) name 160 ≡ some registration.payload.app_addr
unfolding resolve_virtual_name find_record
resolved = refl

resolve_virtual_name-IsListedApp_example :
    ((app : VerifiedApp) × IsListedApp config
        (root_public root)
        network
        150
        registration.payload.app_addr
        app)
    × (160 < config.expires_at_ms)
resolve_virtual_name-IsListedApp_example =
    resolve_virtual_name-IsListedApp config (root_public root) network 150
      (record { inner = config }) name 160 registration.payload.app_addr validated resolved

ninth : next_serial config ≡ ok 9
unfolding next_serial greatest for_each admin_maximum member_maximum Admin.from_bytes Admin.to_bytes
    decode_admin_payload decode start take_bytes array magic uint finish from_be from_be_acc to_be
    Admin.sign_payload Admin.issued_payload encode_admin_payload append_signature root_public
    root_public_of derive_network_id derive_key_id admin_key_id
ninth = refl

next_serial-IsNewSerial_example : IsNewSerial config 9
next_serial-IsNewSerial_example = next_serial-IsNewSerial config 9 ninth

ensure_join_is_unique_iff_example : (ensure_join_is_unique config sent.request.payload ≡ ok tt) ↔ (
    All (IsOther sent.request.payload) config.members
    × All (IsElsewhere sent.request.payload) config.endpoint_bindings)
ensure_join_is_unique_iff_example = ensure_join_is_unique_iff config sent.request.payload
