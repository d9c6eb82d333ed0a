-- ===== src/Config/Snapshot/Decode.antt =====
-- Round trip of the snapshots of crates/weaver-config/src/snapshot.rs.
use weaver.Prelude.{
  [], Bytes, if◌then◌else◌, starts_with, true, false, length, ◌≡◌, ◌<◌, ◌≤◌, ◌^◌, All, ℕ,
  starts_with-append, List, ◌++◌, All-tt, sym, subst,
}
use weaver.Prelude.Results.{Result, ok, err, ◌>>=◌, ◌>>◌, fail_if, >>=-eq-ok, ok-injective}
use weaver.Config.{SnapshotError}
pub mod Items
pub mod Bounds
pub mod Records
use weaver.Wire.{decode, usize_max}
use weaver.Config.Snapshot.Codec.{snapshot_malformed, config_parser, blobs, virtual_dns, blob}
use weaver.Config.Snapshot.Decode.Records.{
  SizedName, SizedRelay, SizedPresence, SizedSecrets, SizedPolicy, admin_key-Reads, serial-Reads,
  dns_record-Reads, relay-Reads, presence_service-Reads, epoch_secrets-Reads, network_policy-Reads,
}
use weaver.Wire.Reads.{
  decode-Ends, Ends, Reads, Ends-bind, magic-Reads, array-Reads, uint-Reads, Ends-last, finish-Ends,
  Ends-return,
}
use weaver.Config.Snapshot.Decode.Items.{list-Reads, blob-Reads}
use weaver.Config.Snapshot.Decode.Bounds.{validate_shape-Bounded, Bounded}
use weaver.Config.Snapshot.{
  NetworkConfigV1, snapshot_magic_v2, snapshot_magic_v1, validate_shape, max_members,
  max_admin_keys, max_revoked_serials, max_apps, max_bindings, max_virtual_dns_records, max_relays,
  max_presence_services, push_blobs, to_bytes, push_blob, push_list, push_admin_key, push_serial,
  push_dns_record, push_relay, push_presence, Sections, push_sections, assemble,
}

-- `NetworkConfigV1::from_bytes`
unfoldable pub from_bytes : Bytes → Result SnapshotError NetworkConfigV1
from_bytes bytes = do
  has_virtual_dns ←
      if starts_with bytes snapshot_magic_v2
      then ok true
      else if starts_with bytes snapshot_magic_v1
      then ok false
      else err SnapshotError.malformed_wire
  config ← decode (config_parser has_virtual_dns) bytes
  validate_shape config
  ok config

-- What the source's types carry of a snapshot.
pub record WellSized (self : NetworkConfigV1) : Type 0 where
  pub network_id : length self.network_id ≡ 32
  pub epoch : self.epoch < 2 ^ 64
  pub revision : self.revision < 2 ^ 64
  pub previous_hash : length self.previous_hash ≡ 32
  pub issued_at_ms : self.issued_at_ms < 2 ^ 64
  pub expires_at_ms : self.expires_at_ms < 2 ^ 64
  pub revoked_serials : All (λ (s : ℕ). s < 2 ^ 64) self.revoked_serials
  pub virtual_dns : All SizedName self.virtual_dns
  pub relays : All SizedRelay self.relays
  pub presence_services : All SizedPresence self.presence_services
  pub epoch_secrets : SizedSecrets self.epoch_secrets
  pub policies : SizedPolicy self.policies

blobs-Reads :
    (maximum : ℕ) (xs : List Bytes) {b : Bytes}
    → length xs ≤ maximum
    → push_blobs xs ≡ ok b
    → Reads (blobs maximum) xs b
unfolding push_blobs blobs
blobs-Reads maximum xs l h =
    list-Reads (λ x. Unit {0}) push_blob blob (λ x b u e. blob-Reads x e) maximum xs l (All-tt xs) h

-- The sections of a snapshot, each with the push that wrote it.
record Pushed (self : NetworkConfigV1) (sections : Sections) : Type 0 where
  admin_keys : push_list push_admin_key self.admin_keys ≡ ok sections.admin_keys
  members : push_blobs self.members ≡ ok sections.members
  endpoint_bindings : push_blobs self.endpoint_bindings ≡ ok sections.endpoint_bindings
  revoked_serials : push_list push_serial self.revoked_serials ≡ ok sections.revoked_serials
  apps : push_blobs self.apps ≡ ok sections.apps
  app_bindings : push_blobs self.app_bindings ≡ ok sections.app_bindings
  virtual_dns : push_list push_dns_record self.virtual_dns ≡ ok sections.virtual_dns
  relays : push_list push_relay self.relays ≡ ok sections.relays
  presence_services : push_list push_presence self.presence_services ≡ ok sections.presence_services

push_sections-Pushed :
    (self : NetworkConfigV1) (sections : Sections)
    → push_sections self ≡ ok sections
    → Pushed self sections
unfolding push_sections
push_sections-Pushed self sections h =
    let (a, p, h) = >>=-eq-ok (push_list push_admin_key self.admin_keys) _ h in
    let (b, q, h) = >>=-eq-ok (push_blobs self.members) _ h in
    let (c, r, h) = >>=-eq-ok (push_blobs self.endpoint_bindings) _ h in
    let (d, s, h) = >>=-eq-ok (push_list push_serial self.revoked_serials) _ h in
    let (e, t, h) = >>=-eq-ok (push_blobs self.apps) _ h in
    let (f, v, h) = >>=-eq-ok (push_blobs self.app_bindings) _ h in
    let (g, x, h) = >>=-eq-ok (push_list push_dns_record self.virtual_dns) _ h in
    let (i, y, h) = >>=-eq-ok (push_list push_relay self.relays) _ h in
    let (j, z, h) = >>=-eq-ok (push_list push_presence self.presence_services) _ h in
    subst (Pushed self) (ok-injective h) record {
      admin_keys = p;
      members = q;
      endpoint_bindings = r;
      revoked_serials = s;
      apps = t;
      app_bindings = v;
      virtual_dns = x;
      relays = y;
      presence_services = z;
    }

config_parser-Ends :
    (self : NetworkConfigV1) (sections : Sections)
    → WellSized self
    → Bounded self
    → Pushed self sections
    → Ends (config_parser true) self (assemble self sections)
unfolding config_parser virtual_dns
config_parser-Ends self sections w n p = Ends-bind _ magic-Reads (
    Ends-bind _ (array-Reads 32 self.network_id w.network_id) (
      Ends-bind _ (uint-Reads 8 self.epoch w.epoch) (
        Ends-bind _ (uint-Reads 8 self.revision w.revision) (
          Ends-bind _ (array-Reads 32 self.previous_hash w.previous_hash) (
            Ends-bind _ (uint-Reads 8 self.issued_at_ms w.issued_at_ms) (
              Ends-bind _ (uint-Reads 8 self.expires_at_ms w.expires_at_ms) (
                Ends-bind _
                  (list-Reads _ _ _ admin_key-Reads max_admin_keys self.admin_keys n.admin_keys
                    (All-tt self.admin_keys) p.admin_keys)
                  (Ends-bind _ (blobs-Reads max_members self.members n.members p.members) (
                    Ends-bind _
                      (blobs-Reads max_members self.endpoint_bindings n.endpoint_bindings
                        p.endpoint_bindings)
                      (Ends-bind _
                        (list-Reads _ _ _ serial-Reads max_revoked_serials self.revoked_serials
                          n.revoked_serials w.revoked_serials p.revoked_serials)
                        (Ends-bind _ (blobs-Reads max_apps self.apps n.apps p.apps) (
                          Ends-bind _
                            (blobs-Reads max_bindings self.app_bindings n.app_bindings
                              p.app_bindings)
                            (Ends-bind _
                              (list-Reads _ _ _ dns_record-Reads max_virtual_dns_records
                                self.virtual_dns n.virtual_dns w.virtual_dns p.virtual_dns)
                              (Ends-bind _
                                (list-Reads _ _ _ relay-Reads max_relays self.relays n.relays
                                  w.relays p.relays)
                                (Ends-bind _
                                  (list-Reads _ _ _ presence_service-Reads max_presence_services
                                    self.presence_services n.presence_services w.presence_services
                                    p.presence_services)
                                  (Ends-bind _
                                    (epoch_secrets-Reads self.epoch_secrets w.epoch_secrets)
                                    (Ends-last _ (network_policy-Reads self.policies w.policies)
                                      (finish-Ends Ends-return))))))))))))))))))

-- A snapshot that `to_bytes` encodes, its field sizes those of the source's types, is what
-- `from_bytes` decodes from the bytes, which fit a `usize`.
pub from_bytes-to_bytes_snapshot :
    (self : NetworkConfigV1) (bytes : Bytes)
    → WellSized self
    → length bytes ≤ usize_max
    → to_bytes self ≡ ok bytes
    → from_bytes bytes ≡ ok self
unfolding from_bytes to_bytes
from_bytes-to_bytes_snapshot self bytes w l h =
    let (u, shape, h) = >>=-eq-ok (validate_shape self) _ h in
    let (sections, pushed, h) = >>=-eq-ok (push_sections self) _ h in
    let ends =
      config_parser-Ends self sections w (validate_shape-Bounded self shape)
        (push_sections-Pushed self sections pushed) in
    let e = sym (ok-injective h) in
    let header : starts_with bytes snapshot_magic_v2 ≡ true = rw e in
    rw (header, decode-Ends l (subst (Ends _ self) (sym e) ends), shape)
