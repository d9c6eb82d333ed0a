-- ===== src/Config/Snapshot/Decode/Records.antt =====
-- The entries of a snapshot of crates/weaver-config/src/snapshot.rs are read back.
use weaver.Prelude.Results.{ok, >>=-eq-ok, ok-injective}
use weaver.Wire.Reads.{
  Reads, Reads-last, uint-Reads, Reads-bind, Reads-skip, lift-Reads, Reads-return, array-Reads,
}
use weaver.Config.Snapshot.{
  push_dns_record, push_admin_key, push_serial, push_relay, push_presence, secret_bytes,
  policy_bytes, AdminKey, EpochSecrets, NetworkPolicy, PresenceServiceDescriptor, RelayDescriptor,
  VirtualDnsRecord, push_string,
}
use weaver.Config.Snapshot.Codec.{
  snapshot_malformed, dns_record, admin_key, relay, presence_service, epoch_secrets, network_policy,
  virtual_name,
}
use weaver.Prelude.{ℕ, Bytes, length, ◌<◌, ◌^◌, ◌≡◌, subst}
use weaver.Core.{validate_virtual_name}
use weaver.Wire.{uint}
use weaver.Config.{SnapshotError}
use weaver.Config.Snapshot.Decode.Items.{blob-Reads, string-Reads}

-- The lengths and bounds that the source's types carry, and the names that `VirtualName` admits.
pub record SizedName (self : VirtualDnsRecord) : Type 0 where
  pub name : validate_virtual_name self.name ≡ ok tt
  pub app_addr : length self.app_addr ≡ 32
  pub expires_at_ms : self.expires_at_ms < 2 ^ 64

pub record SizedRelay (self : RelayDescriptor) : Type 0 where
  pub endpoint_id : length self.endpoint_id ≡ 32
  pub roles : self.roles < 2 ^ 32
  pub expires_at_ms : self.expires_at_ms < 2 ^ 64

pub record SizedPresence (self : PresenceServiceDescriptor) : Type 0 where
  pub endpoint_id : length self.endpoint_id ≡ 32
  pub expires_at_ms : self.expires_at_ms < 2 ^ 64

pub record SizedSecrets (self : EpochSecrets) : Type 0 where
  pub presence_index_seed : length self.presence_index_seed ≡ 32
  pub presence_encryption_seed : length self.presence_encryption_seed ≡ 32
  pub lan_discovery_seed : length self.lan_discovery_seed ≡ 32
  pub relay_access_seed : length self.relay_access_seed ≡ 32

pub record SizedPolicy (self : NetworkPolicy) : Type 0 where
  pub flags : self.flags < 2 ^ 32
  pub max_members : self.max_members < 2 ^ 16
  pub max_services_per_binding : self.max_services_per_binding < 2 ^ 16

pub admin_key-Reads :
    (x : AdminKey) (b : Bytes) → Unit {0} → push_admin_key x ≡ ok b → Reads admin_key x b
unfolding push_admin_key admin_key
admin_key-Reads x b u h = Reads-last _ (blob-Reads x.certificate h) Reads-return

pub serial-Reads :
    (x : ℕ) (b : Bytes) → x < 2 ^ 64 → push_serial x ≡ ok b → Reads {E = SnapshotError} (uint 8) x b
unfolding push_serial
serial-Reads x b l h = subst (Reads _ x) (ok-injective h) (uint-Reads 8 x l)

virtual_name-ok : (name : Bytes) → validate_virtual_name name ≡ ok tt → virtual_name name ≡ ok tt
unfolding virtual_name
virtual_name-ok name h = rw h

pub dns_record-Reads :
    (x : VirtualDnsRecord) (b : Bytes)
    → SizedName x
    → push_dns_record x ≡ ok b
    → Reads dns_record x b
unfolding push_dns_record dns_record
dns_record-Reads x b s h =
    let (name, e, h) = >>=-eq-ok (push_string x.name) _ h in
    subst (Reads _ x) (ok-injective h) (
      Reads-bind _ (string-Reads x.name e) (
        Reads-skip _ (lift-Reads (virtual_name-ok x.name s.name)) (
          Reads-bind _ (array-Reads 32 x.app_addr s.app_addr)
            (Reads-last _ (uint-Reads 8 x.expires_at_ms s.expires_at_ms) Reads-return))))

pub relay-Reads :
    (x : RelayDescriptor) (b : Bytes) → SizedRelay x → push_relay x ≡ ok b → Reads relay x b
unfolding push_relay relay
relay-Reads x b s h =
    let (url, e, h) = >>=-eq-ok (push_string x.url) _ h in
    subst (Reads _ x) (ok-injective h) (
      Reads-bind _ (array-Reads 32 x.endpoint_id s.endpoint_id) (
        Reads-bind _ (string-Reads x.url e) (
          Reads-bind _ (uint-Reads 4 x.roles s.roles)
            (Reads-last _ (uint-Reads 8 x.expires_at_ms s.expires_at_ms) Reads-return))))

pub presence_service-Reads :
    (x : PresenceServiceDescriptor) (b : Bytes)
    → SizedPresence x
    → push_presence x ≡ ok b
    → Reads presence_service x b
unfolding push_presence presence_service
presence_service-Reads x b s h =
    let (url, e, h) = >>=-eq-ok (push_string x.url) _ h in
    subst (Reads _ x) (ok-injective h) (
      Reads-bind _ (array-Reads 32 x.endpoint_id s.endpoint_id) (
        Reads-bind _ (string-Reads x.url e)
          (Reads-last _ (uint-Reads 8 x.expires_at_ms s.expires_at_ms) Reads-return)))

pub epoch_secrets-Reads :
    (x : EpochSecrets) → SizedSecrets x → Reads epoch_secrets x (secret_bytes x)
unfolding epoch_secrets
epoch_secrets-Reads x s =
    Reads-bind _ (array-Reads 32 x.presence_index_seed s.presence_index_seed) (
      Reads-bind _ (array-Reads 32 x.presence_encryption_seed s.presence_encryption_seed) (
        Reads-bind _ (array-Reads 32 x.lan_discovery_seed s.lan_discovery_seed)
          (Reads-last _ (array-Reads 32 x.relay_access_seed s.relay_access_seed) Reads-return)))

pub network_policy-Reads :
    (x : NetworkPolicy) → SizedPolicy x → Reads network_policy x (policy_bytes x)
unfolding network_policy
network_policy-Reads x s = Reads-bind _ (uint-Reads 4 x.flags s.flags) (
    Reads-bind _ (uint-Reads 2 x.max_members s.max_members) (
      Reads-last _ (uint-Reads 2 x.max_services_per_binding s.max_services_per_binding)
        Reads-return))
