-- ===== src/Config/Snapshot/Accepted.antt =====
-- `validate` of crates/weaver-config/src/snapshot.rs as a whole.

use weaver.Config.Snapshot.Validate.{
  check_presence, check_relay, validate_descriptors, check_header, validate, ValidatedNetworkConfig,
  collect_serials,
}
use weaver.Crypto.{Primitives, NetworkRootPublic}
use weaver.Config.Snapshot.{
  NetworkConfigV1, PresenceServiceDescriptor, RelayDescriptor, validate_url, validate_shape,
  VirtualDnsRecord,
}
use weaver.Prelude.Results.{fail_if, ok, >>=-eq-ok, fail_if-eq-ok, ok-injective}
use weaver.Prelude.Loops.{
  Table, Distinct, contains_key, for_each, for_each_steps, for_each-Distinct,
}
use weaver.Config.{duplicate_entry}
use weaver.Config.Snapshot.Loops.{
  IsCertified, for_each-Admins, for_each-Members, for_each-Apps, members_length,
}
use weaver.Config.Snapshot.Bindings.{
  IsEndpoint, IsAppBinding, names_loop, IsName, within, endpoints_loop, bindings_loop,
}
use weaver.Crypto.Member.{VerifiedMember}
use weaver.Config.Snapshot.Valid.{IsMember, insert_new-eq-ok, IsApp}
use weaver.Crypto.App.{VerifiedApp}
use weaver.Prelude.{
  [], true, false, ◌∷◌, Bool, List, ℕ, not, ◌≤◌, All, ◌==◌, ◌≡◌, Bytes, arith, codes, ◌<◌, ==_iff,
  length, All-map, bytes_eq, leb, ltb, ◌||◌, ||-eq-false, bytes_eq_sound, ap, sym,
}

check_relay-inserts :
    (now_ms : ℕ) (r : RelayDescriptor) (s t : Table (Unit {0}))
    → check_relay now_ms r s ≡ ok t
    → (validate_url r.url ≡ ok tt)
      × (now_ms < r.expires_at_ms)
      × (contains_key r.endpoint_id s ≡ false)
      × (t ≡ (r.endpoint_id, tt) ∷ s)
unfolding check_relay
check_relay-inserts now_ms r s t h =
    let (u, w, h) = >>=-eq-ok (validate_url r.url) _ h in
    let (x, h) = fail_if-eq-ok (leb r.expires_at_ms now_ms) _ _ h in
    let (n, e) = insert_new-eq-ok _ _ _ s h in (w, ground arith, n, e)

check_presence-inserts :
    (now_ms : ℕ) (r : PresenceServiceDescriptor) (s t : Table (Unit {0}))
    → check_presence now_ms r s ≡ ok t
    → (validate_url r.url ≡ ok tt)
      × (now_ms < r.expires_at_ms)
      × (contains_key r.endpoint_id s ≡ false)
      × (t ≡ (r.endpoint_id, tt) ∷ s)
unfolding check_presence
check_presence-inserts now_ms r s t h =
    let (u, w, h) = >>=-eq-ok (validate_url r.url) _ h in
    let (x, h) = fail_if-eq-ok (leb r.expires_at_ms now_ms) _ _ h in
    let (n, e) = insert_new-eq-ok _ _ _ s h in (w, ground arith, n, e)

-- Descriptors whose URLs are well-formed, that have not expired, and no endpoint twice.
pub record AreCurrent (relays : List RelayDescriptor) (presence : List PresenceServiceDescriptor)
    (now_ms : ℕ) : Type 0 where
  pub relays_live :
      All
        (λ (r : RelayDescriptor). (validate_url r.url ≡ ok tt) × (now_ms < r.expires_at_ms))
        relays
  pub relays_distinct : Distinct (λ (r : RelayDescriptor). r.endpoint_id) relays
  pub presence_live :
      All
        (λ (r : PresenceServiceDescriptor).
          (validate_url r.url ≡ ok tt) × (now_ms < r.expires_at_ms))
        presence
  pub presence_distinct : Distinct (λ (r : PresenceServiceDescriptor). r.endpoint_id) presence

validate_descriptors-AreCurrent :
    (relays : List RelayDescriptor) (presence : List PresenceServiceDescriptor) (now_ms : ℕ)
    → validate_descriptors relays presence now_ms ≡ ok tt
    → AreCurrent relays presence now_ms
unfolding validate_descriptors
validate_descriptors-AreCurrent relays presence now_ms h =
    let (r, e, h) = >>=-eq-ok (for_each (check_relay now_ms) relays []) _ h in
    let (p, f, h) = >>=-eq-ok (for_each (check_presence now_ms) presence []) _ h in
    record {
      relays_live =
          All-map
            (λ r (s, t, u, h). let (w, x, n, f) = check_relay-inserts now_ms r s t h in (w, x))
            relays (for_each_steps _ (λ s. Unit {0}) relays (λ r s t u e. tt) tt e);
      relays_distinct =
          (for_each-Distinct _ _
            (λ r s t e. let (w, x, n, f) = check_relay-inserts now_ms r s t e in (n, tt, f)) relays
            [] _ e).1;
      presence_live =
          All-map
            (λ r (s, t, u, h). let (w, x, n, f) = check_presence-inserts now_ms r s t h in (w, x))
            presence (for_each_steps _ (λ s. Unit {0}) presence (λ r s t u e. tt) tt f);
      presence_distinct =
          (for_each-Distinct _ _
            (λ r s t e. let (w, x, n, f) = check_presence-inserts now_ms r s t e in (n, tt, f))
            presence [] _ f).1;
    }

not-eq-false : {b : Bool} → not b ≡ false → b ≡ true
not-eq-false {b} h = ground arith

same_length :
    (n m : ℕ) → fail_if (not (n == m)) (duplicate_entry (codes "revoked serial")) ≡ ok tt → n ≡ m
same_length n m h = ground (arith, ==_iff n m)

member_limit : (n m k : ℕ) → n ≤ m → n ≡ k → k ≤ m
member_limit n m k l e = omega (arith, l, e)

module _ ⦃c : Primitives⦄ (self : NetworkConfigV1) (root : NetworkRootPublic)
    (expected_network : Bytes) (now_ms : ℕ) where
  -- Network, window and shape.
  pub record IsCurrent : Type 0 where
    pub shape : validate_shape self ≡ ok tt
    pub network : self.network_id ≡ expected_network
    pub root_network : root.network_id ≡ expected_network
    pub started : self.issued_at_ms ≤ now_ms
    pub unexpired : now_ms < self.expires_at_ms
    pub revoked_once : length (collect_serials self.revoked_serials) ≡ length self.revoked_serials

  check_header-IsCurrent : check_header self root expected_network now_ms ≡ ok tt → IsCurrent
  unfolding check_header
  check_header-IsCurrent h =
      let (u, shape, h) = >>=-eq-ok (validate_shape self) _ h in
      let (n, h) =
        fail_if-eq-ok
          (not (bytes_eq self.network_id expected_network)
            || not (bytes_eq root.network_id expected_network))
          _ _ h in
      let (s, h) = fail_if-eq-ok (ltb now_ms self.issued_at_ms) _ _ h in
      let (x, h) = fail_if-eq-ok (leb self.expires_at_ms now_ms) _ _ h in
      let (a, b) = ||-eq-false _ _ n in
      record {
        shape = shape;
        network = bytes_eq_sound _ _ (not-eq-false a);
        root_network = bytes_eq_sound _ _ (not-eq-false b);
        started = ground arith;
        unexpired = ground arith;
        revoked_once = same_length _ _ h;
      }

  -- What a validated snapshot is.
  pub record IsAccepted : Type 0 where
    pub current : IsCurrent
    pub admins : All (IsCertified self root expected_network now_ms) self.admin_keys
    pub members :
        All
          (λ raw. (member : VerifiedMember) × IsMember self root expected_network now_ms raw member)
          self.members
    pub member_limit : length self.members ≤ self.policies.max_members
    pub endpoints : All (IsEndpoint self root expected_network now_ms) self.endpoint_bindings
    pub apps :
        All (λ raw. (app : VerifiedApp) × IsApp self root expected_network now_ms raw app) self.apps
    pub bindings : All (IsAppBinding self root expected_network now_ms) self.app_bindings
    pub names : All (IsName self root expected_network now_ms) self.virtual_dns
    pub names_distinct : Distinct (λ (r : VirtualDnsRecord). r.name) self.virtual_dns
    pub descriptors : AreCurrent self.relays self.presence_services now_ms

  -- A validated snapshot is the one given: of the expected network, in its window and of the shape
  -- that is checked, with every credential in it issued by the root or by an administrator in it
  -- whom the root certified, no more members than its policy allows, every binding of a member and
  -- an application in it, every name that of an application in it and within its window. No two
  -- names are equal, no two relays or presence services share an endpoint, these have not expired,
  -- and the revoked serials are as many as the set of them.
  pub validate-IsAccepted :
      (v : ValidatedNetworkConfig)
      → validate self root expected_network now_ms ≡ ok v
      → (v.inner ≡ self) × IsAccepted
  unfolding validate
  validate-IsAccepted v h =
      let (u, header, h) = >>=-eq-ok (check_header self root expected_network now_ms) _ h in
      let (admins, a, h) = >>=-eq-ok (for_each _ self.admin_keys []) _ h in
      let (members, m, h) = >>=-eq-ok (for_each _ self.members []) _ h in
      let (few, h) = fail_if-eq-ok (ltb _ (length members)) _ _ h in
      let (endpoints, e, h) = >>=-eq-ok (for_each _ self.endpoint_bindings []) _ h in
      let (apps, p, h) = >>=-eq-ok (for_each _ self.apps []) _ h in
      let (bindings, b, h) = >>=-eq-ok (for_each _ self.app_bindings []) _ h in
      let (names, n, h) = >>=-eq-ok (for_each _ self.virtual_dns []) _ h in
      let (d, descriptors, h) = >>=-eq-ok (validate_descriptors _ _ now_ms) _ h in
      let (all_admins, each_admin) = for_each-Admins self root expected_network now_ms a in
      let (all_members, each_member) =
        for_each-Members self root expected_network now_ms admins all_admins m in
      let (all_apps, each_app) =
        for_each-Apps self root expected_network now_ms admins all_admins p in
      let (each_name, distinct) = names_loop self root expected_network now_ms apps all_apps n in
      (
        ap (λ (v : ValidatedNetworkConfig). v.inner) (sym (ok-injective h)),
        record {
          current = check_header-IsCurrent header;
          admins = each_admin;
          members = each_member;
          member_limit =
              member_limit _ _ _ (within _ _ few)
                (members_length self root expected_network now_ms admins all_admins m);
          endpoints = endpoints_loop self root expected_network now_ms members all_members e;
          apps = each_app;
          bindings =
              bindings_loop self root expected_network now_ms members apps all_members all_apps b;
          names = each_name;
          names_distinct = distinct;
          descriptors = validate_descriptors-AreCurrent _ _ now_ms descriptors;
        },
      )
