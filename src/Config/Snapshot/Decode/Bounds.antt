-- ===== src/Config/Snapshot/Decode/Bounds.antt =====
-- What `validate_shape` of crates/weaver-config/src/snapshot.rs bounds.
use weaver.Prelude.{length, ◌≡◌, ◌≤◌, leb}
use weaver.Prelude.Results.{ok, fail_if-eq-ok, >>=-eq-ok}
use weaver.Config.Snapshot.Decode.Items.{check_len-le}
use weaver.Config.Snapshot.{
  NetworkConfigV1, validate_shape, check_len, max_admin_keys, max_members, max_revoked_serials,
  max_apps, max_bindings, max_virtual_dns_records, max_relays, max_presence_services,
}

-- The lengths that `validate_shape` admits.
pub record Bounded (self : NetworkConfigV1) : Type 0 where
  pub admin_keys : length self.admin_keys ≤ max_admin_keys
  pub members : length self.members ≤ max_members
  pub endpoint_bindings : length self.endpoint_bindings ≤ max_members
  pub revoked_serials : length self.revoked_serials ≤ max_revoked_serials
  pub apps : length self.apps ≤ max_apps
  pub app_bindings : length self.app_bindings ≤ max_bindings
  pub virtual_dns : length self.virtual_dns ≤ max_virtual_dns_records
  pub relays : length self.relays ≤ max_relays
  pub presence_services : length self.presence_services ≤ max_presence_services

pub validate_shape-Bounded : (self : NetworkConfigV1) → validate_shape self ≡ ok tt → Bounded self
unfolding validate_shape
validate_shape-Bounded self h =
    let (t, h) = fail_if-eq-ok (leb self.expires_at_ms self.issued_at_ms) _ _ h in
    let (a, p, h) = >>=-eq-ok (check_len (length self.admin_keys) _) _ h in
    let (b, q, h) = >>=-eq-ok (check_len (length self.members) _) _ h in
    let (c, r, h) = >>=-eq-ok (check_len (length self.endpoint_bindings) _) _ h in
    let (d, s, h) = >>=-eq-ok (check_len (length self.revoked_serials) _) _ h in
    let (e, u, h) = >>=-eq-ok (check_len (length self.apps) _) _ h in
    let (f, v, h) = >>=-eq-ok (check_len (length self.app_bindings) _) _ h in
    let (g, w, h) = >>=-eq-ok (check_len (length self.virtual_dns) _) _ h in
    let (i, x, h) = >>=-eq-ok (check_len (length self.relays) _) _ h in
    let (j, y, h) = >>=-eq-ok (check_len (length self.presence_services) _) _ h in
    record {
      admin_keys = check_len-le _ _ p;
      members = check_len-le _ _ q;
      endpoint_bindings = check_len-le _ _ r;
      revoked_serials = check_len-le _ _ s;
      apps = check_len-le _ _ u;
      app_bindings = check_len-le _ _ v;
      virtual_dns = check_len-le _ _ w;
      relays = check_len-le _ _ x;
      presence_services = check_len-le _ _ y;
    }
