-- ===== src/Config/Snapshot/Bindings.antt =====
-- What the loops of `validate` of crates/weaver-config/src/snapshot.rs over bindings and names accept.
use weaver.Prelude.{
  [], true, false, ◌∷◌, ℕ, ltb, ◌≡◌, Bytes, ◌≤◌, arith, ◌<◌, All, length, All-map, not, leb, ◌||◌,
}
use weaver.Crypto.Endpoint
use weaver.Crypto.{Primitives, NetworkRootPublic}
use weaver.Config.Snapshot.{NetworkConfigV1, VirtualDnsRecord}
use weaver.Crypto.Endpoint.{EndpointBinding}
use weaver.Crypto.Binding.{AppBinding}
use weaver.Config.Snapshot.Validate.{check_binding, check_endpoint, check_name, certified}
use weaver.Prelude.Loops.{
  Table, contains_key, for_each, Distinct, contains_key-get, for_each_steps, for_each-Distinct, get,
}
use weaver.Crypto.Member.{VerifiedMember}
use weaver.Crypto.App.{VerifiedApp}
use weaver.Prelude.Results.{ok, fail_if-eq-ok, >>=-eq-ok, ok_or-eq-ok, map_err-eq-ok}
use weaver.Config.Snapshot.Loops.{IsListedApp, IsListedMember}
use weaver.Config.Snapshot.Valid.{Apps, Members, insert_new-eq-ok}
use weaver.Crypto.Binding

pub within : (n m : ℕ) → ltb m n ≡ false → n ≤ m
within n m h = ground arith

module _ ⦃c : Primitives⦄ (self : NetworkConfigV1) (root : NetworkRootPublic)
    (expected_network : Bytes) (now_ms : ℕ) where
  -- An endpoint binding of a member of the snapshot.
  abbrev pub IsEndpoint : Bytes → Type 0
  IsEndpoint raw =
      (binding : EndpointBinding) × (member : VerifiedMember) × (Endpoint.from_bytes raw
        ≡ ok binding)
      × IsListedMember self root expected_network now_ms binding.payload.member_id member
      × (Endpoint.verify binding member expected_network binding.payload.endpoint_id now_ms ≡ ok tt)

  -- An application binding of a member and an application of the snapshot.
  abbrev pub IsAppBinding : Bytes → Type 0
  IsAppBinding raw =
      (binding : AppBinding) × (app : VerifiedApp) × (member : VerifiedMember) × (Binding.from_bytes
          raw
        ≡ ok binding)
      × IsListedApp self root expected_network now_ms binding.payload.app_addr app
      × IsListedMember self root expected_network now_ms binding.payload.subject member
      × (length binding.payload.services ≤ self.policies.max_services_per_binding)
      × (Binding.verify binding app member expected_network now_ms ≡ ok tt)

  -- A name of an application of the snapshot, within the snapshot's own window.
  abbrev pub IsName : VirtualDnsRecord → Type 0
  IsName record' =
      ((app : VerifiedApp) × IsListedApp self root expected_network now_ms record'.app_addr app)
      × (self.issued_at_ms < record'.expires_at_ms)
      × (record'.expires_at_ms ≤ self.expires_at_ms)

  pub endpoints_loop :
      (members : Table VerifiedMember) {endpoints : Table (Unit {0})}
      → Members self root expected_network now_ms members
      → for_each
          (check_endpoint self root expected_network now_ms members)
          self.endpoint_bindings
          []
        ≡ ok endpoints
      → All IsEndpoint self.endpoint_bindings
  unfolding check_endpoint
  endpoints_loop members all h =
      All-map
        (λ raw (s, t, u, h).
          let (binding, d, h) = >>=-eq-ok (certified (Endpoint.from_bytes raw)) _ h in
          let (member, g, h) = ok_or-eq-ok (get binding.payload.member_id members) _ _ h in
          let (v, w, h) = >>=-eq-ok (certified (Endpoint.verify binding member _ _ _)) _ h in
          (binding, member, map_err-eq-ok _ _ d, all _ member g, map_err-eq-ok _ _ w))
        self.endpoint_bindings
        (for_each_steps _ (λ s. Unit {0}) self.endpoint_bindings (λ raw s t u e. tt) tt h)

  pub bindings_loop :
      (members : Table VerifiedMember) (apps : Table VerifiedApp) {subjects : Table (Unit {0})}
      → Members self root expected_network now_ms members
      → Apps self root expected_network now_ms apps
      → for_each (check_binding self root expected_network now_ms members apps) self.app_bindings []
        ≡ ok subjects
      → All IsAppBinding self.app_bindings
  unfolding check_binding
  bindings_loop members apps all_members all_apps h =
      All-map
        (λ raw (s, t, u, h).
          let (binding, d, h) = >>=-eq-ok (certified (Binding.from_bytes raw)) _ h in
          let (app, f, h) = ok_or-eq-ok (get binding.payload.app_addr apps) _ _ h in
          let (member, g, h) = ok_or-eq-ok (get binding.payload.subject members) _ _ h in
          let (n, h) = fail_if-eq-ok (ltb _ (length binding.payload.services)) _ _ h in
          let (v, w, h) = >>=-eq-ok (certified (Binding.verify binding app member _ _)) _ h in
          (
            binding,
            app,
            member,
            map_err-eq-ok _ _ d,
            all_apps _ app f,
            all_members _ member g,
            within _ _ n,
            map_err-eq-ok _ _ w,
          ))
        self.app_bindings
        (for_each_steps _ (λ s. Unit {0}) self.app_bindings (λ raw s t u e. tt) tt h)

  check_name-inserts :
      (apps : Table VerifiedApp) (r : VirtualDnsRecord) (s t : Table (Unit {0}))
      → check_name self apps r s ≡ ok t
      → (contains_key r.app_addr apps ≡ true)
        × (self.issued_at_ms < r.expires_at_ms)
        × (r.expires_at_ms ≤ self.expires_at_ms)
        × (contains_key r.name s ≡ false)
        × (t ≡ (r.name, tt) ∷ s)
  unfolding check_name
  check_name-inserts apps r s t h =
      let (k, h) = fail_if-eq-ok (not (contains_key r.app_addr apps)) _ _ h in
      let (w, h) =
        fail_if-eq-ok
          (leb r.expires_at_ms self.issued_at_ms || ltb self.expires_at_ms r.expires_at_ms) _ _ h in
      let (n, e) = insert_new-eq-ok _ _ _ s h in (ground arith, ground arith, ground arith, n, e)

  pub names_loop :
      (apps : Table VerifiedApp) {names : Table (Unit {0})}
      → Apps self root expected_network now_ms apps
      → for_each (check_name self apps) self.virtual_dns [] ≡ ok names
      → All IsName self.virtual_dns × Distinct (λ (r : VirtualDnsRecord). r.name) self.virtual_dns
  names_loop apps all h = (
    All-map
        (λ r (s, t, u, h).
          let (k, i, x, n, e) = check_name-inserts apps r s t h in
          let (app, g) = contains_key-get r.app_addr apps k in ((app, all _ app g), i, x))
        self.virtual_dns (for_each_steps _ (λ s. Unit {0}) self.virtual_dns (λ r s t u e. tt) tt h),
    (for_each-Distinct _ _
        (λ r s t e. let (k, i, x, n, f) = check_name-inserts apps r s t e in (n, tt, f))
        self.virtual_dns [] _ h).1,
  )
