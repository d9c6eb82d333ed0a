-- ===== src/Config/Snapshot/Resolve.antt =====
-- Queries of a validated snapshot of crates/weaver-config/src/snapshot.rs.
use weaver.Prelude.{refl}
use weaver.Prelude.{
  [], true, false, none, some, ◌∷◌, Bytes, List, ℕ, Option, ◌≡◌, Bool-cases, if◌then◌else◌, ◌<◌,
  bytes_eq, ◌↔◌, ◌&&◌, All-at, ltb, bytes_eq_self, inl, subst, &&-eq-true, arith, lt→ltb,
  bytes_eq_sound, inr,
}
use weaver.Config.Snapshot.Validate.{ValidatedNetworkConfig, validate}
use weaver.Crypto.{Primitives, NetworkRootPublic}
use weaver.Config.Snapshot.{NetworkConfigV1, VirtualDnsRecord}
use weaver.Prelude.Results.{ok}
use mathlib.Core.List.{Memᴰ}
use weaver.Prelude.Loops.{Distinct}
use weaver.Crypto.App.{VerifiedApp}
use weaver.Config.Snapshot.Accepted.{validate-IsAccepted}
use weaver.Config.Snapshot.Loops.{IsListedApp}
use mathlib.Core.List.Memᴰ.{head, tail}

-- `iter().find(…).map(|record| record.app_addr)`
unfoldable pub find_record : List VirtualDnsRecord → Bytes → ℕ → Option Bytes
find_record [] name now_ms = none
find_record (r ∷ records) name now_ms =
    let rest = find_record records name now_ms in
    if bytes_eq r.name name && ltb now_ms r.expires_at_ms then some r.app_addr else rest

-- `ValidatedNetworkConfig::resolve_virtual_name`
unfoldable pub resolve_virtual_name : ValidatedNetworkConfig → Bytes → ℕ → Option Bytes
resolve_virtual_name self name now_ms = find_record self.inner.virtual_dns name now_ms

-- A record that answers `name` at `now_ms` with `app_addr`.
pub record Answers (records : List VirtualDnsRecord) (name : Bytes) (now_ms : ℕ) (app_addr : Bytes)
    : Type 0 where
  pub answer : VirtualDnsRecord
  pub listed : Memᴰ answer records
  pub named : answer.name ≡ name
  pub unexpired : now_ms < answer.expires_at_ms
  pub address : answer.app_addr ≡ app_addr

module _ (name : Bytes) (now_ms : ℕ) {app_addr : Bytes} where
  find_record-Answers :
      (records : List VirtualDnsRecord)
      → find_record records name now_ms ≡ some app_addr
      → Answers records name now_ms app_addr
  unfolding find_record
  find_record-Answers [] h = cc
  find_record-Answers (r ∷ records) h =
      elim (Bool-cases (bytes_eq r.name name && ltb now_ms r.expires_at_ms)) [
        | inl e ↦
            let found : some r.app_addr ≡ some app_addr = rw e at h in
            let (n, x) = &&-eq-true _ _ e in
            record {
              answer = r;
              listed = head refl;
              named = bytes_eq_sound _ _ n;
              unexpired = ground arith;
              address = cc;
            }
        | inr e ↦
            let found : find_record records name now_ms ≡ some app_addr = rw e at h in
            let a = find_record-Answers records found in
            record {
              answer = a.answer;
              listed = tail a.listed;
              named = a.named;
              unexpired = a.unexpired;
              address = a.address;
            }
      ]

-- The first of several records with different names is the only one.
find_record-listed :
    (records : List VirtualDnsRecord) (r : VirtualDnsRecord) (now_ms : ℕ)
    → Distinct (λ (r : VirtualDnsRecord). r.name) records
    → Memᴰ r records
    → now_ms < r.expires_at_ms
    → find_record records r.name now_ms ≡ some r.app_addr
unfolding find_record
find_record-listed [] r now_ms d m l = elim m [ ]
find_record-listed (q ∷ records) r now_ms d (head e) l =
    let test : (bytes_eq q.name r.name && ltb now_ms q.expires_at_ms) ≡ true =
      rw (← e) (rw (bytes_eq_self r.name) (lt→ltb now_ms r.expires_at_ms l)) in
    rw (test, e)
find_record-listed (q ∷ records) r now_ms d (tail m) l =
    let apart : bytes_eq q.name r.name ≡ false = All-at _ records d.0 r m in
    rw (apart, find_record-listed records r now_ms d.1 m l)

-- A validated snapshot answers a name at a moment with an address exactly if it lists a record of
-- that name and address that has not expired by then.
pub resolve_virtual_name_iff :
    ⦃c : Primitives⦄ (self : NetworkConfigV1) (root : NetworkRootPublic) (network : Bytes)
    (validated_ms : ℕ) (v : ValidatedNetworkConfig) (name : Bytes) (now_ms : ℕ) (app_addr : Bytes)
    → validate self root network validated_ms ≡ ok v
    → (resolve_virtual_name v name now_ms ≡ some app_addr)
      ↔ Answers self.virtual_dns name now_ms app_addr
unfolding resolve_virtual_name
resolve_virtual_name_iff self root network validated_ms v name now_ms app_addr h =
    let (e, a) = validate-IsAccepted self root network validated_ms v h in
    rw e (
      find_record-Answers name now_ms self.virtual_dns,
      λ answers.
          rw (← answers.named, ← answers.address)
            (find_record-listed self.virtual_dns answers.answer now_ms a.names_distinct
              answers.listed answers.unexpired),
    )

-- An address that a validated snapshot answers with is that of an application of the snapshot,
-- registered by the root or by an administrator of the snapshot whom the root certified, and no
-- name is answered once the snapshot has expired.
pub resolve_virtual_name-IsListedApp :
    ⦃c : Primitives⦄ (self : NetworkConfigV1) (root : NetworkRootPublic) (network : Bytes)
    (validated_ms : ℕ) (v : ValidatedNetworkConfig) (name : Bytes) (now_ms : ℕ) (app_addr : Bytes)
    → validate self root network validated_ms ≡ ok v
    → resolve_virtual_name v name now_ms ≡ some app_addr
    → ((app : VerifiedApp) × IsListedApp self root network validated_ms app_addr app)
      × (now_ms < self.expires_at_ms)
unfolding resolve_virtual_name
resolve_virtual_name-IsListedApp self root network validated_ms v name now_ms app_addr h found =
    let (e, a) = validate-IsAccepted self root network validated_ms v h in
    let answers =
      (resolve_virtual_name_iff self root network validated_ms v name now_ms app_addr h).0 found in
    let (app, from, until) = All-at _ self.virtual_dns a.names answers.answer answers.listed in
    (
      subst (λ k. (app : VerifiedApp) × IsListedApp self root network validated_ms k app)
          answers.address app,
      omega (arith, until, answers.unexpired),
    )
