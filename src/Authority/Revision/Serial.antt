-- ===== src/Authority/Revision/Serial.antt =====
-- Serial numbers that an authority of crates/weaver-relay-core/src/lib.rs issues.
use weaver.Prelude.{[]}
use weaver.Prelude.{
  none, some, ℕ, Bytes, List, ◌<◌, ◌≡◌, ◌≤◌, All, ◌+◌, ◌^◌, Bool-cases, Option, arith, ◌∷◌, All-map,
  ltb, inl, ltb→lt, inr,
}
use weaver.Crypto.Admin
use weaver.Authority.Revision.{greatest, next_serial, admin_maximum, member_maximum, max}
use weaver.Prelude.Loops.{for_each}
use weaver.Config.Snapshot.{NetworkConfigV1, AdminKey}
use weaver.Config.Chain.{checked_add_one}
use weaver.Crypto.Admin.{AdminCertificate}
use weaver.Crypto.Member.{MemberCertificate}
use weaver.Prelude.Results.{ok, ok-injective, >>=-eq-ok, ok_or, map_err-eq-ok}
use weaver.Authority.{AuthorityError}
use weaver.Authority.Ticket.{of_crypto}
use weaver.Crypto.Member

max_left : (a b : ℕ) → a ≤ max a b
max_left a b = ground arith

max_right : (a b : ℕ) → b ≤ max a b
max_right a b = ground arith

greatest-bounds : (ns : List ℕ) → All (λ n. n ≤ greatest ns) ns
unfolding greatest
greatest-bounds [] = tt
greatest-bounds (n ∷ ns) = (
  max_left n (greatest ns),
  All-map (λ m l. omega (arith, l, max_right n (greatest ns))) ns (greatest-bounds ns),
)

-- The number is below `bound` and the certificate can be read.
abbrev AdminBelow : ℕ → AdminKey → Type 0
AdminBelow bound key =
    (certificate : AdminCertificate) × (Admin.from_bytes key.certificate ≡ ok certificate)
    × (certificate.payload.serial ≤ bound)

abbrev MemberBelow : ℕ → Bytes → Type 0
MemberBelow bound raw =
    (certificate : MemberCertificate) × (Member.from_bytes raw ≡ ok certificate)
    × (certificate.payload.serial ≤ bound)

admins_below :
    (keys : List AdminKey) (start end : ℕ)
    → for_each admin_maximum keys start ≡ ok end
    → (start ≤ end) × All (AdminBelow end) keys
unfolding for_each admin_maximum
admins_below [] start end h = (omega (arith, ok-injective h), tt)
admins_below (key ∷ keys) start end h =
    let (m, e, h) = >>=-eq-ok (admin_maximum key start) _ h in
    let (certificate, d, e) = >>=-eq-ok (of_crypto (Admin.from_bytes key.certificate)) _ e in
    let (l, all) = admins_below keys m end h in
    let left = max_left start certificate.payload.serial in
    let right = max_right start certificate.payload.serial in
    (
      omega (arith, l, ok-injective e, left),
      ((certificate, map_err-eq-ok _ _ d, omega (arith, l, ok-injective e, right)), all),
    )

members_below :
    (raws : List Bytes) (start end : ℕ)
    → for_each member_maximum raws start ≡ ok end
    → (start ≤ end) × All (MemberBelow end) raws
unfolding for_each member_maximum
members_below [] start end h = (omega (arith, ok-injective h), tt)
members_below (raw ∷ raws) start end h =
    let (m, e, h) = >>=-eq-ok (member_maximum raw start) _ h in
    let (certificate, d, e) = >>=-eq-ok (of_crypto (Member.from_bytes raw)) _ e in
    let (l, all) = members_below raws m end h in
    let left = max_left start certificate.payload.serial in
    let right = max_right start certificate.payload.serial in
    (
      omega (arith, l, ok-injective e, left),
      ((certificate, map_err-eq-ok _ _ d, omega (arith, l, ok-injective e, right)), all),
    )

-- A serial number that no certificate and no revocation of the snapshot has.
pub record IsNewSerial (config : NetworkConfigV1) (serial : ℕ) : Type 0 where
  pub fits : serial < 2 ^ 64
  pub unrevoked : All (λ revoked. revoked < serial) config.revoked_serials
  pub admins :
      All
        (λ (key : AdminKey).
          (certificate : AdminCertificate) × (Admin.from_bytes key.certificate ≡ ok certificate)
          × (certificate.payload.serial < serial))
        config.admin_keys
  pub members :
      All
        (λ raw.
          (certificate : MemberCertificate) × (Member.from_bytes raw ≡ ok certificate)
          × (certificate.payload.serial < serial))
        config.members

added_one : (n m : ℕ) → checked_add_one n ≡ some m → (m ≡ n + 1) × (n + 1 < 2 ^ 64)
added_one n m e = elim (Bool-cases (ltb (n + 1) (2 ^ 64))) [
  | inl t ↦ let found : some (n + 1) ≡ some m = rw t at e in (cc, ltb→lt _ _ t)
  | inr t ↦ let found : none ≡ some m = rw t at e in cc
]

-- The next serial number has 64 bits and is greater than every serial number of the snapshot, those
-- of its administrators, its members and its revocations, so that it is none of them.
pub next_serial-IsNewSerial :
    (config : NetworkConfigV1) (serial : ℕ)
    → next_serial config ≡ ok serial
    → IsNewSerial config serial
unfolding next_serial
next_serial-IsNewSerial config serial h =
    let (m, a, h) = >>=-eq-ok (for_each admin_maximum config.admin_keys _) _ h in
    let (n, b, h) = >>=-eq-ok (for_each member_maximum config.members m) _ h in
    let (e, fits) = added_one n serial (ok_or-ok _ _ h) in
    let (l, admins) = admins_below config.admin_keys _ m a in
    let (k, members) = members_below config.members m n b in
    record {
      fits = omega (arith, e, fits);
      unrevoked =
          All-map (λ r q. omega (arith, e, l, k, q)) config.revoked_serials
            (greatest-bounds config.revoked_serials);
      admins = All-map (λ key (c, d, q). (c, d, omega (arith, e, k, q))) config.admin_keys admins;
      members = All-map (λ raw (c, d, q). (c, d, omega (arith, e, q))) config.members members;
    }
  where
    ok_or-ok : (o : Option ℕ) (e : AuthorityError) {n : ℕ} → ok_or o e ≡ ok n → o ≡ some n
    ok_or-ok none e h = cc
    ok_or-ok (some m) e h = cc
