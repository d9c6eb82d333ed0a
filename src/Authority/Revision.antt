-- ===== src/Authority/Revision.antt =====
-- The checks that an authority of crates/weaver-relay-core/src/lib.rs makes before it writes the
-- next revision of its configuration.
pub mod Serial
pub mod Unique
use weaver.Prelude.{[], ◌∷◌, Bytes, List, ℕ, if◌then◌else◌, leb, bytes_eq, ◌||◌}
use weaver.Prelude.Results.{Result, ok, ◌>>=◌, ◌>>◌, fail_if, ok_or}
use weaver.Config.Chain.{checked_add_one, ConfigHead}
use weaver.Crypto.Admin
use weaver.Crypto.Member
use weaver.Config.Snapshot.{AdminKey, NetworkConfigV1}
use weaver.Crypto.Join.Codec.{JoinRequestPayload}
use weaver.Authority.{AuthorityError}
use weaver.Authority.Ticket.{of_crypto}
use weaver.Prelude.Loops.{for_each}
use weaver.Crypto.Endpoint

abbrev pub max : ℕ → ℕ → ℕ
max a b = if leb a b then b else a

-- `iter().copied().max().unwrap_or(0)`
unfoldable pub greatest : List ℕ → ℕ
greatest [] = 0
greatest (n ∷ ns) = max n (greatest ns)

-- The loop over `admin_keys`.
unfoldable pub admin_maximum : AdminKey → ℕ → Result AuthorityError ℕ
admin_maximum key maximum = do
  certificate ← of_crypto (Admin.from_bytes key.certificate)
  ok (max maximum certificate.payload.serial)

-- The loop over `members`.
unfoldable pub member_maximum : Bytes → ℕ → Result AuthorityError ℕ
member_maximum raw maximum = do
  certificate ← of_crypto (Member.from_bytes raw)
  ok (max maximum certificate.payload.serial)

unfoldable pub next_serial : NetworkConfigV1 → Result AuthorityError ℕ
next_serial config = do
  with_admins ← for_each admin_maximum config.admin_keys (greatest config.revoked_serials)
  maximum ← for_each member_maximum config.members with_admins
  ok_or (checked_add_one maximum) AuthorityError.invalid_options

unfoldable pub check_member :
    JoinRequestPayload → Bytes → Unit {0} → Result AuthorityError (Unit {0})
check_member request raw u = do
  member ← of_crypto (Member.from_bytes raw)
  fail_if
      (bytes_eq member.payload.member_id request.member_id
        || (bytes_eq member.payload.signing_public_key request.signing_public_key
            || bytes_eq member.payload.encryption_public_key request.encryption_public_key))
      AuthorityError.invalid_join_request

unfoldable pub check_bound :
    JoinRequestPayload → Bytes → Unit {0} → Result AuthorityError (Unit {0})
check_bound request raw u = do
  endpoint ← of_crypto (Endpoint.from_bytes raw)
  fail_if (bytes_eq endpoint.payload.endpoint_id request.endpoint_id)
      AuthorityError.invalid_join_request

unfoldable pub ensure_join_is_unique :
    NetworkConfigV1 → JoinRequestPayload → Result AuthorityError (Unit {0})
ensure_join_is_unique config request = do
  for_each (check_member request) config.members tt
  for_each (check_bound request) config.endpoint_bindings tt

unfoldable pub prepare_next_revision :
    NetworkConfigV1 → ConfigHead → ℕ → Result AuthorityError NetworkConfigV1
prepare_next_revision config current now_ms = do
  revision ← ok_or (checked_add_one config.revision) AuthorityError.invalid_options
  ok (record config { revision = revision; previous_hash = current.hash; issued_at_ms = now_ms })
