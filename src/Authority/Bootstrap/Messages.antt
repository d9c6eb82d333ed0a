-- ===== src/Authority/Bootstrap/Messages.antt =====
-- Writing and reading the answers to a device that redeems an invitation, of
-- crates/weaver-relay-core/src/invitation.rs.
use weaver.Prelude.{none, some, Bytes, ℕ, Option, if◌then◌else◌, ltb, length, ◌==◌, ◌++◌, not}
use weaver.Authority.Bootstrap.{
  BootstrapRedeemResponse, BootstrapRejectCode, bootstrap_response_magic, response_parser,
  code_byte,
}
use weaver.Authority.{AuthorityError}
use weaver.Authority.Ticket.{ticket_to_bytes, ticket_from_bytes}
use weaver.Wire.{decode, to_be}
use weaver.Prelude.Results.{Result, ok, ◌>>=◌, ◌>>◌, fail_if, ok_or}

-- `push_u32_blob`
unfoldable pub push_u32_blob : Bytes → Result AuthorityError Bytes
push_u32_blob value = do
  fail_if (ltb 4294967295 (length value)) AuthorityError.invalid_invitation
  ok (to_be 4 (length value) ++ value)

-- `BootstrapRedeemResponse::to_bytes`
unfoldable pub response_to_bytes : BootstrapRedeemResponse → Result AuthorityError Bytes
response_to_bytes (BootstrapRedeemResponse.accepted ticket) = do
  payload ← push_u32_blob (ticket_to_bytes ticket)
  ok (bootstrap_response_magic ++ (to_be 1 0 ++ payload))
response_to_bytes (BootstrapRedeemResponse.rejected code) =
    ok (bootstrap_response_magic ++ (to_be 1 (code_byte code) ++ to_be 4 0))

-- The code of a status byte.
unfoldable pub code_of : ℕ → Option BootstrapRejectCode
code_of status =
    if status == 1
    then some BootstrapRejectCode.invalid
    else if status == 2
    then some BootstrapRejectCode.already_used
    else if status == 3
    then some BootstrapRejectCode.revoked
    else if status == 4
    then some BootstrapRejectCode.internal
    else none

-- The match on the status, with its guards on the payload.
unfoldable pub response_of : ℕ × Bytes → Result AuthorityError BootstrapRedeemResponse
response_of (status, payload) =
    if status == 0
    then (ticket_from_bytes payload >>= λ ticket. ok (BootstrapRedeemResponse.accepted ticket))
    else (do
      code ← ok_or (code_of status) AuthorityError.invalid_invitation
      fail_if (not (length payload == 0)) AuthorityError.invalid_invitation
      ok (BootstrapRedeemResponse.rejected code))

-- `BootstrapRedeemResponse::from_bytes`
unfoldable pub response_from_bytes : Bytes → Result AuthorityError BootstrapRedeemResponse
response_from_bytes bytes = do read ← decode response_parser bytes; response_of read
