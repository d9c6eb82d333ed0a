-- ===== src/Authority/Bootstrap.antt =====
-- The messages by which a device redeems an invitation, of
-- crates/weaver-relay-core/src/invitation.rs: the parsers.
pub mod Messages
pub mod Answers
pub mod Requests
use weaver.Crypto.Join.Prepared
use weaver.Prelude.{[], ◌∷◌, Bytes, ℕ, length, ◌*◌, ltb, ◌==◌}
use weaver.Wire.{Parser, ◌>>=◌, ◌>>◌, return, lift, magic, uint, finish, take_bytes}
use weaver.Prelude.Results.{fail_if}
use weaver.Authority.{AuthorityError, JoinTicket}
use weaver.Authority.Invitation.Signed.{invitation_from_bytes}
use weaver.Crypto.Join.Prepared.{PreparedJoinRequest}
use weaver.Authority.Ticket.{of_crypto}
use weaver.Authority.Invitation.{invitation_malformed, Addresses, InvitationBundle}

-- b"WVRBSR\0\x01" and b"WVRBSP\0\x01"
abbrev pub bootstrap_request_magic : Bytes
bootstrap_request_magic = b'W' ∷ b'V' ∷ b'R' ∷ b'B' ∷ b'S' ∷ b'R' ∷ 0 ∷ 1 ∷ []

abbrev pub bootstrap_response_magic : Bytes
bootstrap_response_magic = b'W' ∷ b'V' ∷ b'R' ∷ b'B' ∷ b'S' ∷ b'P' ∷ 0 ∷ 1 ∷ []

abbrev pub max_bootstrap_payload : ℕ
max_bootstrap_payload = 1024 * 1024

pub data BootstrapRejectCode : Type 0 where
  invalid already_used revoked internal : BootstrapRejectCode

pub data BootstrapRedeemResponse : Type 0 where
  accepted : JoinTicket → BootstrapRedeemResponse
  rejected : BootstrapRejectCode → BootstrapRedeemResponse

-- `code as u8`
abbrev pub code_byte : BootstrapRejectCode → ℕ
code_byte BootstrapRejectCode.invalid = 1
code_byte BootstrapRejectCode.already_used = 2
code_byte BootstrapRejectCode.revoked = 3
code_byte BootstrapRejectCode.internal = 4

-- `WideDecoder::blob_allow_empty`
unfoldable pub wide_blob_allow_empty : ℕ → Parser AuthorityError Bytes
wide_blob_allow_empty max = do
  len ← uint 4
  lift (fail_if (ltb max len) AuthorityError.invalid_invitation)
  take_bytes len

-- `WideDecoder::blob`
unfoldable pub wide_blob : ℕ → Parser AuthorityError Bytes
wide_blob max = do
  value ← wide_blob_allow_empty max
  lift (fail_if (length value == 0) AuthorityError.invalid_invitation)
  return value

-- What `BootstrapRedeemResponse::from_bytes` reads: the status and the payload.
unfoldable pub response_parser : Parser AuthorityError (ℕ × Bytes)
response_parser = do
  magic bootstrap_response_magic
  status ← uint 1
  payload ← wide_blob_allow_empty max_bootstrap_payload
  finish
  return (status, payload)

module _ ⦃a : Addresses⦄ where
  pub record BootstrapRedeemRequest : Type 0 where
    pub invitation : InvitationBundle
    pub prepared : PreparedJoinRequest

  -- `BootstrapRedeemRequest::from_bytes`
  unfoldable pub request_parser : Parser AuthorityError BootstrapRedeemRequest
  request_parser = do
    magic bootstrap_request_magic
    invitation_bytes ← wide_blob max_bootstrap_payload
    invitation ← lift (invitation_from_bytes invitation_bytes)
    prepared_bytes ← wide_blob max_bootstrap_payload
    prepared ← lift (of_crypto (Prepared.from_bytes prepared_bytes))
    finish
    return record { invitation = invitation; prepared = prepared }
