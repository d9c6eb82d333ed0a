-- ===== src/Authority/Bootstrap/Answers.antt =====
-- Answers of an authority of crates/weaver-relay-core/src/invitation.rs are read back.
use weaver.Prelude.{
  [], false, some, length, ℕ, Bytes, ◌≡◌, ◌≤◌, ◌<◌, ◌==◌, arith, ltb, refl, ◌++◌, ap, ◌∙◌, sym,
  length-append, subst, append-nil,
}
use weaver.Authority.Invitation.{invitation_malformed}
use weaver.Authority.Bootstrap.{
  BootstrapRedeemResponse, response_parser, BootstrapRejectCode, wide_blob_allow_empty, code_byte,
  max_bootstrap_payload, bootstrap_response_magic,
}
use weaver.Authority.Bootstrap.Messages.{
  code_of, response_from_bytes, response_to_bytes, response_of, push_u32_blob,
}
use weaver.Authority.Ticket.{ticket_to_bytes}
use weaver.Prelude.Results.{ok, >>=-eq-ok, fail_if-eq-ok, ok-injective, >>=-ok}
use weaver.Wire.Reads.{
  Ends, Ends-bind, magic-Reads, uint-Reads, Ends-last, Reads-bind, Reads-skip, bound_guard-Reads,
  decode-Ends, take_bytes-Reads, finish-Ends, Ends-return,
}
use weaver.Wire.{to_be, usize_max}
use weaver.Wire.Ints.{length-to_be}
use weaver.Authority.Ticket.Codec.{IsIssued, ticket_from_bytes-ticket_to_bytes}

-- An answer that fits a message.
unfoldable pub Fits : BootstrapRedeemResponse → Type 0
Fits (BootstrapRedeemResponse.accepted ticket) =
    IsIssued ticket × (length (ticket_to_bytes ticket) ≤ max_bootstrap_payload)
Fits (BootstrapRedeemResponse.rejected code) = Unit

response-Ends :
    (status : ℕ) (payload : Bytes)
    → status < 256
    → length payload ≤ max_bootstrap_payload
    → Ends response_parser
        (status, payload)
        (bootstrap_response_magic ++ (to_be 1 status ++ (to_be 4 (length payload) ++ payload)))
unfolding response_parser wide_blob_allow_empty
response-Ends status payload s l = Ends-bind _ magic-Reads (
    Ends-bind _ (uint-Reads 1 status s) (
      Ends-last _
        (Reads-bind _ (uint-Reads 4 (length payload) (omega (arith, l))) (
          Reads-skip _ (bound_guard-Reads _ _ _ l)
            (take_bytes-Reads (length payload) payload refl)))
        (finish-Ends Ends-return)))

code_of-code_byte :
    (code : BootstrapRejectCode)
    → (code_of (code_byte code) ≡ some code)
      × (code_byte code < 256)
      × ((code_byte code == 0) ≡ false)
unfolding code_of
code_of-code_byte BootstrapRejectCode.invalid = (refl, omega arith, refl)
code_of-code_byte BootstrapRejectCode.already_used = (refl, omega arith, refl)
code_of-code_byte BootstrapRejectCode.revoked = (refl, omega arith, refl)
code_of-code_byte BootstrapRejectCode.internal = (refl, omega arith, refl)

-- The answer that is written is the answer that is read, where a ticket is one that was issued and
-- fits the message.
pub response_from_bytes-response_to_bytes :
    (self : BootstrapRedeemResponse) (bytes : Bytes)
    → Fits self
    → response_to_bytes self ≡ ok bytes
    → response_from_bytes bytes ≡ ok self
unfolding response_from_bytes response_to_bytes response_of push_u32_blob Fits
response_from_bytes-response_to_bytes (BootstrapRedeemResponse.accepted ticket) bytes f h =
    let (payload, e, h) = >>=-eq-ok (push_u32_blob (ticket_to_bytes ticket)) _ h in
    let (t, e) = fail_if-eq-ok (ltb 4294967295 (length (ticket_to_bytes ticket))) _ _ e in
    let same : bootstrap_response_magic
          ++ (to_be 1 0 ++ (to_be 4 (length (ticket_to_bytes ticket)) ++ ticket_to_bytes ticket))
        ≡ bytes =
      ap (λ p. bootstrap_response_magic ++ (to_be 1 0 ++ p)) (ok-injective e) ∙ ok-injective h in
    let ends = response-Ends 0 (ticket_to_bytes ticket) (omega arith) f.1 in
    let short : length bytes ≤ usize_max =
      omega (arith, ap length (sym same), length-append {0}, length-to_be, f.1) in
    let read = decode-Ends short (subst (Ends response_parser _) same ends) in
    let ticket_read = ticket_from_bytes-ticket_to_bytes ticket f.0 (omega (arith, f.1)) in
    >>=-ok _ _ read ∙ >>=-ok _ _ ticket_read
response_from_bytes-response_to_bytes (BootstrapRedeemResponse.rejected code) bytes f h =
    let (c, small, nonzero) = code_of-code_byte code in
    let ends = response-Ends (code_byte code) [] small (omega arith) in
    let short : length bytes ≤ usize_max =
      omega (arith, ap length (ok-injective h), length-append {0}, length-to_be) in
    let same =
      ap (λ p. bootstrap_response_magic ++ (to_be 1 (code_byte code) ++ p)) (append-nil (to_be 4 0))
      ∙ ok-injective h in
    let read = decode-Ends short (subst (Ends response_parser _) same ends) in
    >>=-ok _ _ read ∙ rw (nonzero, c)
