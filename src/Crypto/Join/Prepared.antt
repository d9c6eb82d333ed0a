-- ===== src/Crypto/Join/Prepared.antt =====
-- `PreparedJoinRequest` of crates/weaver-crypto/src/lib.rs: a join request with the binding of the
-- endpoint that the candidate will use.
use weaver.Wire.{Parser, ◌>>=◌, ◌>>◌, magic, decode, to_be, uint, lift, take_bytes, finish, return}
use weaver.Crypto.Join
use weaver.Crypto.Join.{JoinRequest, VerifiedJoinRequest}
use weaver.Prelude.{Bytes, ◌≡◌, ◌++◌, ◌∷◌, [], length, arith, length-append, not, ◌==◌, ◌+◌, refl}
use weaver.Crypto.{CertificateError, signature_len, malformed_wire, certificate_malformed}
use weaver.Crypto.Endpoint.{EndpointBinding}
use weaver.Prelude.Results.{fail_if, Result, ok}
use weaver.Wire.Reads.{
  decode-Ends, Ends-bind, magic-Reads, uint-Reads, Ends-skip, lift-Reads, take_bytes-Reads,
  Ends-last, finish-Ends, Ends-return, length_guard-Reads,
}
use weaver.Wire.Ints.{length-to_be}
use weaver.Crypto.Join.Codec.{join_request_payload_len}
use weaver.Crypto.Endpoint.Codec.{endpoint_payload_len}
use weaver.Crypto.Endpoint

pub record PreparedJoinRequest : Type 0 where
  pub request : JoinRequest
  pub endpoint_binding : EndpointBinding

-- b"WVRPJR\0\x01"
abbrev prepared_join_magic : Bytes
prepared_join_magic = b'W' ∷ b'V' ∷ b'R' ∷ b'P' ∷ b'J' ∷ b'R' ∷ 0 ∷ 1 ∷ []

unfoldable pub to_bytes : PreparedJoinRequest → Bytes
to_bytes self =
    let request = Join.to_bytes self.request in
    let endpoint = Endpoint.to_bytes self.endpoint_binding in
    prepared_join_magic
    ++ (to_be 4 (length request) ++ (request ++ (to_be 4 (length endpoint) ++ endpoint)))

prepared_join_parser : Parser CertificateError PreparedJoinRequest
prepared_join_parser = do
  magic prepared_join_magic
  request_len ← uint 4
  lift (fail_if (not (request_len == join_request_payload_len + signature_len)) malformed_wire)
  request_bytes ← take_bytes request_len
  request ← lift (Join.from_bytes request_bytes)
  endpoint_len ← uint 4
  lift (fail_if (not (endpoint_len == endpoint_payload_len + signature_len)) malformed_wire)
  endpoint_bytes ← take_bytes endpoint_len
  endpoint_binding ← lift (Endpoint.from_bytes endpoint_bytes)
  finish
  return record { request = request; endpoint_binding = endpoint_binding }

unfoldable pub from_bytes : Bytes → Result CertificateError PreparedJoinRequest
unfolding prepared_join_parser
from_bytes = decode prepared_join_parser

-- Every prepared request whose two parts are well formed is read back from its bytes.
pub from_bytes-to_bytes_prepared :
    (self : PreparedJoinRequest)
    → Join.IsWellFormed self.request
    → Endpoint.IsWellFormed self.endpoint_binding
    → from_bytes (to_bytes self) ≡ ok self
unfolding from_bytes to_bytes
from_bytes-to_bytes_prepared self r e =
    let lr = Join.Verify.length-to_bytes self.request r in
    let le = Endpoint.Verify.length-to_bytes self.endpoint_binding e in
    decode-Ends (omega (arith, length-append {0}, length-to_be, lr, le)) (
      Ends-bind _ magic-Reads (
        Ends-bind _ (uint-Reads 4 _ (omega (arith, lr))) (
          Ends-skip _ (length_guard-Reads _ _ _ lr) (
            Ends-bind _ (take_bytes-Reads _ _ refl) (
              Ends-skip _ (lift-Reads (Join.Verify.from_bytes-to_bytes self.request r)) (
                Ends-bind _ (uint-Reads 4 _ (omega (arith, le))) (
                  Ends-skip _ (length_guard-Reads _ _ _ le) (
                    Ends-last _ (take_bytes-Reads _ _ refl) (
                      Ends-skip _
                        (lift-Reads (Endpoint.Verify.from_bytes-to_bytes self.endpoint_binding e))
                        (finish-Ends Ends-return))))))))))
