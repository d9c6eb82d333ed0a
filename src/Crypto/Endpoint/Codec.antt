-- ===== src/Crypto/Endpoint/Codec.antt =====
-- The payload of an endpoint binding and its wire form.
use weaver.Prelude.{ℕ, ◌+◌, ◌<◌, ◌^◌, ◌≡◌, ◌++◌, Bytes, length, length-append, [], ◌∷◌, arith}
use weaver.Prelude.Results.{Result, ok}
use weaver.Wire.{Parser, to_be, array, magic, uint, finish, return, decode, ◌>>=◌, ◌>>◌}
use weaver.Wire.Ints.{length-to_be}
use weaver.Wire.Reads.{
  Ends-bind, Ends-last, Ends-return, finish-Ends, magic-Reads, array-Reads, uint-Reads, decode-Ends,
}
use weaver.Crypto.{CertificateError, certificate_malformed}

-- b"WVREND\0\x01"
abbrev pub endpoint_magic : Bytes
endpoint_magic = b'W' ∷ b'V' ∷ b'R' ∷ b'E' ∷ b'N' ∷ b'D' ∷ 0 ∷ 1 ∷ []

abbrev pub endpoint_payload_len : ℕ
endpoint_payload_len = 8 + 32 + 32 + 32 + 8 + 8

pub record EndpointBindingPayload : Type 0 where
  pub network_id : Bytes
  pub member_id : Bytes
  pub endpoint_id : Bytes
  pub sequence : ℕ
  pub expires_at_ms : ℕ

unfoldable pub encode_endpoint_payload : EndpointBindingPayload → Bytes
encode_endpoint_payload p =
    endpoint_magic
    ++ (p.network_id
        ++ (p.member_id ++ (p.endpoint_id ++ (to_be 8 p.sequence ++ to_be 8 p.expires_at_ms))))

endpoint_payload_parser : Parser CertificateError EndpointBindingPayload
endpoint_payload_parser = do
  magic endpoint_magic
  network_id ← array 32
  member_id ← array 32
  endpoint_id ← array 32
  sequence ← uint 8
  expires_at_ms ← uint 8
  finish
  return record {
    network_id = network_id;
    member_id = member_id;
    endpoint_id = endpoint_id;
    sequence = sequence;
    expires_at_ms = expires_at_ms;
  }

unfoldable pub decode_endpoint_payload : Bytes → Result CertificateError EndpointBindingPayload
unfolding endpoint_payload_parser
decode_endpoint_payload = decode endpoint_payload_parser

-- The sizes that the Rust types of the fields give.
pub record Fits (p : EndpointBindingPayload) : Type 0 where
  pub network_id : length p.network_id ≡ 32
  pub member_id : length p.member_id ≡ 32
  pub endpoint_id : length p.endpoint_id ≡ 32
  pub sequence : p.sequence < 256 ^ 8
  pub expires_at_ms : p.expires_at_ms < 256 ^ 8

pub length-encode_endpoint_payload :
    (p : EndpointBindingPayload)
    → Fits p
    → length (encode_endpoint_payload p) ≡ endpoint_payload_len
unfolding encode_endpoint_payload
length-encode_endpoint_payload p f = omega (arith, length-append {0}, length-to_be, f)

-- Every payload whose fields have their sizes is decoded from its encoding.
pub decode-encode_endpoint_payload :
    (p : EndpointBindingPayload)
    → Fits p
    → decode_endpoint_payload (encode_endpoint_payload p) ≡ ok p
unfolding decode_endpoint_payload encode_endpoint_payload
decode-encode_endpoint_payload p f =
    decode-Ends (omega (arith, length-encode_endpoint_payload p f)) (
      Ends-bind _ magic-Reads (
        Ends-bind _ (array-Reads 32 p.network_id f.network_id) (
          Ends-bind _ (array-Reads 32 p.member_id f.member_id) (
            Ends-bind _ (array-Reads 32 p.endpoint_id f.endpoint_id) (
              Ends-bind _ (uint-Reads 8 p.sequence f.sequence) (
                Ends-last _ (uint-Reads 8 p.expires_at_ms f.expires_at_ms)
                  (finish-Ends Ends-return)))))))
