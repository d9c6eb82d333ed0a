-- ===== src/Crypto/Join/Codec.antt =====
-- The payload of a join request and its wire form.
use weaver.Prelude.{ℕ, ◌+◌, ◌<◌, ◌^◌, ◌≡◌, ◌++◌, Bytes, length, length-append, [], ◌∷◌, arith}
use weaver.Prelude.Results.{Result, ok}
use weaver.Wire.{Parser, to_be, array, magic, uint, finish, return, decode, ◌>>=◌, ◌>>◌}
use weaver.Wire.Ints.{length-to_be}
use weaver.Wire.Reads.{
  Ends-bind, Ends-last, Ends-return, finish-Ends, magic-Reads, array-Reads, uint-Reads, decode-Ends,
}
use weaver.Crypto.{CertificateError, certificate_malformed}

-- b"WVRJNR\0\x01"
abbrev pub join_request_magic : Bytes
join_request_magic = b'W' ∷ b'V' ∷ b'R' ∷ b'J' ∷ b'N' ∷ b'R' ∷ 0 ∷ 1 ∷ []

abbrev pub join_request_payload_len : ℕ
join_request_payload_len = 8 + 32 + 32 + 32 + 32 + 32 + 32 + 4 + 8

pub record JoinRequestPayload : Type 0 where
  pub network_id : Bytes
  pub member_id : Bytes
  pub signing_public_key : Bytes
  pub encryption_public_key : Bytes
  pub endpoint_id : Bytes
  pub nonce : Bytes
  pub requested_roles : ℕ
  pub expires_at_ms : ℕ

unfoldable pub encode_join_request_payload : JoinRequestPayload → Bytes
encode_join_request_payload p =
    join_request_magic
    ++ (p.network_id
        ++ (p.member_id
            ++ (p.signing_public_key
                ++ (p.encryption_public_key
                    ++ (p.endpoint_id
                        ++ (p.nonce ++ (to_be 4 p.requested_roles ++ to_be 8 p.expires_at_ms)))))))

join_request_payload_parser : Parser CertificateError JoinRequestPayload
join_request_payload_parser = do
  magic join_request_magic
  network_id ← array 32
  member_id ← array 32
  signing_public_key ← array 32
  encryption_public_key ← array 32
  endpoint_id ← array 32
  nonce ← array 32
  requested_roles ← uint 4
  expires_at_ms ← uint 8
  finish
  return record {
    network_id = network_id;
    member_id = member_id;
    signing_public_key = signing_public_key;
    encryption_public_key = encryption_public_key;
    endpoint_id = endpoint_id;
    nonce = nonce;
    requested_roles = requested_roles;
    expires_at_ms = expires_at_ms;
  }

unfoldable pub decode_join_request_payload : Bytes → Result CertificateError JoinRequestPayload
unfolding join_request_payload_parser
decode_join_request_payload = decode join_request_payload_parser

-- The sizes that the Rust types of the fields give.
pub record Fits (p : JoinRequestPayload) : Type 0 where
  pub network_id : length p.network_id ≡ 32
  pub member_id : length p.member_id ≡ 32
  pub signing_public_key : length p.signing_public_key ≡ 32
  pub encryption_public_key : length p.encryption_public_key ≡ 32
  pub endpoint_id : length p.endpoint_id ≡ 32
  pub nonce : length p.nonce ≡ 32
  pub requested_roles : p.requested_roles < 256 ^ 4
  pub expires_at_ms : p.expires_at_ms < 256 ^ 8

pub length-encode_join_request_payload :
    (p : JoinRequestPayload)
    → Fits p
    → length (encode_join_request_payload p) ≡ join_request_payload_len
unfolding encode_join_request_payload
length-encode_join_request_payload p f = omega (arith, length-append {0}, length-to_be, f)

-- Every payload whose fields have their sizes is decoded from its encoding.
pub decode-encode_join_request_payload :
    (p : JoinRequestPayload)
    → Fits p
    → decode_join_request_payload (encode_join_request_payload p) ≡ ok p
unfolding decode_join_request_payload encode_join_request_payload
decode-encode_join_request_payload p f =
    decode-Ends (omega (arith, length-encode_join_request_payload p f)) (
      Ends-bind _ magic-Reads (
        Ends-bind _ (array-Reads 32 p.network_id f.network_id) (
          Ends-bind _ (array-Reads 32 p.member_id f.member_id) (
            Ends-bind _ (array-Reads 32 p.signing_public_key f.signing_public_key) (
              Ends-bind _ (array-Reads 32 p.encryption_public_key f.encryption_public_key) (
                Ends-bind _ (array-Reads 32 p.endpoint_id f.endpoint_id) (
                  Ends-bind _ (array-Reads 32 p.nonce f.nonce) (
                    Ends-bind _ (uint-Reads 4 p.requested_roles f.requested_roles) (
                      Ends-last _ (uint-Reads 8 p.expires_at_ms f.expires_at_ms)
                        (finish-Ends Ends-return))))))))))
