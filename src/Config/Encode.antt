-- ===== src/Config/Encode.antt =====
-- The signed bytes of an envelope, `encode_signed_bytes` of crates/weaver-config/src/lib.rs, and
-- that `from_bytes` reads them.
use weaver.Prelude.{
  [], false, ◌∷◌, List, ℕ, Bytes, length, ◌<◌, ◌≡◌, All, ltb, ◌++◌, ◌≤◌, ◌^◌, ◌||◌, length-append,
  subst, ◌==◌, append_assoc, arith, ◌-◌, ◌∙◌, take-append, drop-append, refl,
}
use weaver.Config.Chain.{from_bytes, to_bytes}
use weaver.Config.{
  config_malformed, EncryptedConfigEnvelope, KeyWrap, envelope_parser, key_wrap, wrap_part,
  ConfigError, supported_format_version, max_key_wraps, max_wrap_part, envelope_magic,
  max_ciphertext,
}
use weaver.Wire.Reads.{
  Ends, Reads, Reads-bind, Ends-bind, Reads-repeat_none, uint-Reads, Reads-last, Reads-repeat_more,
  Reads-skip, magic-Reads, Ends-skip, Reads-return, lift-Reads, decode-Ends, length_guard-Reads,
  array-Reads, take_bytes-Reads, bound_guard-Reads, Ends-last, finish-Ends, Ends-return,
}
use weaver.Wire.{repeat, usize_max, to_be}
use weaver.Prelude.Results.{
  Result, ok, ◌>>=◌, ◌>>◌, fail_if, fail_if-eq-ok, >>=-eq-ok, ok-injective, fail_if-ok,
}

-- The part of `encode_signed_bytes` that writes one wrap.
unfoldable pub encode_wrap : KeyWrap → Result ConfigError Bytes
encode_wrap wrap = do
  fail_if (ltb 65535 (length wrap.encapsulated_key) || ltb 65535 (length wrap.ciphertext))
      ConfigError.malformed_wire
  ok (
      to_be 2 (length wrap.encapsulated_key)
      ++ (wrap.encapsulated_key ++ (to_be 2 (length wrap.ciphertext) ++ wrap.ciphertext)))

unfoldable pub encode_wraps : List KeyWrap → Result ConfigError Bytes
encode_wraps [] = ok []
encode_wraps (wrap ∷ wraps) = do
  bytes ← encode_wrap wrap
  rest ← encode_wraps wraps
  ok (bytes ++ rest)

unfoldable pub encode_signed_bytes : EncryptedConfigEnvelope → Result ConfigError Bytes
encode_signed_bytes self = do
  fail_if (ltb 4294967295 (length self.ciphertext) || ltb 65535 (length self.member_key_wraps))
      ConfigError.malformed_wire
  wraps ← encode_wraps self.member_key_wraps
  ok (
      envelope_magic
      ++ (to_be 2 self.format_version
          ++ (self.network_id
              ++ (to_be 8 self.epoch
                  ++ (to_be 8 self.revision
                      ++ (self.previous_hash
                          ++ (self.payload_hash
                              ++ (self.nonce
                                  ++ (to_be 4 (length self.ciphertext)
                                      ++ (self.ciphertext
                                          ++ (to_be 2 (length self.member_key_wraps)
                                              ++ (wraps ++ self.signer_key_id))))))))))))

-- A wrap that the decoder admits.
pub record IsWrap (wrap : KeyWrap) : Type 0 where
  pub encapsulated_some : 0 < length wrap.encapsulated_key
  pub encapsulated_fits : length wrap.encapsulated_key ≤ max_wrap_part
  pub ciphertext_some : 0 < length wrap.ciphertext
  pub ciphertext_fits : length wrap.ciphertext ≤ max_wrap_part

-- An envelope as `seal` makes it: the sizes of its fields, and its signed bytes its encoding.
pub record IsSealed (self : EncryptedConfigEnvelope) : Type 0 where
  pub format_version : self.format_version ≡ supported_format_version
  pub network_id : length self.network_id ≡ 32
  pub epoch : self.epoch < 2 ^ 64
  pub revision : self.revision < 2 ^ 64
  pub previous_hash : length self.previous_hash ≡ 32
  pub payload_hash : length self.payload_hash ≡ 32
  pub nonce : length self.nonce ≡ 24
  pub ciphertext : length self.ciphertext ≤ max_ciphertext
  pub wraps_some : 0 < length self.member_key_wraps
  pub wraps_fit : length self.member_key_wraps ≤ max_key_wraps
  pub wraps : All IsWrap self.member_key_wraps
  pub signer_key_id : length self.signer_key_id ≡ 16
  pub signed : encode_signed_bytes self ≡ ok self.signed_bytes
  pub signature : length self.signature ≡ 64

part_length : (n : ℕ) → 0 < n → n ≤ max_wrap_part → ((n == 0) || ltb max_wrap_part n) ≡ false
part_length n p l = ground arith

part-Reads :
    (v : Bytes)
    → 0 < length v
    → length v ≤ max_wrap_part
    → Reads wrap_part v (to_be 2 (length v) ++ v)
unfolding wrap_part
part-Reads v p l = Reads-bind _ (uint-Reads 2 (length v) (omega (arith, l))) (
    Reads-skip _ (lift-Reads (fail_if-ok _ (part_length _ p l)))
      (take_bytes-Reads (length v) v refl))

key_wrap-Reads :
    (wrap : KeyWrap) {b : Bytes} → IsWrap wrap → encode_wrap wrap ≡ ok b → Reads key_wrap wrap b
unfolding key_wrap encode_wrap
key_wrap-Reads wrap w h =
    let (t, h) =
      fail_if-eq-ok (ltb 65535 (length wrap.encapsulated_key) || ltb 65535 (length wrap.ciphertext))
        _ _ h in
    subst (Reads _ wrap)
      (append_assoc (to_be 2 (length wrap.encapsulated_key)) wrap.encapsulated_key _
        ∙ ok-injective h)
      (Reads-bind _ (part-Reads wrap.encapsulated_key w.encapsulated_some w.encapsulated_fits) (
        Reads-last _ (part-Reads wrap.ciphertext w.ciphertext_some w.ciphertext_fits) Reads-return))

key_wraps-Reads :
    (wraps : List KeyWrap) {b : Bytes}
    → All IsWrap wraps
    → encode_wraps wraps ≡ ok b
    → Reads (repeat (length wraps) key_wrap) wraps b
unfolding encode_wraps
key_wraps-Reads [] w h = subst (Reads _ []) (ok-injective h) (Reads-repeat_none key_wrap)
key_wraps-Reads (wrap ∷ wraps) w h =
    let (b, e, h) = >>=-eq-ok (encode_wrap wrap) _ h in
    let (d, f, h) = >>=-eq-ok (encode_wraps wraps) _ h in
    subst (Reads _ (wrap ∷ wraps)) (ok-injective h) (
      Reads-repeat_more key_wrap (length wraps) (key_wrap-Reads wrap w.0 e)
        (key_wraps-Reads wraps w.1 f))

wrap_count : (n : ℕ) → 0 < n → n ≤ max_key_wraps → ((n == 0) || ltb max_key_wraps n) ≡ false
wrap_count n p l = ground arith

signed-Ends :
    (self : EncryptedConfigEnvelope)
    → IsSealed self
    → Ends (envelope_parser self.signed_bytes self.signature) self self.signed_bytes
unfolding encode_signed_bytes envelope_parser
signed-Ends self s =
    let (t, h) =
      fail_if-eq-ok
        (ltb 4294967295 (length self.ciphertext) || ltb 65535 (length self.member_key_wraps)) _ _
        s.signed in
    let (wraps, e, h) = >>=-eq-ok (encode_wraps self.member_key_wraps) _ h in
    subst (Ends _ self) (ok-injective h) (
      Ends-bind _ magic-Reads (
        Ends-bind _ (uint-Reads 2 self.format_version (omega (arith, s.format_version))) (
          Ends-skip _ (length_guard-Reads _ _ _ s.format_version) (
            Ends-bind _ (array-Reads 32 self.network_id s.network_id) (
              Ends-bind _ (uint-Reads 8 self.epoch s.epoch) (
                Ends-bind _ (uint-Reads 8 self.revision s.revision) (
                  Ends-bind _ (array-Reads 32 self.previous_hash s.previous_hash) (
                    Ends-bind _ (array-Reads 32 self.payload_hash s.payload_hash) (
                      Ends-bind _ (array-Reads 24 self.nonce s.nonce) (
                        Ends-bind _
                          (uint-Reads 4 (length self.ciphertext) (omega (arith, s.ciphertext)))
                          (Ends-skip _ (bound_guard-Reads _ _ _ s.ciphertext) (
                            Ends-bind _
                              (take_bytes-Reads (length self.ciphertext) self.ciphertext refl)
                              (Ends-bind _
                                (uint-Reads 2 (length self.member_key_wraps)
                                  (omega (arith, s.wraps_fit)))
                                (Ends-skip _
                                  (lift-Reads
                                    (fail_if-ok _ (wrap_count _ s.wraps_some s.wraps_fit)))
                                  (Ends-bind _ (key_wraps-Reads self.member_key_wraps s.wraps e) (
                                    Ends-last _ (array-Reads 16 self.signer_key_id s.signer_key_id)
                                      (finish-Ends Ends-return)))))))))))))))))

-- An envelope with the sizes of a sealed one is read back from its bytes, which fit a `usize`.
pub from_bytes-to_bytes_envelope :
    (self : EncryptedConfigEnvelope)
    → IsSealed self
    → length (to_bytes self) ≤ usize_max
    → from_bytes (to_bytes self) ≡ ok self
unfolding from_bytes to_bytes
from_bytes-to_bytes_envelope self s l =
    let n = length-append self.signed_bytes self.signature in
    let long : ltb (length (self.signed_bytes ++ self.signature)) 64 ≡ false =
      ground (arith, n, s.signature) in
    let cut : length (self.signed_bytes ++ self.signature) - 64 ≡ length self.signed_bytes =
      omega (arith, n, s.signature) in
    rw (
      long,
      cut,
      take-append self.signed_bytes self.signature,
      drop-append self.signed_bytes self.signature,
      decode-Ends (omega (arith, n, l)) (signed-Ends self s),
    )
