-- ===== src/Authority/Ticket/Codec.antt =====
-- Tickets and heads of crates/weaver-relay-core/src/lib.rs are read back from their bytes.
use weaver.Prelude.{
  false, Bytes, ℕ, length, ◌<◌, ◌≡◌, ◌≤◌, ◌^◌, length-append, subst, take, ◌==◌, ltb, ◌++◌, ◌||◌,
  arith, drop, take-append, ◌-◌, drop-append, drop-add, refl,
}
use weaver.Authority.Ticket.{
  decode_head, encode_signed, push_ticket_blob, ticket_from_bytes, encode_head, ticket_to_bytes,
}
use weaver.Wire.Reads.{
  Ends, Reads, Ends-bind, Reads-bind, magic-Reads, uint-Reads, Reads-skip, array-Reads, Ends-last,
  decode-Ends, lift-Reads, finish-Ends, Ends-return, take_bytes-Reads,
}
use weaver.Config.Chain.{ConfigHead}
use weaver.Store.{max_value_len}
use weaver.Prelude.Results.{>>=-eq-ok, ok, fail_if-eq-ok, ok-injective, fail_if-ok}
use weaver.Wire.{usize_max, to_be}
use weaver.Wire.Ints.{length-to_be, from_be-to_be}
use weaver.Authority.{ticket_malformed, JoinTicket, ticket_blob, ticket_parser}

-- A blob that the decoder admits.
abbrev pub IsBlob : Bytes → Type 0
IsBlob blob = (0 < length blob) × (length blob ≤ max_value_len)

-- A ticket as `issue` makes it: the sizes of its fields, and its signed bytes their encoding.
pub record IsIssued (self : JoinTicket) : Type 0 where
  pub network_id : length self.network_id ≡ 32
  pub request_nonce : length self.request_nonce ≡ 32
  pub expires_at_ms : self.expires_at_ms < 2 ^ 64
  pub epoch : self.config_head.epoch < 2 ^ 64
  pub revision : self.config_head.revision < 2 ^ 64
  pub hash : length self.config_head.hash ≡ 32
  pub admin_certificate : IsBlob self.admin_certificate
  pub member_certificate : IsBlob self.member_certificate
  pub endpoint_binding : IsBlob self.endpoint_binding
  pub embedded_config : IsBlob self.embedded_config
  pub signer_key_id : length self.signer_key_id ≡ 16
  pub signed : encode_signed self ≡ ok self.signed_bytes
  pub signature : length self.signature ≡ 64

blob_length : (n : ℕ) → 0 < n → n ≤ max_value_len → ((n == 0) || ltb max_value_len n) ≡ false
blob_length n p l = ground arith

ticket_blob-Reads :
    (blob : Bytes) {b : Bytes}
    → IsBlob blob
    → push_ticket_blob blob ≡ ok b
    → Reads ticket_blob blob b
unfolding push_ticket_blob ticket_blob
ticket_blob-Reads blob i h =
    let (t, h) = fail_if-eq-ok (ltb 4294967295 (length blob)) _ _ h in
    subst (Reads _ blob) (ok-injective h) (
      Reads-bind _ (uint-Reads 4 (length blob) (omega (arith, i.1))) (
        Reads-skip _ (lift-Reads (fail_if-ok _ (blob_length _ i.0 i.1)))
          (take_bytes-Reads (length blob) blob refl)))

ticket-Ends :
    (self : JoinTicket)
    → IsIssued self
    → Ends (ticket_parser self.signed_bytes self.signature) self self.signed_bytes
unfolding encode_signed ticket_parser
ticket-Ends self i =
    let (a, p, h) = >>=-eq-ok (push_ticket_blob self.admin_certificate) _ i.signed in
    let (b, q, h) = >>=-eq-ok (push_ticket_blob self.member_certificate) _ h in
    let (c, r, h) = >>=-eq-ok (push_ticket_blob self.endpoint_binding) _ h in
    let (d, s, h) = >>=-eq-ok (push_ticket_blob self.embedded_config) _ h in
    subst (Ends _ self) (ok-injective h) (
      Ends-bind _ magic-Reads (
        Ends-bind _ (array-Reads 32 self.network_id i.network_id) (
          Ends-bind _ (array-Reads 32 self.request_nonce i.request_nonce) (
            Ends-bind _ (uint-Reads 8 self.expires_at_ms i.expires_at_ms) (
              Ends-bind _ (uint-Reads 8 self.config_head.epoch i.epoch) (
                Ends-bind _ (uint-Reads 8 self.config_head.revision i.revision) (
                  Ends-bind _ (array-Reads 32 self.config_head.hash i.hash) (
                    Ends-bind _ (ticket_blob-Reads self.admin_certificate i.admin_certificate p) (
                      Ends-bind _ (ticket_blob-Reads self.member_certificate i.member_certificate q)
                        (Ends-bind _ (ticket_blob-Reads self.endpoint_binding i.endpoint_binding r)
                          (Ends-bind _ (ticket_blob-Reads self.embedded_config i.embedded_config s)
                            (Ends-last _ (array-Reads 16 self.signer_key_id i.signer_key_id)
                              (finish-Ends Ends-return)))))))))))))

-- A ticket with the sizes of an issued one is read back from its bytes, which fit a `usize`.
pub ticket_from_bytes-ticket_to_bytes :
    (self : JoinTicket)
    → IsIssued self
    → length (ticket_to_bytes self) ≤ usize_max
    → ticket_from_bytes (ticket_to_bytes self) ≡ ok self
unfolding ticket_from_bytes ticket_to_bytes
ticket_from_bytes-ticket_to_bytes self i l =
    let n = length-append self.signed_bytes self.signature in
    let long : ltb (length (self.signed_bytes ++ self.signature)) 64 ≡ false =
      ground (arith, n, i.signature) in
    let cut : length (self.signed_bytes ++ self.signature) - 64 ≡ length self.signed_bytes =
      omega (arith, n, i.signature) in
    rw (
      long,
      cut,
      take-append self.signed_bytes self.signature,
      drop-append self.signed_bytes self.signature,
      decode-Ends (omega (arith, n, l)) (ticket-Ends self i),
    )

-- The stored record of a head is read back, where its numbers have 64 bits and its hash 32 bytes.
pub decode_head-encode_head :
    (head : ConfigHead)
    → head.epoch < 2 ^ 64
    → head.revision < 2 ^ 64
    → length head.hash ≡ 32
    → decode_head (encode_head head) ≡ ok head
unfolding decode_head encode_head
decode_head-encode_head head e r l =
    let n : length (to_be 8 head.epoch ++ (to_be 8 head.revision ++ head.hash)) ≡ 48 =
      omega (arith, length-append {0}, length-to_be, l) in
    let first =
      at_length 8 (to_be 8 head.epoch) (to_be 8 head.revision ++ head.hash)
        (length-to_be 8 head.epoch) in
    let second = at_length 8 (to_be 8 head.revision) head.hash (length-to_be 8 head.revision) in
    let rest = drop-add 8 8 (to_be 8 head.epoch ++ (to_be 8 head.revision ++ head.hash)) in
    rw (
      n,
      rest,
      first.0,
      first.1,
      second.0,
      second.1,
      from_be-to_be 8 head.epoch e,
      from_be-to_be 8 head.revision r,
    )
  where
    at_length : (n : ℕ) (x y : Bytes) → length x ≡ n → (take n (x ++ y) ≡ x) × (drop n (x ++ y) ≡ y)
    at_length n x y e = rw (← e) (take-append x y, drop-append x y)
