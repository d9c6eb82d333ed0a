-- ===== src/Authority/Invitation/Consumed.antt =====
-- The record that a redeemed invitation leaves in the store, of
-- crates/weaver-relay-core/src/invitation.rs.
use weaver.Prelude.{true, Bool, ◌≤◌, bytes_eq_iff, ==_iff}
use weaver.Prelude.{
  [], false, ◌∷◌, Bytes, ℕ, length, ltb, ◌+◌, ◌≡◌, ◌++◌, ◌<◌, ◌||◌, not, ◌^◌, bytes_eq,
  if◌then◌else◌, take, drop, ◌==◌, sym, take-append, drop-append, arith, drop-add, Bool-cases, ◌∙◌,
  ap, inl, length-append, inr, refl,
}
use weaver.Authority.{AuthorityError, JoinTicket}
use weaver.Authority.Ticket.{ticket_to_bytes, ticket_from_bytes}
use weaver.Authority.Ticket.Codec.{IsIssued, ticket_from_bytes-ticket_to_bytes}
use weaver.Wire.{to_be, from_be}
use weaver.Wire.Ints.{length-to_be, from_be-to_be}
use weaver.Prelude.Results.{
  Result, ok, ◌>>◌, fail_if, err, fail_if-eq-ok, ok-injective, >>=-ok, fail_if-ok,
}

-- b"WVRUSE\0\x01"
abbrev pub consumed_magic : Bytes
consumed_magic = b'W' ∷ b'V' ∷ b'R' ∷ b'U' ∷ b'S' ∷ b'E' ∷ 0 ∷ 1 ∷ []

unfoldable pub encode_consumed : Bytes → JoinTicket → Result AuthorityError Bytes
encode_consumed request_hash ticket = do
  fail_if (ltb 4294967295 (length (ticket_to_bytes ticket))) AuthorityError.invalid_join_ticket
  ok (
      consumed_magic
      ++ (request_hash ++ (to_be 4 (length (ticket_to_bytes ticket)) ++ ticket_to_bytes ticket)))

unfoldable pub decode_consumed : Bytes → Bytes → Result AuthorityError JoinTicket
decode_consumed bytes expected_request_hash = do
  fail_if
      (ltb (length bytes) (length consumed_magic + 32 + 4)
        || not (bytes_eq (take 8 bytes) consumed_magic))
      AuthorityError.invalid_invitation
  fail_if (not (bytes_eq (take 32 (drop 8 bytes)) expected_request_hash))
      AuthorityError.invitation_already_used
  fail_if (not (length (drop 44 bytes) == from_be (take 4 (drop 40 bytes))))
      AuthorityError.invalid_invitation
  ticket_from_bytes (drop 44 bytes)

-- The parts of a record of an encoded ticket.
parts :
    (hash body : Bytes) (n : ℕ) {bytes : Bytes}
    → length hash ≡ 32
    → n < 2 ^ 32
    → bytes ≡ consumed_magic ++ (hash ++ (to_be 4 n ++ body))
    → (take 8 bytes ≡ consumed_magic)
      × (take 32 (drop 8 bytes) ≡ hash)
      × (from_be (take 4 (drop 40 bytes)) ≡ n)
      × (drop 44 bytes ≡ body)
      × (length bytes ≡ 44 + length body)
parts hash body n {bytes} l b e =
    let start = cut 8 consumed_magic (hash ++ (to_be 4 n ++ body)) refl in
    let middle = cut 32 hash (to_be 4 n ++ body) l in
    let end = cut 4 (to_be 4 n) body (length-to_be 4 n) in
    let after : drop 40 bytes ≡ to_be 4 n ++ body = rw e (
      drop-add 8 32 (consumed_magic ++ (hash ++ (to_be 4 n ++ body)))
      ∙ ap (drop 32) start.1
      ∙ middle.1) in
    (
      rw e start.0,
      rw (e, start.1, middle.0),
      rw (after, end.0, from_be-to_be 4 n b),
      drop-add 40 4 bytes ∙ ap (drop 4) after ∙ end.1,
      omega (arith, ap length e, length-append {0}, length-to_be, l),
    )
  where
    cut : (n : ℕ) (x y : Bytes) → length x ≡ n → (take n (x ++ y) ≡ x) × (drop n (x ++ y) ≡ y)
    cut n x y e = rw (← e) (take-append x y, drop-append x y)

refuses : {E A : Type 0} (t : Bool) (e : E) (k : Result E A) → t ≡ true → (fail_if t e >> k) ≡ err e
refuses t e k h = rw h

-- What a redeemed invitation answers: the ticket again to the same request, and a refusal to any
-- other, where the ticket is one that was issued and the hashes have 32 bytes.
pub decode_consumed-encode_consumed :
    (request_hash expected : Bytes) (ticket : JoinTicket) (bytes : Bytes)
    → length request_hash ≡ 32
    → IsIssued ticket
    → length (ticket_to_bytes ticket) < 2 ^ 32
    → encode_consumed request_hash ticket ≡ ok bytes
    → decode_consumed bytes expected ≡ (
        if bytes_eq request_hash expected
        then ok ticket
        else err AuthorityError.invitation_already_used)
unfolding encode_consumed decode_consumed
decode_consumed-encode_consumed request_hash expected ticket bytes l i small h =
    let (t, h) = fail_if-eq-ok (ltb 4294967295 (length (ticket_to_bytes ticket))) _ _ h in
    let (a, b, c, d, e) =
      parts request_hash (ticket_to_bytes ticket) _ l small (sym (ok-injective h)) in
    let header : (ltb (length bytes) 44 || not (bytes_eq (take 8 bytes) consumed_magic)) ≡ false =
      whole _ _ (omega (arith, e)) ((bytes_eq_iff _ _).1 a) in
    let read = ticket_from_bytes-ticket_to_bytes ticket i (omega (arith, small)) in
    let same_length = (==_iff _ _).1 (ap length d ∙ sym c) in
    >>=-ok _ _ (fail_if-ok _ header) ∙ elim (Bool-cases (bytes_eq request_hash expected)) [
      | inl same ↦ rw same (
          >>=-ok _ _ (fail_if-ok _ (ap not (ap (λ x. bytes_eq x expected) b ∙ same)))
          ∙ >>=-ok _ _ (fail_if-ok _ (ap not same_length))
          ∙ ap ticket_from_bytes d
          ∙ read)
      | inr other ↦ rw other (refuses _ _ _ (ap not (ap (λ x. bytes_eq x expected) b ∙ other)))
    ]
  where
    whole : (n : ℕ) (t : Bool) → 44 ≤ n → t ≡ true → (ltb n 44 || not t) ≡ false
    whole n t l e = ground arith
