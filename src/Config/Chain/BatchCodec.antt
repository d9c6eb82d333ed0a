-- ===== src/Config/Chain/BatchCodec.antt =====
-- Writing and reading a `ConfigUpdateBatch` of crates/weaver-config/src/lib.rs.
use weaver.Prelude.{
  [], ◌∷◌, List, ℕ, Bytes, length, ◌≤◌, ltb, ◌≡◌, arith, ◌%◌, ◌*◌, ◌++◌, ◌+◌, ◌<◌, ap,
  if◌then◌else◌, length-append, subst, ◌^◌, append_assoc, sym, ◌∙◌, Bool-cases, inl, inr, refl,
}
use weaver.Prelude.Results.{
  Result, ok, ◌>>=◌, ◌>>◌, fail_if, err, ok-injective, >>=-eq-ok, fail_if-eq-ok,
}
use weaver.Config.{
  config_malformed, Hashing, ConfigError, max_update_batch_bytes, max_update_envelopes,
  update_batch_too_large,
}
use weaver.Config.Chain.{ConfigUpdateBatch, new_update_batch}
use weaver.Config.Chain.Batch.{batch_parser, envelope_item, batch_header, update_batch_magic}
use weaver.Wire.Reads.{
  Ends, Reads, Reads-bind, Ends-bind, Reads-repeat_none, uint-Reads, Reads-repeat_more, Reads-skip,
  magic-Reads, array-Reads, bound_guard-Reads, Ends-skip, take_bytes-Reads, Ends-last, finish-Ends,
  Ends-return, decode-Ends,
}
use weaver.Wire.{decode, repeat, to_be, usize_max, uint}
use weaver.Wire.Ints.{length-to_be}
use weaver.Config.Chain.Laws.{new_update_batch_iff, total_length}

-- The loop over the envelopes.
unfoldable pub encode_envelopes : List Bytes → Result ConfigError Bytes
encode_envelopes [] = ok []
encode_envelopes (envelope ∷ envelopes) = do
  fail_if (ltb 4294967295 (length envelope)) update_batch_too_large
  rest ← encode_envelopes envelopes
  ok ((to_be 4 (length envelope) ++ envelope) ++ rest)

module _ ⦃h : Hashing⦄ where
  -- `ConfigUpdateBatch::to_bytes`
  unfoldable pub batch_to_bytes : ConfigUpdateBatch → Result ConfigError Bytes
  batch_to_bytes self = do
    validated ← new_update_batch self.network_id self.base_head self.envelopes
    envelopes ← encode_envelopes validated.envelopes
    ok (batch_header validated ++ envelopes)

  -- `ConfigUpdateBatch::from_bytes`
  unfoldable pub batch_from_bytes : Bytes → Result ConfigError ConfigUpdateBatch
  batch_from_bytes bytes = do
    fail_if (ltb max_update_batch_bytes (length bytes)) update_batch_too_large
    batch ← decode batch_parser bytes
    new_update_batch batch.network_id batch.base_head batch.envelopes

-- The sizes that the source's types carry.
pub record IsSized (self : ConfigUpdateBatch) : Type 0 where
  pub network_id : length self.network_id ≡ 32
  pub epoch : self.base_head.epoch < 2 ^ 64
  pub revision : self.base_head.revision < 2 ^ 64
  pub hash : length self.base_head.hash ≡ 32

envelope_item-Reads :
    (v : Bytes)
    → length v ≤ max_update_batch_bytes
    → Reads envelope_item v (to_be 4 (length v) ++ v)
unfolding envelope_item
envelope_item-Reads v l =
    Reads-bind _ (uint-Reads 4 (length v) (omega (arith, l)))
      (Reads-skip _ (bound_guard-Reads _ _ _ l) (take_bytes-Reads (length v) v refl))

envelopes-Reads :
    (envelopes : List Bytes) {b : Bytes}
    → total_length envelopes ≤ max_update_batch_bytes
    → encode_envelopes envelopes ≡ ok b
    → Reads (repeat (length envelopes) envelope_item) envelopes b
unfolding encode_envelopes total_length
envelopes-Reads [] l h = subst (Reads _ []) (ok-injective h) (Reads-repeat_none envelope_item)
envelopes-Reads (envelope ∷ envelopes) l h =
    let (t, h) = fail_if-eq-ok (ltb 4294967295 (length envelope)) _ _ h in
    let (b, e, h) = >>=-eq-ok (encode_envelopes envelopes) _ h in
    subst (Reads _ (envelope ∷ envelopes)) (ok-injective h) (
      Reads-repeat_more envelope_item (length envelopes)
        (envelope_item-Reads envelope (omega (arith, l)))
        (envelopes-Reads envelopes (omega (arith, l)) e))

length-encode_envelopes :
    (envelopes : List Bytes) {b : Bytes}
    → encode_envelopes envelopes ≡ ok b
    → length b ≡ 4 * length envelopes + total_length envelopes
unfolding encode_envelopes total_length
length-encode_envelopes [] h = omega (arith, ap length (ok-injective h))
length-encode_envelopes (envelope ∷ envelopes) h =
    let (t, h) = fail_if-eq-ok (ltb 4294967295 (length envelope)) _ _ h in
    let (b, e, h) = >>=-eq-ok (encode_envelopes envelopes) _ h in
    omega (
      arith,
      ap length (ok-injective h),
      length-append (to_be 4 (length envelope) ++ envelope) b,
      length-append (to_be 4 (length envelope)) envelope,
      length-to_be 4 (length envelope),
      length-encode_envelopes envelopes e,
    )

length-batch_header : (b : ConfigUpdateBatch) → IsSized b → length (batch_header b) ≡ 92
length-batch_header b s = omega (arith, length-append {0}, length-to_be, s.network_id, s.hash)

header_append :
    (b : ConfigUpdateBatch) (body : Bytes)
    → batch_header b ++ body
      ≡ update_batch_magic
        ++ (b.network_id
            ++ (to_be 8 b.base_head.epoch
                ++ (to_be 8 b.base_head.revision
                    ++ (b.base_head.hash ++ (to_be 4 (length b.envelopes % 2 ^ 32) ++ body)))))
header_append b body = simp append_assoc

counted : (n : ℕ) → n ≤ max_update_envelopes → n % 2 ^ 32 ≡ n
counted n l = omega (arith, l)

batch_parser-Ends :
    (b : ConfigUpdateBatch) (body : Bytes)
    → IsSized b
    → length b.envelopes ≤ max_update_envelopes
    → total_length b.envelopes ≤ max_update_batch_bytes
    → encode_envelopes b.envelopes ≡ ok body
    → Ends batch_parser b (batch_header b ++ body)
unfolding batch_parser
batch_parser-Ends b body s few small e = subst (Ends _ b) (sym (header_append b body)) (
    Ends-bind _ magic-Reads (
      Ends-bind _ (array-Reads 32 b.network_id s.network_id) (
        Ends-bind _ (uint-Reads 8 b.base_head.epoch s.epoch) (
          Ends-bind _ (uint-Reads 8 b.base_head.revision s.revision) (
            Ends-bind _ (array-Reads 32 b.base_head.hash s.hash) (
              Ends-bind _
                (subst (λ n. Reads {E = ConfigError} (uint 4) (length b.envelopes) (to_be 4 n))
                  (sym (counted _ few)) (uint-Reads 4 (length b.envelopes) (omega (arith, few))))
                (Ends-skip _ (bound_guard-Reads _ _ _ few) (
                  Ends-last _ (envelopes-Reads b.envelopes small e)
                    (finish-Ends Ends-return)))))))))

-- A batch that `to_bytes` encodes is what `from_bytes` decodes, unless the encoding is longer than
-- the limit: `new` holds the envelopes to that limit without the 92 bytes of the header and the
-- four of each length, and `from_bytes` the whole, so an encoding beyond it is refused as too large.
pub batch_from_bytes-batch_to_bytes :
    ⦃h : Hashing⦄ (b : ConfigUpdateBatch) (bytes : Bytes)
    → IsSized b
    → batch_to_bytes b ≡ ok bytes
    → (length bytes ≡ 92 + (4 * length b.envelopes + total_length b.envelopes))
      × (batch_from_bytes bytes ≡ (
          if ltb max_update_batch_bytes (length bytes) then err update_batch_too_large else ok b))
unfolding batch_to_bytes batch_from_bytes
batch_from_bytes-batch_to_bytes b bytes s h =
    let (v, n, h) = >>=-eq-ok (new_update_batch b.network_id b.base_head b.envelopes) _ h in
    let (few, room, small, linked, same) =
      (new_update_batch_iff b.network_id b.base_head b.envelopes v).0 n in
    let (body, e, h) = >>=-eq-ok (encode_envelopes v.envelopes) _ h in
    let e' : encode_envelopes b.envelopes ≡ ok body =
      ap (λ (v : ConfigUpdateBatch). encode_envelopes v.envelopes) (sym same) ∙ e in
    let f : bytes ≡ batch_header b ++ body =
      sym (ok-injective h) ∙ ap (λ v. batch_header v ++ body) same in
    let n' : new_update_batch b.network_id b.base_head b.envelopes ≡ ok b = n ∙ ap ok same in
    (
      omega (
        arith,
        ap length f,
        length-append (batch_header b) body,
        length-batch_header b s,
        length-encode_envelopes b.envelopes e',
      ),
      elim (Bool-cases (ltb max_update_batch_bytes (length bytes))) [
        | inl t ↦ rw t
        | inr t ↦
            let short : length bytes ≤ usize_max = ground arith in
            let read =
              decode-Ends short
                (subst (Ends batch_parser b) (sym f) (batch_parser-Ends b body s few small e')) in
            rw (t, read, n')
      ],
    )
