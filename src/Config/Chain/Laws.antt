-- ===== src/Config/Chain/Laws.antt =====
-- What an accepted batch of revisions of crates/weaver-config/src/lib.rs is.
use weaver.Prelude.{
  [], List, Bytes, ℕ, ◌∷◌, ◌≡◌, length, ◌+◌, ◌<◌, ◌^◌, Bool, ltb, not, some, Bool-cases, lt→ltb,
  ◌-◌, ◌||◌, ◌≤◌, false, inl, refl, arith, ltb→lt, take, true, drop, sym, take-append-drop, ◌∙◌,
  inr, bytes_eq_sound, none, ==_iff, ◌==◌, bytes_eq_self, subst, ==_self, ◌↔◌, ap,
}
use weaver.Config.{
  config_malformed, Hashing, EncryptedConfigEnvelope, envelope_parser, max_update_batch_bytes,
  envelope_magic, supported_format_version, unsupported_version, max_ciphertext, payload_too_large,
  max_key_wraps, invalid_recipient_count, key_wrap, max_update_envelopes,
}
use weaver.Config.Chain.{
  from_bytes, to_bytes, check_envelopes, checked_add_one, envelope_hash, new_update_batch,
  ConfigHead, ConfigUpdateBatch,
}
use weaver.Wire.Gives.{Gives, bind-Gives, decode-Gives, return-Gives}
use weaver.Wire.{usize_max, magic, uint, lift, array, take_bytes, repeat, finish}
use weaver.Prelude.Results.{ok, fail_if-eq-ok, >>=-eq-ok, ok_or-eq-ok, fail_if, ok-injective}

-- All bytes of some envelopes.
unfoldable pub total_length : List Bytes → ℕ
total_length [] = 0
total_length (raw ∷ envelopes) = length raw + total_length envelopes

module _ ⦃h : Hashing⦄ (network_id : Bytes) where
  -- Envelopes that follow one another: each is of the network, has the expected revision and names
  -- the hash of the one before; the next has the revision after it.
  pub data Linked : ℕ → Bytes → List Bytes → Type 0 where
    done : (revision : ℕ) (previous : Bytes) → Linked revision previous []
    link :
        (revision : ℕ) (previous raw : Bytes) (envelopes : List Bytes)
        (envelope : EncryptedConfigEnvelope)
        → from_bytes raw ≡ ok envelope
        → envelope.network_id ≡ network_id
        → envelope.revision ≡ revision
        → envelope.previous_hash ≡ previous
        → revision + 1 < 2 ^ 64
        → Linked (revision + 1) (h.hash raw) envelopes
        → Linked revision previous (raw ∷ envelopes)

signed-Gives :
    (signed signature_bytes : Bytes)
    → Gives
        (λ (e : EncryptedConfigEnvelope).
          (e.signed_bytes ≡ signed) × (e.signature ≡ signature_bytes))
        (envelope_parser signed signature_bytes)
unfolding envelope_parser
signed-Gives signed signature_bytes = bind-Gives (magic envelope_magic) _ (λ _.
    bind-Gives (uint 2) _ (λ v.
      bind-Gives (lift (fail_if (not (v == supported_format_version)) (unsupported_version v))) _
        (λ _. bind-Gives (array 32) _ (λ _. bind-Gives (uint 8) _ (λ _. bind-Gives (uint 8) _ (λ _.
          bind-Gives (array 32) _ (λ _. bind-Gives (array 32) _ (λ _. bind-Gives (array 24) _ (λ _.
            bind-Gives (uint 4) _ (λ n.
              bind-Gives (lift (fail_if (ltb max_ciphertext n) payload_too_large)) _ (λ _.
                bind-Gives (take_bytes n) _ (λ _. bind-Gives (uint 2) _ (λ k.
                  bind-Gives
                    (lift (fail_if ((k == 0) || ltb max_key_wraps k) invalid_recipient_count)) _
                    (λ _. bind-Gives (repeat k key_wrap) _ (λ _.
                      bind-Gives (array 16) _ (λ _.
                        bind-Gives (finish) _ (λ _. return-Gives _ (refl, refl))))))))))))))))))

-- An envelope's bytes are the bytes it was read from.
pub to_bytes-from_bytes :
    (bytes : Bytes) (self : EncryptedConfigEnvelope)
    → from_bytes bytes ≡ ok self
    → to_bytes self ≡ bytes
unfolding from_bytes to_bytes
to_bytes-from_bytes bytes self h =
    let (l, q) = fail_if-eq-ok (ltb (length bytes) 64) _ _ h in
    let cut = length bytes - 64 in
    let (a, b) =
      decode-Gives _ (take cut bytes) (signed-Gives (take cut bytes) (drop cut bytes)) q in
    rw (a, b) (take-append-drop cut bytes)

all_three :
    (a b c : Bool) → (not a || (not b || not c)) ≡ false → (a ≡ true) × (b ≡ true) × (c ≡ true)
all_three a b c h = (ground arith, ground arith, ground arith)

added : (n m : ℕ) → checked_add_one n ≡ some m → (n + 1 < 2 ^ 64) × (n + 1 ≡ m)
added n m h = elim (Bool-cases (ltb (n + 1) (2 ^ 64))) [
  | inl t ↦
      let z : checked_add_one n ≡ some (n + 1) = rw t refl in
      (ltb→lt (n + 1) (2 ^ 64) t, let w = sym z ∙ h in cc)
  | inr f ↦ let z : checked_add_one n ≡ none = rw f refl in cc
]

can_add : (n : ℕ) → n + 1 < 2 ^ 64 → checked_add_one n ≡ some (n + 1)
can_add n h = rw (lt→ltb (n + 1) (2 ^ 64) h) refl

counted :
    (envelopes : List Bytes)
    → ltb max_update_envelopes (length envelopes) ≡ false
    → length envelopes ≤ max_update_envelopes
counted envelopes h = ground (arith, h)

counts :
    (envelopes : List Bytes)
    → length envelopes ≤ max_update_envelopes
    → ltb max_update_envelopes (length envelopes) ≡ false
counts envelopes h = ground (arith, h)

module _ ⦃h : Hashing⦄ (network_id : Bytes) where
  Linked-after :
      (m revision : ℕ) (raw : Bytes) (envelopes : List Bytes) (envelope : EncryptedConfigEnvelope)
      → revision + 1 ≡ m
      → to_bytes envelope ≡ raw
      → Linked network_id m (envelope_hash envelope) envelopes
      → Linked network_id (revision + 1) (h.hash raw) envelopes
  unfolding envelope_hash
  Linked-after m revision raw envelopes envelope e f l =
      subst (λ k. Linked network_id k (h.hash raw) envelopes) (sym e)
        (subst (λ b. Linked network_id m (h.hash b) envelopes) f l)

  check_envelopes-Linked :
      (revision : ℕ) (previous : Bytes) (total : ℕ) (envelopes : List Bytes)
      → total ≤ max_update_batch_bytes
      → check_envelopes network_id revision previous total envelopes ≡ ok tt
      → Linked network_id revision previous envelopes
        × (total + total_length envelopes ≤ max_update_batch_bytes)
  unfolding check_envelopes total_length envelope_hash
  check_envelopes-Linked revision previous total [] l q =
      (Linked.done revision previous, omega (arith, l))
  check_envelopes-Linked revision previous total (raw ∷ envelopes) l q =
      let (u, q) = fail_if-eq-ok (ltb usize_max (total + length raw)) _ _ q in
      let (v, q) = fail_if-eq-ok (ltb max_update_batch_bytes (total + length raw)) _ _ q in
      let (envelope, f, q) = >>=-eq-ok (from_bytes raw) _ q in
      let (g, q) = fail_if-eq-ok _ _ _ q in
      let (a, b, c) = all_three _ _ _ g in
      let (m, k, q) = ok_or-eq-ok (checked_add_one revision) _ _ q in
      let (r, e) = added revision m k in
      let within : total + length raw ≤ max_update_batch_bytes = ground (arith, v) in
      let (rest, t) =
        check_envelopes-Linked m (envelope_hash envelope) (total + length raw) envelopes within q in
      (
        Linked.link revision previous raw envelopes envelope f (bytes_eq_sound _ _ a)
            ((==_iff _ _).0 b) (bytes_eq_sound _ _ c) r
            (Linked-after m revision raw envelopes envelope e (to_bytes-from_bytes raw envelope f)
              rest),
        omega (arith, t),
      )

  Linked-check_envelopes :
      (revision : ℕ) (previous : Bytes) (total : ℕ) (envelopes : List Bytes)
      → total + total_length envelopes ≤ max_update_batch_bytes
      → Linked network_id revision previous envelopes
      → check_envelopes network_id revision previous total envelopes ≡ ok tt
  unfolding check_envelopes total_length envelope_hash to_bytes
  Linked-check_envelopes revision previous total [] l (Linked.done r p) = refl
  Linked-check_envelopes revision previous total (raw ∷ envelopes) l
        (Linked.link r p b es envelope f n v k g rest) =
      let small : ltb max_update_batch_bytes (total + length raw) ≡ false = ground (arith, l) in
      let fits : ltb usize_max (total + length raw) ≡ false = ground (arith, l) in
      let again =
        subst
          (λ b.
            check_envelopes network_id (revision + 1) (h.hash b) (total + length raw) envelopes
            ≡ ok tt)
          (sym (to_bytes-from_bytes raw envelope f))
          (Linked-check_envelopes (revision + 1) (h.hash raw) (total + length raw) envelopes
            (omega (arith, l)) rest) in
      rw
        (
          fits,
          small,
          f,
          n,
          v,
          k,
          bytes_eq_self network_id,
          bytes_eq_self previous,
          ==_self revision,
          can_add revision g,
        )
        again

  -- A batch of revisions is made exactly of at most 1024 envelopes with at most 16 MiB of bytes whose
  -- first follows the base head and that follow one another: each is of the network, has the
  -- revision after the one before, and names the hash of the bytes before it; the revisions of the
  -- base and of every envelope are below the largest number of 64 bits. The batch then has that
  -- network, head and envelopes.
  pub new_update_batch_iff :
      (base_head : ConfigHead) (envelopes : List Bytes) (b : ConfigUpdateBatch)
      → (new_update_batch network_id base_head envelopes ≡ ok b) ↔ (
          (length envelopes ≤ max_update_envelopes)
          × (base_head.revision + 1 < 2 ^ 64)
          × (total_length envelopes ≤ max_update_batch_bytes)
          × Linked network_id (base_head.revision + 1) base_head.hash envelopes
          × (b ≡ record { network_id = network_id; base_head = base_head; envelopes = envelopes }))
  unfolding new_update_batch
  new_update_batch_iff base_head envelopes b = (accepted, complete)
    where
      accepted :
          new_update_batch network_id base_head envelopes ≡ ok b
          → (length envelopes ≤ max_update_envelopes)
            × (base_head.revision + 1 < 2 ^ 64)
            × (total_length envelopes ≤ max_update_batch_bytes)
            × Linked network_id (base_head.revision + 1) base_head.hash envelopes
            × (b ≡ record { network_id = network_id; base_head = base_head; envelopes = envelopes })
      accepted q =
          let (c, q) = fail_if-eq-ok (ltb max_update_envelopes (length envelopes)) _ _ q in
          let (m, k, q) = ok_or-eq-ok (checked_add_one base_head.revision) _ _ q in
          let (r, e) = added base_head.revision m k in
          let (u, w, q) = >>=-eq-ok (check_envelopes network_id m base_head.hash 0 envelopes) _ q in
          let (l, t) = check_envelopes-Linked m base_head.hash 0 envelopes (omega arith) w in
          (
            counted envelopes c,
            r,
            omega (arith, t),
            subst (λ n. Linked network_id n base_head.hash envelopes) (sym e) l,
            sym (ok-injective q),
          )

      complete :
          ((length envelopes ≤ max_update_envelopes)
            × (base_head.revision + 1 < 2 ^ 64)
            × (total_length envelopes ≤ max_update_batch_bytes)
            × Linked network_id (base_head.revision + 1) base_head.hash envelopes
            × (b
                ≡ record { network_id = network_id; base_head = base_head; envelopes = envelopes }))
          → new_update_batch network_id base_head envelopes ≡ ok b
      complete (c, r, t, l, e) =
          rw
            (
              counts envelopes c,
              can_add base_head.revision r,
              Linked-check_envelopes (base_head.revision + 1) base_head.hash 0 envelopes
                  (omega (arith, t)) l,
            )
            (ap ok (sym e))
