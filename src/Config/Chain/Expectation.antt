-- ===== src/Config/Chain/Expectation.antt =====
-- When an envelope meets what its reader expects of the chain, in crates/weaver-config/src/lib.rs.
use weaver.Config.{Hashing, ConfigError, EncryptedConfigEnvelope, chain_mismatch}
use weaver.Config.Chain.{
  ChainExpectation, validate_chain, is_next, meets, checked_add_one, envelope_hash,
}
use weaver.Prelude.Results.{Result, ok, err}
use weaver.Crypto.{zeroes_32}
use weaver.Prelude.{
  Bool, ℕ, ◌≡◌, if◌then◌else◌, true, ◌+◌, ◌↔◌, &&-eq-true, lt→ltb, ◌<◌, ==_iff, ==_self, refl, ◌^◌,
  Bool-cases, bytes_eq_self, bytes_eq_sound, ◌≤◌, leb→le, le→leb, ltb, inl, ◌==◌, ltb→lt, sym, ◌∙◌,
  inr, false,
}

accepted_when :
    (t : Bool) (e : ConfigError)
    → ◌≡◌ {A = Result ConfigError (Unit {0})} (if t then ok tt else err e) (ok tt)
    → t ≡ true
accepted_when true e h = refl
accepted_when false e h = cc

module _ ⦃h : Hashing⦄ (envelope : EncryptedConfigEnvelope) where
  -- The first revision, the revision after a head, or the head itself.
  unfoldable pub Meets : ChainExpectation → Type 0
  Meets ChainExpectation.genesis = (envelope.revision ≡ 0) × (envelope.previous_hash ≡ zeroes_32)
  Meets (ChainExpectation.next head) =
      (head.revision + 1 < 2 ^ 64)
      × (envelope.revision ≡ head.revision + 1)
      × (envelope.previous_hash ≡ head.hash)
      × (head.epoch ≤ envelope.epoch)
  Meets (ChainExpectation.checkpoint head) =
      (envelope.epoch ≡ head.epoch)
      × (envelope.revision ≡ head.revision)
      × (envelope_hash envelope ≡ head.hash)

  is_next_sound :
      (n revision : ℕ)
      → is_next (checked_add_one n) revision ≡ true
      → (n + 1 < 2 ^ 64) × (revision ≡ n + 1)
  is_next_sound n revision q = elim (Bool-cases (ltb (n + 1) (2 ^ 64))) [
    | inl t ↦
        let z : is_next (checked_add_one n) revision ≡ (n + 1 == revision) = rw t refl in
        (ltb→lt _ _ t, sym ((==_iff (n + 1) revision).0 (sym z ∙ q)))
    | inr f ↦
        let z : is_next (checked_add_one n) revision ≡ false = rw f refl in let w = sym z ∙ q in cc
  ]

  meets-Meets :
      (expectation : ChainExpectation) → meets envelope expectation ≡ true → Meets expectation
  unfolding Meets
  meets-Meets ChainExpectation.genesis q =
      let (a, b) = &&-eq-true _ _ q in ((==_iff _ _).0 a, bytes_eq_sound _ _ b)
  meets-Meets (ChainExpectation.next head) q =
      let (a, q) = &&-eq-true _ _ q in
      let (b, c) = &&-eq-true _ _ q in
      let (r, s) = is_next_sound head.revision envelope.revision a in
      (r, s, bytes_eq_sound _ _ b, leb→le _ _ c)
  meets-Meets (ChainExpectation.checkpoint head) q =
      let (a, q) = &&-eq-true _ _ q in
      let (b, c) = &&-eq-true _ _ q in ((==_iff _ _).0 a, (==_iff _ _).0 b, bytes_eq_sound _ _ c)

  Meets-meets :
      (expectation : ChainExpectation) → Meets expectation → meets envelope expectation ≡ true
  unfolding Meets
  Meets-meets ChainExpectation.genesis (a, b) = rw (a, b) refl
  Meets-meets (ChainExpectation.next head) (r, s, b, c) =
      rw (lt→ltb _ _ r, s, b, ==_self (head.revision + 1), bytes_eq_self head.hash, le→leb _ _ c)
        refl
  Meets-meets (ChainExpectation.checkpoint head) (a, b, c) =
      rw (c, a, b, ==_self head.epoch, ==_self head.revision, bytes_eq_self head.hash) refl

  -- The chain check accepts an envelope exactly if it is the first revision with an all-zero previous
  -- hash where the first is expected; the revision after the head, naming the head's hash, with no
  -- smaller epoch and without overflow of 64 bits, where the next is expected; and the head itself,
  -- with its epoch, revision and hash, at a checkpoint.
  pub validate_chain_iff :
      (expectation : ChainExpectation)
      → (validate_chain envelope expectation ≡ ok tt) ↔ Meets expectation
  unfolding validate_chain
  validate_chain_iff expectation = (
    λ q. meets-Meets expectation (accepted_when (meets envelope expectation) chain_mismatch q),
    λ m. rw (Meets-meets expectation m) refl,
  )
