-- ===== src/Config/Open/Successor.antt =====
-- What a reader of crates/weaver-config/src/lib.rs has accepted when it opens an envelope.
use weaver.Prelude.{
  false, Bool, not, ◌||◌, ◌≡◌, Bytes, true, arith, ℕ, bytes_eq, ◌==◌, ap, sym, bytes_eq_sound,
  subst, ◌∙◌, ==_iff,
}
use weaver.Crypto.Admin
use weaver.Crypto.{Primitives, NetworkRootPublic, lacks, permission_config_write}
use weaver.Config.Open.{
  open_next_config, Ciphers, open_config_with_verified_admin, decode_and_validate_opened,
  open_after_verified_signature, MemberEncryptionKeypair, OpenedConfig, OpenedNetworkConfig,
  of_snapshot, find_content_key,
}
use weaver.Config.{Hashing, EncryptedConfigEnvelope, ConfigError}
use weaver.Config.Snapshot.{NetworkConfigV1}
use weaver.Config.Snapshot.Validate.{ValidatedNetworkConfig, validate}
use weaver.Config.Chain.{ChainExpectation, ConfigHead, envelope_hash, validate_chain}
use weaver.Prelude.Results.{
  ok, >>=-eq-ok, fail_if-eq-ok, ok_or-eq-ok, map_err, ok-injective, map_err-eq-ok,
}
use weaver.Crypto.Admin.{VerifiedAdmin}
use weaver.Config.Snapshot.Accepted.{IsAccepted, validate-IsAccepted}
use weaver.Config.Snapshot.Admins.{IsAdminAt, verified_admin, verified_admin-IsAdminAt}
use weaver.Config.Chain.Expectation.{Meets, validate_chain_iff}
use weaver.Config.Snapshot.Decode

-- A snapshot in the envelope: decoded from a text with the signed hash, with the envelope's own
-- numbers, and validated.
pub record IsContent ⦃c : Primitives⦄ ⦃h : Hashing⦄ (self : EncryptedConfigEnvelope)
    (root : NetworkRootPublic) (now_ms : ℕ) (opened : OpenedNetworkConfig) : Type 0 where
  pub plaintext : Bytes
  pub hashed : h.hash plaintext ≡ self.payload_hash
  pub decoded : Decode.from_bytes plaintext ≡ ok opened.config.inner
  pub epoch : opened.config.inner.epoch ≡ self.epoch
  pub revision : opened.config.inner.revision ≡ self.revision
  pub previous_hash : opened.config.inner.previous_hash ≡ self.previous_hash
  pub head_epoch : opened.head.epoch ≡ self.epoch
  pub head_revision : opened.head.revision ≡ self.revision
  pub head_hash : opened.head.hash ≡ envelope_hash self
  pub accepted : IsAccepted opened.config.inner root self.network_id now_ms

same_numbers :
    (a b c d : Bool)
    → (not a || (not b || (not c || not d))) ≡ false
    → (a ≡ true) × (b ≡ true) × (c ≡ true) × (d ≡ true)
same_numbers a b c d h = (ground arith, ground arith, ground arith, ground arith)

neither : (a b : Bool) → (not a || not b) ≡ false → (a ≡ true) × (b ≡ true)
neither a b h = (ground arith, ground arith)

is_true : (a : Bool) → not a ≡ false → a ≡ true
is_true a h = ground arith

module _ ⦃c : Primitives⦄ ⦃k : Ciphers⦄ ⦃h : Hashing⦄ where
  -- The chain, the hash of the text and the new head.
  open_after-eq-ok :
      (self : EncryptedConfigEnvelope) (network : Bytes) (recipient : MemberEncryptionKeypair)
      (chain : ChainExpectation) {opened : OpenedConfig}
      → open_after_verified_signature self network recipient chain ≡ ok opened
      → (validate_chain self chain ≡ ok tt)
        × (h.hash opened.plaintext ≡ self.payload_hash)
        × (opened.head.epoch ≡ self.epoch)
        × (opened.head.revision ≡ self.revision)
        × (opened.head.hash ≡ envelope_hash self)
  unfolding open_after_verified_signature
  open_after-eq-ok self network recipient chain {opened} q =
      let (n, q) = fail_if-eq-ok (not (bytes_eq self.network_id network)) _ _ q in
      let (u, v, q) = >>=-eq-ok (validate_chain self chain) _ q in
      let (key, f, q) = ok_or-eq-ok (find_content_key recipient _ self.member_key_wraps) _ _ q in
      let (text, d, q) = ok_or-eq-ok (k.decrypt key self.nonce _ self.ciphertext) _ _ q in
      let (s, q) = fail_if-eq-ok (not (bytes_eq (h.hash text) self.payload_hash)) _ _ q in
      let e = ok-injective q in
      (
        v,
        ap (λ (o : OpenedConfig). h.hash o.plaintext) (sym e) ∙ bytes_eq_sound _ _ (is_true _ s),
        ap (λ (o : OpenedConfig). o.head.epoch) (sym e),
        ap (λ (o : OpenedConfig). o.head.revision) (sym e),
        ap (λ (o : OpenedConfig). o.head.hash) (sym e),
      )

  decode_and_validate_opened-IsContent :
      (self : EncryptedConfigEnvelope) (root : NetworkRootPublic) (opened : OpenedConfig)
      (now_ms : ℕ) {result : OpenedNetworkConfig}
      → h.hash opened.plaintext ≡ self.payload_hash
      → opened.head.epoch ≡ self.epoch
      → opened.head.revision ≡ self.revision
      → opened.head.hash ≡ envelope_hash self
      → decode_and_validate_opened self root opened now_ms ≡ ok result
      → IsContent self root now_ms result
  unfolding decode_and_validate_opened
  decode_and_validate_opened-IsContent self root opened now_ms hashed e r s q =
      let (config, d, q) = >>=-eq-ok (of_snapshot (Decode.from_bytes opened.plaintext)) _ q in
      let (same, q) =
        fail_if-eq-ok
          (not (bytes_eq config.network_id self.network_id)
            || (not (config.epoch == self.epoch)
                || (not (config.revision == self.revision)
                    || not (bytes_eq config.previous_hash self.previous_hash))))
          _ _ q in
      let (valid, v, q) =
        >>=-eq-ok (of_snapshot (validate config root self.network_id now_ms)) _ q in
      let (w, x, y, z) = same_numbers _ _ _ _ same in
      let (inner, accepted) =
        validate-IsAccepted config root self.network_id now_ms valid (map_err-eq-ok _ _ v) in
      subst (IsContent self root now_ms) (ok-injective q) record {
        plaintext = opened.plaintext;
        hashed = hashed;
        decoded = map_err-eq-ok _ _ d ∙ ap ok (sym inner);
        epoch = ap (λ (n : NetworkConfigV1). n.epoch) inner ∙ (==_iff _ _).0 x;
        revision = ap (λ (n : NetworkConfigV1). n.revision) inner ∙ (==_iff _ _).0 y;
        previous_hash = ap (λ (n : NetworkConfigV1). n.previous_hash) inner ∙ bytes_eq_sound _ _ z;
        head_epoch = e;
        head_revision = r;
        head_hash = s;
        accepted = subst (λ n. IsAccepted n root self.network_id now_ms) (sym inner) accepted;
      }

-- An envelope that follows a head: signed by an administrator of the current snapshot who may write
-- configurations, next in the chain, and with a snapshot inside.
pub record IsSuccessor ⦃c : Primitives⦄ ⦃h : Hashing⦄ (self : EncryptedConfigEnvelope)
    (root : NetworkRootPublic) (current : NetworkConfigV1) (head : ConfigHead) (now_ms : ℕ)
    (opened : OpenedNetworkConfig) : Type 0 where
  pub network : self.network_id ≡ current.network_id
  pub root_network : self.network_id ≡ root.network_id
  pub admin : VerifiedAdmin
  pub listed : IsAdminAt current root self.signer_key_id now_ms admin
  pub permitted : lacks admin.payload.permissions permission_config_write ≡ false
  pub signed : Admin.verify_bytes admin self.signed_bytes self.signature ≡ ok tt
  pub follows : Meets self (ChainExpectation.next head)
  pub content : IsContent self root now_ms opened

-- An envelope that `open_next_config` opens has been signed by an administrator whom the current
-- snapshot lists, whom the root certified at that moment and who may write configurations; it has
-- the next revision, the hash of the current head and no smaller epoch, and the snapshot inside has
-- the envelope's numbers and the signed hash and is valid.
pub open_next_config-IsSuccessor :
    ⦃c : Primitives⦄ ⦃k : Ciphers⦄ ⦃h : Hashing⦄ (self : EncryptedConfigEnvelope)
    (root : NetworkRootPublic) (current : ValidatedNetworkConfig)
    (recipient : MemberEncryptionKeypair) (head : ConfigHead) (now_ms : ℕ)
    (opened : OpenedNetworkConfig)
    → open_next_config self root current recipient head now_ms ≡ ok opened
    → IsSuccessor self root current.inner head now_ms opened
unfolding open_next_config open_config_with_verified_admin
open_next_config-IsSuccessor self root current recipient head now_ms opened q =
    let (n, q) =
      fail_if-eq-ok
        (not (bytes_eq root.network_id self.network_id)
          || not (bytes_eq current.inner.network_id self.network_id))
        _ _ q in
    let (admin, a, q) =
      >>=-eq-ok (of_snapshot (verified_admin current root self.signer_key_id now_ms)) _ q in
    let (m, q) =
      fail_if-eq-ok
        (not (bytes_eq root.network_id self.network_id)
          || not (bytes_eq admin.payload.network_id self.network_id))
        _ _ q in
    let (i, q) = fail_if-eq-ok (not (bytes_eq self.signer_key_id admin.payload.key_id)) _ _ q in
    let (p, q) = fail_if-eq-ok (lacks admin.payload.permissions permission_config_write) _ _ q in
    let (u, s, q) = >>=-eq-ok (map_err ConfigError.signature (Admin.verify_bytes admin _ _)) _ q in
    let (text, o, q) = >>=-eq-ok (open_after_verified_signature self _ recipient _) _ q in
    let (chain, hashed, e, r, z) = open_after-eq-ok self self.network_id recipient _ o in
    let (x, y) = neither _ _ n in
    record {
      network = sym (bytes_eq_sound _ _ y);
      root_network = sym (bytes_eq_sound _ _ x);
      admin = admin;
      listed =
          verified_admin-IsAdminAt current root self.signer_key_id now_ms admin
            (map_err-eq-ok _ _ a);
      permitted = p;
      signed = map_err-eq-ok _ _ s;
      follows = (validate_chain_iff self (ChainExpectation.next head)).0 chain;
      content = decode_and_validate_opened-IsContent self root text now_ms hashed e r z q;
    }
