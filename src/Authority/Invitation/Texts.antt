-- ===== src/Authority/Invitation/Texts.antt =====
-- The texts and the relay in an `InvitationBundle` of crates/weaver-relay-core/src/invitation.rs.
use weaver.Prelude.{
  [], true, false, none, some, ◌∷◌, Option, ℕ, Bytes, ◌<◌, ◌≡◌, length, ◌≤◌, is_utf8, ◌==◌, subst,
  ◌||◌, ltb, arith, ◌++◌, ap, not, refl,
}
use weaver.Authority.Invitation.Signed.{push_invitation_blob, push_bootstrap_relay}
use weaver.Prelude.Results.{ok, fail_if-eq-ok, ok-injective, >>=-eq-ok, fail_if-ok}
use weaver.Wire.Reads.{
  Reads, Reads-last, Reads-skip, lift-Reads, uint-Reads, Reads-bind, Reads-return, take_bytes-Reads,
}
use weaver.Wire.{to_be}
use weaver.Authority.{AuthorityError}
use weaver.Authority.Invitation.{
  invitation_malformed, bootstrap_relay, invitation_string, invitation_blob, relay_of,
}
use weaver.Wire.Fails.{Fails, lift-Fails, Fails-first, Fails-bind}
use weaver.Wire.{take_bytes, return}
use weaver.Prelude.{◌≢◌, ◌⊎◌, inl, inr}

-- A text that `string` admits.
pub record IsText (max : ℕ) (text : Bytes) : Type 0 where
  pub some_bytes : 0 < length text
  pub fits : length text ≤ max
  pub utf8 : is_utf8 text ≡ true

blob_fits : (n max : ℕ) → 0 < n → n ≤ max → ((n == 0) || ltb max n) ≡ false
blob_fits n max p l = ground arith

pub blob-Reads :
    (max : ℕ) (v : Bytes) {b : Bytes}
    → 0 < length v
    → length v ≤ max
    → push_invitation_blob v ≡ ok b
    → Reads (invitation_blob max) v b
unfolding push_invitation_blob invitation_blob
blob-Reads max v p l h =
    let (t, h) = fail_if-eq-ok (ltb 65535 (length v)) _ _ h in
    let small : length v < 65536 = ground arith in
    subst (Reads _ v) (ok-injective h) (
      Reads-bind _ (uint-Reads 2 (length v) small) (
        Reads-skip _ (lift-Reads (fail_if-ok _ (blob_fits _ max p l)))
          (take_bytes-Reads (length v) v refl)))

pub text-Reads :
    (max : ℕ) (v : Bytes) {b : Bytes}
    → IsText max v
    → push_invitation_blob v ≡ ok b
    → Reads (invitation_string max) v b
unfolding invitation_string
text-Reads max v i h =
    Reads-last _ (blob-Reads max v i.some_bytes i.fits h)
      (Reads-skip _ (lift-Reads (fail_if-ok _ (ap not i.utf8))) Reads-return)

-- A relay as `create_invitation` admits it: none, or a string of at most 2048 bytes, which may be
-- empty.
unfoldable pub IsRelay : Option Bytes → Type 0
IsRelay none = Unit
IsRelay (some relay) = (length relay ≤ 2048) × (is_utf8 relay ≡ true)

pub relay-cases : (relay : Option Bytes) → (relay ≢ some []) ⊎ (relay ≡ some [])
relay-cases none = inl (λ e. cc)
relay-cases (some []) = inr refl
relay-cases (some (b ∷ relay)) = inl (λ e. cc)

pub relay-Reads :
    (relay : Option Bytes) {b : Bytes}
    → IsRelay relay
    → relay ≢ some []
    → push_bootstrap_relay relay ≡ ok b
    → Reads bootstrap_relay relay b
unfolding bootstrap_relay IsRelay push_bootstrap_relay relay_of to_be
relay-Reads none i n h =
    subst (Reads _ none) (ok-injective h) (Reads-last _ (uint-Reads 1 0 (omega arith)) Reads-return)
relay-Reads (some []) i n h = absurd (n refl)
relay-Reads (some (c ∷ relay)) i n h =
    let (b, e, h) = >>=-eq-ok (push_invitation_blob (c ∷ relay)) _ h in
    let text : IsText 2048 (c ∷ relay) = record {
      some_bytes = omega arith;
      fits = i.0;
      utf8 = i.1;
    } in
    subst (Reads _ (some (c ∷ relay))) (ok-injective h) (
      Reads-bind _ (uint-Reads 1 1 (omega arith))
        (Reads-last _ (text-Reads 2048 (c ∷ relay) text e) Reads-return))

empty-Fails :
    (max : ℕ) (t : Bytes)
    → Fails (invitation_string max) AuthorityError.invalid_invitation (to_be 2 0 ++ t)
unfolding invitation_string invitation_blob
empty-Fails max t = Fails-first _ (
    Fails-bind _ (uint-Reads 2 0 (omega arith))
      (Fails-first {A = Unit {0}} (λ u. take_bytes 0) (lift-Fails refl)))

-- The tag of a relay with an empty string behind it is refused.
pub relay-Fails :
    {b : Bytes} (t : Bytes)
    → push_bootstrap_relay (some []) ≡ ok b
    → Fails bootstrap_relay AuthorityError.invalid_invitation (b ++ t)
unfolding bootstrap_relay push_bootstrap_relay push_invitation_blob relay_of to_be
relay-Fails t h =
    subst (λ (b : Bytes). Fails bootstrap_relay AuthorityError.invalid_invitation (b ++ t))
      (ok-injective h)
      (Fails-bind relay_of (uint-Reads 1 1 (omega arith))
        (Fails-first (λ r. return (some r)) (empty-Fails 2048 t)))
