-- ===== src/Crypto/Binding/Verify.antt =====
-- Round trip of an application binding, and what its check accepts.
use weaver.Crypto.Binding.{from_bytes, AppBinding, to_bytes, IsWellFormed, verify}
use weaver.Prelude.{
  none, some, Option, ◌⊎◌, inl, inr, length, ◌≡◌, Bytes, ◌-◌, ap, arith, ℕ, ◌≤◌, length-append, ltb,
  ◌∙◌, ◌+◌, ◌<◌, ◌↔◌, false, true, refl,
}
use weaver.Crypto.App.{VerifiedApp}
use weaver.Crypto.Member.{VerifiedMember}
use weaver.Crypto.Binding.Codec.{
  AppRole, app_bind_fixed_len, validate_app_role, length-encode_app_binding_payload,
  decode_app_binding_payload, decode-encode_app_binding_payload,
}
use weaver.Prelude.Results.{ok, >>=-eq-ok}
use weaver.Crypto.Laws.{
  guard_eq_three, take-append_signature, drop-append_signature, guard_eq_two, guard_unexpired,
  guard_key, last_signature, pass_eq_three, pass_eq_two, pass_unexpired, pass_key, signature_ok,
  pass_ok,
}
use weaver.Crypto.{Primitives, append_signature}

cut_signature :
    (self : AppBinding)
    → length self.signature ≡ 64
    → length (append_signature self.signed_payload self.signature) - 64 ≡ length self.signed_payload
unfolding append_signature
cut_signature self h = omega (arith, length-append self.signed_payload self.signature)

long_enough :
    (self : AppBinding)
    → length self.signature ≡ 64
    → app_bind_fixed_len ≤ length self.signed_payload
    → ltb (length (append_signature self.signed_payload self.signature)) (app_bind_fixed_len + 64)
      ≡ false
unfolding append_signature
long_enough self h l = ground (arith, length-append self.signed_payload self.signature)

-- A binding whose payload fits is read back from its bytes.
pub from_bytes-to_bytes_binding :
    (self : AppBinding) → IsWellFormed self → from_bytes (to_bytes self) ≡ ok self
unfolding from_bytes to_bytes
from_bytes-to_bytes_binding self w =
    let l = ap length w.signed ∙ length-encode_app_binding_payload self.payload w.fits in
    rw (
      long_enough self w.signature_length (omega (arith, l)),
      cut_signature self w.signature_length,
      take-append_signature (length self.signed_payload) self.signed_payload self.signature refl,
      drop-append_signature (length self.signed_payload) self.signed_payload self.signature refl,
      ap decode_app_binding_payload w.signed
          ∙ decode-encode_app_binding_payload self.payload w.fits,
    )

-- A server is bound without a device, a client with one.
pub IsRole : AppRole → Option Bytes → Type 0
IsRole role device =
    ((role ≡ AppRole.server) × (device ≡ none))
    ⊎ ((role ≡ AppRole.client) × ((id : Bytes) × (device ≡ some id)))

validate_app_role_iff :
    (role : AppRole) (device : Option Bytes)
    → (validate_app_role role device ≡ ok tt) ↔ IsRole role device
unfolding validate_app_role IsRole
validate_app_role_iff AppRole.server none = (λ h. inl (refl, refl), λ r. refl)
validate_app_role_iff AppRole.client (some id) = (λ h. inr (refl, (id, refl)), λ r. refl)
validate_app_role_iff AppRole.server (some id) =
    (λ h. absurd (cc), λ r. elim r [ inl (a, b) ↦ absurd (cc) | inr (a, b) ↦ absurd (cc) ])
validate_app_role_iff AppRole.client none =
    (λ h. absurd (cc), λ r. elim r [ inl (a, b) ↦ absurd (cc) | inr (a, (i, b)) ↦ absurd (cc) ])

module _ ⦃c : Primitives⦄ (self : AppBinding) (app : VerifiedApp) (member : VerifiedMember)
    (expected : Bytes) (now : ℕ) where
  pub record IsGranted : Type 0 where
    pub network : self.payload.network_id ≡ expected
    pub app_network : app.payload.network_id ≡ expected
    pub member_network : member.payload.network_id ≡ expected
    pub application : self.payload.app_addr ≡ app.payload.app_addr
    pub subject : self.payload.subject ≡ member.payload.member_id
    pub role : IsRole self.payload.role self.payload.device_id
    pub unexpired : now < self.payload.expires_at_ms
    pub keyed : c.is_key app.payload.app_root_public_key ≡ true
    pub signed :
        c.signed_by app.payload.app_root_public_key self.signed_payload self.signature ≡ true

  -- The check of an application binding succeeds exactly when binding, application and member are of
  -- the expected network, the binding names that application and that member, it is for a server and
  -- names no device or for a client and names one, it has not expired, and it bears the application owner's signature.
  pub verify_binding_iff : (verify self app member expected now ≡ ok tt) ↔ IsGranted
  unfolding verify
  verify_binding_iff = (accepted, complete)
    where
      accepted : verify self app member expected now ≡ ok tt → IsGranted
      accepted h =
          let (n, a, m, h) = guard_eq_three _ _ _ _ _ _ _ _ h in
          let (i, s, h) = guard_eq_two _ _ _ _ _ _ h in
          let (_, r, h) =
            >>=-eq-ok (validate_app_role self.payload.role self.payload.device_id) _ h in
          let (x, h) = guard_unexpired _ self.payload.expires_at_ms now _ h in
          let (k, h) = guard_key _ _ h in
          record {
            network = n;
            app_network = a;
            member_network = m;
            application = i;
            subject = s;
            role = (validate_app_role_iff _ _).0 r;
            unexpired = x;
            keyed = k;
            signed = last_signature _ _ _ h;
          }

      complete : IsGranted → verify self app member expected now ≡ ok tt
      complete t =
          pass_eq_three _ _ t.network t.app_network t.member_network
          ∙ pass_eq_two _ _ t.application t.subject
          ∙ pass_ok _ ((validate_app_role_iff _ _).1 t.role)
          ∙ pass_unexpired _ _ t.unexpired
          ∙ pass_key _ t.keyed
          ∙ signature_ok t.signed
