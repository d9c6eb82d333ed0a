-- ===== src/Authority/Revision/Unique.antt =====
-- When an authority of crates/weaver-relay-core/src/lib.rs takes a device for a new one.
use weaver.Prelude.{true}
use weaver.Prelude.{
  [], false, ◌∷◌, Bool, Bytes, ◌||◌, ◌≡◌, ◌≢◌, arith, bytes_eq, Bool-cases, ◌↔◌, All, List, inl,
  bytes_eq_sound, inr, ◌∙◌, refl, bytes_eq_differs,
}
use weaver.Crypto.Member
use weaver.Crypto.Join.Codec.{JoinRequestPayload}
use weaver.Prelude.Loops.{for_each}
use weaver.Authority.Revision.{ensure_join_is_unique, check_bound, check_member}
use weaver.Prelude.Results.{
  Result, ok, >>=-eq-ok, >>=-ok, map_err-eq-ok, map_err-ok, fail_if-ok, fail_if,
}
use weaver.Config.Snapshot.{NetworkConfigV1}
use weaver.Crypto.Member.{MemberCertificate}
use weaver.Crypto.Endpoint.{EndpointBinding}
use weaver.Authority.{AuthorityError}
use weaver.Authority.Ticket.{of_crypto}
use weaver.Crypto.Endpoint

passed : (t : Bool) (e : AuthorityError) → fail_if t e ≡ ok tt → t ≡ false
passed true e h = cc
passed false e h = refl

module _ (request : JoinRequestPayload) where
  -- Another member: with another identifier and other keys.
  abbrev pub IsOther : Bytes → Type 0
  IsOther raw =
      (member : MemberCertificate) × (Member.from_bytes raw ≡ ok member)
      × (member.payload.member_id ≢ request.member_id)
      × (member.payload.signing_public_key ≢ request.signing_public_key)
      × (member.payload.encryption_public_key ≢ request.encryption_public_key)

  -- Another endpoint.
  abbrev pub IsElsewhere : Bytes → Type 0
  IsElsewhere raw =
      (binding : EndpointBinding) × (Endpoint.from_bytes raw ≡ ok binding)
      × (binding.payload.endpoint_id ≢ request.endpoint_id)

  none_of : (a b d : Bool) → (a || (b || d)) ≡ false → (a ≡ false) × (b ≡ false) × (d ≡ false)
  none_of a b d h = (ground arith, ground arith, ground arith)

  differs : (x y : Bytes) → x ≢ y → bytes_eq x y ≡ false
  differs x y n = elim (Bool-cases (bytes_eq x y)) [
    | inl e ↦ elim (n (bytes_eq_sound x y e)) [ ]
    | inr e ↦ e
  ]

  check_member-IsOther : (raw : Bytes) → (check_member request raw tt ≡ ok tt) ↔ IsOther raw
  unfolding check_member
  check_member-IsOther raw = (
    λ h.
        let (member, d, h) = >>=-eq-ok (of_crypto (Member.from_bytes raw)) _ h in
        let t = passed _ _ h in
        let (x, y, z) = none_of _ _ _ t in
        (
          member,
          map_err-eq-ok _ _ d,
          bytes_eq_differs _ _ x,
          bytes_eq_differs _ _ y,
          bytes_eq_differs _ _ z,
        ),
    λ (member, d, x, y, z).
        >>=-ok _ _ (map_err-ok _ d)
        ∙ fail_if-ok _ (rw (differs _ _ x, differs _ _ y, differs _ _ z)),
  )

  check_bound-IsElsewhere : (raw : Bytes) → (check_bound request raw tt ≡ ok tt) ↔ IsElsewhere raw
  unfolding check_bound
  check_bound-IsElsewhere raw = (
    λ h.
        let (binding, d, h) = >>=-eq-ok (of_crypto (Endpoint.from_bytes raw)) _ h in
        let t = passed _ _ h in (binding, map_err-eq-ok _ _ d, bytes_eq_differs _ _ t),
    λ (binding, d, x). >>=-ok _ _ (map_err-ok _ d) ∙ fail_if-ok _ (differs _ _ x),
  )

-- A loop of checks passes exactly if every check does.
for_each-All :
    {A : Type 0} (check : A → Unit {0} → Result AuthorityError (Unit {0})) (P : A → Type 0)
    → ((x : A) → (check x tt ≡ ok tt) ↔ P x)
    → (xs : List A) → (for_each check xs tt ≡ ok tt) ↔ All P xs
unfolding for_each
for_each-All check P each [] = (λ h. tt, λ h. refl)
for_each-All check P each (x ∷ xs) =
    let rest = for_each-All check P each xs in
    (
      λ h. let (u, e, h) = >>=-eq-ok (check x tt) _ h in ((each x).0 e, rest.0 h),
      λ (p, ps). >>=-ok _ _ ((each x).1 p) ∙ rest.1 ps,
    )

-- A request is taken as new exactly if every certificate and binding of the snapshot can be read,
-- no member has its identifier, its signing key or its encryption key, and no binding its endpoint.
pub ensure_join_is_unique_iff :
    (config : NetworkConfigV1) (request : JoinRequestPayload)
    → (ensure_join_is_unique config request ≡ ok tt)
      ↔ (All (IsOther request) config.members × All (IsElsewhere request) config.endpoint_bindings)
unfolding ensure_join_is_unique
ensure_join_is_unique_iff config request =
    let members =
      for_each-All (check_member request) _ (check_member-IsOther request) config.members in
    let bound =
      for_each-All (check_bound request) _ (check_bound-IsElsewhere request)
        config.endpoint_bindings in
    (
      λ h.
          let (u, e, h) = >>=-eq-ok (for_each (check_member request) config.members tt) _ h in
          (members.0 e, bound.0 h),
      λ (p, q). >>=-ok _ _ (members.1 p) ∙ bound.1 q,
    )
