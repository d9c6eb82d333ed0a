-- ===== src/Wire/Gives.antt =====
-- What is true of every value that a parser returns, whatever it reads.
use weaver.Prelude.Results.{Result, ok, err, Result-cases, ok-injective}
use weaver.Wire.{Parser, Decoder, ◌>>=◌, return, decode, start}
use weaver.Prelude.{◌≡◌, subst, ap, sym, ◌∙◌, refl, inl, inr, Bytes}

-- Every value that `p` returns satisfies `P`.
pub record Gives {E A : Type 0} (P : A → Type 0) (p : Parser E A) : Type 0 where
  pub gives : (d : Decoder) (x : A) (e : Decoder) → p d ≡ ok (x, e) → P x

not_ok : {E A : Type 0} {c : E} {x : A} → ◌≡◌ {A = Result E A} (err c) (ok x) → ⊥
not_ok h = cc

returned :
    {E A : Type 0} {x y : A} {d e : Decoder}
    → ◌≡◌ {A = Result E (A × Decoder)} (ok (x, d)) (ok (y, e))
    → x ≡ y
returned h = ap (λ p. p.0) (ok-injective h)

pub return-Gives : {E A : Type 0} {P : A → Type 0} (x : A) → P x → Gives {E = E} P (return x)
return-Gives {P} x h = record { gives = λ d y e q. subst P (returned q) h }

pub bind-Gives :
    {E A B : Type 0} {P : B → Type 0} (p : Parser E A) (f : A → Parser E B)
    → ((a : A) → Gives P (f a))
    → Gives P (p >>= f)
bind-Gives p f h = record {
  gives = λ d x e q. elim (Result-cases (p d)) [
    | inl ((a, d'), r) ↦
        let z : (p >>= f) d ≡ f a d' = rw (r, ◌>>=◌) refl in (h a).gives d' x e (sym z ∙ q)
    | inr (c, r) ↦ let z : (p >>= f) d ≡ err c = rw (r, ◌>>=◌) refl in absurd (not_ok (sym z ∙ q))
  ];
}

pub decode-Gives :
    {E A : Type 0} {P : A → Type 0} (p : Parser E A) (bytes : Bytes) {x : A}
    → Gives P p
    → decode p bytes ≡ ok x
    → P x
unfolding decode
decode-Gives {P} p bytes {x} g q = elim (Result-cases (p (start bytes))) [
  | inl ((a, d), r) ↦
      let z : decode p bytes ≡ ok a = rw (r, decode) refl in
      subst P (ok-injective (sym z ∙ q)) (g.gives (start bytes) a d r)
  | inr (c, r) ↦ let z : decode p bytes ≡ err c = rw (r, decode) refl in absurd (not_ok (sym z ∙ q))
]
