-- ===== src/WireJson/Outcome.antt =====
-- What a call of src/serialization/wire_json.ts comes to: a value, or a raised `WireJsonError`.
use ghc_gateway.Base.{ℕ, ◌≡◌, refl, List}

pub data WireJsonErrorCode : Type 0 where
  byte_limit depth_limit invalid_utf8 malformed_json serialization_failure : WireJsonErrorCode

-- `out_of_fuel` has no counterpart in the source.
pub data Outcome {ℓ} (A : Type ℓ) : Type ℓ where
  ok : A → Outcome A
  raised : WireJsonErrorCode → Outcome A
  out_of_fuel : Outcome A

abbrev pub bind {ℓ κ} : {A : Type ℓ} {B : Type κ} → Outcome A → (A → Outcome B) → Outcome B
bind (ok a) f = f a
bind (raised code) f = raised code
bind out_of_fuel f = out_of_fuel

-- The parser's `bytes` from `pos` on.
abbrev pub Bytes : Type 0
Bytes = List ℕ

abbrev pub Reader {ℓ} : Type ℓ → Type ℓ
Reader A = Bytes → Outcome (A × Bytes)

abbrev pub pure {ℓ} : {A : Type ℓ} → A → Reader A
pure a bytes = ok (a, bytes)

abbrev pub raise {ℓ} : {A : Type ℓ} → WireJsonErrorCode → Reader A
raise code bytes = raised code

module _ {ℓ κ} {A : Type ℓ} {B : Type κ} where
  infixl 1 ◌>>=◌ ◌>>◌
  abbrev pub ◌>>=◌ : Reader A → (A → Reader B) → Reader B
  ◌>>=◌ m f bytes = bind (m bytes) λ (a, rest). f a rest

  abbrev pub ◌>>◌ : Reader A → Reader B → Reader B
  ◌>>◌ m k = m >>= λ _. k

-- Inversion of a successful bind.
pub bind-eq-ok {ℓ κ} :
    {A : Type ℓ} {B : Type κ} (m : Outcome A) (f : A → Outcome B) {b : B}
    → bind m f ≡ ok b
    → (a : A) × (m ≡ ok a) × (f a ≡ ok b)
bind-eq-ok (ok a) f h = (a, refl, h)
bind-eq-ok (raised code) f h = cc
bind-eq-ok out_of_fuel f h = cc
