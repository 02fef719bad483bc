-- ===== src/Exec.antt =====
-- Python's exceptions, and code that changes state and may raise. What was written before a
-- `raise` stays written, so the state comes back beside the exception too.
use mathlib.Core.Path.{◌≡◌, refl}
use ollama_proxy.Prelude.{ℕ, arith, String, ◌⊎◌, inl, inr}

-- The exceptions that the modelled code raises or catches.
pub data Exception : Type 0 where
  lookup_error : ℕ → Exception
  overflow_error type_error value_error runtime_error integrity_error transport_error : Exception
  vault_decrypt_error : ℕ → Exception
  api_key_not_found : ℕ → Exception
  probe_model_missing attribute_error : Exception
  auth_rejected : ℕ → Exception
  http_status_error : ℕ → Exception
  http_exception dashboard_client_error : ℕ → String → Exception

pub data Result {ℓ} (A : Type ℓ) : Type ℓ where
  returned : A → Result A
  raised : Exception → Result A

abbrev pub Exec : Type 0 → Type 0 → Type 0
Exec S A = S → Result A × S

module _ {S A : Type 0} where
  abbrev pub pure : A → Exec S A
  pure a s = (returned a, s)

  abbrev pub raise : Exception → Exec S A
  raise e s = (raised e, s)

  abbrev pub gets : (S → A) → Exec S A
  gets f s = (returned (f s), s)

  abbrev pub lift : Result A → Exec S A
  lift r s = (r, s)

abbrev pub modify : {S : Type 0} → (S → S) → Exec S (Unit {0})
modify f s = (returned tt, f s)

module _ {S A B : Type 0} where
  abbrev pub continue : Result A → (A → Exec S B) → Exec S B
  continue (returned a) f s = f a s
  continue (raised e) f s = (raised e, s)

  infixl 10 ◌>>=◌ ◌>>◌
  abbrev pub ◌>>=◌ : Exec S A → (A → Exec S B) → Exec S B
  ◌>>=◌ m f s = continue (m s).0 f (m s).1

  abbrev pub ◌>>◌ : Exec S A → Exec S B → Exec S B
  m >> n = m >>= λ _. n

-- Code that changes nothing and may raise.
abbrev pub and_then : {A B : Type 0} → Result A → (A → Result B) → Result B
and_then (returned a) f = f a
and_then (raised e) f = raised e

-- `try: m` … `finally: cleanup`, for a cleanup that raises nothing.
abbrev pub finally : {S A : Type 0} → Exec S A → (S → S) → Exec S A
finally m cleanup s = ((m s).0, cleanup (m s).1)

pub Result-cases {ℓ} :
    {A : Type ℓ} (r : Result A) → ((a : A) × (r ≡ returned a)) ⊎ ((e : Exception) × (r ≡ raised e))
Result-cases (returned a) = inl (a, refl)
Result-cases (raised e) = inr (e, refl)

pub returned-injective : {A : Type 0} {a b : A} → returned a ≡ returned b → a ≡ b
returned-injective e = ground (arith, e)
