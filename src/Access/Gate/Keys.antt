-- ===== src/Access/Gate/Keys.antt =====
-- Whether the server gets its keys at its start.
use monti.Prelude.{
  ℕ, zero, suc, ◌≡◌, refl, inl, inr, String, Bool, true, false, none, some, Option-cases,
}
use monti.Access.Gate.{JwtLibrary, JwksManager, refresh, attempt, init_jwks}

module _ {Keyfunc : Type 0} (lib : JwtLibrary Keyfunc) where
  -- Whether the issuer answers at one of so many times.
  abbrev pub is_up : (ℕ → ℕ) → String → ℕ → Bool
  is_up times issuer zero = false
  is_up times issuer (suc n) =
      let later = is_up (λ i. times (suc i)) issuer n in
      elim (lib.fetch (times 0) issuer) [ none ↦ later | some k ↦ true ]

  -- A manager has a key if a fetch was reported to succeed.
  abbrev pub Holds : Bool × JwksManager Keyfunc → Bool → Type 0
  Holds (b, m) true = (b ≡ true) × ((k : Keyfunc) × (m.jwks ≡ some k))
  Holds (b, m) false = (b ≡ false) × (m.jwks ≡ none)

  attempt-Holds :
      (times : ℕ → ℕ) (n : ℕ) (m : JwksManager Keyfunc)
      → m.jwks ≡ none
      → Holds (attempt lib times n m) (is_up times m.issuer_url n)
  unfolding attempt refresh
  attempt-Holds times zero m e = (refl, e)
  attempt-Holds times (suc n) m e = elim (Option-cases (lib.fetch (times 0) m.issuer_url)) [
    | inl down ↦ rw (attempt, refresh, is_up, down) (attempt-Holds (λ i. times (suc i)) n m e)
    | inr (k, up) ↦ rw (attempt, refresh, is_up, up) (refl, (k, refl))
  ]

  -- The start gets the keys exactly if the issuer answers at one of the attempts, however many failed
  -- before; then the manager has a key, and otherwise it has none and an error is reported.
  pub init_jwks-Holds :
      (times : ℕ → ℕ) (issuer : String) (attempts : ℕ)
      → Holds (init_jwks lib times issuer attempts) (is_up times issuer attempts)
  unfolding init_jwks
  init_jwks-Holds times issuer attempts =
      attempt-Holds times attempts (record { jwks = none; issuer_url = issuer }) refl
