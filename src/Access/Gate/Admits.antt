-- ===== src/Access/Gate/Admits.antt =====
-- Whom the middleware and the tests on roles let pass.
use monti.Prelude.{
  ℕ, ◌≡◌, refl, subst, ◌⊎◌, inl, inr, String, Bool, true, false, ◌||◌, Option, none, some, ◌==◌,
  eq_iff, Bool-cases, Option-cases,
}
use monti.Access.Tokens.{MapClaims, Request, extract_token, extract_role}
use monti.Access.Tokens.Roles.{extract_role-IsRole, IsRole}
use monti.Access.Gate.{
  JwtLibrary, Environment, AuthError, JwksManager, Outcome, ok, fails, User, refresh, parsed,
  parse_and_verify_token, user_of, verifies, verified, validate_token, middleware, with_user,
  require_manager_or_admin,
}

-- The environment of a server that checks the tokens: ENV is set and is not "development", and
-- SKIP_AUTH is not "true".
abbrev pub IsChecking : Environment → Type 0
IsChecking e =
    ((e.env == "development") ≡ false) × ((e.env == "") ≡ false) × ((e.skip_auth == "true") ≡ false)

module _ {Keyfunc : Type 0} (lib : JwtLibrary Keyfunc) where
  -- A key that the manager has, or that its issuer gives now.
  abbrev pub HasKey : ℕ → Option (JwksManager Keyfunc) → Keyfunc → Type 0
  HasKey now none k = ⊥
  HasKey now (some m) k = (m.jwks ≡ some k) ⊎ (lib.fetch now m.issuer_url ≡ some k)

  -- A verified token: the library accepts it, with such a key, and gives these claims.
  abbrev pub IsVerified : ℕ → Option (JwksManager Keyfunc) → String → MapClaims → Type 0
  IsVerified now m token c = (k : Keyfunc) × HasKey now m k × (lib.parse k token ≡ some (true, c))

  parsed-ok : (o : Option (Bool × MapClaims)) (c : MapClaims) → parsed o ≡ ok c → o ≡ some (true, c)
  parsed-ok none c e = absurd (cc e)
  parsed-ok (some (false, d)) c e = absurd (cc e)
  parsed-ok (some (true, d)) c e = cc e

  parse_and_verify_token-ok :
      (now : ℕ) (token : String) (m : Option (JwksManager Keyfunc)) (c : MapClaims)
      → (parse_and_verify_token lib now token m).0 ≡ ok c
      → IsVerified now m token c
  unfolding parse_and_verify_token refresh
  parse_and_verify_token-ok now token none c e = absurd (cc e)
  parse_and_verify_token-ok now token (some m) c e = elim (Option-cases m.jwks) [
    | inr (k, has) ↦
        (k, inl has, parsed-ok (lib.parse k token) c (rw (parse_and_verify_token, has) at e))
    | inl lacks ↦ elim (Option-cases (lib.fetch now m.issuer_url)) [
      | inl down ↦
          let wrong : fails AuthError.refresh_failed ≡ ok c =
            rw (parse_and_verify_token, lacks, refresh, down) at e in
          absurd (cc wrong)
      | inr (k, up) ↦ (
        k,
        inr up,
        parsed-ok (lib.parse k token) c (rw (parse_and_verify_token, lacks, refresh, up) at e),
      )
    ]
  ]

  verified-ok :
      (o : Outcome MapClaims) (u : User)
      → verified o ≡ ok u
      → (c : MapClaims) × (o ≡ ok c) × (u ≡ user_of c)
  verified-ok (ok c) u e = (c, refl, cc e)
  verified-ok (fails x) u e = absurd (cc e)

  with_user-ok : (o : Outcome User) (u : User) → with_user o ≡ ok (some u) → o ≡ ok u
  with_user-ok (ok v) u e = cc e
  with_user-ok (fails x) u e = absurd (cc e)

  verifies_production : (e : Environment) → IsChecking e → verifies e ≡ true
  unfolding verifies
  verifies_production e p = rw (p.0, p.1) refl

  -- With such an environment a request, but for one of the health check, passes the middleware as a user only
  -- if it brings a token that the library accepts as valid under a key of the issuer, and the user is
  -- exactly what the claims of that token say.
  pub middleware-IsVerified :
      (e : Environment) (now : ℕ) (r : Request) (m : Option (JwksManager Keyfunc)) (u : User)
      → IsChecking e
      → (r.path == "/health") ≡ false
      → (middleware lib e now r m).0 ≡ ok (some u)
      → (c : MapClaims) × IsVerified now m (extract_token r) c × (u ≡ user_of c)
  unfolding middleware validate_token
  middleware-IsVerified e now r m u p path passes = elim (Bool-cases (extract_token r == "")) [
    | inl blank ↦
        let wrong : fails AuthError.missing_token ≡ ok (some u) =
          rw (middleware, path, p.2, blank) at passes in
        absurd (cc wrong)
    | inr given ↦
        let strict = verifies_production e p in
        let (c, parsed_so, same) = verified-ok _ u (
          with_user-ok _ u (rw (middleware, path, p.2, given, validate_token, strict) at passes)) in
        (c, parse_and_verify_token-ok now (extract_token r) m c parsed_so, same)
  ]

IsRole-manager : (r : String) → IsRole r → (r == "manager") ≡ false
IsRole-manager r h = elim (Bool-cases (r == "manager")) [
  | inl e ↦ absurd (cc (subst IsRole ((eq_iff r "manager").0 e) h))
  | inr e ↦ e
]

-- Of the users that a token gives, those who pass the test for managers are the administrators and
-- the supervisors: no token gives the role "manager".
pub require_manager_or_admin-user_of :
    (c : MapClaims)
    → require_manager_or_admin (some (user_of c))
      ≡ (extract_role c == "admin" || extract_role c == "supervisor")
unfolding require_manager_or_admin user_of
require_manager_or_admin-user_of c =
    rw (require_manager_or_admin, IsRole-manager (extract_role c) (extract_role-IsRole c)) refl
