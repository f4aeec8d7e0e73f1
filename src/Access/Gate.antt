-- ===== src/Access/Gate.antt =====
-- Backend/internal/auth/middleware.go: the keys that verify tokens, the check of a token, and the
-- middleware; and the two tests on roles of Backend/internal/api/admin.go. The library that fetches
-- keys and parses tokens is an argument. Both its parsers give MapClaims, so the assertion of that type
-- holds.
pub mod Admits
pub mod Keys
use monti.Prelude.{
  ℕ, zero, suc, ◌*◌, String, Bool, true, false, ◌&&◌, ◌||◌, not, List, [], ◌∷◌, Option, none, some,
  ◌==◌, ltb, if◌then◌else◌,
}
use monti.Prelude.Int.{ℤ, pos, negsuc}
use monti.Prelude.Dict.{lookup}
use monti.Types.Location.{all_locations}
use monti.Access.{Claims, compute_allowed_locations, has_role}
use monti.Access.Tokens.{
  Claim, str, number, array, object, other, MapClaims, Request, extract_token, extract_role,
  extract_groups, extract_business_units,
}

-- keyfunc.NewDefault, by the time and the issuer; jwt.Parse with a key function and the six methods, by whether
-- the token is valid; and ParseUnverified. `none` is an error.
pub record JwtLibrary (Keyfunc : Type 0) : Type 0 where
  pub fetch : ℕ → String → Option Keyfunc
  pub parse : Keyfunc → String → Option (Bool × MapClaims)
  pub parse_unverified : String → Option MapClaims

-- The variables of the process's environment; an unset one is empty.
pub record Environment : Type 0 where
  pub skip_auth : String
  pub env : String
  pub verify_jwt_signature : String

pub data AuthError : Type 0 where
  missing_token not_initialized refresh_failed not_available : AuthError
  verification_failed invalid_token parse_failed token_expired : AuthError

-- JWKSManager
pub record JwksManager (Keyfunc : Type 0) : Type 0 where
  pub jwks : Option Keyfunc
  pub issuer_url : String

-- Either the value or the error of a Go function.
pub data Outcome {ℓ} (A : Type ℓ) : Type ℓ where
  ok : A → Outcome A
  fails : AuthError → Outcome A

-- Claims: who the user is, and what the claims allow.
pub record User : Type 0 where
  pub email : String
  pub name : String
  pub subject : String
  pub expires_at : Option ℤ
  pub claims : Claims

-- The call of jwt.Parse, and the test of token.Valid.
abbrev parsed : Option (Bool × MapClaims) → Outcome MapClaims
parsed none = fails verification_failed
parsed (some (false, claims)) = fails invalid_token
parsed (some (true, claims)) = ok claims

abbrev string_claim : Option Claim → Option String
string_claim (some (str s)) = some s
string_claim (some (number n)) = none
string_claim (some (array items)) = none
string_claim (some (object fields)) = none
string_claim (some other) = none
string_claim none = none

abbrev number_claim : Option Claim → Option ℤ
number_claim (some (number n)) = some n
number_claim (some (str s)) = none
number_claim (some (array items)) = none
number_claim (some (object fields)) = none
number_claim (some other) = none
number_claim none = none

abbrev or_text : Option String → String → String
or_text (some s) d = s
or_text none d = d

-- The user of the claims, but for the expiry.
unfoldable pub user_of : MapClaims → User
unfolding extract_role extract_groups extract_business_units compute_allowed_locations
user_of c =
    let role = extract_role c in
    let groups = extract_groups c in
    let bus = extract_business_units groups in
    record {
      email = or_text (string_claim (lookup "email" c)) "";
      name =
          or_text (string_claim (lookup "name" c))
            (or_text (string_claim (lookup "preferred_username" c)) "");
      subject = or_text (string_claim (lookup "sub" c)) "";
      expires_at = none;
      claims = record {
        role = role;
        groups = groups;
        business_units = bus;
        allowed_locations = compute_allowed_locations role bus;
      };
    }

-- `expTime.Before(time.Now())`; the clock is in nanoseconds.
abbrev is_before : ℤ → ℕ → Bool
is_before (pos s) now = ltb (s * 1000000000) now
is_before (negsuc s) now = true

-- The check of the expiry of a token whose signature is not verified.
abbrev check_expiry : Option ℤ → ℕ → User → Outcome User
check_expiry none now u = ok u
check_expiry (some exp) now u =
    if is_before exp now then fails token_expired else ok (record u { expires_at = some exp })

-- Whether validateToken verifies signatures.
unfoldable pub verifies : Environment → Bool
verifies e =
    if not (e.env == "development") && not (e.env == "")
    then true
    else e.verify_jwt_signature == "true"

abbrev unverified : Option MapClaims → ℕ → Outcome User
unverified none now = fails parse_failed
unverified (some c) now = check_expiry (number_claim (lookup "exp" c)) now (user_of c)

abbrev verified : Outcome MapClaims → Outcome User
verified (fails e) = fails e
verified (ok c) = ok (user_of c)

abbrev pub dev_user : User
dev_user = record {
  email = "dev@monti.local";
  name = "Dev User";
  subject = "";
  expires_at = none;
  claims = record {
    role = "admin";
    groups = "developers" ∷ "monti-admins" ∷ [];
    business_units = [];
    allowed_locations = all_locations;
  };
}

abbrev with_user : Outcome User → Outcome (Option User)
with_user (ok u) = ok (some u)
with_user (fails e) = fails e

module _ {Keyfunc : Type 0} (lib : JwtLibrary Keyfunc) where
  -- refresh: whether it succeeded.
  unfoldable pub refresh : ℕ → JwksManager Keyfunc → Bool × JwksManager Keyfunc
  refresh now m = elim (lib.fetch now m.issuer_url) [
    | none ↦ (false, m)
    | some k ↦ (true, record m { jwks = some k })
  ]

  -- The loop of InitJWKS; the times are those of the attempts.
  unfoldable pub attempt : (ℕ → ℕ) → ℕ → JwksManager Keyfunc → Bool × JwksManager Keyfunc
  unfolding refresh
  attempt times zero m = (false, m)
  attempt times (suc attempts) m =
      let (refreshed, m') = refresh (times 0) m in
      let later = attempt (λ i. times (suc i)) attempts m' in
      if refreshed then (true, m') else later

  -- InitJWKS: whether an attempt succeeded.
  unfoldable pub init_jwks : (ℕ → ℕ) → String → ℕ → Bool × JwksManager Keyfunc
  unfolding attempt
  init_jwks times issuer_url max_attempts =
      attempt times max_attempts (record { jwks = none; issuer_url = issuer_url })

  abbrev parse_with : Option Keyfunc → String → Outcome MapClaims
  parse_with none token = fails not_available
  parse_with (some k) token = parsed (lib.parse k token)

  -- parseAndVerifyToken, with the manager of the process, which is nil at first.
  unfoldable pub parse_and_verify_token :
      ℕ → String → Option (JwksManager Keyfunc) → Outcome MapClaims × Option (JwksManager Keyfunc)
  unfolding refresh
  parse_and_verify_token now token none = (fails not_initialized, none)
  parse_and_verify_token now token (some m) = elim m.jwks [
    | some k ↦ (parse_with (some k) token, some m)
    | none ↦
        let (refreshed, m') = refresh now m in
        if refreshed then (parse_with m'.jwks token, some m') else (fails refresh_failed, some m')
  ]

  -- validateToken
  unfoldable pub validate_token :
      Environment
      → ℕ
      → String
      → Option (JwksManager Keyfunc)
      → Outcome User × Option (JwksManager Keyfunc)
  unfolding verifies parse_and_verify_token user_of
  validate_token e now token m =
      let (result, m') = parse_and_verify_token now token m in
      if verifies e then (verified result, m') else (unverified (lib.parse_unverified token) now, m)

  -- Middleware: the user in the context that the next handler gets, if any.
  unfoldable pub middleware :
      Environment
      → ℕ
      → Request
      → Option (JwksManager Keyfunc)
      → Outcome (Option User) × Option (JwksManager Keyfunc)
  unfolding extract_token validate_token
  middleware e now r m =
      let (result, m') = validate_token e now (extract_token r) m in
      if r.path == "/health"
      then (ok none, m)
      else (if e.skip_auth == "true"
          then (ok (some dev_user), m)
          else (if extract_token r == "" then (fails missing_token, m) else (with_user result, m')))

-- RequireAdmin: whether the next handler is called.
unfoldable pub require_admin : Option User → Bool
unfolding has_role
require_admin none = false
require_admin (some u) = has_role u.claims "admin"

-- RequireManagerOrAdmin: whether the next handler is called.
unfoldable pub require_manager_or_admin : Option User → Bool
require_manager_or_admin none = false
require_manager_or_admin (some u) =
    u.claims.role == "admin" || (u.claims.role == "manager" || u.claims.role == "supervisor")
