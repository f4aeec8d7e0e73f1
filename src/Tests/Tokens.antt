-- ===== src/Tests/Tokens.antt =====
-- The theorems on tokens and groups, applied to one user.
use monti.Prelude.{ℕ, ◌≡◌, refl, true, [], ◌∷◌, none, some, ◌==◌, ltb, map, if◌then◌else◌}
use Prim.Native.String.{◌++◌}
use monti.Access.Tokens.{
  MapClaims, Request, word, list, object, array, extract_business_units, bu_prefix,
}
use monti.Access.Tokens.Units.{extract_business_units-map}
use monti.Access.Gate.Keys.{Holds, is_up, init_jwks-Holds}
use monti.Access.Gate.{init_jwks, JwtLibrary, Environment, JwksManager}

extract_business_units-map_example :
    extract_business_units (map (λ bu. bu_prefix ++ bu) ("SGB" ∷ "NGB" ∷ [])) ≡ "SGB" ∷ "NGB" ∷ []
extract_business_units-map_example =
    extract_business_units-map ("SGB" ∷ "NGB" ∷ []) ((refl, refl), ((refl, refl), tt))

abbrev claims : MapClaims
claims =
    ("realm_access", object (("roles", list (word "agent" ∷ word "admin" ∷ [])) ∷ []))
    ∷ ("groups", array (word "/business-units/SGB" ∷ []))
    ∷ []

abbrev library : JwtLibrary ℕ
library = record {
  fetch = λ now url. if url == "https://id" then some 7 else none;
  parse = λ k token. if token == "t1" then some (true, claims) else none;
  parse_unverified = λ token. none;
}

abbrev production : Environment
production = record { skip_auth = ""; env = "production"; verify_jwt_signature = "" }

abbrev request : Request
request = record { path = "/api/admin/reset/memory"; authorization = "Bearer t1"; token = "" }

abbrev keyless : JwksManager ℕ
keyless = record { jwks = none; issuer_url = "https://id" }

-- The issuer answers from time 2 on.
abbrev late : JwtLibrary ℕ
late = record library { fetch = λ now url. if ltb now 2 then none else some 7 }

abbrev clock : ℕ → ℕ
clock n = n

init_jwks-Holds_example :
    Holds late (init_jwks late clock "https://id" 5) (is_up late clock "https://id" 5)
init_jwks-Holds_example = init_jwks-Holds late clock "https://id" 5
