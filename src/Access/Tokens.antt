-- ===== src/Access/Tokens.antt =====
-- Backend/internal/auth/middleware.go: what is read from a request and from the claims of a token.
-- Positions in texts count bytes, as in Go.
pub mod Roles
pub mod Units
use Prim.Native.String.{len, slice}
use text.Mathlib.Text.{starts_with, find?}
use monti.Prelude.{
  ℕ, ◌+◌, String, Bool, true, false, List, [], ◌∷◌, ◌++◌, Option, none, some, ◌==◌, ltb,
  if◌then◌else◌,
}
use monti.Prelude.Int.{ℤ}
use monti.Prelude.Dict.{Dict, lookup}

-- An element of a JSON array, by whether it is a text.
pub data Item : Type 0 where
  word : String → Item
  no_word : Item

-- A field of the object realm_access, by whether it is an array.
pub data Field : Type 0 where
  list : List Item → Field
  no_list : Field

-- A claim as the type assertions see it; a number is the whole seconds that the code takes of it.
pub data Claim : Type 0 where
  str : String → Claim
  number : ℤ → Claim
  array : List Item → Claim
  object : Dict Field → Claim
  other : Claim

abbrev pub MapClaims : Type 0
MapClaims = Dict Claim

-- What a request carries: its path, its header Authorization and its query parameter token, which
-- are empty if absent.
pub record Request : Type 0 where
  pub path : String
  pub authorization : String
  pub token : String

-- strings.TrimPrefix
unfoldable pub trim_prefix : String → String → String
trim_prefix s prefix = if starts_with s prefix then slice s (len prefix) (len s) else s

-- extractToken
unfoldable pub extract_token : Request → String
unfolding trim_prefix
extract_token r =
    let token = trim_prefix r.authorization "Bearer " in
    if r.authorization == "" then r.token else (if token == r.authorization then r.token else token)

-- The elements that are texts, in their order.
abbrev pub words : List Item → List String
words [] = []
words (word s ∷ rest) = s ∷ words rest
words (no_word ∷ rest) = words rest

-- The loop over the roles, for one of the priorities.
unfoldable pub has_word : String → List Item → Bool
has_word priority [] = false
has_word priority (word s ∷ rest) = if s == priority then true else has_word priority rest
has_word priority (no_word ∷ rest) = has_word priority rest

-- The loop over the priorities.
unfoldable pub first_priority : List String → List Item → Option String
unfolding has_word
first_priority [] roles = none
first_priority (priority ∷ rest) roles =
    if has_word priority roles then some priority else first_priority rest roles

abbrev pub priorities : List String
priorities = "admin" ∷ "supervisor" ∷ "agent" ∷ "viewer" ∷ []

abbrev field_items : Option Field → List Item
field_items (some (list roles)) = roles
field_items (some no_list) = []
field_items none = []

-- realm_access.roles; an absent array has no elements.
abbrev pub realm_roles : Option Claim → List Item
realm_roles (some (object fields)) = field_items (lookup "roles" fields)
realm_roles (some (str s)) = []
realm_roles (some (number n)) = []
realm_roles (some (array items)) = []
realm_roles (some other) = []
realm_roles none = []

-- An array of the claims.
abbrev pub items_of : Option Claim → List Item
items_of (some (array items)) = items
items_of (some (str s)) = []
items_of (some (number n)) = []
items_of (some (object fields)) = []
items_of (some other) = []
items_of none = []

abbrev is_found : Option ℕ → Bool
is_found none = false
is_found (some i) = true

-- strings.Contains
abbrev pub contains : String → String → Bool
contains s part = is_found (find? s part)

-- The loop over groups: the first one that has the name of a role in it decides.
unfoldable pub group_role : List Item → Option String
group_role [] = none
group_role (no_word ∷ rest) = group_role rest
group_role (word s ∷ rest) =
    if contains s "admin"
    then some "admin"
    else (if contains s "supervisor"
        then some "supervisor"
        else (if contains s "agent" then some "agent" else group_role rest))

abbrev pub or_else : Option String → String → String
or_else none s = s
or_else (some r) s = r

-- extractRoleFromMapClaims
unfoldable pub extract_role : MapClaims → String
unfolding first_priority group_role
extract_role claims =
    or_else (first_priority priorities (realm_roles (lookup "realm_access" claims))) (
      or_else (group_role (items_of (lookup "cognito:groups" claims)))
        (or_else (group_role (items_of (lookup "custom:groups" claims))) "viewer"))

-- extractGroupsFromMapClaims
unfoldable pub extract_groups : MapClaims → List String
extract_groups claims =
    words (items_of (lookup "groups" claims)) ++ words (items_of (lookup "cognito:groups" claims))

-- What precedes a later slash.
abbrev pub cut_at : Option ℕ → String → String
cut_at none bu = bu
cut_at (some i) bu = if ltb 0 i then slice bu 0 i else bu

abbrev pub bu_prefix : String
bu_prefix = "/business-units/"

-- extractBusinessUnits
unfoldable pub extract_business_units : List String → List String
unfolding trim_prefix
extract_business_units [] = []
extract_business_units (group ∷ rest) =
    let later = extract_business_units rest in
    let trimmed = trim_prefix group bu_prefix in
    let bu = cut_at (find? trimmed "/") trimmed in
    if starts_with group bu_prefix then (if bu == "" then later else bu ∷ later) else later
