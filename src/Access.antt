-- ===== src/Access.antt =====
-- Backend/internal/auth/middleware.go: the claims of a user, as far as they decide what it sees. A
-- set of locations is a list without repetitions, whose order stands for that of the iteration over
-- the map. The verification of tokens is a library's.
pub mod Tokens
pub mod Gate
use monti.Prelude.{
  String, Bool, List, [], ◌∷◌, ◌++◌, Option, none, some, ◌==◌, member, if◌then◌else◌,
}
use monti.Prelude.Dict.{lookup}
use monti.Types.Location.{Location, bu_location_mapping, all_locations}

pub record Claims : Type 0 where
  pub role : String
  pub groups : List String
  pub business_units : List String
  pub allowed_locations : List Location

-- HasRole
unfoldable pub has_role : Claims → String → Bool
has_role claims role = claims.role == role

-- InGroup
unfoldable pub in_group : Claims → String → Bool
in_group claims group = member group claims.groups

-- locationSet[loc] = true
abbrev pub add_location : Location → List Location → List Location
add_location loc set = if member loc set then set else set ++ loc ∷ []

abbrev pub add_locations : List Location → List Location → List Location
add_locations [] set = set
add_locations (loc ∷ rest) set = add_locations rest (add_location loc set)

abbrev pub locations_of : Option (List Location) → List Location
locations_of none = []
locations_of (some locations) = locations

-- The loop over the business units.
abbrev pub add_units : List String → List Location → List Location
add_units [] set = set
add_units (bu ∷ rest) set =
    add_units rest (add_locations (locations_of (lookup bu bu_location_mapping)) set)

-- computeAllowedLocations
unfoldable pub compute_allowed_locations : String → List String → List Location
compute_allowed_locations role business_units =
    if role == "admin" then all_locations else add_units business_units []

-- IsLocationAllowed
unfoldable pub is_location_allowed : Claims → Location → Bool
is_location_allowed c location = member location c.allowed_locations
