-- ===== src/Types/Location.antt =====
-- Backend/internal/types/types.go: locations and the business units that see them.
use monti.Prelude.{String, List, [], ◌∷◌}
use monti.Prelude.Dict.{Dict}

abbrev pub Location : Type 0
Location = String

-- BULocationMapping
abbrev pub bu_location_mapping : Dict (List Location)
bu_location_mapping =
    ("SGB", "munich" ∷ "frankfurt" ∷ [])
    ∷ ("NGB", "berlin" ∷ "hamburg" ∷ [])
    ∷ ("RGB", "remote" ∷ [])
    ∷ []

-- AllLocations
abbrev pub all_locations : List Location
all_locations = "berlin" ∷ "munich" ∷ "hamburg" ∷ "frankfurt" ∷ "remote" ∷ []
