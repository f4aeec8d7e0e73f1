-- ===== src/BrowserHub/Filter.antt =====
-- What a user of some business units sees.
use monti.Prelude.{
  ◌≡◌, refl, Bool, false, ◌||◌, String, List, [], ◌∷◌, Option, none, some, arith, ◌==◌, eq_iff,
  nat_eq, length, member, member-append, keep, ap, inl, inr, Bool-cases,
}
use monti.Prelude.Dict.{Dict, lookup}
use monti.Types.Location.{Location, bu_location_mapping}
use monti.Types.Agent.{AgentInfo, DepartmentData, Snapshot}
use monti.Access.{
  Claims, add_location, add_locations, add_units, locations_of, compute_allowed_locations,
  is_location_allowed,
}
use monti.BrowserHub.{filter_departments, filter_snapshot}

-- Whether a location belongs to one of the business units.
abbrev pub in_units : List String → Location → Bool
in_units [] loc = false
in_units (bu ∷ rest) loc =
    member loc (locations_of (lookup bu bu_location_mapping)) || in_units rest loc

member-add_location :
    (loc l : Location) (set : List Location)
    → member loc (add_location l set) ≡ (member loc set || (l == loc))
member-add_location loc l set = ground (arith, member-append loc set (l ∷ []), eq_iff l loc)

member-add_locations :
    (loc : Location) (ls set : List Location)
    → member loc (add_locations ls set) ≡ (member loc set || member loc ls)
member-add_locations loc [] set = ground arith
member-add_locations loc (l ∷ ls) set =
    ground (arith, member-add_locations loc ls (add_location l set), member-add_location loc l set)

member-add_units :
    (loc : Location) (bus : List String) (set : List Location)
    → member loc (add_units bus set) ≡ (member loc set || in_units bus loc)
member-add_units loc [] set = ground arith
member-add_units loc (bu ∷ bus) set =
    let ls = locations_of (lookup bu bu_location_mapping) in
    rw (member-add_units loc bus (add_locations ls set), member-add_locations loc ls set)
      (ground arith)

-- The claims of a user, as validateToken fills them in.
abbrev pub claims_of : String → List String → List String → Claims
claims_of role groups bus = record {
  role = role;
  groups = groups;
  business_units = bus;
  allowed_locations = compute_allowed_locations role bus;
}

allowed-in_units :
    (role : String) (groups bus : List String) (loc : Location)
    → (role == "admin") ≡ false
    → is_location_allowed (claims_of role groups bus) loc ≡ in_units bus loc
unfolding is_location_allowed compute_allowed_locations
allowed-in_units role groups bus loc e = rw e (member-add_units loc bus [])

-- A department with the agents of the business units only.
abbrev pub restricted : List String → Option DepartmentData → Option DepartmentData
restricted bus none = none
restricted bus (some d) = some (record d { agents = keep (λ a. in_units bus a.location) d.agents })

keep-same :
    (p q : AgentInfo → Bool)
    → ((a : AgentInfo) → p a ≡ q a)
    → (xs : List AgentInfo) → keep p xs ≡ keep q xs
keep-same p q e [] = refl
keep-same p q e (x ∷ xs) = rw (e x, keep-same p q e xs) refl

lookup-filter_departments :
    (role : String) (groups bus : List String) (dept : String) (ds : Dict DepartmentData)
    → (role == "admin") ≡ false
    → lookup dept (filter_departments (claims_of role groups bus) ds)
      ≡ restricted bus (lookup dept ds)
lookup-filter_departments role groups bus dept [] e = refl
lookup-filter_departments role groups bus dept ((d, data') ∷ ds) e = elim (Bool-cases (d == dept)) [
  | inl s ↦ rw s (
      ap (λ agents. some (record data' { agents = agents }))
        (keep-same _ _ (λ a. allowed-in_units role groups bus a.location e) data'.agents))
  | inr s ↦ rw s (lookup-filter_departments role groups bus dept ds e)
]

-- A user who is no admin, and whose business units do not have all five locations, sees of each
-- department in a snapshot all the queues and exactly the agents whose location belongs to one of
-- its units, in their order.
pub filter_snapshot-restricted :
    (role : String) (groups bus : List String) (s : Snapshot) (dept : String)
    → (role == "admin") ≡ false
    → nat_eq (length (compute_allowed_locations role bus)) 5 ≡ false
    → lookup dept (filter_snapshot (some (claims_of role groups bus)) s).departments
      ≡ restricted bus (lookup dept s.departments)
unfolding filter_snapshot
filter_snapshot-restricted role groups bus s dept e few =
    rw few (lookup-filter_departments role groups bus dept s.departments e)
