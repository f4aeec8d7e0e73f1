-- ===== src/Access/Tokens/Units.antt =====
-- What is read back from a header and from the paths of groups.
use Prim.Native.String.{len, ◌++◌}
use text.Mathlib.Text.{find?}
use text.Mathlib.TextPositions.{starts_with-append, slice-append_right, len-append}
use monti.Prelude.{
  ◌+◌, ◌<◌, ◌≡◌, refl, String, false, List, [], ◌∷◌, none, ◌==◌, map, All, arith, eq_iff, ap, inl,
  inr, Bool-cases, eq_sym,
}
use monti.Access.Tokens.{trim_prefix, extract_token, bu_prefix, extract_business_units}

trim_prefix-append : (prefix s : String) → trim_prefix (prefix ++ s) prefix ≡ s
unfolding trim_prefix
trim_prefix-append prefix s =
    rw (starts_with-append prefix s, len-append prefix s) (slice-append_right prefix s)

append-other : (prefix s t : String) → len t < len prefix + len s → (prefix ++ s == t) ≡ false
append-other prefix s t h = elim (Bool-cases (prefix ++ s == t)) [
  | inl e ↦ absurd (omega (arith, ap len ((eq_iff (prefix ++ s) t).0 e), len-append prefix s))
  | inr e ↦ e
]

-- The token in a header "Bearer …" is taken, whatever it is, and whatever the query says.
pub extract_token_bearer :
    (path token query : String)
    → extract_token (record { path = path; authorization = "Bearer " ++ token; token = query })
      ≡ token
unfolding extract_token
extract_token_bearer path token query =
    rw
      (
        append-other "Bearer " token "" (omega arith),
        trim_prefix-append "Bearer " token,
        eq_sym token ("Bearer " ++ token),
        append-other "Bearer " token token (omega arith),
      )
      refl

-- A name of a business unit that a group's path can hold.
abbrev pub IsName : String → Type 0
IsName bu = (find? bu "/" ≡ none) × ((bu == "") ≡ false)

-- The names of business units are read back from the paths of their groups, in their order.
pub extract_business_units-map :
    (bus : List String)
    → All IsName bus
    → extract_business_units (map (λ bu. bu_prefix ++ bu) bus) ≡ bus
unfolding extract_business_units
extract_business_units-map [] h = refl
extract_business_units-map (bu ∷ bus) h =
    rw
      (
        trim_prefix-append bu_prefix bu,
        h.0.0,
        starts_with-append bu_prefix bu,
        h.0.1,
        extract_business_units-map bus h.1,
      )
      refl
