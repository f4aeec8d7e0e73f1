-- ===== src/Access/Tokens/Roles.antt =====
-- The role that the claims of a token give.
use monti.Prelude.{
  ◌≡◌, refl, String, Bool, true, false, List, [], ◌∷◌, Option, none, some, member, arith,
  if◌then◌else◌,
}
use monti.Prelude.Dict.{lookup}
use monti.Access.Tokens.{
  Item, word, no_word, words, has_word, first_priority, priorities, realm_roles, items_of, contains,
  group_role, or_else, MapClaims, extract_role,
}

has_word-member : (s : String) (items : List Item) → has_word s items ≡ member s (words items)
unfolding has_word
has_word-member s [] = refl
has_word-member s (no_word ∷ rest) = has_word-member s rest
has_word-member s (word w ∷ rest) = ground (arith, has_word-member s rest)

-- The four roles.
abbrev pub IsRole : String → Type 0
IsRole r = member r priorities ≡ true

-- If the realm roles of a token have one of the four roles, the user gets the first of "admin",
-- "supervisor", "agent" and "viewer" that is among them, in whatever order they come.
pub extract_role-realm :
    (claims : MapClaims)
    → let roles = words (realm_roles (lookup "realm_access" claims)) in
      extract_role claims ≡ (
        if member "admin" roles
        then "admin"
        else (if member "supervisor" roles
            then "supervisor"
            else (if member "agent" roles
                then "agent"
                else (if member "viewer" roles
                    then "viewer"
                    else (or_else (group_role (items_of (lookup "cognito:groups" claims))) (
                        or_else
                          (group_role (items_of (lookup "custom:groups" claims)))
                          "viewer"))))))
unfolding extract_role first_priority
extract_role-realm claims =
    let items = realm_roles (lookup "realm_access" claims) in
    rw
      (
        extract_role,
        first_priority,
        has_word-member "admin" items,
        has_word-member "supervisor" items,
        has_word-member "agent" items,
        has_word-member "viewer" items,
      )
      (ground arith)

-- A role that is found, or the one there is else.
either-IsRole :
    (b : Bool) (r d : String) (o : Option String)
    → IsRole r
    → IsRole (or_else o d)
    → IsRole (or_else (if b then some r else o) d)
either-IsRole true r d o h k = h
either-IsRole false r d o h k = k

group_role-IsRole :
    (items : List Item) (d : String) → IsRole d → IsRole (or_else (group_role items) d)
unfolding group_role
group_role-IsRole [] d h = h
group_role-IsRole (no_word ∷ rest) d h = group_role-IsRole rest d h
group_role-IsRole (word s ∷ rest) d h = either-IsRole (contains s "admin") "admin" d _ refl (
    either-IsRole (contains s "supervisor") "supervisor" d _ refl
      (either-IsRole (contains s "agent") "agent" d _ refl (group_role-IsRole rest d h)))

first_priority-IsRole :
    (roles : List Item) (d : String)
    → IsRole d
    → IsRole (or_else (first_priority priorities roles) d)
unfolding first_priority
first_priority-IsRole roles d h = either-IsRole (has_word "admin" roles) "admin" d _ refl (
    either-IsRole (has_word "supervisor" roles) "supervisor" d _ refl (
      either-IsRole (has_word "agent" roles) "agent" d _ refl
        (either-IsRole (has_word "viewer" roles) "viewer" d none refl h)))

-- Whatever the claims of a token, its user gets one of the four roles "admin", "supervisor", "agent"
-- and "viewer".
pub extract_role-IsRole : (claims : MapClaims) → IsRole (extract_role claims)
unfolding extract_role
extract_role-IsRole claims =
    let cognito = items_of (lookup "cognito:groups" claims) in
    let custom = items_of (lookup "custom:groups" claims) in
    let d = or_else (group_role custom) "viewer" in
    first_priority-IsRole (realm_roles (lookup "realm_access" claims))
      (or_else (group_role cognito) d)
      (group_role-IsRole cognito d (group_role-IsRole custom "viewer" refl))
