-- ===== src/Prelude/Dict.antt =====
-- Go maps with text keys, as association lists. The order of the list stands for the order in
-- which one `range` over the map visits it; the theorems hold for every list.
use Prim.Native.Nat.{suc}
use Prim.Native.String.{String}
use mathlib.Core.Path.{◌≡◌, refl, subst}
use mathlib.Core.Bool.{true, false}
use mathlib.Core.Option.{Option, none, some}
use mathlib.Core.List.{List, [], ◌∷◌}
use native.Mathlib.Omega.{arith}
use text.Mathlib.Text.{◌==◌}
use text.Mathlib.TextEquality.{eq_iff}
use text.Mathlib.TextPositions.{eq_refl}
use mathlib.Core.Logic.{inl, inr}
use monti.Prelude.Tests.{if◌then◌else◌, eq_sym, Bool-cases, String-cases}
use monti.Prelude.Lists.{length, member, Distinct}

abbrev pub Dict {ℓ} : Type ℓ → Type ℓ
Dict V = List (String × V)

module _ {ℓ} {V : Type ℓ} where
  -- v, ok := m[k]
  abbrev pub lookup : String → Dict V → Option V
  lookup k [] = none
  lookup k ((j, v) ∷ m) = if j == k then some v else lookup k m

  -- m[k] = v; a present key keeps its place.
  abbrev pub insert : String → V → Dict V → Dict V
  insert k v [] = (k, v) ∷ []
  insert k v ((j, w) ∷ m) = if j == k then (j, v) ∷ m else (j, w) ∷ insert k v m

  -- delete(m, k)
  abbrev pub delete : String → Dict V → Dict V
  delete k [] = []
  delete k ((j, w) ∷ m) = let rest = delete k m in if j == k then rest else (j, w) ∷ rest

  abbrev pub keys : Dict V → List String
  keys [] = []
  keys ((k, v) ∷ m) = k ∷ keys m

  abbrev pub values : Dict V → List V
  values [] = []
  values ((k, v) ∷ m) = v ∷ values m

  pub lookup-insert :
      (k j : String) (v : V) (m : Dict V)
      → lookup j (insert k v m) ≡ (if k == j then some v else lookup j m)
  lookup-insert k j v [] = refl
  lookup-insert k j v ((i, w) ∷ m) =
      ground (arith, eq_iff k j, eq_iff i k, eq_iff i j, lookup-insert k j v m)

  pub lookup-insert_self : (k : String) (v : V) (m : Dict V) → lookup k (insert k v m) ≡ some v
  lookup-insert_self k v m = rw (lookup-insert k k v m, eq_refl k)

  pub lookup-delete :
      (k j : String) (m : Dict V) → lookup j (delete k m) ≡ (if k == j then none else lookup j m)
  lookup-delete k j [] = ground arith
  lookup-delete k j ((i, w) ∷ m) =
      ground (arith, eq_iff k j, eq_iff i k, eq_iff i j, lookup-delete k j m)

  pub member-keys-insert :
      (s k : String) (v : V) (m : Dict V)
      → member s (keys (insert k v m)) ≡ (if k == s then true else member s (keys m))
  member-keys-insert s k v [] = ground arith
  member-keys-insert s k v ((j, w) ∷ m) =
      ground (arith, eq_iff k s, eq_iff j k, eq_iff j s, member-keys-insert s k v m)

  pub Distinct-insert :
      (k : String) (v : V) (m : Dict V) → Distinct (keys m) → Distinct (keys (insert k v m))
  Distinct-insert k v [] d = (refl, tt)
  Distinct-insert k v ((j, w) ∷ m) d =
      ground (arith, member-keys-insert j k v m, eq_sym k j, Distinct-insert k v m d.1)

  pub member-keys-delete :
      (s k : String) (m : Dict V)
      → member s (keys (delete k m)) ≡ (if k == s then false else member s (keys m))
  member-keys-delete s k [] = ground arith
  member-keys-delete s k ((j, w) ∷ m) =
      ground (arith, eq_iff k s, eq_iff j k, eq_iff j s, member-keys-delete s k m)

  pub Distinct-delete : (k : String) (m : Dict V) → Distinct (keys m) → Distinct (keys (delete k m))
  Distinct-delete k [] d = tt
  Distinct-delete k ((j, w) ∷ m) d =
      ground (arith, member-keys-delete j k m, Distinct-delete k m d.1)

  -- A key is absent exactly when a lookup fails.
  pub lookup_absent : (k : String) (m : Dict V) → member k (keys m) ≡ false → lookup k m ≡ none
  lookup_absent k [] h = refl
  lookup_absent k ((j, w) ∷ m) h = ground (arith, lookup_absent k m)

  pub lookup-none-member : (k : String) (m : Dict V) → lookup k m ≡ none → member k (keys m) ≡ false
  lookup-none-member k [] h = refl
  lookup-none-member k ((j, w) ∷ m) h = ground (arith, lookup-none-member k m)

  pub length-insert :
      (k : String) (v : V) (m : Dict V)
      → length (insert k v m) ≡ (if member k (keys m) then length m else suc (length m))
  length-insert k v [] = refl
  length-insert k v ((j, w) ∷ m) = ground (arith, length-insert k v m)

  pub delete_absent : (k : String) (m : Dict V) → member k (keys m) ≡ false → delete k m ≡ m
  delete_absent k [] h = refl
  delete_absent k ((j, w) ∷ m) h = ground (arith, delete_absent k m)

  -- Deleting a present key takes one entry away.
  pub length-delete :
      (k : String) (v : V) (m : Dict V)
      → Distinct (keys m)
      → lookup k m ≡ some v
      → suc (length (delete k m)) ≡ length m
  length-delete k v [] d h = ground arith
  length-delete k v ((j, w) ∷ m) d h =
      ground (arith, eq_iff j k, delete_absent k m, length-delete k v m d.1)

  -- A property of every entry, of its key and its value.
  abbrev pub Entries {κ} : (String → V → Type κ) → Dict V → Type κ
  Entries P [] = Unit
  Entries P ((k, v) ∷ m) = P k v × Entries P m

  pub Entries-insert {κ} :
      (P : String → V → Type κ) (k : String) (v : V) (m : Dict V)
      → ((j : String) → (j == k) ≡ true → P j v)
      → Entries P m
      → Entries P (insert k v m)
  Entries-insert P k v [] p h = (p k (eq_refl k), tt)
  Entries-insert P k v ((j, w) ∷ m) p h = elim (Bool-cases (j == k)) [
    | inl e ↦ rw e (p j e, h.1)
    | inr e ↦ rw e (h.0, Entries-insert P k v m p h.1)
  ]

  pub Entries-delete {κ} :
      (P : String → V → Type κ) (k : String) (m : Dict V) → Entries P m → Entries P (delete k m)
  Entries-delete P k [] h = tt
  Entries-delete P k ((j, w) ∷ m) h = elim (Bool-cases (j == k)) [
    | inl e ↦ rw e (Entries-delete P k m h.1)
    | inr e ↦ rw e (h.0, Entries-delete P k m h.1)
  ]

  pub Entries-lookup {κ} :
      (P : String → V → Type κ) (k : String) {v : V} (m : Dict V)
      → Entries P m
      → lookup k m ≡ some v
      → P k v
  Entries-lookup P k [] h e = absurd (ground arith)
  Entries-lookup P k {v} ((j, w) ∷ m) h e = elim (String-cases j k) [
    | inl same ↦ subst (P k) (found same.1) (subst (λ i. P i w) same.0 h.0)
    | inr other ↦ Entries-lookup P k m h.1 (rw other at e)
  ]
    where
      found : (j == k) ≡ true → w ≡ v
      found b = ground arith
