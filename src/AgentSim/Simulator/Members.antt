-- ===== src/AgentSim/Simulator/Members.antt =====
-- Sets of agents as lists of their IDs, and shuffles.
use monti.Prelude.{
  ℕ, zero, suc, ◌+◌, ◌≤◌, ◌≡◌, refl, sym, ◌∙◌, subst, String, true, false, ◌||◌, List, [], ◌∷◌,
  ◌++◌, arith, length, append-nil, append_assoc, member, member-append, Distinct, Distinct-snoc,
  All, All-imp, All-append, eq_iff, Bool-cases, String-cases, eq_refl, eq_sym, inl, inr,
  if◌then◌else◌,
}
use monti.AgentSim.Simulator.{take, drop, add_all, remove_all}

-- The elements of one list are in another.
abbrev pub Within : List String → List String → Type 0
Within ys xs = All (λ y. member y xs ≡ true) ys

-- What rand.Shuffle and rand.Perm give: the same elements, each as often.
pub record IsShuffle (f : List String → List String) : Type 0 where
  pub size : (xs : List String) → length (f xs) ≡ length xs
  pub once : (xs : List String) → Distinct xs → Distinct (f xs)
  pub same : (k : String) (xs : List String) → member k (f xs) ≡ member k xs

pub Within-member :
    (k : String) (ys xs : List String) → Within ys xs → member k ys ≡ true → member k xs ≡ true
Within-member k [] xs w m = absurd (ground arith)
Within-member k (y ∷ ys) xs w m = elim (String-cases y k) [
  | inl (same, _) ↦ subst (λ j. member j xs ≡ true) same w.0
  | inr other ↦ Within-member k ys xs w.1 (rw other at m)
]

remove_all_absent :
    (x : String) (ys xs : List String)
    → member x xs ≡ false
    → remove_all (x ∷ ys) xs ≡ remove_all ys xs
remove_all_absent x ys [] f = refl
remove_all_absent x ys (z ∷ xs) f = ground (arith, eq_sym x z, remove_all_absent x ys xs)

-- One kept element fewer for one removed element more.
length-remove_all_one :
    (x : String) (ys xs : List String)
    → Distinct xs
    → member x xs ≡ true
    → member x ys ≡ false
    → suc (length (remove_all (x ∷ ys) xs)) ≡ length (remove_all ys xs)
length-remove_all_one x ys [] d m f = absurd (ground arith)
length-remove_all_one x ys (z ∷ xs) d m f = elim (String-cases x z) [
  | inl (same, b) ↦
      let gone = remove_all_absent x ys xs (subst (λ j. member j xs ≡ false) (sym same) d.0) in
      let stays : member z ys ≡ false = subst (λ j. member j ys ≡ false) same f in
      ground (arith, gone, stays)
  | inr other ↦ ground (arith, length-remove_all_one x ys xs d.1, eq_sym x z)
]

pub length-remove_all :
    (ys xs : List String)
    → Distinct xs
    → Distinct ys
    → Within ys xs
    → length (remove_all ys xs) + length ys ≡ length xs
length-remove_all [] [] d e w = omega arith
length-remove_all [] (x ∷ xs) d e w = omega (arith, length-remove_all [] xs d.1 e tt)
length-remove_all (y ∷ ys) xs d e w =
    omega (arith, length-remove_all ys xs d e.1 w.1, length-remove_all_one y ys xs d w.0 e.0)

pub length-take : (n : ℕ) (xs : List String) → n ≤ length xs → length (take n xs) ≡ n
length-take zero xs h = refl
length-take (suc n) [] h = absurd (omega arith)
length-take (suc n) (x ∷ xs) h = omega (arith, length-take n xs)

pub member-take-drop :
    (k : String) (n : ℕ) (xs : List String)
    → (member k (take n xs) || member k (drop n xs)) ≡ member k xs
member-take-drop k zero xs = refl
member-take-drop k (suc n) [] = refl
member-take-drop k (suc n) (x ∷ xs) = ground (arith, member-take-drop k n xs)

member-take :
    (k : String) (n : ℕ) (xs : List String) → member k (take n xs) ≡ true → member k xs ≡ true
member-take k n xs h = ground (arith, member-take-drop k n xs)

pub take-Within : (n : ℕ) (xs : List String) → Within (take n xs) xs
take-Within zero xs = tt
take-Within (suc n) [] = tt
take-Within (suc n) (x ∷ xs) =
    (rw (eq_refl x) refl, All-imp _ _ (λ y m. ground arith) (take n xs) (take-Within n xs))

pub Distinct-take : (n : ℕ) (xs : List String) → Distinct xs → Distinct (take n xs)
Distinct-take zero xs d = tt
Distinct-take (suc n) [] d = tt
Distinct-take (suc n) (x ∷ xs) d = (ground (arith, member-take x n xs), Distinct-take n xs d.1)

pub member-remove_all :
    (k : String) (ys xs : List String)
    → member k (remove_all ys xs) ≡ (if member k ys then false else member k xs)
member-remove_all k ys [] = ground arith
member-remove_all k ys (x ∷ xs) = ground (arith, member-remove_all k ys xs, eq_iff x k)

pub Distinct-remove_all : (ys xs : List String) → Distinct xs → Distinct (remove_all ys xs)
Distinct-remove_all ys [] d = tt
Distinct-remove_all ys (x ∷ xs) d =
    ground (arith, Distinct-remove_all ys xs d.1, member-remove_all x ys xs)

-- New elements are added at the end.
pub add_all-append :
    (ys xs : List String)
    → Distinct ys
    → All (λ y. member y xs ≡ false) ys
    → add_all ys xs ≡ xs ++ ys
add_all-append [] xs d f = sym (append-nil xs)
add_all-append (y ∷ ys) xs d f =
    rw f.0 (add_all-append ys (xs ++ y ∷ []) d.1 (fresh ys d.0 f.1) ∙ append_assoc xs (y ∷ []) ys)
  where
    fresh :
        (zs : List String)
        → member y zs ≡ false
        → All (λ z. member z xs ≡ false) zs
        → All (λ z. member z (xs ++ y ∷ []) ≡ false) zs
    fresh [] m g = tt
    fresh (z ∷ zs) m g =
        (ground (arith, member-append z xs (y ∷ []), eq_sym y z), fresh zs (ground arith) g.1)

absent_from :
    (x : String) (xs ys : List String)
    → All (λ y. member y (x ∷ xs) ≡ false) ys
    → member x ys ≡ false
absent_from x xs [] f = refl
absent_from x xs (y ∷ ys) f = ground (arith, eq_sym x y, absent_from x xs ys f.1)

pub apart_sym :
    (xs ys : List String) → All (λ y. member y xs ≡ false) ys → All (λ x. member x ys ≡ false) xs
apart_sym [] ys f = tt
apart_sym (x ∷ xs) ys f =
    (absent_from x xs ys f, apart_sym xs ys (All-imp _ _ (λ y m. ground arith) ys f))

pub Distinct-add_all : (ys xs : List String) → Distinct xs → Distinct (add_all ys xs)
Distinct-add_all [] xs d = d
Distinct-add_all (y ∷ ys) xs d = elim (Bool-cases (member y xs)) [
  | inl e ↦ rw e (Distinct-add_all ys xs d)
  | inr e ↦ rw e (Distinct-add_all ys (xs ++ y ∷ []) (Distinct-snoc xs y d e))
]

pub All-add_all {κ} :
    (P : String → Type κ) (ys xs : List String) → All P xs → All P ys → All P (add_all ys xs)
All-add_all P [] xs h k = h
All-add_all P (y ∷ ys) xs h k = elim (Bool-cases (member y xs)) [
  | inl e ↦ rw e (All-add_all P ys xs h k.1)
  | inr e ↦ rw e (All-add_all P ys (xs ++ y ∷ []) (All-append P xs (y ∷ []) h (k.0, tt)) k.1)
]
