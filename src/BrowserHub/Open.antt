-- ===== src/BrowserHub/Open.antt =====
-- The clients that the hub holds, and what an operation on one of them leaves of the others.
use monti.Prelude.{
  ℕ, ◌≤◌, ◌<◌, ◌≡◌, false, List, [], ◌∷◌, nat_eq, length, All, inl, inr, Bool-cases,
}
use monti.BrowserHub.{Client, Hub, send_capacity, max_snapshot_history, put_client, remove}

-- A client that can be sent to.
abbrev pub IsOpen : Hub → ℕ → Type 0
IsOpen h r =
    ((h.store r).closed ≡ false) × (length (h.store r).buffered ≤ send_capacity) × (r < h.next_ref)

abbrev pub Once : List ℕ → Type 0
Once [] = Unit
Once (r ∷ rs) = All (λ q. nat_eq r q ≡ false) rs × Once rs

-- The hub holds each client once, all of them open, within the capacity of their channels, and at
-- most maxSnapshotHistory snapshots.
pub record IsValid (h : Hub) : Type 0 where
  pub opened : All (IsOpen h) h.clients
  pub once : Once h.clients
  pub bounded : length h.history ≤ max_snapshot_history

-- Two hubs whose clients other than one are the same.
abbrev pub Elsewhere : ℕ → Hub → Hub → Type 0
Elsewhere ref h h' = ((j : ℕ) → nat_eq ref j ≡ false → IsOpen h j → IsOpen h' j)

pub All-Elsewhere :
    (ref : ℕ) (h h' : Hub) (rs : List ℕ)
    → Elsewhere ref h h'
    → All (λ q. nat_eq ref q ≡ false) rs
    → All (IsOpen h) rs
    → All (IsOpen h') rs
All-Elsewhere ref h h' [] e a o = tt
All-Elsewhere ref h h' (r ∷ rs) e a o = (e r a.0 o.0, All-Elsewhere ref h h' rs e a.1 o.1)

pub All-remove :
    (ref : ℕ) (h h' : Hub) (rs : List ℕ)
    → Elsewhere ref h h'
    → All (IsOpen h) rs
    → All (IsOpen h') (remove ref rs)
All-remove ref h h' [] e o = tt
All-remove ref h h' (r ∷ rs) e o = elim (Bool-cases (nat_eq ref r)) [
  | inl s ↦ rw s (All-remove ref h h' rs e o.1)
  | inr s ↦ rw s (e r s o.0, All-remove ref h h' rs e o.1)
]

All-apart-remove :
    (ref r : ℕ) (rs : List ℕ)
    → All (λ q. nat_eq r q ≡ false) rs
    → All (λ q. nat_eq r q ≡ false) (remove ref rs)
All-apart-remove ref r [] a = tt
All-apart-remove ref r (q ∷ rs) a = elim (Bool-cases (nat_eq ref q)) [
  | inl s ↦ rw s (All-apart-remove ref r rs a.1)
  | inr s ↦ rw s (a.0, All-apart-remove ref r rs a.1)
]

pub Once-remove : (ref : ℕ) (rs : List ℕ) → Once rs → Once (remove ref rs)
Once-remove ref [] o = tt
Once-remove ref (r ∷ rs) o = elim (Bool-cases (nat_eq ref r)) [
  | inl s ↦ rw s (Once-remove ref rs o.1)
  | inr s ↦ rw s (All-apart-remove ref r rs o.0, Once-remove ref rs o.1)
]

-- A write to one client.
pub put-Elsewhere : (ref : ℕ) (c : Client) (h : Hub) → Elsewhere ref h (put_client ref c h)
put-Elsewhere ref c h j e o = rw e o

pub put-IsOpen :
    (ref : ℕ) (c : Client) (h : Hub)
    → c.closed ≡ false
    → length c.buffered ≤ send_capacity
    → (j : ℕ) → IsOpen h j
    → IsOpen (put_client ref c h) j
put-IsOpen ref c h e l j o = elim (Bool-cases (nat_eq ref j)) [
  | inl s ↦ rw s (e, l, o.2)
  | inr s ↦ rw s o
]
