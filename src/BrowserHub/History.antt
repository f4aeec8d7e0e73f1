-- ===== src/BrowserHub/History.antt =====
-- The history is a window on what was broadcast.
use monti.Prelude.{
  ℕ, zero, suc, ◌-◌, ◌≤◌, ◌<◌, ◌≡◌, refl, List, [], ◌∷◌, ◌++◌, Option, none, some, length, ltb,
  arith, inl, inr, Bool-cases, ◌>>=◌, append-nil, append_assoc, subst, sym, ◌∙◌, ap,
}
use monti.Types.Agent.{Snapshot}
use monti.Access.{Claims}
use monti.BrowserHub.{
  send_capacity, remove, Hub, Payload, snapshot_message, raw_message, new_hub, max_snapshot_history,
  append_snapshot_history, send_or_evict, broadcast_to, on_broadcast, on_register, on_unregister,
  on_receive, send_history, send_snapshot_history, try_send, close_client, filter_snapshot,
  one_snapshot, raw, holds,
}
use monti.BrowserHub.Greeting.{greeting, send_history_fresh}
use monti.BrowserHub.Operations.{HubOp, connects, disconnects, receives, broadcasts, step, run}

abbrev pub drop {ℓ} : {A : Type ℓ} → ℕ → List A → List A
drop zero xs = xs
drop (suc n) [] = []
drop (suc n) (x ∷ xs) = drop n xs

-- The last elements of a list, as many as the history can hold.
abbrev pub latest {ℓ} : {A : Type ℓ} → List A → List A
latest xs = drop (length xs - max_snapshot_history) xs

length-drop {ℓ} : {A : Type ℓ} (n : ℕ) (xs : List A) → length (drop n xs) ≡ length xs - n
length-drop zero xs = omega arith
length-drop (suc n) [] = omega arith
length-drop (suc n) (x ∷ xs) = omega (arith, length-drop n xs)

drop-snoc {ℓ} :
    {A : Type ℓ} (n : ℕ) (xs : List A) (x : A)
    → n ≤ length xs
    → drop n (xs ++ x ∷ []) ≡ drop n xs ++ x ∷ []
drop-snoc zero xs x l = refl
drop-snoc (suc n) [] x l = absurd (omega (arith, l))
drop-snoc (suc n) (y ∷ xs) x l = drop-snoc n xs x (omega (arith, l))

-- The elements after the first one.
abbrev rest_of {ℓ} : {A : Type ℓ} → List A → List A
rest_of [] = []
rest_of (x ∷ xs) = xs

rest_of-drop {ℓ} : {A : Type ℓ} (n : ℕ) (xs : List A) → rest_of (drop n xs) ≡ drop (suc n) xs
rest_of-drop zero [] = refl
rest_of-drop zero (x ∷ xs) = refl
rest_of-drop (suc n) [] = refl
rest_of-drop (suc n) (x ∷ xs) = rest_of-drop n xs

length-snoc {ℓ} : {A : Type ℓ} (xs : List A) (x : A) → length (xs ++ x ∷ []) ≡ suc (length xs)
length-snoc [] x = refl
length-snoc (y ∷ xs) x = omega (arith, length-snoc xs x)

append_full :
    (s : Snapshot) (hs : List Snapshot)
    → max_snapshot_history ≤ length hs
    → append_snapshot_history s hs ≡ rest_of hs ++ s ∷ []
unfolding append_snapshot_history
append_full s [] l = absurd (omega (arith, l))
append_full s (x ∷ hs) l = ground arith

append_room :
    (s : Snapshot) (hs : List Snapshot)
    → length hs < max_snapshot_history
    → append_snapshot_history s hs ≡ hs ++ s ∷ []
unfolding append_snapshot_history
append_room s hs l = ground arith

-- The shift to the left keeps the latest snapshots.
append-latest :
    (s : Snapshot) (xs : List Snapshot)
    → append_snapshot_history s (latest xs) ≡ latest (xs ++ s ∷ [])
append-latest s xs = elim (Bool-cases (ltb (length xs) max_snapshot_history)) [
  | inl few ↦
      let none_out : length xs - max_snapshot_history ≡ 0 = ground arith in
      let none_out' : length (xs ++ s ∷ []) - max_snapshot_history ≡ 0 =
        ground (arith, length-snoc xs s) in
      rw (none_out, none_out') (append_room s xs (ground arith))
  | inr many ↦
      let k = length xs - max_snapshot_history in
      let more : length (xs ++ s ∷ []) - max_snapshot_history ≡ suc k =
        ground (arith, length-snoc xs s) in
      rw more (
        append_full s (drop k xs) (ground (arith, length-drop k xs))
        ∙ ap (λ r. r ++ s ∷ []) (rest_of-drop k xs)
        ∙ sym (drop-snoc (suc k) xs s (ground arith)))
]

-- What holds of the hub that a step leaves.
abbrev pub After : (Hub → Type 0) → Option Hub → Type 0
After P none = Unit
After P (some h) = P h

abbrev Keeps : List Snapshot → Option Hub → Type 0
Keeps hs o = After (λ h'. h'.history ≡ hs) o

close_client-Keeps : (ref : ℕ) (h : Hub) → Keeps h.history (close_client ref h)
unfolding close_client
close_client-Keeps ref h = elim (Bool-cases (h.store ref).closed) [
  | inl e ↦ rw e tt
  | inr e ↦ rw e refl
]

bind-Keeps :
    (hs ks : List Snapshot) (o : Option Hub) (f : Hub → Option Hub)
    → Keeps hs o
    → ((h : Hub) → h.history ≡ hs → Keeps ks (f h))
    → Keeps ks (o >>= f)
bind-Keeps hs ks none f p q = tt
bind-Keeps hs ks (some h) f p q = q h p

Option-same : (o : Option Hub) (hs hs' : List Snapshot) → hs ≡ hs' → Keeps hs o → Keeps hs' o
Option-same o hs hs' e k = subst (λ x. Keeps x o) e k

send_or_evict-Keeps : (ref : ℕ) (p : Payload) (h : Hub) → Keeps h.history (send_or_evict ref p h)
unfolding send_or_evict try_send
send_or_evict-Keeps ref p h = elim (Bool-cases (h.store ref).closed) [
  | inl e ↦ rw (send_or_evict, try_send, e) tt
  | inr e ↦ elim (Bool-cases (ltb (length (h.store ref).buffered) send_capacity)) [
    | inl room ↦ rw (send_or_evict, try_send, e, room) refl
    | inr no_room ↦
        rw (send_or_evict, try_send, e, no_room)
          (bind-Keeps h.history h.history (close_client ref h) _ (close_client-Keeps ref h)
            (λ h' k. k))
  ]
]

broadcast_to-Keeps :
    (payload : Option Claims → Payload) (refs : List ℕ) (h : Hub)
    → Keeps h.history (broadcast_to payload refs h)
unfolding broadcast_to
broadcast_to-Keeps payload [] h = refl
broadcast_to-Keeps payload (ref ∷ refs) h =
    bind-Keeps h.history h.history (send_or_evict ref (payload (h.store ref).claims) h)
      (broadcast_to payload refs) (send_or_evict-Keeps ref (payload (h.store ref).claims) h)
      (λ h' k. Option-same _ h'.history h.history k (broadcast_to-Keeps payload refs h'))

send_history-Keeps :
    (ref : ℕ) (hs : List Snapshot) (h : Hub) → Keeps h.history (send_history ref hs h)
unfolding send_history try_send
send_history-Keeps ref [] h = refl
send_history-Keeps ref (s ∷ ss) h = elim (Bool-cases (h.store ref).closed) [
  | inl e ↦ rw (send_history, try_send, e) tt
  | inr e ↦ elim (Bool-cases (ltb (length (h.store ref).buffered) send_capacity)) [
    | inl room ↦ rw (send_history, try_send, e, room) refl
    | inr no_room ↦ rw (send_history, try_send, e, no_room) refl
  ]
]

on_unregister-Keeps : (ref : ℕ) (h : Hub) → Keeps h.history (on_unregister ref h)
unfolding on_unregister
on_unregister-Keeps ref h = elim (Bool-cases (holds ref h.clients)) [
  | inl e ↦ rw e (close_client-Keeps ref (record h { clients = remove ref h.clients }))
  | inr e ↦ rw e refl
]

-- The snapshots that the operations broadcast, in order.
abbrev pub broadcast_snapshots : List HubOp → List Snapshot
broadcast_snapshots [] = []
broadcast_snapshots (broadcasts (snapshot_message s) ∷ ops) = s ∷ broadcast_snapshots ops
broadcast_snapshots (broadcasts (raw_message m) ∷ ops) = broadcast_snapshots ops
broadcast_snapshots (connects claims ∷ ops) = broadcast_snapshots ops
broadcast_snapshots (disconnects ref ∷ ops) = broadcast_snapshots ops
broadcast_snapshots (receives ref ∷ ops) = broadcast_snapshots ops

abbrev IsWindow : List Snapshot → Option Hub → Type 0
IsWindow xs o = After (λ h. h.history ≡ latest xs) o

run-IsWindow :
    (ops : List HubOp) (xs : List Snapshot) (h : Hub)
    → h.history ≡ latest xs
    → IsWindow (xs ++ broadcast_snapshots ops) (run ops h)
unfolding run step on_register send_snapshot_history on_receive on_broadcast
run-IsWindow [] xs h e = rw (append-nil xs) e
run-IsWindow (connects claims ∷ ops) xs h e =
    bind-Keeps h.history (latest (xs ++ broadcast_snapshots ops)) (on_register claims h) (run ops)
      (send_history-Keeps h.next_ref h.history _) (λ h' k. run-IsWindow ops xs h' (k ∙ e))
run-IsWindow (disconnects ref ∷ ops) xs h e =
    bind-Keeps h.history (latest (xs ++ broadcast_snapshots ops)) (on_unregister ref h) (run ops)
      (on_unregister-Keeps ref h) (λ h' k. run-IsWindow ops xs h' (k ∙ e))
run-IsWindow (receives ref ∷ ops) xs h e = run-IsWindow ops xs (on_receive ref h) e
run-IsWindow (broadcasts (raw_message m) ∷ ops) xs h e =
    bind-Keeps h.history (latest (xs ++ broadcast_snapshots ops)) (on_broadcast (raw_message m) h)
      (run ops) (broadcast_to-Keeps (λ _. raw m) h.clients h)
      (λ h' k. run-IsWindow ops xs h' (k ∙ e))
run-IsWindow (broadcasts (snapshot_message s) ∷ ops) xs h e =
    subst (λ ys. IsWindow ys (run (broadcasts (snapshot_message s) ∷ ops) h))
      (append_assoc xs (s ∷ []) (broadcast_snapshots ops))
      (bind-Keeps (append_snapshot_history s h.history)
        (latest ((xs ++ s ∷ []) ++ broadcast_snapshots ops)) (on_broadcast (snapshot_message s) h)
        (run ops)
        (broadcast_to-Keeps (λ c. one_snapshot (filter_snapshot c s)) h.clients
          (record h { history = append_snapshot_history s h.history }))
        (λ h' k.
          run-IsWindow ops (xs ++ s ∷ []) h'
            (k ∙ ap (append_snapshot_history s) e ∙ append-latest s xs)))

-- After any sequence of operations on a new hub that does not panic, the history is exactly the last
-- 300 snapshots that were broadcast, or all of them if they are fewer, in their order; and a client
-- that registers then is sent these snapshots, each filtered by its claims, in one message, or
-- nothing if there is none.
pub run-new_hub-latest :
    (ops : List HubOp) (h : Hub) (claims : Option Claims)
    → run ops new_hub ≡ some h
    → (h.history ≡ latest (broadcast_snapshots ops))
      × ((h' : Hub) × (on_register claims h ≡ some h')
          × ((h'.store h.next_ref).buffered ≡ greeting claims (latest (broadcast_snapshots ops))))
unfolding on_register send_snapshot_history
run-new_hub-latest ops h claims e =
    let window =
      subst (IsWindow (broadcast_snapshots ops)) e
        (run-IsWindow ops [] new_hub (unfold new_hub in refl)) in
    let (h', returned, greeted) =
      send_history_fresh h.next_ref claims h.history _
        (record { own = ground arith; unsent = ground arith; unclosed = ground arith }) in
    (window, (h', returned, greeted ∙ ap (greeting claims) window))
