-- ===== src/BrowserHub/Success.antt =====
-- Each operation of the hub succeeds on a well-formed hub.
use monti.Prelude.{
  subst, ℕ, suc, ◌≤◌, ◌<◌, ◌≡◌, refl, true, false, List, [], ◌∷◌, ◌++◌, Option, some, nat_eq, ltb,
  length, All, All-imp, All-append, arith, inl, inr, Bool-cases, map,
}
use monti.Types.Agent.{Snapshot}
use monti.Access.{Claims}
use monti.BrowserHub.{
  Client, Hub, Payload, snapshot_history, Message, snapshot_message, raw_message, send_capacity,
  max_snapshot_history, append_snapshot_history, put_client, close_client, try_send, remove,
  send_or_evict, broadcast_to, on_broadcast, send_history, send_snapshot_history, on_register,
  on_unregister, holds, filter_snapshot, one_snapshot, raw,
}
use monti.BrowserHub.Open.{
  IsOpen, IsValid, Once, Elsewhere, All-Elsewhere, All-remove, Once-remove, put-Elsewhere,
  put-IsOpen,
}

-- The result of a step: a hub that is well formed.
abbrev pub Succeeds : Option Hub → Type 0
Succeeds o = (h' : Hub) × (o ≡ some h') × IsValid h'

length-snoc {ℓ} : {A : Type ℓ} (xs : List A) (x : A) → length (xs ++ x ∷ []) ≡ suc (length xs)
length-snoc [] x = refl
length-snoc (y ∷ xs) x = omega (arith, length-snoc xs x)

sent-IsValid :
    (ref : ℕ) (p : Payload) (h : Hub)
    → IsValid h
    → (h.store ref).closed ≡ false
    → length (h.store ref).buffered < send_capacity
    → let c = h.store ref in
      (j : ℕ)
      → IsOpen h j
      → IsOpen (put_client ref (record c { buffered = c.buffered ++ p ∷ [] }) h) j
sent-IsValid ref p h v e l =
    let c = h.store ref in
    put-IsOpen ref (record c { buffered = c.buffered ++ p ∷ [] }) h e
      (omega (arith, length-snoc c.buffered p))

close_client_open :
    (ref : ℕ) (h : Hub)
    → (h.store ref).closed ≡ false
    → close_client ref h ≡ some (put_client ref (record (h.store ref) { closed = true }) h)
unfolding close_client
close_client_open ref h e = rw (close_client, e) refl

send_or_evict_lem :
    (ref : ℕ) (p : Payload) (h : Hub)
    → IsValid h
    → IsOpen h ref
    → (h' : Hub) × (send_or_evict ref p h ≡ some h') × IsValid h' × Elsewhere ref h h'
unfolding send_or_evict try_send
send_or_evict_lem ref p h v (e, l, b) =
    let c = h.store ref in
    elim (Bool-cases (ltb (length c.buffered) send_capacity)) [
      | inl room ↦
          let c' = record c { buffered = c.buffered ++ p ∷ [] } in
          (
            put_client ref c' h,
            rw (send_or_evict, try_send, e, room) refl,
            record {
              opened = All-imp _ _ (sent-IsValid ref p h v e (ground arith)) h.clients v.opened;
              once = v.once;
              bounded = v.bounded;
            },
            put-Elsewhere ref c' h,
          )
      | inr no_room ↦
          let c' = record c { closed = true } in
          let h' = put_client ref c' h in
          let h'' = record h' { clients = remove ref h'.clients } in
          (
            h'',
            rw (send_or_evict, try_send, e, no_room) (rw (close_client_open ref h e) refl),
            record {
              opened = All-remove ref h h'' h.clients (put-Elsewhere ref c' h) v.opened;
              once = Once-remove ref h.clients v.once;
              bounded = v.bounded;
            },
            put-Elsewhere ref c' h,
          )
    ]

broadcast_to-Succeeds :
    (payload : Option Claims → Payload) (refs : List ℕ) (h : Hub)
    → IsValid h
    → All (IsOpen h) refs
    → Once refs
    → Succeeds (broadcast_to payload refs h)
unfolding broadcast_to
broadcast_to-Succeeds payload [] h v o once = (h, refl, v)
broadcast_to-Succeeds payload (ref ∷ refs) h v o once =
    let (h', e, v', other) = send_or_evict_lem ref (payload (h.store ref).claims) h v o.0 in
    rw e (
      broadcast_to-Succeeds payload refs h' v' (All-Elsewhere ref h h' refs other once.0 o.1)
        once.1)

append_snapshot_history_bounded :
    (s : Snapshot) (hs : List Snapshot)
    → length hs ≤ max_snapshot_history
    → length (append_snapshot_history s hs) ≤ max_snapshot_history
unfolding append_snapshot_history
append_snapshot_history_bounded s [] l = ground arith
append_snapshot_history_bounded s (x ∷ hs) l =
    ground (arith, length-snoc hs s, length-snoc (x ∷ hs) s)

pub on_broadcast-Succeeds : (m : Message) (h : Hub) → IsValid h → Succeeds (on_broadcast m h)
unfolding on_broadcast
on_broadcast-Succeeds (raw_message m) h v =
    broadcast_to-Succeeds (λ _. raw m) h.clients h v v.opened v.once
on_broadcast-Succeeds (snapshot_message s) h v =
    broadcast_to-Succeeds (λ claims. one_snapshot (filter_snapshot claims s)) h.clients
      (record h { history = append_snapshot_history s h.history })
      (record {
        opened = v.opened;
        once = v.once;
        bounded = append_snapshot_history_bounded s h.history v.bounded;
      })
      v.opened v.once

send_history-Succeeds :
    (ref : ℕ) (hs : List Snapshot) (h : Hub)
    → IsValid h
    → IsOpen h ref
    → Succeeds (send_history ref hs h)
unfolding send_history try_send
send_history-Succeeds ref [] h v o = (h, refl, v)
send_history-Succeeds ref (s ∷ ss) h v (e, l, b) =
    let c = h.store ref in
    let p = snapshot_history (map (filter_snapshot c.claims) (s ∷ ss)) in
    elim (Bool-cases (ltb (length c.buffered) send_capacity)) [
      | inl room ↦ (
        put_client ref (record c { buffered = c.buffered ++ p ∷ [] }) h,
        rw (send_history, try_send, e, room) refl,
        record {
          opened = All-imp _ _ (sent-IsValid ref p h v e (ground arith)) h.clients v.opened;
          once = v.once;
          bounded = v.bounded;
        },
      )
      | inr no_room ↦ (h, rw (send_history, try_send, e, no_room) refl, v)
    ]

Once-snoc : (rs : List ℕ) (n : ℕ) → All (λ r. nat_eq r n ≡ false) rs → Once rs → Once (rs ++ n ∷ [])
Once-snoc [] n a o = (tt, tt)
Once-snoc (r ∷ rs) n a o = (All-append _ rs (n ∷ []) o.0 (a.0, tt), Once-snoc rs n a.1 o.1)

nat_eq_above : (n j : ℕ) → j < n → nat_eq n j ≡ false
nat_eq_above n j l = ground arith

pub on_register-Succeeds :
    (claims : Option Claims) (h : Hub) → IsValid h → Succeeds (on_register claims h)
unfolding on_register send_snapshot_history
on_register-Succeeds claims h v =
    let c : Client = record { claims = claims; buffered = []; closed = false } in
    let h' = put_client h.next_ref c h in
    let h'' = record h' { clients = h'.clients ++ h.next_ref ∷ []; next_ref = suc h.next_ref } in
    let new : IsOpen h'' h.next_ref = ground arith in
    let old : (j : ℕ) → IsOpen h j → IsOpen h'' j =
      λ j o. rw (nat_eq_above h.next_ref j o.2) (o.0, o.1, omega (arith, o.2)) in
    send_history-Succeeds h.next_ref h.history h''
      (record {
        opened =
            All-append _ h.clients (h.next_ref ∷ []) (All-imp _ _ old h.clients v.opened) (new, tt);
        once =
            Once-snoc h.clients h.next_ref (All-imp _ _ (λ j o. ground arith) h.clients v.opened)
              v.once;
        bounded = v.bounded;
      })
      new

holds-IsOpen :
    (ref : ℕ) (h : Hub) (rs : List ℕ) → All (IsOpen h) rs → holds ref rs ≡ true → IsOpen h ref
holds-IsOpen ref h [] o e = absurd (ground arith)
holds-IsOpen ref h (r ∷ rs) o e = elim (Bool-cases (nat_eq ref r)) [
  | inl s ↦ subst (IsOpen h) (ground arith) o.0
  | inr s ↦ holds-IsOpen ref h rs o.1 (rw s at e)
]

pub on_unregister-Succeeds : (ref : ℕ) (h : Hub) → IsValid h → Succeeds (on_unregister ref h)
unfolding on_unregister close_client
on_unregister-Succeeds ref h v = elim (Bool-cases (holds ref h.clients)) [
  | inl held ↦
      let o = holds-IsOpen ref h h.clients v.opened held in
      let c' = record (h.store ref) { closed = true } in
      let h'' = put_client ref c' (record h { clients = remove ref h.clients }) in
      (
        h'',
        rw (held, o.0) refl,
        record {
          opened = All-remove ref h h'' h.clients (put-Elsewhere ref c' h) v.opened;
          once = Once-remove ref h.clients v.once;
          bounded = v.bounded;
        },
      )
  | inr free ↦ (h, rw free refl, v)
]
