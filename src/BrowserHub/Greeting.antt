-- ===== src/BrowserHub/Greeting.antt =====
-- What a client is sent when it registers.
use monti.Prelude.{
  ℕ, ◌≡◌, refl, ap, ◌∙◌, true, false, List, [], ◌∷◌, ◌++◌, Option, some, length, ltb, map, arith,
}
use monti.Types.Agent.{Snapshot}
use monti.Access.{Claims}
use monti.BrowserHub.{
  Client, Hub, Payload, snapshot_history, sent, put_client, send_capacity, try_send, send_history,
  filter_snapshot,
}

-- What the channel of a new client has after it was registered: the snapshots of the history, as the
-- client may see them, in one message; nothing if there is no history.
abbrev pub greeting : Option Claims → List Snapshot → List Payload
greeting claims [] = []
greeting claims (s ∷ ss) = snapshot_history (map (filter_snapshot claims) (s ∷ ss)) ∷ []

-- A hub in which a client waits for a first message.
pub record IsFresh (ref : ℕ) (claims : Option Claims) (h : Hub) : Type 0 where
  pub own : (h.store ref).claims ≡ claims
  pub unsent : (h.store ref).buffered ≡ []
  pub unclosed : (h.store ref).closed ≡ false

put_client_there : (ref : ℕ) (c : Client) (h : Hub) → (put_client ref c h).store ref ≡ c
put_client_there ref c h = ground arith

try_send_fresh :
    (ref : ℕ) (claims : Option Claims) (p : Payload) (h : Hub)
    → IsFresh ref claims h
    → try_send ref p h
      ≡ sent
          (put_client ref (record (h.store ref) { buffered = (h.store ref).buffered ++ p ∷ [] }) h)
unfolding try_send
try_send_fresh ref claims p h f =
    let room : ltb (length (h.store ref).buffered) send_capacity ≡ true = rw f.unsent refl in
    rw (try_send, f.unclosed, room) refl

pub send_history_fresh :
    (ref : ℕ) (claims : Option Claims) (ss : List Snapshot) (h : Hub)
    → IsFresh ref claims h
    → (h' : Hub) × (send_history ref ss h ≡ some h')
      × ((h'.store ref).buffered ≡ greeting claims ss)
unfolding send_history
send_history_fresh ref claims [] h f = (h, refl, f.unsent)
send_history_fresh ref claims (s ∷ ss) h f =
    let c = h.store ref in
    let p = snapshot_history (map (filter_snapshot c.claims) (s ∷ ss)) in
    let c' : Client = record c { buffered = c.buffered ++ p ∷ [] } in
    (
      put_client ref c' h,
      rw (send_history, try_send_fresh ref claims p h f) refl,
      ap (λ k. k.buffered) (put_client_there ref c' h)
          ∙ ap (λ b. b ++ p ∷ []) f.unsent
          ∙ ap (λ o. greeting o (s ∷ ss)) f.own,
    )
