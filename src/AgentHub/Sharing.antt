-- ===== src/AgentHub/Sharing.antt =====
-- Agents whose clients share one channel, as those of one multiplexed connection do.
use monti.Prelude.{
  ℕ, ◌≡◌, refl, String, Bool, true, false, some, inl, inr, arith, ◌==◌, Option-cases,
}
use monti.Prelude.Dict.{lookup, delete, lookup-delete}
use monti.AgentHub.{Outbound, AgentHub, close, send_on, safe_send, send_to_agent, force_disconnect}
use monti.AgentHub.Allocated.{close-agents}

-- Sending a message leaves the clients as they are.
pub record Sent (h h' : AgentHub) : Type 0 where
  pub agents : h'.agents ≡ h.agents
  pub clients : h'.clients ≡ h.clients

send_on-Sent :
    (pick : Bool) (send done : ℕ) (msg : Outbound) (h : AgentHub)
    → Sent h (send_on pick send done msg h).1
unfolding send_on
send_on-Sent pick send done msg h = record { agents = ground arith; clients = ground arith }

send_to_agent-Sent :
    (pick : Bool) (id : String) (msg : Outbound) (h : AgentHub)
    → Sent h (send_to_agent pick id msg h).1
unfolding send_to_agent safe_send
send_to_agent-Sent pick id msg h = elim (Option-cases (lookup id h.agents)) [
  | inl e ↦ rw (send_to_agent, e) (record { agents = refl; clients = refl })
  | inr (r, e) ↦ rw (send_to_agent, safe_send, e) (send_on-Sent pick _ _ msg h)
]

close-closed :
    (r : ℕ) (h : AgentHub)
    → (h.clients r).close_once ≡ false
    → ((close r h).channels (h.clients r).send).closed ≡ true
unfolding close
close-closed r h e = rw e (ground arith)

close-send : (r q : ℕ) (h : AgentHub) → ((close r h).clients q).send ≡ (h.clients q).send
unfolding close
close-send r q h = ground arith

send_to_agent-closed :
    (pick : Bool) (id : String) (q : ℕ) (msg : Outbound) (h : AgentHub)
    → lookup id h.agents ≡ some q
    → (h.channels (h.clients q).send).closed ≡ true
    → (send_to_agent pick id msg h).0 ≡ false
unfolding send_to_agent safe_send send_on
send_to_agent-closed pick id q msg h e c = rw (send_to_agent, safe_send, send_on, e, c) refl

-- Closing one client that is taken off the map closes the channel of another.
close_shared :
    (a b : String) (r q : ℕ) (g : AgentHub)
    → lookup b g.agents ≡ some q
    → (a == b) ≡ false
    → (g.clients r).close_once ≡ false
    → (g.clients q).send ≡ (g.clients r).send
    → let k = close r (record g { agents = delete a g.agents }) in
      (lookup b k.agents ≡ some q) × ((k.channels (k.clients q).send).closed ≡ true)
close_shared a b r q g eb other once shared =
    let g' = record g { agents = delete a g.agents } in
    (
      rw ((close-agents r g').0, lookup-delete a b g.agents, other) eb,
      rw (close-send r q g', shared) (close-closed r g' once),
    )

-- ForceDisconnect of one agent closes the channel of its client: after it no message is sent to any
-- other agent whose client uses the same channel, although the hub still holds that agent.
pub force_disconnect-send_to_agent :
    (pick pick' : Bool) (s t : ℕ) (a b : String) (r q : ℕ) (msg : Outbound) (h : AgentHub)
    → lookup a h.agents ≡ some r
    → lookup b h.agents ≡ some q
    → (a == b) ≡ false
    → (h.clients r).close_once ≡ false
    → (h.clients q).send ≡ (h.clients r).send
    → let h' = (force_disconnect pick s t a h).1 in
      (lookup b h'.agents ≡ some q) × ((send_to_agent pick' b msg h').0 ≡ false)
unfolding force_disconnect
force_disconnect-send_to_agent pick pick' s t a b r q msg h ea eb other once shared =
    let g = (send_to_agent pick a (Outbound.force_disconnects a) h).1 in
    let sent = send_to_agent-Sent pick a (Outbound.force_disconnects a) h in
    let ea' : lookup a g.agents ≡ some r = rw sent.agents ea in
    let (held, closed) =
      close_shared a b r q g (rw sent.agents eb) other (rw sent.clients once)
        (rw sent.clients shared) in
    rw (force_disconnect, ea') (held, send_to_agent-closed pick' b q msg _ held closed)
