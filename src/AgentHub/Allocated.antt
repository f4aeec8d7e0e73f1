-- ===== src/AgentHub/Allocated.antt =====
-- The hub never holds a client that was not allocated.
use monti.Prelude.{
  ℕ, suc, ◌<◌, ◌≡◌, refl, String, Bool, true, List, [], ◌∷◌, Option, none, some, arith, nat_eq, inl,
  inr, Bool-cases, Option-cases,
}
use monti.Prelude.Dict.{Dict, lookup, delete, Entries, Entries-insert, Entries-delete}
use monti.CallQueue.Manager.{TimeFormat}
use monti.AgentHub.{
  Outbound, AgentHub, update_at, Inbound, Readings, close, send_on, on_register, on_unregister,
  process, force_end_call, force_disconnect, allocate, open_channels, send_to_agent, safe_send,
  displace,
}
use monti.AgentHub.Connections.{
  serve_http, handle_message, MultiplexedAgentClient, serve_multiplexed_http, handle_mux_message,
  unregister_all, end_mux_read, end_read,
}
use monti.AgentHub.History.{
  HubOp, step, run, serves, says, ends, opens, mux_says, mux_ends, processes, force_ends, logs_off,
}

-- Every client that the hub holds was allocated.
abbrev pub IsBelow : AgentHub → Type 0
IsBelow h = Entries (λ id ref. ref < h.next_ref) h.agents

pub Entries-grow :
    (n m : ℕ) (d : Dict ℕ)
    → n < suc m
    → Entries (λ id ref. ref < n) d
    → Entries (λ id ref. ref < m) d
Entries-grow n m [] l h = tt
Entries-grow n m ((k, r) ∷ d) l h = (omega (arith, h.0), Entries-grow n m d l h.1)

pub close-agents :
    (ref : ℕ) (h : AgentHub)
    → ((close ref h).agents ≡ h.agents) × ((close ref h).next_ref ≡ h.next_ref)
unfolding close
close-agents ref h = ground arith

send_on-agents :
    (pick : Bool) (send done : ℕ) (msg : Outbound) (h : AgentHub)
    → ((send_on pick send done msg h).1.agents ≡ h.agents)
      × ((send_on pick send done msg h).1.next_ref ≡ h.next_ref)
unfolding send_on
send_on-agents pick send done msg h = ground arith

pub send_to_agent-agents :
    (pick : Bool) (id : String) (msg : Outbound) (h : AgentHub)
    → ((send_to_agent pick id msg h).1.agents ≡ h.agents)
      × ((send_to_agent pick id msg h).1.next_ref ≡ h.next_ref)
unfolding send_to_agent safe_send
send_to_agent-agents pick id msg h = elim (Option-cases (lookup id h.agents)) [
  | inl e ↦ rw (send_to_agent, e) (refl, refl)
  | inr (r, e) ↦ rw (send_to_agent, safe_send, e) (send_on-agents pick _ _ msg h)
]

displace-IsBelow :
    (o : Option ℕ) (id : String) (h : AgentHub)
    → IsBelow h
    → IsBelow (displace o id h) × ((displace o id h).next_ref ≡ h.next_ref)
displace-IsBelow none id h b = (b, refl)
displace-IsBelow (some r) id h b =
    let (e, n) = close-agents r h in (rw (e, n) (Entries-delete _ id h.agents b), n)

on_register-IsBelow :
    (now ref : ℕ) (h : AgentHub) → ref < h.next_ref → IsBelow h → IsBelow (on_register now ref h)
unfolding on_register
on_register-IsBelow now ref h l b =
    let id = (h.clients ref).agent_id in
    let (b', n) = displace-IsBelow (lookup id h.agents) id h b in
    Entries-insert _ id ref _ (λ _ _. rw n l) b'

close-IsBelow : (ref : ℕ) (h : AgentHub) → IsBelow h → IsBelow (close ref h)
close-IsBelow ref h b = let (e, n) = close-agents ref h in rw (e, n) b

on_unregister-IsBelow : (s t ref : ℕ) (h : AgentHub) → IsBelow h → IsBelow (on_unregister s t ref h)
unfolding on_unregister
on_unregister-IsBelow s t ref h b = elim (Option-cases (lookup (h.clients ref).agent_id h.agents)) [
  | inl e ↦ rw (on_unregister, e) b
  | inr (r, e) ↦
      rw (on_unregister, e)
        (elim (Bool-cases (nat_eq r ref)) [
          | inl same ↦ rw same (
              close-IsBelow ref (record h { agents = delete (h.clients ref).agent_id h.agents })
                (Entries-delete _ _ h.agents b))
          | inr other ↦ rw other b
        ])
]

send_on-IsBelow :
    (pick : Bool) (send done : ℕ) (msg : Outbound) (h : AgentHub)
    → IsBelow h
    → IsBelow (send_on pick send done msg h).1
send_on-IsBelow pick send done msg h b =
    let (e, n) = send_on-agents pick send done msg h in rw (e, n) b

unregister_all-IsBelow :
    (s t : ℕ) (ids : List String) (h : AgentHub) → IsBelow h → IsBelow (unregister_all s t ids h)
unfolding unregister_all
unregister_all-IsBelow s t [] h b = b
unregister_all-IsBelow s t (id ∷ ids) h b = unregister_all-IsBelow s t ids _ (
    on_unregister-IsBelow s t h.next_ref (allocate id 0 0 h)
      (Entries-grow _ _ h.agents (omega arith) b))

force_disconnect-IsBelow :
    (pick : Bool) (s t : ℕ) (id : String) (h : AgentHub)
    → IsBelow h
    → IsBelow (force_disconnect pick s t id h).1
unfolding force_disconnect
force_disconnect-IsBelow pick s t id h b =
    let h' = (send_to_agent pick id (Outbound.force_disconnects id) h).1 in
    let (e, n) = send_to_agent-agents pick id (Outbound.force_disconnects id) h in
    let b' : IsBelow h' = rw (e, n) b in
    elim (Option-cases (lookup id h'.agents)) [
      | inl none_held ↦ rw (force_disconnect, none_held) b'
      | inr (r, held) ↦
          rw (force_disconnect, held)
            (close-IsBelow r (record h' { agents = delete id h'.agents })
              (Entries-delete _ id h'.agents b'))
    ]

mux_says-IsBelow :
    (pick : Bool) (now : ℕ) (msg : Option Inbound) (c : MultiplexedAgentClient) (h : AgentHub)
    → IsBelow h
    → IsBelow (handle_mux_message pick now msg c h).2
unfolding handle_mux_message
mux_says-IsBelow pick now none c h b = b
mux_says-IsBelow pick now (some (Inbound.register reg)) c h b = elim (Bool-cases (h.dones c.done)) [
  | inl e ↦ rw e b
  | inr e ↦
      let h' = allocate reg.agent_id c.send c.done h in
      rw e (
        send_on-IsBelow pick c.send c.done (Outbound.ack reg.agent_id)
          (on_register now h.next_ref h')
          (on_register-IsBelow now h.next_ref h' (omega arith)
            (Entries-grow _ _ h.agents (omega arith) b)))
]
mux_says-IsBelow pick now (some (Inbound.heartbeat hb)) c h b = ground (arith, b)
mux_says-IsBelow pick now (some (Inbound.state_change sc)) c h b = ground (arith, b)
mux_says-IsBelow pick now (some (Inbound.call_complete cc)) c h b = ground (arith, b)

says-IsBelow :
    (pick : Bool) (ref : ℕ) (msg : Option Inbound) (h : AgentHub)
    → IsBelow h
    → IsBelow (handle_message pick ref msg h).1
unfolding handle_message safe_send
says-IsBelow pick ref none h b = b
says-IsBelow pick ref (some (Inbound.register reg)) h b =
    let c' = record (h.clients ref) { agent_id = reg.agent_id } in
    let h' = record h { clients = update_at ref c' h.clients } in
    send_on-IsBelow pick (h'.clients ref).send (h'.clients ref).done (Outbound.ack reg.agent_id) h'
      b
says-IsBelow pick ref (some (Inbound.heartbeat hb)) h b = b
says-IsBelow pick ref (some (Inbound.state_change sc)) h b = b
says-IsBelow pick ref (some (Inbound.call_complete cc)) h b = b

process-IsBelow :
    (f : TimeFormat) (t : Readings) (msg : Inbound) (h : AgentHub)
    → IsBelow h
    → IsBelow (process f t msg h)
unfolding process
process-IsBelow f t (Inbound.register reg) h b = b
process-IsBelow f t (Inbound.heartbeat hb) h b = b
process-IsBelow f t (Inbound.state_change sc) h b = b
process-IsBelow f t (Inbound.call_complete cc) h b = b

step-IsBelow : (op : HubOp) (h : AgentHub) → IsBelow h → IsBelow (step op h)
unfolding step serve_http end_read serve_multiplexed_http end_mux_read force_end_call
step-IsBelow (serves now n) h b =
    on_register-IsBelow now h.next_ref (allocate "" n n (open_channels n 64 h)) (omega arith)
      (Entries-grow _ _ h.agents (omega arith) b)
step-IsBelow (says pick ref msg) h b = says-IsBelow pick ref msg h b
step-IsBelow (ends s t ref) h b =
    on_unregister-IsBelow s t ref (record h { dones = update_at (h.clients ref).done true h.dones })
      b
step-IsBelow (opens n) h b = b
step-IsBelow (mux_says pick now msg c) h b = mux_says-IsBelow pick now msg c h b
step-IsBelow (mux_ends s t c) h b =
    unregister_all-IsBelow s t c.agent_ids (record h { dones = update_at c.done true h.dones }) b
step-IsBelow (processes f t msg) h b = process-IsBelow f t msg h b
step-IsBelow (force_ends pick agent_id call_id) h b =
    let (e, n) = send_to_agent-agents pick agent_id (Outbound.force_end call_id agent_id) h in
    rw (e, n) b
step-IsBelow (logs_off pick s t agent_id) h b = force_disconnect-IsBelow pick s t agent_id h b

pub run-IsBelow : (ops : List HubOp) (h : AgentHub) → IsBelow h → IsBelow (run ops h)
unfolding run
run-IsBelow [] h b = b
run-IsBelow (op ∷ ops) h b = run-IsBelow ops (step op h) (step-IsBelow op h b)
