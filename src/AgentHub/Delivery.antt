-- ===== src/AgentHub/Delivery.antt =====
-- A client takes over an agent: what is sent reaches it, and the end of the old one is harmless.
use monti.Prelude.{
  ap, ◌∙◌, ℕ, ◌<◌, ◌≡◌, refl, ◌++◌, [], ◌∷◌, String, Bool, true, false, Option, none, some, inl,
  inr, arith, nat_eq, length, Bool-cases,
}
use monti.Prelude.Dict.{lookup, lookup-insert_self}
use monti.AgentHub.{
  Outbound, AgentHub, Channel, close, send_on, safe_send, send_to_agent, on_register, on_unregister,
  displace,
}

-- What the closing of other clients leaves of a client, its channel and its `done`.
record Spared (ref : ℕ) (h h' : AgentHub) : Type 0 where
  agent_id : (h'.clients ref).agent_id ≡ (h.clients ref).agent_id
  send : (h'.clients ref).send ≡ (h.clients ref).send
  done : (h'.clients ref).done ≡ (h.clients ref).done
  channel : h'.channels (h.clients ref).send ≡ h.channels (h.clients ref).send
  dones : h'.dones ≡ h.dones

-- No client that the option names uses the channel.
abbrev pub IsApart : Option ℕ → ℕ → AgentHub → Type 0
IsApart none send h = Unit
IsApart (some r) send h = nat_eq (h.clients r).send send ≡ false

displace-Spared :
    (o : Option ℕ) (id : String) (ref : ℕ) (h : AgentHub)
    → IsApart o (h.clients ref).send h
    → Spared ref h (displace o id h)
unfolding close
displace-Spared none id ref h a = record {
  agent_id = refl;
  send = refl;
  done = refl;
  channel = refl;
  dones = refl;
}
displace-Spared (some r) id ref h a = record {
  agent_id = ground arith;
  send = ground arith;
  done = ground arith;
  channel = elim (Bool-cases (h.clients r).close_once) [
    | inl e ↦ rw e refl
    | inr e ↦ rw e (rw a refl)
  ];
  dones = ground arith;
}

send_on_open :
    (pick : Bool) (send done : ℕ) (msg : Outbound) (h : AgentHub)
    → (h.channels send).closed ≡ false
    → length (h.channels send).buffered < (h.channels send).capacity
    → h.dones done ≡ false
    → ((send_on pick send done msg h).0 ≡ true)
      × (((send_on pick send done msg h).1.channels send).buffered
          ≡ (h.channels send).buffered ++ msg ∷ [])
unfolding send_on
send_on_open pick send done msg h unclosed room up = ground arith

send_to_agent_held :
    (pick : Bool) (id : String) (ref send done : ℕ) (ch : Channel) (msg : Outbound) (k : AgentHub)
    → lookup id k.agents ≡ some ref
    → (k.clients ref).send ≡ send
    → (k.clients ref).done ≡ done
    → k.channels send ≡ ch
    → k.dones done ≡ false
    → ch.closed ≡ false
    → length ch.buffered < ch.capacity
    → ((send_to_agent pick id msg k).0 ≡ true)
      × (((send_to_agent pick id msg k).1.channels send).buffered ≡ ch.buffered ++ msg ∷ [])
unfolding send_to_agent safe_send
send_to_agent_held pick id ref send done ch msg k held e f g up unclosed room =
    let r = send_on_open pick send done msg k (rw g unclosed) (rw g room) up in
    rw (send_to_agent, safe_send, held, e, f) (r.0, r.1 ∙ ap (λ c. c.buffered ++ msg ∷ []) g)

-- Once a client is registered, and if its channel is open, has room and is not that of the client it
-- takes over from, and its `done` is not closed, a message to its agent is sent and is the last one
-- on its channel.
pub on_register-send_to_agent :
    (pick : Bool) (now ref : ℕ) (msg : Outbound) (h : AgentHub)
    → (h.channels (h.clients ref).send).closed ≡ false
    → length (h.channels (h.clients ref).send).buffered < (h.channels (h.clients ref).send).capacity
    → h.dones (h.clients ref).done ≡ false
    → IsApart (lookup (h.clients ref).agent_id h.agents) (h.clients ref).send h
    → let sent = send_to_agent pick (h.clients ref).agent_id msg (on_register now ref h) in
      (sent.0 ≡ true)
      × ((sent.1.channels (h.clients ref).send).buffered
          ≡ (h.channels (h.clients ref).send).buffered ++ msg ∷ [])
unfolding on_register
on_register-send_to_agent pick now ref msg h unclosed room up apart =
    let c = h.clients ref in
    let d = displace (lookup c.agent_id h.agents) c.agent_id h in
    let s = displace-Spared (lookup c.agent_id h.agents) c.agent_id ref h apart in
    send_to_agent_held pick c.agent_id ref c.send c.done (h.channels c.send) msg
      (on_register now ref h) (lookup-insert_self c.agent_id ref d.agents) s.send s.done s.channel
      (rw s.dones up) unclosed room

close-agent_id :
    (r q : ℕ) (h : AgentHub) → ((close r h).clients q).agent_id ≡ (h.clients q).agent_id
unfolding close
close-agent_id r q h = ground arith

displace-agent_id :
    (o : Option ℕ) (id : String) (q : ℕ) (h : AgentHub)
    → ((displace o id h).clients q).agent_id ≡ (h.clients q).agent_id
displace-agent_id none id q h = refl
displace-agent_id (some r) id q h = close-agent_id r q h

-- When another client has taken over the agent of a client, the end of the earlier client changes
-- nothing at the hub.
pub on_unregister-on_register :
    (now s t ref old : ℕ) (h : AgentHub)
    → (h.clients old).agent_id ≡ (h.clients ref).agent_id
    → nat_eq ref old ≡ false
    → on_unregister s t old (on_register now ref h) ≡ on_register now ref h
unfolding on_register on_unregister
on_unregister-on_register now s t ref old h same other =
    let c = h.clients ref in
    let d = displace (lookup c.agent_id h.agents) c.agent_id h in
    let k = on_register now ref h in
    let held : lookup (k.clients old).agent_id k.agents ≡ some ref =
      rw (displace-agent_id (lookup c.agent_id h.agents) c.agent_id old h, same)
        (lookup-insert_self c.agent_id ref d.agents) in
    rw (on_unregister, held) (rw other refl)
