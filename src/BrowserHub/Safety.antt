-- ===== src/BrowserHub/Safety.antt =====
-- No sequence of operations of the hub panics.
use monti.Prelude.{
  subst, ℕ, ◌≤◌, ◌≡◌, refl, List, [], ◌∷◌, some, nat_eq, length, All-imp, arith, inl, inr,
  Bool-cases,
}
use monti.BrowserHub.{later, Hub, Payload, new_hub, on_receive}
use monti.BrowserHub.Open.{IsOpen, IsValid}
use monti.BrowserHub.Operations.{HubOp, connects, disconnects, receives, broadcasts, step, run}
use monti.BrowserHub.Success.{
  Succeeds, on_register-Succeeds, on_unregister-Succeeds, on_broadcast-Succeeds,
}

later-le : (ps : List Payload) → length (later ps) ≤ length ps
later-le [] = omega arith
later-le (p ∷ ps) = omega arith

on_receive-IsOpen : (ref : ℕ) (h : Hub) (j : ℕ) → IsOpen h j → IsOpen (on_receive ref h) j
unfolding on_receive
on_receive-IsOpen ref h j o = elim (Bool-cases (nat_eq ref j)) [
  | inl s ↦
      let o' : IsOpen h ref = subst (IsOpen h) (ground arith) o in
      rw s (o'.0, omega (arith, o'.1, later-le (h.store ref).buffered), o.2)
  | inr s ↦ rw s o
]

on_receive-IsValid : (ref : ℕ) (h : Hub) → IsValid h → IsValid (on_receive ref h)
unfolding on_receive
on_receive-IsValid ref h v = record {
  opened = All-imp _ _ (on_receive-IsOpen ref h) h.clients v.opened;
  once = v.once;
  bounded = v.bounded;
}

step-Succeeds : (op : HubOp) (h : Hub) → IsValid h → Succeeds (step op h)
unfolding step
step-Succeeds (connects claims) h v = on_register-Succeeds claims h v
step-Succeeds (disconnects ref) h v = on_unregister-Succeeds ref h v
step-Succeeds (receives ref) h v = (on_receive ref h, refl, on_receive-IsValid ref h v)
step-Succeeds (broadcasts m) h v = on_broadcast-Succeeds m h v

run-Succeeds : (ops : List HubOp) (h : Hub) → IsValid h → Succeeds (run ops h)
unfolding run
run-Succeeds [] h v = (h, refl, v)
run-Succeeds (op ∷ ops) h v =
    let (h', e, v') = step-Succeeds op h v in rw e (run-Succeeds ops h' v')

-- After any sequence of connections, ends of connections, receptions and broadcasts the hub has not
-- panicked: it never sends on a closed channel nor closes one twice. It holds each client once, all
-- of them open, no more than 256 messages wait on the channel of a client, and at most 300 snapshots
-- are kept.
pub run-new_hub-IsValid : (ops : List HubOp) → (h : Hub) × (run ops new_hub ≡ some h) × IsValid h
run-new_hub-IsValid ops =
    run-Succeeds ops new_hub
      (unfold new_hub in record { opened = tt; once = tt; bounded = omega arith })
