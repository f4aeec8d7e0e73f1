-- ===== src/AgentSim/Panel/Commands.antt =====
-- What the commands leave of the record of the simulation.
use monti.Prelude.{
  ℕ, Bool, true, false, List, [], ◌∷◌, Option, none, some, ◌≡◌, refl, ◌||◌, if◌then◌else◌,
}
use monti.Prelude.Int.{ℤ, pos}
use monti.AgentSim.Panel.{
  SimulationConfig, Handlers, Panel, less_than, Reply, active, done, bad_request, conflict,
  internal_error, new_panel, after_start, handle_start, after_stop, handle_stop, handle_config,
  after_scale, handle_scale,
}

pub data Command : Type 0 where
  start : ℕ → Option ℤ → Command
  stop : Command
  configure : Option SimulationConfig → Command
  scale : Option ℤ → Command

-- There is a time of the start exactly while the simulation runs.
abbrev pub IsDated : Bool → Option ℕ → Type 0
IsDated true none = ⊥
IsDated true (some t) = Unit {0}
IsDated false none = Unit {0}
IsDated false (some t) = ⊥

module _ {W : Type 0} (h : Handlers W) where
  abbrev pub obey : Command → Panel W → Reply × Panel W
  unfolding handle_start handle_stop handle_config handle_scale
  obey (start now body) p = handle_start h now body p
  obey stop p = handle_stop h p
  obey (configure body) p = handle_config h body p
  obey (scale body) p = handle_scale h body p

  abbrev pub obey_all : List Command → Panel W → Panel W
  unfolding obey
  obey_all [] p = p
  obey_all (c ∷ cs) p = obey_all cs (obey c p).1

  -- A reply that is no success.
  abbrev pub IsRefusal : Reply → Type 0
  IsRefusal (active n) = ⊥
  IsRefusal done = ⊥
  IsRefusal bad_request = Unit {0}
  IsRefusal conflict = Unit {0}
  IsRefusal internal_error = Unit {0}

  after_start-same :
      (now : ℕ) (n : ℤ) (p : Panel W) (o : Option W)
      → IsRefusal (after_start h now n p o).0
      → (after_start h now n p o).1 ≡ p
  after_start-same now n p none r = refl
  after_start-same now n p (some w) r = absurd r

  after_stop-same :
      (p : Panel W) (o : Option W) → IsRefusal (after_stop h p o).0 → (after_stop h p o).1 ≡ p
  after_stop-same p none r = refl
  after_stop-same p (some w) r = absurd r

  after_scale-same :
      (n : ℤ) (p : Panel W) (o : Option W)
      → IsRefusal (after_scale h n p o).0
      → (after_scale h n p o).1 ≡ p
  after_scale-same n p none r = refl
  after_scale-same n p (some w) r = absurd r

  if-same :
      (b : Bool) (x y : Reply × Panel W) (p : Panel W)
      → (IsRefusal x.0 → x.1 ≡ p)
      → (IsRefusal y.0 → y.1 ≡ p)
      → IsRefusal (if b then x else y).0
      → (if b then x else y).1 ≡ p
  if-same true x y p f g = f
  if-same false x y p f g = g

  -- A command that is refused changes neither the simulation nor the record of it.
  pub obey-refused : (c : Command) (p : Panel W) → IsRefusal (obey c p).0 → (obey c p).1 ≡ p
  unfolding obey handle_start handle_stop handle_config handle_scale
  obey-refused (start now none) p = λ _. refl
  obey-refused (start now (some asked)) p =
      if-same p.status.running _ _ p (λ _. refl) (after_start-same now _ p _)
  obey-refused stop p = if-same p.status.running _ _ p (after_stop-same p _) (λ _. refl)
  obey-refused (configure none) p = λ _. refl
  obey-refused (configure (some c)) p = if-same p.status.running _ _ p (λ _. refl) (λ r. absurd r)
  obey-refused (scale none) p = λ _. refl
  obey-refused (scale (some asked)) p = if-same _ _ _ p (λ _. refl) (after_scale-same asked p _)

  abbrev Dated : Panel W → Type 0
  Dated p = IsDated p.status.running p.status.started_at

  if-Dated :
      (b : Bool) (x y : Reply × Panel W) → Dated x.1 → Dated y.1 → Dated (if b then x else y).1
  if-Dated true x y f g = f
  if-Dated false x y f g = g

  after_start-Dated :
      (now : ℕ) (n : ℤ) (p : Panel W) (o : Option W) → Dated p → Dated (after_start h now n p o).1
  after_start-Dated now n p none d = d
  after_start-Dated now n p (some w) d = tt

  after_stop-Dated : (p : Panel W) (o : Option W) → Dated p → Dated (after_stop h p o).1
  after_stop-Dated p none d = d
  after_stop-Dated p (some w) d = tt

  after_scale-Dated : (n : ℤ) (p : Panel W) (o : Option W) → Dated p → Dated (after_scale h n p o).1
  after_scale-Dated n p none d = d
  after_scale-Dated n p (some w) d = d

  obey-Dated : (c : Command) (p : Panel W) → Dated p → Dated (obey c p).1
  unfolding obey handle_start handle_stop handle_config handle_scale
  obey-Dated (start now none) p d = d
  obey-Dated (start now (some asked)) p d =
      if-Dated p.status.running _ _ d (after_start-Dated now _ p _ d)
  obey-Dated stop p d = if-Dated p.status.running _ _ (after_stop-Dated p _ d) d
  obey-Dated (configure none) p d = d
  obey-Dated (configure (some c)) p d =
      if-Dated p.status.running (conflict, p) (done, record p { config = c }) d d
  obey-Dated (scale none) p d = d
  obey-Dated (scale (some asked)) p d =
      if-Dated (less_than asked (pos 0) || less_than p.config.total_agents asked) (bad_request, p)
        (after_scale h asked p (h.scale_func asked p.simulation)) d (after_scale-Dated asked p _ d)

  obey_all-Dated : (cs : List Command) (p : Panel W) → Dated p → Dated (obey_all cs p)
  unfolding obey_all
  obey_all-Dated [] p d = d
  obey_all-Dated (c ∷ cs) p d = obey_all-Dated cs (obey c p).1 (obey-Dated c p d)

  -- After any commands to a new panel there is a time of the start exactly while it says that the
  -- simulation runs.
  pub obey_all-new_panel :
      (cs : List Command) (w : W)
      → let p = obey_all cs (new_panel w) in IsDated p.status.running p.status.started_at
  unfolding new_panel
  obey_all-new_panel cs w = obey_all-Dated cs (new_panel w) tt
