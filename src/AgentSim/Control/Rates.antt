-- ===== src/AgentSim/Control/Rates.antt =====
-- What PUT /calls/config leaves alone, and what it changes.
use monti.Prelude.{
  ◌≡◌, refl, ap, subst, ◌∙◌, false, [], ◌∷◌, Option, none, some, arith, member, Distinct, ◌==◌,
  if◌then◌else◌, String-cases, inl, inr,
}
use monti.Prelude.Dict.{Dict, lookup, lookup-insert, keys, lookup_absent}
use monti.Types.Vq.{Department}
use monti.AgentSim.Traffic.{
  DepartmentConfig, CallGenerator, set_department_config, set_peak_hour_factor,
}
use monti.AgentSim.Control.{
  put_rate, update_rate, update_rates, ConfigUpdate, put_calls_config, ok, new_rates, new_factor,
}

module _ {F : Type 0} where
  -- A department after an update: its rate, its configuration when the updates began, and its
  -- configuration before this one.
  abbrev updated :
      Option F
      → Option (DepartmentConfig F)
      → Option (DepartmentConfig F)
      → Option (DepartmentConfig F)
  updated none current before = before
  updated (some rate) none before = before
  updated (some rate) (some cfg) before = some (record cfg { calls_per_min = rate })

  lookup-put_rate :
      (dept d : Department) (rate : F) (o : Option (DepartmentConfig F)) (g : CallGenerator F)
      → lookup d (put_rate dept rate o g).departments ≡ (
          if dept == d
          then updated (some rate) o (lookup d g.departments)
          else lookup d g.departments)
  unfolding put_rate set_department_config
  lookup-put_rate dept d rate none g = ground arith
  lookup-put_rate dept d rate (some cfg) g =
      lookup-insert dept d (record cfg { calls_per_min = rate }) g.departments

  lookup-update_rates :
      (current : Dict (DepartmentConfig F)) (rates : Dict F) (g : CallGenerator F) (d : Department)
      → Distinct (keys rates)
      → lookup d (update_rates current rates g).departments
        ≡ updated (lookup d rates) (lookup d current) (lookup d g.departments)
  unfolding update_rates update_rate
  lookup-update_rates current [] g d h = refl
  lookup-update_rates current ((dept, rate) ∷ rest) g d h =
      rw
        (
          lookup-update_rates current rest (update_rate current dept rate g) d h.1,
          lookup-put_rate dept d rate (lookup dept current) g,
        )
        (elim (String-cases dept d) [
          | inl same ↦
              rw
                (
                  same.1,
                  ap (λ x. lookup x current) same.0,
                  lookup_absent d rest (subst (λ x. member x (keys rest) ≡ false) same.0 h.0),
                )
                refl
          | inr other ↦ rw other refl
        ])

  put_rate-factor :
      (dept : Department) (rate : F) (o : Option (DepartmentConfig F)) (g : CallGenerator F)
      → (put_rate dept rate o g).peak_hour_factor ≡ g.peak_hour_factor
  unfolding put_rate set_department_config
  put_rate-factor dept rate none g = refl
  put_rate-factor dept rate (some cfg) g = refl

  update_rates-factor :
      (current : Dict (DepartmentConfig F)) (rates : Dict F) (g : CallGenerator F)
      → (update_rates current rates g).peak_hour_factor ≡ g.peak_hour_factor
  unfolding update_rates update_rate
  update_rates-factor current [] g = refl
  update_rates-factor current ((dept, rate) ∷ rest) g =
      rw (update_rates-factor current rest (update_rate current dept rate g))
        (put_rate-factor dept rate (lookup dept current) g)

  -- The rates that a request names.
  abbrev pub named : Option (Dict F) → Dict F
  named none = []
  named (some rates) = rates

  abbrev pub factor_or : F → Option F → F
  factor_or old none = old
  factor_or old (some factor) = factor

  abbrev pub rated : Option F → Option (DepartmentConfig F) → Option (DepartmentConfig F)
  rated rate none = none
  rated none (some cfg) = some cfg
  rated (some rate) (some cfg) = some (record cfg { calls_per_min = rate })

  updated-rated :
      (rate : Option F) (o : Option (DepartmentConfig F)) → updated rate o o ≡ rated rate o
  updated-rated none none = refl
  updated-rated none (some cfg) = refl
  updated-rated (some rate) none = refl
  updated-rated (some rate) (some cfg) = refl

  new_rates-rated :
      (rates : Option (Dict F)) (g : CallGenerator F)
      → Distinct (keys (named rates))
      → ((new_rates rates g).peak_hour_factor ≡ g.peak_hour_factor)
        × ((dept : Department)
            → lookup dept (new_rates rates g).departments
              ≡ rated (lookup dept (named rates)) (lookup dept g.departments))
  unfolding new_rates
  new_rates-rated none g h = (refl, λ dept. updated-rated none (lookup dept g.departments))
  new_rates-rated (some rates) g h = (
    update_rates-factor g.departments rates g,
    λ dept.
        lookup-update_rates g.departments rates g dept h
        ∙ updated-rated (lookup dept rates) (lookup dept g.departments),
  )

  new_factor_lem :
      (factor : Option F) (g : CallGenerator F)
      → ((new_factor factor g).peak_hour_factor ≡ factor_or g.peak_hour_factor factor)
        × ((new_factor factor g).departments ≡ g.departments)
  unfolding new_factor set_peak_hour_factor
  new_factor_lem none g = (refl, refl)
  new_factor_lem (some factor) g = (refl, refl)

  -- A request that decodes is accepted, and the factor is the new one, if there is one. Of each
  -- department that there is, the request changes the rate that it names and leaves the queues; it
  -- adds no department.
  pub put_calls_config-rated :
      (req : ConfigUpdate F) (g : CallGenerator F)
      → Distinct (keys (named req.rates))
      → (g' : CallGenerator F) × (put_calls_config (some req) (some g) ≡ (ok tt, some g'))
        × (g'.peak_hour_factor ≡ factor_or g.peak_hour_factor req.factor)
        × ((dept : Department)
            → lookup dept g'.departments
              ≡ rated (lookup dept (named req.rates)) (lookup dept g.departments))
  unfolding put_calls_config
  put_calls_config-rated req g h =
      let (f, same) = new_factor_lem req.factor g in
      let (k, r) = new_rates-rated req.rates (new_factor req.factor g) h in
      (
        new_rates req.rates (new_factor req.factor g),
        refl,
        k ∙ f,
        λ dept. r dept ∙ ap (λ m. rated (lookup dept (named req.rates)) (lookup dept m)) same,
      )
