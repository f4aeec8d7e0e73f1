-- ===== src/Tests/Browsers.antt =====
-- The connections of the browsers.
use monti.Prelude.{◌≡◌, refl, List, [], ◌∷◌, none, some}
use monti.Prelude.Dict.{lookup}
use monti.Types.Vq.{dept_sales}
use monti.Types.Agent.{Snapshot}
use monti.Access.{compute_allowed_locations}
use monti.BrowserHub.{Hub, snapshot_message, raw_message, new_hub, filter_snapshot, on_register}
use monti.BrowserHub.Open.{IsValid}
use monti.BrowserHub.Operations.{HubOp, connects, disconnects, receives, broadcasts, run}
use monti.BrowserHub.Safety.{run-new_hub-IsValid}
use monti.BrowserHub.History.{latest, broadcast_snapshots, run-new_hub-latest}
use monti.BrowserHub.Greeting.{greeting}
use monti.BrowserHub.Filter.{claims_of, restricted, filter_snapshot-restricted}
use monti.Tests.Sites.{on_break}

abbrev sales_snapshot : Snapshot
sales_snapshot = record {
  timestamp = 7;
  departments =
      (
        dept_sales,
        record {
          agents = on_break ∷ record on_break { agent_id = "bob"; location = "munich" } ∷ [];
          queues = [];
        },
      )
      ∷ [];
}

abbrev browsing : List HubOp
browsing =
    connects none
    ∷ broadcasts (snapshot_message sales_snapshot)
    ∷ connects (some (claims_of "agent" [] ("SGB" ∷ [])))
    ∷ broadcasts (raw_message "ping")
    ∷ receives 0
    ∷ disconnects 1
    ∷ disconnects 1
    ∷ []

run-new_hub-IsValid_example : (h : Hub) × (run browsing new_hub ≡ some h) × IsValid h
run-new_hub-IsValid_example = run-new_hub-IsValid browsing

run-new_hub-latest_example :
    let h = (run-new_hub-IsValid browsing).0 in
    (h.history ≡ latest (broadcast_snapshots browsing))
    × ((h' : Hub) × (on_register none h ≡ some h')
        × ((h'.store h.next_ref).buffered ≡ greeting none (latest (broadcast_snapshots browsing))))
run-new_hub-latest_example =
    run-new_hub-latest browsing (run-new_hub-IsValid browsing).0 none
      (run-new_hub-IsValid browsing).1

filter_snapshot_example :
    lookup dept_sales
      (filter_snapshot (some (claims_of "agent" [] ("SGB" ∷ []))) sales_snapshot).departments
    ≡ restricted ("SGB" ∷ []) (lookup dept_sales sales_snapshot.departments)
unfolding compute_allowed_locations
filter_snapshot_example =
    filter_snapshot-restricted "agent" [] ("SGB" ∷ []) sales_snapshot dept_sales refl refl
