-- ===== src/Skybird/Supervisor/Ticking.antt =====
-- `tick`, `_drop_connection` and `shutdown` of src/screener/skybird/supervisor.py.
use stock_aggregator.Prelude.{
  ltb, leb, if◌then◌else◌, Bool, ◌==◌, length, keep, count, Dict, lookup, keys, ℕ, none, some, List,
  [], ◌∷◌, ℕ_key, String_key,
}
use stock_aggregator.Skybird.Session.{
  is_requested, is_paused, is_stopping, Session, said, stopped, failed,
}
use stock_aggregator.Skybird.Store.{pending, max_restarts, reconcile}
use stock_aggregator.Skybird.Supervisor.{Running, Outside, Config, World}
use stock_aggregator.Skybird.Supervisor.Connecting.{release, finish_as, begin_capture, advance}

unfoldable pub release_all : List ℕ → World → World
release_all [] w = w
release_all (i ∷ ids) w = release_all ids (release i w)

-- Captures whose session is not live any more.
unfoldable pub left_behind : List Session → Dict ℕ Running → List ℕ
left_behind live runs =
    keep (λ (i : ℕ). leb (count (λ (s : Session). s.id == i) live) 0) (keys runs)

-- The branch of the loop for one live session.
unfoldable pub settle : Outside → Config → Session → World → World
settle outside config s w =
    let free = release s.id w in
    let orphaned =
      finish_as outside.now s.id failed "supervisor_restart"
        (some (said "no capture was running for this session")) w in
    if is_stopping s.state
    then finish_as outside.now s.id stopped "asked to stop" none free
    else if is_paused s.state
    then free
    else if is_requested s.state
    then if outside.is_stopping
      then free
      else if ltb (length free.runs) config.max_sessions
      then begin_capture outside config s free
      else free
    else elim (lookup s.id w.runs) [ some run ↦ advance outside config run w | none ↦ orphaned ]

unfoldable pub settle_all : Outside → Config → List Session → World → World
settle_all outside config [] w = w
settle_all outside config (s ∷ live) w = settle_all outside config live (settle outside config s w)

unfoldable pub tick : Outside → Config → World → World
tick outside config w =
    let live = pending w.tables in
    settle_all outside config live (release_all (left_behind live w.runs) w)

-- Every capture goes with the connection.
unfoldable pub drop_connection : World → World
drop_connection w = release_all (keys w.runs) w

-- The rows first, then the captures. `settles` says that there is an open connection and that
-- `reconcile` does not raise on it; what it raises is only logged.
unfoldable pub shutdown : Bool → Outside → World → World
shutdown settles outside w = release_all (keys w.runs) (record w {
  tables = if settles then (reconcile outside.now max_restarts w.tables).1 else w.tables;
})
