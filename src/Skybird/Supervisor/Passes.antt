-- ===== src/Skybird/Supervisor/Passes.antt =====
-- The balance of recorders under `_begin`, `_advance`, `tick` and `shutdown` of
-- src/screener/skybird/supervisor.py.
use stock_aggregator.Prelude.{
  ℕ_key, ltb, leb, if◌then◌else◌, ◌==◌, ℕ_key, Bool-cases, Option-cases, ltb→lt, length, Dict,
  lookup, insert, keys, ℕ, zero, suc, ◌-◌, ◌<◌, ◌≡◌, refl, sym, ap, ◌∙◌, subst, inl, inr, Bool,
  true, false, not, ◌&&◌, Option, none, some, List, [], ◌∷◌, arith, ℕ_key, String_key,
}
use stock_aggregator.Skybird.Session.{
  is_requested, is_paused, is_stopping, Session, stopped, failed,
}
use stock_aggregator.Skybird.Store.{Tables, pending, start, max_restarts, reconcile, next_seq}
use stock_aggregator.Skybird.Capture.{chunk_seconds_of}
use stock_aggregator.Skybird.Supervisor.{
  File, Running, Outside, Config, World, chunks_per_tick, min_audible_seconds,
}
use stock_aggregator.Skybird.Supervisor.Hearing.{
  account, heard_chunk, unheard_chunk, hear, shed, hear_some, take_in, drain,
}
use stock_aggregator.Skybird.Supervisor.Connecting.{
  remove, release, put, run_of, begin_capture, reconnect, advance,
}
use stock_aggregator.Skybird.Supervisor.Recorders.{
  number_of, captures, captures-insert_new, length-insert_le, entries-insert, captures-remove,
  lookup-insert_same, IsKeyed-insert, IsKeyed-lookup,
}
use stock_aggregator.Skybird.Supervisor.Balance.{
  IsSteady, Holds, replace-IsBalanced, put-IsSteady, release-IsSteady, finish_as-IsSteady,
  stumble-IsSteady, connect_stream-IsSteady,
}
use stock_aggregator.Skybird.Supervisor.Ticking.{
  release_all, left_behind, settle, settle_all, tick, shutdown,
}

-- Hearing does not change which session a run is of, nor whether it holds a recorder.
abbrev IsSameRun : Running → Running × Tables → Type 0
IsSameRun run after = (after.0.session_id ≡ run.session_id) × (after.0.capture ≡ run.capture)

either_way : {A : Type 0} (P : A → Type 0) (b : Bool) {x y : A} → P x → P y → P (if b then x else y)
either_way P true px py = px
either_way P false px py = py

unheard_chunk-IsSameRun :
    (outside : Outside) (seconds : ℕ) (run : Running) (t : Tables)
    → IsSameRun run (unheard_chunk outside seconds (run, t)).1
unfolding unheard_chunk account
unheard_chunk-IsSameRun outside seconds run t =
    either_way (λ (r : Bool × (Running × Tables)). IsSameRun run r.1) _ (refl, refl) (refl, refl)

hear-IsSameRun :
    (outside : Outside) (file : File) (run : Running) (t : Tables)
    → IsSameRun run (hear outside file (run, t)).1
unfolding hear account heard_chunk
hear-IsSameRun outside file run t = elim (Option-cases file.size) [
  | inl unread ↦ rw (unread, hear) (refl, refl)
  | inr (size, known) ↦ elim (Bool-cases (ltb (chunk_seconds_of size) min_audible_seconds)) [
    | inl sliver ↦ rw (known, sliver, hear) (refl, refl)
    | inr audible ↦ elim (Option-cases (outside.transcribe file.audio)) [
      | inl silent ↦
          rw (known, audible, silent, hear)
            (unheard_chunk-IsSameRun outside (chunk_seconds_of size) run t)
      | inr (heard, answered) ↦ rw (known, audible, answered, hear) (refl, refl)
    ]
  ]
]

hear_some-IsSameRun :
    (n : ℕ) (outside : Outside) (held : List File) (run : Running) (t : Tables)
    → IsSameRun run (hear_some n outside held (run, t))
unfolding hear_some
hear_some-IsSameRun zero outside held run t = (refl, refl)
hear_some-IsSameRun (suc n) outside [] run t = (refl, refl)
hear_some-IsSameRun (suc n) outside (file ∷ held) run t =
    let one = hear outside file (run, t) in
    let first = hear-IsSameRun outside file run t in
    let rest = hear_some-IsSameRun n outside held one.1.0 one.1.1 in
    either_way (IsSameRun run) outside.is_stopping (refl, refl)
      (either_way (IsSameRun run) one.0 (rest.0 ∙ first.0, rest.1 ∙ first.1) (first.0, first.1))

shed-IsSameRun : (run : Running) (t : Tables) → IsSameRun run (shed (run, t))
unfolding shed
shed-IsSameRun run t = either_way (IsSameRun run) _ (refl, refl) (refl, refl)

take_in-same :
    (files : List File) (r : Running)
    → ((take_in files r).session_id ≡ r.session_id) × ((take_in files r).capture ≡ r.capture)
unfolding take_in
take_in-same [] r = (refl, refl)
take_in-same (file ∷ files) r = (refl, refl)

drain-IsSameRun :
    (outside : Outside) (run : Running) (t : Tables) → IsSameRun run (drain outside (run, t))
unfolding drain
drain-IsSameRun outside run t =
    let more = take_in-same (outside.take_files run.session_id) run in
    let run' = take_in (outside.take_files run.session_id) run in
    let kept = shed (run', t) in
    let shedding = shed-IsSameRun run' t in
    let hearing = hear_some-IsSameRun chunks_per_tick outside kept.0.held kept.0 kept.1 in
    (hearing.0 ∙ shedding.0 ∙ more.0, hearing.1 ∙ shedding.1 ∙ more.1)

begin_capture-IsSteady :
    (config : Config) (outside : Outside) (s : Session) (w : World)
    → IsSteady config w
    → lookup s.id w.runs ≡ none
    → length w.runs < config.max_sessions
    → IsSteady config (begin_capture outside config s w)
unfolding begin_capture run_of
begin_capture-IsSteady config outside s w b missing room =
    elim (Bool-cases (start s.id w.tables).0) [
      | inr lost ↦ rw (lost, begin_capture) b
      | inl won ↦
          let t = (start s.id w.tables).1 in
          let run = run_of outside s (next_seq s.id t) in
          let held = record w { tables = t; runs = insert s.id run w.runs } in
          let fresh : IsSteady config held = record {
            all_held = omega (arith, captures-insert_new s.id run w.runs missing, b.all_held);
            one_entry = entries-insert s.id run w.runs b.one_entry;
            own_key = IsKeyed-insert run w.runs b.own_key;
            under_cap = omega (arith, length-insert_le s.id run w.runs, room);
          } in
          rw (won, begin_capture)
            (connect_stream-IsSteady config outside run held fresh
              (run, lookup-insert_same s.id run w.runs, refl) refl)
    ]

reconnect-IsSteady :
    (config : Config) (outside : Outside) (run : Running) (w : World)
    → IsSteady config w
    → Holds run w
    → run.capture ≡ true
    → IsSteady config (reconnect outside run w)
unfolding reconnect
reconnect-IsSteady config outside run w b (old, e, same) recording =
    let taken = (captures-remove run.session_id old w.runs e).0 in
    let one : number_of old.capture ≡ 1 = rw (same, recording) refl in
    let gone = record run {
      capture = false;
      no_rewind = if run.rewound && not run.produced then true else run.no_rewind;
    } in
    stumble-IsSteady config outside gone _ true
      (put gone (record w { recorders = w.recorders - 1 }))
      (replace-IsBalanced config.max_sessions w.recorders (w.recorders - 1) w.runs gone old b e
        (omega (arith, taken, one, b.all_held)))
      (gone, lookup-insert_same run.session_id gone w.runs, refl)

advance-IsSteady :
    (config : Config) (outside : Outside) (run : Running) (w : World)
    → IsSteady config w
    → lookup run.session_id w.runs ≡ some run
    → IsSteady config (advance outside config run w)
unfolding advance
advance-IsSteady config outside run w b e =
    let heard = drain outside (run, w.tables) in
    let same = drain-IsSameRun outside run w.tables in
    let holds : Holds heard.0 (record w { tables = heard.1 }) =
      (run, subst (λ i. lookup i w.runs ≡ some run) (sym same.0) e, sym same.1) in
    let put_back = put-IsSteady config heard.0 (record w { tables = heard.1 }) b holds in
    branch (IsSteady config) run.capture (leb run.retry_at outside.monotonic) _
      (λ idle. connect_stream-IsSteady config outside run w b (run, e, refl) idle) b
      (λ recording.
        reconnect-IsSteady config outside heard.0 (put heard.0 (record w { tables = heard.1 }))
          put_back.0 put_back.1 (same.1 ∙ recording))
      put_back.0
  where
    branch :
        (P : World → Type 0) (capture due gone : Bool) {x y z v : World}
        → (capture ≡ false → P x)
        → P y
        → (capture ≡ true → P z)
        → P v
        → P (if not capture then (if due then x else y) else (if gone then z else v))
    branch P true due true px py pz pv = pz refl
    branch P true due false px py pz pv = pv
    branch P false true gone px py pz pv = px refl
    branch P false false gone px py pz pv = py

where_room :
    (P : World → Type 0) (n m : ℕ) {x y : World}
    → (n < m → P x)
    → P y
    → P (if ltb n m then x else y)
where_room P n m px py = elim (Bool-cases (ltb n m)) [
  | inl room ↦ rw room (px (ltb→lt n m room))
  | inr full ↦ rw full py
]

found_run :
    (P : World → Type 0) (o : Option Running) {f : Running → World} {y : World}
    → ((run : Running) → o ≡ some run → P (f run))
    → P y
    → P (elim o as (λ _. World) [ some run ↦ f run | none ↦ y ])
found_run P (some run) px py = px run refl
found_run P none px py = py

settle-IsSteady :
    (config : Config) (outside : Outside) (s : Session) (w : World)
    → IsSteady config w
    → IsSteady config (settle outside config s w)
unfolding settle
settle-IsSteady config outside s w b =
    let free = release-IsSteady config s.id w b in
    either_way (IsSteady config) (is_stopping s.state)
      (finish_as-IsSteady config outside.now s.id stopped "asked to stop" none _ free.0)
      (either_way (IsSteady config) (is_paused s.state) free.0 (
        either_way (IsSteady config) (is_requested s.state)
          (either_way (IsSteady config) outside.is_stopping free.0 (
            where_room (IsSteady config) (length (release s.id w).runs) config.max_sessions
              (λ room. begin_capture-IsSteady config outside s (release s.id w) free.0 free.1 room)
              free.0))
          (found_run (IsSteady config) (lookup s.id w.runs)
            (λ run e. advance-IsSteady config outside run w b (
              subst (λ i. lookup i w.runs ≡ some run)
                (sym (IsKeyed-lookup s.id run w.runs b.own_key e)) e))
            (finish_as-IsSteady config outside.now s.id failed "supervisor_restart" _ w b))))

settle_all-IsSteady :
    (config : Config) (outside : Outside) (live : List Session) (w : World)
    → IsSteady config w
    → IsSteady config (settle_all outside config live w)
unfolding settle_all
settle_all-IsSteady config outside [] w b = b
settle_all-IsSteady config outside (s ∷ live) w b =
    settle_all-IsSteady config outside live (settle outside config s w)
      (settle-IsSteady config outside s w b)

release_all-IsSteady :
    (config : Config) (ids : List ℕ) (w : World)
    → IsSteady config w
    → IsSteady config (release_all ids w)
unfolding release_all
release_all-IsSteady config [] w b = b
release_all-IsSteady config (i ∷ ids) w b =
    release_all-IsSteady config ids (release i w) (release-IsSteady config i w b).0

-- Where the process starts out steady, with a recorder for each capture that holds one and no other,
-- one entry for a session, and no more captures than the cap, it is so after any pass of `tick`,
-- whatever the tables say and whatever the outside answers.
pub tick-IsSteady :
    (config : Config) (outside : Outside) (w : World)
    → IsSteady config w
    → IsSteady config (tick outside config w)
unfolding tick
tick-IsSteady config outside w b =
    settle_all-IsSteady config outside (pending w.tables) _
      (release_all-IsSteady config (left_behind (pending w.tables) w.runs) w b)

release-first :
    (i : ℕ) (run : Running) (runs : Dict ℕ Running) (w : World)
    → w.runs ≡ (i, run) ∷ runs
    → (release i w).runs ≡ runs
unfolding release lookup remove
release-first i run runs w e =
    let own : (i == i) ≡ true = (ℕ_key.same_iff i i).1 refl in
    let first : lookup i w.runs ≡ some run = rw e (rw own refl) in
    rw (first, release) (rw (e, remove) (rw own refl))

release_all-keys :
    (runs : Dict ℕ Running) (w : World) → w.runs ≡ runs → (release_all (keys runs) w).runs ≡ []
unfolding release_all keys
release_all-keys [] w e = e
release_all-keys ((i, run) ∷ runs) w e =
    release_all-keys runs (release i w) (release-first i run runs w e)

-- Where the process is steady, `shutdown` leaves it, whether or not it can settle the rows, with no
-- capture and every recorder it started stopped.
pub shutdown-stops :
    (config : Config) (settles : Bool) (outside : Outside) (w : World)
    → IsSteady config w
    → ((shutdown settles outside w).runs ≡ []) × ((shutdown settles outside w).recorders ≡ 0)
unfolding shutdown captures
shutdown-stops config settles outside w b =
    let settled_world = record w {
      tables = if settles then (reconcile outside.now max_restarts w.tables).1 else w.tables;
    } in
    let none_left = release_all-keys w.runs settled_world refl in
    let steady = release_all-IsSteady config (keys w.runs) settled_world b in
    (none_left, steady.all_held ∙ ap captures none_left)
