-- ===== src/Skybird/Supervisor/Connecting.antt =====
-- `_release`, `_stumble`, `_connect_stream`, `_begin` and `_advance` of
-- src/screener/skybird/supervisor.py, on the process and the tables.
use stock_aggregator.Prelude.{
  ltb, leb, nat_eq, if◌then◌else◌, ◌==◌, length, Dict, lookup, insert, ok, raised, ℕ, ◌+◌, ◌-◌, ◌*◌,
  ◌/◌, ◌%◌, ◌^◌, min, max, String, Bool, true, false, not, ◌&&◌, ◌||◌, Option, none, some, [], ◌∷◌,
  ℕ_key, String_key, is_some,
}
use stock_aggregator.Prelude.Int.{ℤ, pos_part, sub_ℕ, add_ℤ, sub_ℤ, ltb_ℤ, pos}
use stock_aggregator.Skybird.Session.{Note, State, Session, said, counted, quoted, stopped, failed}
use stock_aggregator.Skybird.Store.{start, describe, finish, Chunk, count_chunk, next_seq}
use stock_aggregator.Skybird.Capture.{no_window, Probe, Rewind, rewind}
use stock_aggregator.Skybird.Supervisor.{
  Running, Outside, Config, World, max_failures, retry_base_seconds, max_retry_seconds,
  min_reported_loss_seconds, microseconds, found, probe_failed,
}
use stock_aggregator.Skybird.Supervisor.Hearing.{drain}

-- `self._running.pop(session_id, None)`
unfoldable pub remove : ℕ → Dict ℕ Running → Dict ℕ Running
remove i [] = []
remove i ((j, run) ∷ runs) = if j == i then runs else (j, run) ∷ remove i runs

unfoldable pub release : ℕ → World → World
release i w = elim (lookup i w.runs) [
  | none ↦ w
  | some run ↦ record w {
    runs = remove i w.runs;
    recorders = if run.capture then w.recorders - 1 else w.recorders;
  }
]

-- The run, changed where the process holds it.
abbrev pub put : Running → World → World
put run w = record w { runs = insert run.session_id run w.runs }

-- `store.finish` with an ending, which does not raise.
unfoldable pub finish_as : ℕ → ℕ → State → String → Option Note → World → World
finish_as now i state reason error w = elim (finish now i state reason error w.tables) [
  | raised e ↦ w
  | ok t ↦ record w { tables = t }
]

-- A chunk count that only records what went wrong.
abbrev pub only_error : Option Note → Chunk
only_error error = record {
  ok_count = 0;
  failed_count = 0;
  dropped_count = 0;
  seconds = 0;
  until = none;
  error = error;
}

unfoldable pub delay_of : ℕ → ℕ
delay_of failures = min (retry_base_seconds * 2 ^ (failures - 1)) max_retry_seconds

unfoldable pub stumble : Outside → Running → Option Note → Bool → World → World
stumble outside run error quiet w =
    let failed_run = record run { failures = run.failures + 1 } in
    let told =
      if quiet
      then w
      else record w { tables = count_chunk run.session_id (only_error error) w.tables } in
    if leb max_failures failed_run.failures
    then finish_as outside.now run.session_id failed "could not stay connected" error
        (release run.session_id (put failed_run told))
    else put (record failed_run { retry_at = outside.monotonic + delay_of failed_run.failures })
        told

-- Where a connect starts: the plan, the anchor on the clock, and what is recovered.
unfoldable pub connect_plan : Outside → Config → Running → Probe → Rewind × ℤ × ℤ
connect_plan outside config run p = elim run.captured_until [
  | none ↦ (record { live_start_index = none; skipped = pos 0 }, pos outside.now, pos 0)
  | some until ↦
      let gap = sub_ℕ outside.now until in
      let window = if p.is_live && not run.no_rewind then p.window else no_window in
      let plan = rewind gap window config.max_rewind_seconds in
      (plan, add_ℤ (pos until) plan.skipped, sub_ℤ gap plan.skipped)
]

-- Whole seconds, half to even.
unfoldable pub rounded_seconds : ℕ → ℕ
rounded_seconds n =
    let whole = n / microseconds in
    let left = n % microseconds in
    if ltb 500000 left || nat_eq left 500000 && nat_eq (whole % 2) 1 then whole + 1 else whole

unfoldable pub allowance_of : ℤ → ℕ → ℕ
allowance_of recovered chunk_seconds =
    let chunk = chunk_seconds * microseconds in
    if ltb_ℤ (pos 0) recovered then (pos_part recovered + (chunk - 1)) / chunk + 1 else 0

-- The recorder is started: the run and the row say so.
unfoldable pub connected : Outside → Config → Running → Probe → World → World
connected outside config run p w =
    let plan = connect_plan outside config run p in
    let skipped = plan.0.skipped in
    let started = record run {
      capture = true;
      rewound = is_some plan.0.live_start_index;
      produced = false;
      wall_origin = sub_ℤ plan.1 (pos run.offset);
      allowance = allowance_of plan.2 run.chunk_seconds;
    } in
    let reports =
      is_some run.captured_until
      && not (ltb_ℤ skipped (pos (max p.window.segment_seconds min_reported_loss_seconds))) in
    let missed = only_error (
      some (
        counted "missed " (rounded_seconds (pos_part skipped))
          "s of the stream between connections")) in
    let told = if reports then count_chunk run.session_id missed w.tables else w.tables in
    let player : Option String = elim p.video_id [
      | none ↦ none
      | some video ↦ outside.embed run.platform video
    ] in
    put started (record w {
      tables = describe outside.now run.session_id p.title p.channel player true told;
      recorders = w.recorders + 1;
    })

unfoldable pub connect_stream : Outside → Config → Running → World → World
connect_stream outside config run w = elim (outside.probe run.source_url) [
  | probe_failed why ↦
      stumble outside run (some (quoted "could not reach the stream: " why)) false w
  | found p ↦
      if not p.is_live && ltb 0 run.offset
      then finish_as outside.now run.session_id stopped "stream_ended" none
          (release run.session_id w)
      else elim (outside.refuses p.manifest_url) [
        | some why ↦ stumble outside run (some (quoted "could not start ffmpeg: " why)) false w
        | none ↦ connected outside config run p w
      ]
]

-- `Running(…)` of a row that was claimed.
unfoldable pub run_of : Outside → Session → ℕ → Running
run_of outside s seq = record {
  session_id = s.id;
  source_url = s.source_url;
  platform = s.platform;
  chunk_seconds = s.chunk_seconds;
  capture = false;
  next_seq = seq;
  chunk_seq = 0;
  offset = s.captured_seconds;
  wall_origin = pos outside.now;
  captured_until = s.captured_until;
  held = [];
  allowance = 0;
  stalled_since = none;
  rewound = false;
  produced = false;
  no_rewind = false;
  failures = 0;
  retry_at = 0;
}

unfoldable pub begin_capture : Outside → Config → Session → World → World
begin_capture outside config s w =
    let claim = start s.id w.tables in
    let run = run_of outside s (next_seq s.id claim.1) in
    if claim.0
    then connect_stream outside config run (put run (record w { tables = claim.1 }))
    else record w { tables = claim.1 }

-- The recorder has gone and nothing is left to hear.
unfoldable pub reconnect : Outside → Running → World → World
reconnect outside run w =
    let gone = record run {
      capture = false;
      no_rewind = if run.rewound && not run.produced then true else run.no_rewind;
    } in
    let error : Option Note = elim (outside.exit_error run.session_id) [
      | none ↦ none
      | some why ↦ some (said why)
    ] in
    stumble outside gone error true (put gone (record w { recorders = w.recorders - 1 }))

unfoldable pub advance : Outside → Config → Running → World → World
advance outside config run w =
    let heard = drain outside (run, w.tables) in
    let moved = put (heard.0) (record w { tables = heard.1 }) in
    if not run.capture
    then if leb run.retry_at outside.monotonic then connect_stream outside config run w else w
    else if not (outside.is_running run.session_id) && leb (length heard.0.held) 0
    then reconnect outside (heard.0) moved
    else moved
