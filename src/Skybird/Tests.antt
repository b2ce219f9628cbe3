-- ===== src/Skybird/Tests.antt =====
-- Runs of the statements of src/screener/skybird/store.py, and each property at a concrete input.
use stock_aggregator.Prelude.{
  length, keep, all, count, lookup, insert, keys, already_live, raised, ℕ, ◌+◌, ◌≡◌, refl, ◌⊎◌,
  true, false, Option, none, some, List, [], ◌∷◌, map, arith,
}
use stock_aggregator.Skybird.Session.{
  Session, StreamRef, Segment, is_space, is_blank, without_nul, requested, running, paused, failed,
}
use stock_aggregator.Skybird.Store.{
  Tables, update, new_session, create, find_session, lines_of, place_row, order_by, listing,
  active_count, pending, claimed, start, described, describe, stop_asked, request_stop, put_on_hold,
  pause, resume, Chunk, accounted, count_chunk, max_seq, next_seq, values_of, append_segments,
}
use stock_aggregator.Skybird.Store.Steps.{empty_tables, creates, starts, resumes, begin, later}
use stock_aggregator.Skybird.Store.Live.{IsExclusive, Reach-IsExclusive}
use stock_aggregator.Skybird.Store.Ending.{IsEnded, IsGone, Step-IsEnded}
use stock_aggregator.Skybird.Store.Pausing.{
  count_chunks, total_seconds, IsForgotten, resume-IsForgotten,
}
use stock_aggregator.Skybird.Store.Restarting.{crash_rounds, IsQueued, crash_rounds_end}
use stock_aggregator.Skybird.Store.Lines.{append_segments-Ascends}
use stock_aggregator.Prelude.Int.{pos, negsuc}
use stock_aggregator.Skybird.Capture.{Probe, back_segments, rewind}
use stock_aggregator.Skybird.Supervisor.{File, Transcript, Running, Outside, Config, World, found}
use stock_aggregator.Skybird.Supervisor.Hearing.{drain}
use stock_aggregator.Skybird.Supervisor.Connecting.{
  release, connect_plan, allowance_of, connected, connect_stream, run_of, begin_capture,
}
use stock_aggregator.Skybird.Supervisor.Ticking.{
  release_all, left_behind, settle, settle_all, tick, shutdown,
}
use stock_aggregator.Skybird.Supervisor.Conservation.{chunk_count, drain-conserves}
use stock_aggregator.Skybird.Supervisor.Recorders.{captures, entries}
use stock_aggregator.Skybird.Supervisor.Balance.{IsSteady}
use stock_aggregator.Skybird.Supervisor.Passes.{tick-IsSteady, shutdown-stops}

abbrev ref : StreamRef
ref = record {
  platform = "twitch";
  external_id = "somebody";
  channel = some "somebody";
  canonical_url = "https://www.twitch.tv/somebody";
  embed_url = none;
}

abbrev heard_row : Session
heard_row = record {
  id = 1;
  platform = "twitch";
  external_id = "somebody";
  channel = some "somebody";
  title = none;
  source_url = "https://www.twitch.tv/somebody";
  embed_url = none;
  state = requested;
  stop_reason = none;
  requested_by = "ana";
  requested_at = 100;
  started_at = some 110;
  stopped_at = none;
  chunk_seconds = 15;
  chunks_ok = 2;
  chunks_failed = 0;
  chunks_dropped = 0;
  last_error = none;
  captured_seconds = 30;
  captured_until = some 140;
  restarts = 0;
}

abbrev with_row : Session → Tables
with_row s = record { sessions = s ∷ []; lines = []; next_id = 2 }

abbrev chunk_of : ℕ → ℕ → Chunk
chunk_of seconds until = record {
  ok_count = 1;
  failed_count = 0;
  dropped_count = 0;
  seconds = seconds;
  until = some until;
  error = none;
}

abbrev line_of : ℕ → List ℕ → Segment
line_of seq text = record {
  session_id = 0;
  seq = seq;
  chunk_seq = 0;
  captured_at = 100;
  offset_seconds = 0;
  duration_seconds = 5;
  text = text;
}

-- The second request for a stream that is live is refused.
create_twice :
    (create 200 ref "bo" 15 (create 100 ref "ana" 15 empty_tables).1).0 ≡ raised already_live
unfolding create new_session count
create_twice = refl

-- A capture that was asked to stop while it was queued is over at once.
request_stop_queued :
    active_count (request_stop 300 1 (create 100 ref "ana" 15 empty_tables).1).1 ≡ 0
unfolding create new_session request_stop stop_asked update count active_count
request_stop_queued = refl

-- Only the row that is being started becomes running.
describe_paused :
    map
      (λ (s : Session). s.state)
      (describe 300 1 (some "title") none none true (pause 1 (with_row heard_row)).1).sessions
    ≡ paused ∷ []
unfolding describe described pause put_on_hold update
describe_paused = refl

-- A line that is only a NUL is not stored.
append_segments_nul :
    (append_segments 1
      (line_of 1 (0 ∷ []) ∷ line_of 2 (104 ∷ 105 ∷ []) ∷ [])
      (with_row heard_row)).0
    ≡ 1
unfolding append_segments values_of keep is_blank without_nul is_space all
append_segments_nul = refl

listing_live_first :
    map
      (λ (s : Session). s.requested_at)
      (listing 2 (record {
        sessions =
            record heard_row { requested_at = 1 }
            ∷ record heard_row { requested_at = 2; state = failed }
            ∷ record heard_row { requested_at = 3 }
            ∷ [];
        lines = [];
        next_id = 5;
      }))
    ≡ 3 ∷ 1 ∷ []
unfolding listing order_by place_row
listing_live_first = refl

Reach-IsExclusive_example : IsExclusive (start 1 (create 100 ref "ana" 15 empty_tables).1).1
Reach-IsExclusive_example =
    Reach-IsExclusive (later (later begin (creates 100 ref "ana" 15)) (starts 1))

Step-IsEnded_example :
    IsEnded 1 (resume 1 (with_row (record heard_row { state = failed }))).1
    ⊎ IsGone 1 (resume 1 (with_row (record heard_row { state = failed }))).1
unfolding find_session
Step-IsEnded_example =
    Step-IsEnded {t = with_row (record heard_row { state = failed })} 1 (resumes 1)
      (record heard_row { state = failed }, refl, refl)

crash_rounds_end_example :
    IsQueued 1 3 heard_row (crash_rounds 3 500 3 1 (with_row heard_row))
    × ((r : Session) × (find_session 1 (crash_rounds 4 500 3 1 (with_row heard_row)).sessions
          ≡ some r)
        × (r.state ≡ failed)
        × (r.stop_reason ≡ some "supervisor_restart"))
unfolding find_session
crash_rounds_end_example = crash_rounds_end 500 3 1 (with_row heard_row) heard_row refl refl refl

resume-IsForgotten_example : IsForgotten 1 45 (
    count_chunks 1
      (chunk_of 15 160 ∷ [])
      (resume 1 (with_row (record heard_row { state = paused }))).1)
unfolding find_session total_seconds
resume-IsForgotten_example =
    resume-IsForgotten 1 (with_row (record heard_row { state = paused }))
      (record heard_row { state = paused }) (chunk_of 15 160 ∷ []) refl refl

append_segments-Ascends_example :
    (lines_of 1
        (append_segments 1 (line_of 1 (104 ∷ []) ∷ line_of 2 (32 ∷ []) ∷ []) (with_row heard_row)).1
      ≡ record (line_of 1 (104 ∷ [])) { session_id = 1 } ∷ [])
    × (length (
          lines_of 1
            (append_segments 1
              (line_of 1 (104 ∷ []) ∷ line_of 2 (32 ∷ []) ∷ [])
              (with_row heard_row)).1)
        ≡ 1)
unfolding keep max_seq values_of is_blank without_nul is_space all append_segments
append_segments-Ascends_example =
    append_segments-Ascends 1 (line_of 1 (104 ∷ []) ∷ line_of 2 (32 ∷ []) ∷ []) (with_row heard_row)
      (omega arith, (omega arith, tt))

-- A window of 40 segments of 2 seconds, and a gap of 31 seconds: 15 segments back, a second lost.
rewind_run :
    rewind
      (pos 31000000)
      (record { segment_seconds = 2000000; segments = 40; ended = false })
      600000000
    ≡ record { live_start_index = some (negsuc 17); skipped = pos 1000000 }
unfolding rewind back_segments
rewind_run = refl

-- A chunk of 15 seconds.
abbrev chunk_file : File
chunk_file = record { size = some 480044; audio = 7 }

abbrev probe_live : Probe
probe_live = record {
  manifest_url = "https://example.org/live.m3u8";
  video_id = none;
  title = some "market open";
  channel = none;
  is_live = true;
  window = record { segment_seconds = 2000000; segments = 40; ended = false };
}

abbrev hears_hello : ℕ → Option Transcript
hears_hello audio = some (record { text = 104 ∷ 105 ∷ []; utterances = [] })

abbrev outside : Outside
outside = record {
  now = 200000000;
  monotonic = 50000000;
  is_stopping = false;
  probe = λ url. found probe_live;
  refuses = λ url. none;
  embed = λ platform video. none;
  take_files = λ i. chunk_file ∷ chunk_file ∷ [];
  is_running = λ i. true;
  exit_error = λ i. none;
  transcribe = hears_hello;
}

abbrev config : Config
config = record { max_sessions = 2; max_rewind_seconds = 600000000 }

abbrev world : World
world = record { runs = []; tables = with_row heard_row; recorders = 0 }

-- A queued capture is claimed and its recorder started.
tick_begins :
    ((tick outside config world).recorders ≡ 1)
    × (map (λ (s : Session). s.state) (tick outside config world).tables.sessions ≡ running ∷ [])
unfolding tick pending order_by place_row keep count left_behind keys release_all settle_all settle
    release lookup begin_capture start claimed update next_seq max_seq run_of insert connect_stream
    connected connect_plan rewind back_segments allowance_of describe described count_chunk
    accounted
tick_begins = (refl, refl)

abbrev run_one : Running
run_one = record {
  session_id = 1;
  source_url = "https://www.twitch.tv/somebody";
  platform = "twitch";
  chunk_seconds = 15;
  capture = true;
  next_seq = 1;
  chunk_seq = 0;
  offset = 30000000;
  wall_origin = pos 100000000;
  captured_until = some 130000000;
  held = [];
  allowance = 0;
  stalled_since = none;
  rewound = false;
  produced = true;
  no_rewind = false;
  failures = 0;
  retry_at = 0;
}

drain-conserves_example :
    (row : Session) × (find_session 1 (drain outside (run_one, with_row heard_row)).1.sessions
      ≡ some row)
    × (chunk_count row + length (drain outside (run_one, with_row heard_row)).0.held ≡ 4)
    × (row.captured_seconds + 30000000
        ≡ 30 + (drain outside (run_one, with_row heard_row)).0.offset)
unfolding find_session
drain-conserves_example = drain-conserves outside run_one (with_row heard_row) heard_row refl

-- A process with one capture, whose recorder is running.
abbrev busy_world : World
busy_world = record {
  runs = (1, run_one) ∷ [];
  tables = with_row (record heard_row { state = running });
  recorders = 1;
}

busy_world-IsSteady : IsSteady config busy_world
unfolding captures entries
busy_world-IsSteady = record {
  all_held = refl;
  one_entry = λ i. ground arith;
  own_key = (refl, tt);
  under_cap = omega arith;
}

tick-IsSteady_example : IsSteady config (tick outside config busy_world)
tick-IsSteady_example = tick-IsSteady config outside busy_world busy_world-IsSteady

shutdown-stops_example :
    ((shutdown false outside busy_world).runs ≡ [])
    × ((shutdown false outside busy_world).recorders ≡ 0)
shutdown-stops_example = shutdown-stops config false outside busy_world busy_world-IsSteady
