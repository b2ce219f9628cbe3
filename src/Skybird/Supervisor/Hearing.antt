-- ===== src/Skybird/Supervisor/Hearing.antt =====
-- `_account`, `_hear`, `_shed`, `_drain` and `_utterances` of src/screener/skybird/supervisor.py: a
-- run and the tables in, the run and the tables out.
use stock_aggregator.Prelude.{
  ltb, leb, if◌then◌else◌, length, take, keep, ℕ, zero, suc, ◌+◌, ◌-◌, ◌*◌, Bool, true, false, not,
  Option, none, some, List, [], ◌∷◌, ◌++◌,
}
use stock_aggregator.Skybird.Session.{Note, Segment, is_blank, said, counted}
use stock_aggregator.Skybird.Store.{Tables, count_chunk, append_segments}
use stock_aggregator.Skybird.Capture.{chunk_seconds_of}
use stock_aggregator.Skybird.Supervisor.{
  File, Utterance, Transcript, Running, Outside, max_pending_chunks, chunks_per_tick,
  transcriber_patience_seconds, min_audible_seconds, microseconds, instant,
}

unfoldable pub account : ℕ → ℕ → ℕ → Option Note → Running × Tables → Running × Tables
account seconds ok_count failed_count error (run, t) =
    let offset = run.offset + seconds in
    let until = instant run.wall_origin offset in
    (
      record run {
        offset = offset;
        chunk_seq = run.chunk_seq + 1;
        captured_until = some until;
        allowance = run.allowance - 1;
      },
      count_chunk run.session_id
          (record {
            ok_count = ok_count;
            failed_count = failed_count;
            dropped_count = 0;
            seconds = seconds;
            until = some until;
            error = error;
          })
          t,
    )

-- The chunk as timed lines.
unfoldable pub utterances : Transcript → ℕ → List Utterance
utterances heard chunk_seconds =
    if leb 1 (length heard.utterances)
    then keep (λ (u : Utterance). not (is_blank u.text)) heard.utterances
    else if is_blank heard.text
    then []
    else record { start = 0; end = chunk_seconds; text = heard.text } ∷ []

-- The rows of a chunk, numbered from the next number on.
unfoldable pub rows_from : Running → ℕ → List Utterance → List Segment
rows_from run seq [] = []
rows_from run seq (u ∷ lines) =
    record {
      session_id = run.session_id;
      seq = seq;
      chunk_seq = run.chunk_seq;
      captured_at = instant run.wall_origin (run.offset + u.start);
      offset_seconds = run.offset + u.start;
      duration_seconds = u.end - u.start;
      text = u.text;
    }
    ∷ rows_from run (seq + 1) lines

-- A chunk that was heard: its lines and the clock.
unfoldable pub heard_chunk : Transcript → ℕ → Running × Tables → Running × Tables
heard_chunk heard seconds (run, t) =
    let calm = record run { stalled_since = none } in
    let lines = rows_from calm calm.next_seq (utterances heard seconds) in
    let stored = append_segments calm.session_id lines t in
    let moved = account seconds 1 0 none (calm, stored.1) in
    (record (moved.0) { next_seq = calm.next_seq + stored.0 }, moved.1)

-- A chunk that the transcriber did not answer for: kept for later while patience lasts.
unfoldable pub unheard_chunk : Outside → ℕ → Running × Tables → Bool × (Running × Tables)
unheard_chunk outside seconds (run, t) =
    let since : ℕ = elim run.stalled_since [ none ↦ outside.monotonic | some at ↦ at ] in
    let waiting = record run { stalled_since = some since } in
    if ltb (outside.monotonic - since) transcriber_patience_seconds
    then (false, (waiting, t))
    else (true, account seconds 0 1 (some (said "the transcriber did not answer")) (waiting, t))

-- `_hear`: true where the chunk is accounted for.
unfoldable pub hear : Outside → File → Running × Tables → Bool × (Running × Tables)
hear outside file (run, t) = elim file.size [
  | none ↦ (
    true,
    account (run.chunk_seconds * microseconds) 0 1
        (some (said "a chunk went missing before it was read")) (run, t),
  )
  | some size ↦
      let seconds = chunk_seconds_of size in
      if ltb seconds min_audible_seconds
      then (true, account seconds 1 0 none (run, t))
      else elim (outside.transcribe file.audio) [
        | none ↦ unheard_chunk outside seconds (run, t)
        | some heard ↦ (true, heard_chunk heard seconds (run, t))
      ]
]

-- `_discard`: the seconds of a chunk that is thrown away.
unfoldable pub discard : File → ℕ
discard file = elim file.size [ none ↦ 0 | some size ↦ chunk_seconds_of size ]

unfoldable pub discard_all : List File → ℕ
discard_all [] = 0
discard_all (file ∷ files) = discard file + discard_all files

abbrev pub drop : ℕ → List File → List File
drop zero files = files
drop (suc n) [] = []
drop (suc n) (file ∷ files) = drop n files

unfoldable pub shed : Running × Tables → Running × Tables
shed (run, t) =
    let excess = length run.held - (max_pending_chunks + run.allowance) in
    let lost = discard_all (take excess run.held) in
    let offset = run.offset + lost in
    let until = instant run.wall_origin offset in
    if leb excess 0 then (run, t) else (
      record run { held = drop excess run.held; offset = offset; captured_until = some until },
      count_chunk run.session_id
          (record {
            ok_count = 0;
            failed_count = 0;
            dropped_count = excess;
            seconds = lost;
            until = some until;
            error = some (counted "dropped " excess " chunk(s): the transcriber is behind");
          })
          t,
    )

-- The chunks of one pass: at most `n`, the oldest first.
unfoldable pub hear_some : ℕ → Outside → List File → Running × Tables → Running × Tables
hear_some zero outside held (run, t) = (record run { held = held }, t)
hear_some (suc n) outside [] (run, t) = (record run { held = [] }, t)
hear_some (suc n) outside (file ∷ held) (run, t) =
    let first = hear outside file (run, t) in
    let rest = hear_some n outside held first.1 in
    if outside.is_stopping
    then (record run { held = file ∷ held }, t)
    else if first.0
    then rest
    else (record (first.1.0) { held = file ∷ held }, first.1.1)

-- What a recorder has finished goes to the end of the queue.
unfoldable pub take_in : List File → Running → Running
take_in [] run = run
take_in (file ∷ files) run = record run {
  failures = 0;
  produced = true;
  held = run.held ++ file ∷ files;
}

unfoldable pub drain : Outside → Running × Tables → Running × Tables
drain outside (run, t) =
    let kept = shed (take_in (outside.take_files run.session_id) run, t) in
    hear_some chunks_per_tick outside kept.0.held kept
