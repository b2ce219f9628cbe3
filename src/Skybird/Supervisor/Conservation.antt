-- ===== src/Skybird/Supervisor/Conservation.antt =====
-- A pass of `_drain` of src/screener/skybird/supervisor.py: the chunks and the two clocks, of the
-- run and of its row.
use stock_aggregator.Prelude.{
  ltb, leb, if◌then◌else◌, Bool-cases, Option-cases, length, length-append, ℕ, zero, suc, ◌+◌, ◌-◌,
  ◌≤◌, ◌≡◌, refl, sym, ◌∙◌, subst, inl, inr, Bool, true, false, Option, none, some, List, [], ◌∷◌,
  arith,
}
use stock_aggregator.Skybird.Session.{Note, Session}
use stock_aggregator.Skybird.Store.{Tables, find_session, accounted, append_segments}
use stock_aggregator.Skybird.Store.Pausing.{find_session-count_chunk}
use stock_aggregator.Skybird.Capture.{chunk_seconds_of}
use stock_aggregator.Skybird.Supervisor.{
  File, Transcript, Running, Outside, max_pending_chunks, chunks_per_tick,
  transcriber_patience_seconds, min_audible_seconds,
}
use stock_aggregator.Skybird.Supervisor.Hearing.{
  account, heard_chunk, unheard_chunk, hear, drop, shed, hear_some, take_in, drain,
}

-- The chunks that a row has counted, one way or another.
abbrev pub chunk_count : Session → ℕ
chunk_count s = s.chunks_ok + s.chunks_failed + s.chunks_dropped

-- Some chunks are counted on the row, and both clocks move by the same.
pub record IsMoved (chunks : ℕ) (s : Session) (before : Running) (after : Running × Tables)
    : Type 0 where
  pub row : Session
  pub row_found : find_session before.session_id after.1.sessions ≡ some row
  pub same_id : after.0.session_id ≡ before.session_id
  pub counted_once : chunk_count row ≡ chunk_count s + chunks
  pub same_clock : row.captured_seconds + before.offset ≡ s.captured_seconds + after.0.offset

IsMoved-then :
    (m n : ℕ) (s : Session) (before : Running) (mid after : Running × Tables)
    (first : IsMoved m s before mid)
    → IsMoved n first.row mid.0 after
    → IsMoved (m + n) s before after
IsMoved-then m n s before mid after first second = record {
  row = second.row;
  row_found =
      subst (λ i. find_session i after.1.sessions ≡ some second.row) first.same_id second.row_found;
  same_id = second.same_id ∙ first.same_id;
  counted_once = omega (arith, first.counted_once, second.counted_once);
  same_clock = omega (arith, first.same_clock, second.same_clock);
}

account-IsMoved :
    (seconds ok_count failed_count : ℕ) (error : Option Note) (run : Running) (t : Tables)
    (s : Session)
    → find_session run.session_id t.sessions ≡ some s
    → IsMoved (ok_count + failed_count) s run (account seconds ok_count failed_count error (run, t))
unfolding account accounted
account-IsMoved seconds ok_count failed_count error run t s e = record {
  row = _;
  row_found = find_session-count_chunk run.session_id _ t s e;
  same_id = refl;
  counted_once = omega arith;
  same_clock = omega arith;
}

heard_chunk-IsMoved :
    (heard : Transcript) (seconds : ℕ) (run : Running) (t : Tables) (s : Session)
    → find_session run.session_id t.sessions ≡ some s
    → IsMoved 1 s run (heard_chunk heard seconds (run, t))
unfolding heard_chunk account accounted append_segments
heard_chunk-IsMoved heard seconds run t s e = record {
  row = _;
  row_found = find_session-count_chunk run.session_id _ _ s e;
  same_id = refl;
  counted_once = omega arith;
  same_clock = omega arith;
}

-- The row is found by the run as it is afterwards.
still_there :
    {chunks : ℕ} (s : Session) (before : Running) (after : Running × Tables)
    (m : IsMoved chunks s before after)
    → find_session after.0.session_id after.1.sessions ≡ some m.row
still_there s before after m =
    subst (λ i. find_session i after.1.sessions ≡ some m.row) (sym m.same_id) m.row_found

-- One chunk where it is accounted for, none where it is kept for later.
abbrev number_of : Bool → ℕ
number_of true = 1
number_of false = 0

IsMoved-none :
    (s : Session) (run after : Running) (t : Tables)
    → find_session run.session_id t.sessions ≡ some s
    → after.session_id ≡ run.session_id
    → after.offset ≡ run.offset
    → IsMoved 0 s run (after, t)
IsMoved-none s run after t e same clock = record {
  row = s;
  row_found = e;
  same_id = same;
  counted_once = omega arith;
  same_clock = omega (arith, clock);
}

unheard_chunk-IsMoved :
    (outside : Outside) (seconds : ℕ) (run : Running) (t : Tables) (s : Session)
    → find_session run.session_id t.sessions ≡ some s
    → IsMoved
        (number_of (unheard_chunk outside seconds (run, t)).0)
        s
        run
        (unheard_chunk outside seconds (run, t)).1
unfolding unheard_chunk account accounted
unheard_chunk-IsMoved outside seconds run t s e =
    elim (Bool-cases (
      ltb
        (outside.monotonic
          - (elim run.stalled_since as (λ _. ℕ) [ none ↦ outside.monotonic | some at ↦ at ]))
        transcriber_patience_seconds)) [
          | inl patient ↦ rw patient (IsMoved-none s run _ t e refl refl)
          | inr late ↦ rw late (record {
            row = _;
            row_found = find_session-count_chunk run.session_id _ t s e;
            same_id = refl;
            counted_once = omega arith;
            same_clock = omega arith;
          })
        ]

hear-IsMoved :
    (outside : Outside) (file : File) (run : Running) (t : Tables) (s : Session)
    → find_session run.session_id t.sessions ≡ some s
    → IsMoved (number_of (hear outside file (run, t)).0) s run (hear outside file (run, t)).1
unfolding hear
hear-IsMoved outside file run t s e = elim (Option-cases file.size) [
  | inl unread ↦ rw unread (account-IsMoved _ 0 1 _ run t s e)
  | inr (size, known) ↦ elim (Bool-cases (ltb (chunk_seconds_of size) min_audible_seconds)) [
    | inl sliver ↦ rw (known, sliver) (account-IsMoved _ 1 0 _ run t s e)
    | inr audible ↦ elim (Option-cases (outside.transcribe file.audio)) [
      | inl silent ↦
          rw (known, audible, silent)
            (unheard_chunk-IsMoved outside (chunk_seconds_of size) run t s e)
      | inr (heard, answered) ↦
          rw (known, audible, answered)
            (heard_chunk-IsMoved heard (chunk_seconds_of size) run t s e)
    ]
  ]
]

-- What is counted and what is still held make up what was there.
record IsConserved (s : Session) (before : Running) (chunks : ℕ) (after : Running × Tables)
    : Type 0 where
  moved_count : ℕ
  moved : IsMoved moved_count s before after
  none_lost : moved_count + length after.0.held ≡ chunks

choose :
    (P : Running × Tables → Type 0) (stop done : Bool) {x y z : Running × Tables}
    → P x
    → (done ≡ true → P y)
    → (done ≡ false → P z)
    → P (if stop then x else if done then y else z)
choose P true done px py pz = px
choose P false true px py pz = py refl
choose P false false px py pz = pz refl

hear_some-IsConserved :
    (n : ℕ) (outside : Outside) (held : List File) (run : Running) (t : Tables) (s : Session)
    → find_session run.session_id t.sessions ≡ some s
    → IsConserved s run (length held) (hear_some n outside held (run, t))
unfolding hear_some
hear_some-IsConserved zero outside held run t s e = record {
  moved_count = 0;
  moved = IsMoved-none s run _ t e refl refl;
  none_lost = omega arith;
}
hear_some-IsConserved (suc n) outside [] run t s e = record {
  moved_count = 0;
  moved = IsMoved-none s run _ t e refl refl;
  none_lost = omega arith;
}
hear_some-IsConserved (suc n) outside (file ∷ held) run t s e =
    let one = hear outside file (run, t) in
    let first = hear-IsMoved outside file run t s e in
    choose (IsConserved s run (length (file ∷ held))) outside.is_stopping one.0
      (record {
        moved_count = 0;
        moved = IsMoved-none s run _ t e refl refl;
        none_lost = omega arith;
      })
      (λ done.
        let heard : IsMoved 1 s run one.1 =
          subst (λ b. IsMoved (number_of b) s run one.1) done first in
        let rest =
          hear_some-IsConserved n outside held one.1.0 one.1.1 heard.row
            (still_there s run one.1 heard) in
        record {
          moved_count = 1 + rest.moved_count;
          moved = IsMoved-then 1 rest.moved_count s run one.1 _ heard rest.moved;
          none_lost = omega (arith, rest.none_lost);
        })
      (λ waiting.
        let kept : IsMoved 0 s run one.1 =
          subst (λ b. IsMoved (number_of b) s run one.1) waiting first in
        record {
          moved_count = 0;
          moved = record {
            row = kept.row;
            row_found = kept.row_found;
            same_id = kept.same_id;
            counted_once = kept.counted_once;
            same_clock = kept.same_clock;
          };
          none_lost = omega arith;
        })

length-drop :
    (n : ℕ) (files : List File) → n ≤ length files → n + length (drop n files) ≡ length files
length-drop zero files le = omega arith
length-drop (suc n) [] le = omega (arith, le)
length-drop (suc n) (file ∷ files) le = omega (arith, length-drop n files (omega (arith, le)))

shed-IsConserved :
    (run : Running) (t : Tables) (s : Session)
    → find_session run.session_id t.sessions ≡ some s
    → IsConserved s run (length run.held) (shed (run, t))
unfolding shed accounted
shed-IsConserved run t s e =
    let excess = length run.held - (max_pending_chunks + run.allowance) in
    elim (Bool-cases (leb excess 0)) [
      | inl fits ↦ rw fits (record {
        moved_count = 0;
        moved = IsMoved-none s run _ t e refl refl;
        none_lost = omega arith;
      })
      | inr over ↦ rw over (record {
        moved_count = excess;
        moved = record {
          row = _;
          row_found = find_session-count_chunk run.session_id _ t s e;
          same_id = refl;
          counted_once = omega arith;
          same_clock = omega arith;
        };
        none_lost = length-drop excess run.held (omega arith);
      })
    ]

take_in-held :
    (files : List File) (run : Running)
    → (length (take_in files run).held ≡ length run.held + length files)
      × ((take_in files run).session_id ≡ run.session_id)
      × ((take_in files run).offset ≡ run.offset)
unfolding take_in
take_in-held [] run = (omega arith, refl, refl)
take_in-held (file ∷ files) run = (length-append run.held (file ∷ files), refl, refl)

-- After a pass over the chunks of a capture whose row is there, the row is still there; the chunks
-- that it has counted (heard, failed or dropped) and the chunks that are still held are together
-- those of before and those that the recorder has finished since, none lost and none counted twice;
-- and the row's captured seconds have moved by exactly what the run's offset has moved.
pub drain-conserves :
    (outside : Outside) (run : Running) (t : Tables) (s : Session)
    → find_session run.session_id t.sessions ≡ some s
    → (row : Session) × (find_session run.session_id (drain outside (run, t)).1.sessions ≡ some row)
      × (chunk_count row + length (drain outside (run, t)).0.held
          ≡ chunk_count s + length run.held + length (outside.take_files run.session_id))
      × (row.captured_seconds + run.offset ≡ s.captured_seconds + (drain outside (run, t)).0.offset)
unfolding drain
drain-conserves outside run t s e =
    let files = outside.take_files run.session_id in
    let (more, same, clock) = take_in-held files run in
    let run' = take_in files run in
    let shedding =
      shed-IsConserved run' t s (subst (λ i. find_session i t.sessions ≡ some s) (sym same) e) in
    let kept = shed (run', t) in
    let hearing =
      hear_some-IsConserved chunks_per_tick outside kept.0.held kept.0 kept.1 shedding.moved.row
        (still_there s run' kept shedding.moved) in
    let both =
      IsMoved-then shedding.moved_count hearing.moved_count s run' kept _ shedding.moved
        hearing.moved in
    (
      both.row,
      subst (λ i. find_session i (drain outside (run, t)).1.sessions ≡ some both.row) same
          both.row_found,
      omega (arith, both.counted_once, shedding.none_lost, hearing.none_lost, more),
      omega (arith, both.same_clock, clock),
    )
