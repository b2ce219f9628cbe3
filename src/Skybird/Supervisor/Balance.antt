-- ===== src/Skybird/Supervisor/Balance.antt =====
-- The balance of recorders under `_release`, `_stumble` and `_connect_stream` of
-- src/screener/skybird/supervisor.py.
use stock_aggregator.Prelude.{
  ℕ_key, ltb, if◌then◌else◌, Bool-cases, Option-cases, Dict, lookup, insert, Outcome, ok, raised, ℕ,
  ◌+◌, ◌-◌, String, ◌≡◌, refl, inl, inr, Bool, true, false, not, ◌&&◌, Option, none, some, arith,
}
use stock_aggregator.Skybird.Session.{Note, State, quoted, stopped, failed}
use stock_aggregator.Skybird.Store.{Tables, finish, count_chunk}
use stock_aggregator.Skybird.Supervisor.{
  Running, Probed, Outside, Config, World, found, probe_failed,
}
use stock_aggregator.Skybird.Supervisor.Connecting.{
  release, put, finish_as, only_error, stumble, connected, connect_stream,
}
use stock_aggregator.Skybird.Supervisor.Recorders.{
  IsKeyed-insert, IsKeyed-remove, number_of, IsBalanced, captures-insert, length-insert,
  entries-insert, captures-remove, entries-remove, lookup-remove, lookup-insert_same,
}

abbrev pub IsSteady : Config → World → Type 0
IsSteady config w = IsBalanced config.max_sessions w.runs w.recorders

-- The process holds this capture, with a recorder or without one.
abbrev pub Holds : Running → World → Type 0
Holds run w =
    (old : Running) × (lookup run.session_id w.runs ≡ some old) × (old.capture ≡ run.capture)

pub replace-IsBalanced :
    (bound recorders now_recorders : ℕ) (runs : Dict ℕ Running) (new old : Running)
    → IsBalanced bound runs recorders
    → lookup new.session_id runs ≡ some old
    → now_recorders + number_of old.capture ≡ recorders + number_of new.capture
    → IsBalanced bound (insert new.session_id new runs) now_recorders
replace-IsBalanced bound recorders now_recorders runs new old b e same = record {
  all_held = omega (arith, captures-insert new.session_id new old runs e, b.all_held, same);
  one_entry = entries-insert new.session_id new runs b.one_entry;
  own_key = IsKeyed-insert new runs b.own_key;
  under_cap = omega (arith, length-insert new.session_id new old runs e, b.under_cap);
}

pub put-IsSteady :
    (config : Config) (run : Running) (w : World)
    → IsSteady config w
    → Holds run w
    → IsSteady config (put run w) × Holds run (put run w)
put-IsSteady config run w b (old, e, same) = (
  replace-IsBalanced config.max_sessions w.recorders w.recorders w.runs run old b e (rw same refl),
  (run, lookup-insert_same run.session_id run w.runs, refl),
)

pub release-IsSteady :
    (config : Config) (i : ℕ) (w : World)
    → IsSteady config w
    → IsSteady config (release i w) × (lookup i (release i w).runs ≡ none)
unfolding release
release-IsSteady config i w b = elim (Option-cases (lookup i w.runs)) [
  | inl missing ↦ rw (missing, release) (b, missing)
  | inr (run, e) ↦
      let taken = captures-remove i run w.runs e in
      rw (e, release)
        (
          record {
            all_held = fewer run.capture w.recorders _ _ b.all_held taken.0;
            one_entry = λ k. omega (arith, entries-remove k i w.runs, b.one_entry k);
            own_key = IsKeyed-remove i w.runs b.own_key;
            under_cap = omega (arith, taken.1, b.under_cap);
          },
          lookup-remove i w.runs (b.one_entry i),
        )
]
  where
    fewer :
        (capture : Bool) (recorders before after : ℕ)
        → recorders ≡ before
        → after + number_of capture ≡ before
        → (if capture then recorders - 1 else recorders) ≡ after
    fewer true recorders before after e f = omega (arith, e, f)
    fewer false recorders before after e f = omega (arith, e, f)

pub finish_as-IsSteady :
    (config : Config) (now i : ℕ) (state : State) (reason : String) (error : Option Note)
    (w : World)
    → IsSteady config w
    → IsSteady config (finish_as now i state reason error w)
unfolding finish_as
finish_as-IsSteady config now i state reason error w b =
    go (finish now i state reason error w.tables)
  where
    go :
        (o : Outcome Tables)
        → IsSteady config (elim o as (λ _. World) [ raised e ↦ w | ok t ↦ record w { tables = t } ])
    go (ok t) = b
    go (raised e) = b

stumble_told-IsSteady :
    (config : Config) (outside : Outside) (run : Running) (error : Option Note) (retry_at : ℕ)
    (over : Bool) (w : World)
    → IsSteady config w
    → Holds run w
    → IsSteady config (
        if over
        then finish_as outside.now run.session_id failed "could not stay connected" error
            (release run.session_id (put (record run { failures = run.failures + 1 }) w))
        else put (record run { failures = run.failures + 1; retry_at = retry_at }) w)
stumble_told-IsSteady config outside run error retry_at true w b h =
    finish_as-IsSteady config outside.now run.session_id failed "could not stay connected" error _
      (release-IsSteady config run.session_id _
        (put-IsSteady config (record run { failures = run.failures + 1 }) w b h).0).0
stumble_told-IsSteady config outside run error retry_at false w b h =
    (put-IsSteady config (record run { failures = run.failures + 1; retry_at = retry_at }) w b h).0

pub stumble-IsSteady :
    (config : Config) (outside : Outside) (run : Running) (error : Option Note) (quiet : Bool)
    (w : World)
    → IsSteady config w
    → Holds run w
    → IsSteady config (stumble outside run error quiet w)
unfolding stumble
stumble-IsSteady config outside run error true w b h =
    stumble_told-IsSteady config outside run error _ _ w b h
stumble-IsSteady config outside run error false w b h =
    stumble_told-IsSteady config outside run error _ _
      (record w { tables = count_chunk run.session_id (only_error error) w.tables }) b h

pub connect_stream-IsSteady :
    (config : Config) (outside : Outside) (run : Running) (w : World)
    → IsSteady config w
    → Holds run w
    → run.capture ≡ false
    → IsSteady config (connect_stream outside config run w)
unfolding connect_stream connected
connect_stream-IsSteady config outside run w b (old, e, same) idle =
    go (outside.probe run.source_url)
  where
    go :
        (answer : Probed)
        → IsSteady config (elim answer as (λ _. World) [
          | probe_failed why ↦
              stumble outside run (some (quoted "could not reach the stream: " why)) false w
          | found p ↦
              if not p.is_live && ltb 0 run.offset
              then finish_as outside.now run.session_id stopped "stream_ended" none
                  (release run.session_id w)
              else elim (outside.refuses p.manifest_url) as (λ _. World) [
                | some why ↦
                    stumble outside run (some (quoted "could not start ffmpeg: " why)) false w
                | none ↦ connected outside config run p w
              ]
        ])
    go (probe_failed why) = stumble-IsSteady config outside run _ false w b (old, e, same)
    go (found p) = elim (Bool-cases (not p.is_live && ltb 0 run.offset)) [
      | inl over ↦ rw over (
          finish_as-IsSteady config outside.now run.session_id stopped "stream_ended" none _
            (release-IsSteady config run.session_id w b).0)
      | inr live ↦ elim (Option-cases (outside.refuses p.manifest_url)) [
        | inr (why, refused) ↦
            rw (live, refused) (stumble-IsSteady config outside run _ false w b (old, e, same))
        | inl granted ↦
            rw (live, granted)
              (replace-IsBalanced config.max_sessions w.recorders (w.recorders + 1) w.runs _ old b e
                (rw (same, idle) (omega arith)))
      ]
    ]
