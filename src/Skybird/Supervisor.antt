-- ===== src/Skybird/Supervisor.antt =====
-- src/screener/skybird/supervisor.py: the state of the capture loop, and what it asks of the outside.
-- What yt-dlp, ffmpeg, the transcriber and the clock answer during a pass is an argument.
pub mod Hearing
pub mod Connecting
pub mod Ticking
pub mod Conservation
pub mod Recorders
pub mod Balance
pub mod Passes
use stock_aggregator.Prelude.{Dict, ℕ, String, Bool, Option, List}
use stock_aggregator.Prelude.Int.{ℤ, pos_part, add_ℤ, pos}
use stock_aggregator.Skybird.Session.{is_stopping}
use stock_aggregator.Skybird.Store.{Tables, start, next_seq}
use stock_aggregator.Skybird.Capture.{Probe}

-- A finished chunk on the tmpfs: its size in bytes, where it can be read, and what it holds.
pub record File : Type 0 where
  pub size : Option ℕ
  pub audio : ℕ

-- A timed line of a transcript, in microseconds and code points.
pub record Utterance : Type 0 where
  pub start : ℕ
  pub end : ℕ
  pub text : List ℕ

pub record Transcript : Type 0 where
  pub text : List ℕ
  pub utterances : List Utterance

-- `Running`. `capture` says whether it holds a recorder; `held` is oldest first.
pub record Running : Type 0 where
  pub session_id : ℕ
  pub source_url : String
  pub platform : String
  pub chunk_seconds : ℕ
  pub capture : Bool
  pub next_seq : ℕ
  pub chunk_seq : ℕ
  pub offset : ℕ
  pub wall_origin : ℤ
  pub captured_until : Option ℕ
  pub held : List File
  pub allowance : ℕ
  pub stalled_since : Option ℕ
  pub rewound : Bool
  pub produced : Bool
  pub no_rewind : Bool
  pub failures : ℕ
  pub retry_at : ℕ

pub data Probed : Type 0 where
  found : Probe → Probed
  probe_failed : String → Probed

-- What the outside answers during one pass, by session where it is a recorder's.
pub record Outside : Type 0 where
  pub now : ℕ
  pub monotonic : ℕ
  pub is_stopping : Bool
  pub probe : String → Probed
  pub refuses : String → Option String
  pub embed : String → String → Option String
  pub take_files : ℕ → List File
  pub is_running : ℕ → Bool
  pub exit_error : ℕ → Option String
  pub transcribe : ℕ → Option Transcript

pub record Config : Type 0 where
  pub max_sessions : ℕ
  pub max_rewind_seconds : ℕ

-- The process: its captures, the database, and the recorders started and not yet stopped.
pub record World : Type 0 where
  pub runs : Dict ℕ Running
  pub tables : Tables
  pub recorders : ℕ

abbrev pub max_failures : ℕ
max_failures = 5

abbrev pub retry_base_seconds : ℕ
retry_base_seconds = 2000000

abbrev pub max_retry_seconds : ℕ
max_retry_seconds = 60000000

abbrev pub max_pending_chunks : ℕ
max_pending_chunks = 8

abbrev pub chunks_per_tick : ℕ
chunks_per_tick = 4

abbrev pub transcriber_patience_seconds : ℕ
transcriber_patience_seconds = 90000000

abbrev pub min_audible_seconds : ℕ
min_audible_seconds = 500000

abbrev pub min_reported_loss_seconds : ℕ
min_reported_loss_seconds = 5000000

abbrev pub microseconds : ℕ
microseconds = 1000000

-- An instant on the clock of a run. None lies before the epoch.
abbrev pub instant : ℤ → ℕ → ℕ
instant origin offset = pos_part (add_ℤ origin (pos offset))
