-- ===== src/Skybird/Session.antt =====
-- The rows of src/screener/skybird/store.py: a session, its states and the lines of its transcript.
-- Instants are microseconds since the epoch and durations are microseconds.
use stock_aggregator.Prelude.{
  leb, nat_eq, keep, all, ℕ, String, Bool, true, false, not, ◌&&◌, ◌||◌, Option, none, some, List,
}

-- A column's text. Where the code writes a number into a message, its two parts stand around it, and where it
-- quotes another message, that follows.
pub data Note : Type 0 where
  said : String → Note
  counted : String → ℕ → String → Note
  quoted : String → String → Note

pub data State : Type 0 where
  requested starting running paused stopping stopped failed : State

-- `LIVE_STATES`
abbrev pub is_live : State → Bool
is_live stopped = false
is_live failed = false
is_live _ = true

-- `ACTIVE_STATES`
abbrev pub is_active : State → Bool
is_active stopped = false
is_active failed = false
is_active paused = false
is_active _ = true

abbrev pub is_requested : State → Bool
is_requested requested = true
is_requested _ = false

abbrev pub is_paused : State → Bool
is_paused paused = true
is_paused _ = false

abbrev pub is_stopping : State → Bool
is_stopping stopping = true
is_stopping _ = false

-- `state in ('starting','running')`
abbrev pub is_capturing : State → Bool
is_capturing starting = true
is_capturing running = true
is_capturing _ = false

-- The columns of `skybird.stream_session`.
pub record Session : Type 0 where
  pub id : ℕ
  pub platform : String
  pub external_id : String
  pub channel : Option String
  pub title : Option String
  pub source_url : String
  pub embed_url : Option String
  pub state : State
  pub stop_reason : Option String
  pub requested_by : String
  pub requested_at : ℕ
  pub started_at : Option ℕ
  pub stopped_at : Option ℕ
  pub chunk_seconds : ℕ
  pub chunks_ok : ℕ
  pub chunks_failed : ℕ
  pub chunks_dropped : ℕ
  pub last_error : Option Note
  pub captured_seconds : ℕ
  pub captured_until : Option ℕ
  pub restarts : ℕ

-- `StreamRef` of src/screener/skybird/platforms.
pub record StreamRef : Type 0 where
  pub platform : String
  pub external_id : String
  pub channel : Option String
  pub canonical_url : String
  pub embed_url : Option String

-- A line of the transcript. Its text is a list of code points.
pub record Segment : Type 0 where
  pub session_id : ℕ
  pub seq : ℕ
  pub chunk_seq : ℕ
  pub captured_at : ℕ
  pub offset_seconds : ℕ
  pub duration_seconds : ℕ
  pub text : List ℕ

-- `coalesce(new, old)`
abbrev pub coalesce : {A : Type 0} → Option A → Option A → Option A
coalesce none old = old
coalesce (some a) old = some a

-- Code points that `str.strip` takes away.
unfoldable pub is_space : ℕ → Bool
is_space c =
    leb 9 c && leb c 13
    || leb 28 c && leb c 32
    || nat_eq c 133
    || nat_eq c 160
    || nat_eq c 5760
    || leb 8192 c && leb c 8202
    || leb 8232 c && leb c 8233
    || nat_eq c 8239
    || nat_eq c 8287
    || nat_eq c 12288

-- `not text.strip()`
unfoldable pub is_blank : List ℕ → Bool
is_blank text = all is_space text

-- `text.replace("\x00", "")`
unfoldable pub without_nul : List ℕ → List ℕ
without_nul text = keep (λ c. not (nat_eq c 0)) text
