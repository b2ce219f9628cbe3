-- ===== src/Skybird/Store.antt =====
-- src/screener/skybird/store.py: every statement on the tables of a capture. The database is the
-- state that is passed along; `now()` is an argument of the statements that read it.
pub mod Steps
pub mod Live
pub mod Ending
pub mod Pausing
pub mod Restarting
pub mod Lines
use stock_aggregator.Prelude.{
  ltb, leb, nat_eq, if◌then◌else◌, ◌==◌, length, take, keep, count, Outcome, value_error,
  already_live, ok, raised, ℕ, ◌+◌, max, String, Bool, true, not, ◌&&◌, ◌||◌, Option, none, some,
  List, [], ◌∷◌, ◌++◌, map, ℕ_key, String_key,
}
use stock_aggregator.Skybird.Session.{
  Note, State, is_live, is_active, is_requested, is_paused, is_stopping, is_capturing, Session,
  StreamRef, Segment, coalesce, is_blank, without_nul, counted, requested, starting, running,
  paused, stopping, stopped, failed,
}

pub record Tables : Type 0 where
  pub sessions : List Session
  pub lines : List Segment
  pub next_id : ℕ

-- `where id = %s and <test on the state>`
abbrev pub at_id : ℕ → (State → Bool) → Session → Bool
at_id session_id test s = s.id == session_id && test s.state

abbrev pub any_state : State → Bool
any_state state = true

-- `update … set … where …`: the rows in place, and how many there were.
unfoldable pub update : (Session → Bool) → (Session → Session) → List Session → List Session
update test change [] = []
update test change (s ∷ rows) = (if test s then change s else s) ∷ update test change rows

-- The statement and its `rowcount == 1`.
abbrev pub update_one : (Session → Bool) → (Session → Session) → Tables → Bool × Tables
update_one test change t =
    (nat_eq (count test t.sessions) 1, record t { sessions = update test change t.sessions })

-- The columns that the partial unique index covers, on the rows that it covers.
abbrev pub holds_stream : String → String → Session → Bool
holds_stream platform external_id s =
    is_live s.state && s.platform == platform && s.external_id == external_id

unfoldable pub new_session : ℕ → ℕ → StreamRef → String → ℕ → Session
new_session session_id now ref requested_by chunk_seconds = record {
  id = session_id;
  platform = ref.platform;
  external_id = ref.external_id;
  channel = ref.channel;
  title = none;
  source_url = ref.canonical_url;
  embed_url = ref.embed_url;
  state = requested;
  stop_reason = none;
  requested_by = requested_by;
  requested_at = now;
  started_at = none;
  stopped_at = none;
  chunk_seconds = chunk_seconds;
  chunks_ok = 0;
  chunks_failed = 0;
  chunks_dropped = 0;
  last_error = none;
  captured_seconds = 0;
  captured_until = none;
  restarts = 0;
}

-- The identity column moves on where the insert is refused, too.
unfoldable pub create : ℕ → StreamRef → String → ℕ → Tables → Outcome Session × Tables
create now ref requested_by chunk_seconds t =
    let taken = leb 1 (count (holds_stream ref.platform ref.external_id) t.sessions) in
    let s = new_session t.next_id now ref requested_by chunk_seconds in
    if taken
    then (raised already_live, record t { next_id = t.next_id + 1 })
    else (ok s, record t { sessions = t.sessions ++ s ∷ []; next_id = t.next_id + 1 })

unfoldable pub find_session : ℕ → List Session → Option Session
find_session session_id [] = none
find_session session_id (s ∷ rows) =
    if s.id == session_id then some s else find_session session_id rows

abbrev pub lines_of : ℕ → Tables → List Segment
lines_of session_id t = keep (λ (l : Segment). l.session_id == session_id) t.lines

unfoldable pub newest_line : List Segment → Option ℕ
newest_line [] = none
newest_line (l ∷ lines) = elim (newest_line lines) [
  | none ↦ some l.captured_at
  | some at ↦ some (max l.captured_at at)
]

-- The row with its `segment_count` and `last_segment_at`.
unfoldable pub get : ℕ → Tables → Option (Session × ℕ × Option ℕ)
get session_id t = elim (find_session session_id t.sessions) [
  | none ↦ none
  | some s ↦ some (s, length (lines_of session_id t), newest_line (lines_of session_id t))
]

-- Insertion sort by a Boolean order, equal rows in the order in which they are stored.
unfoldable pub place_row : {A : Type 0} → (A → A → Bool) → A → List A → List A
place_row before a [] = a ∷ []
place_row before a (b ∷ rows) = if before b a then b ∷ place_row before a rows else a ∷ b ∷ rows

unfoldable pub order_by : {A : Type 0} → (A → A → Bool) → List A → List A
order_by before [] = []
order_by before (a ∷ rows) = place_row before a (order_by before rows)

-- `order by live desc, requested_at desc`
abbrev pub listed_before : Session → Session → Bool
listed_before a b =
    if is_live a.state
    then not (is_live b.state) || ltb b.requested_at a.requested_at
    else not (is_live b.state) && ltb b.requested_at a.requested_at

unfoldable pub listing : ℕ → Tables → List Session
listing limit t = take limit (order_by listed_before t.sessions)

unfoldable pub active_count : Tables → ℕ
active_count t = count (λ (s : Session). is_active s.state) t.sessions

unfoldable pub pending : Tables → List Session
pending t =
    order_by (λ (a b : Session). ltb a.requested_at b.requested_at)
      (keep (λ (s : Session). is_live s.state) t.sessions)

unfoldable pub claimed : Session → Session
claimed s = record s { state = starting; last_error = none }

unfoldable pub start : ℕ → Tables → Bool × Tables
start session_id = update_one (at_id session_id is_requested) claimed

-- What a probe learned, set on one row.
unfoldable pub described :
    ℕ → Option String → Option String → Option String → Bool → Session → Session
described now title channel embed_url now_running s =
    let begins = now_running && is_capturing s.state in
    record s {
      title = coalesce title s.title;
      channel = coalesce channel s.channel;
      embed_url = coalesce embed_url s.embed_url;
      state = if begins then running else s.state;
      started_at = if begins then coalesce s.started_at (some now) else s.started_at;
    }

unfoldable pub describe :
    ℕ → ℕ → Option String → Option String → Option String → Bool → Tables → Tables
describe now session_id title channel embed_url now_running t = record t {
  sessions =
      update (at_id session_id any_state) (described now title channel embed_url now_running)
        t.sessions;
}

-- `state in ('requested','starting','running','paused')`
abbrev pub can_stop : State → Bool
can_stop state = is_live state && not (is_stopping state)

-- `state in ('requested','paused')`
abbrev pub has_no_process : State → Bool
has_no_process state = is_requested state || is_paused state

unfoldable pub stop_asked : ℕ → Session → Session
stop_asked now s = record s {
  state = if has_no_process s.state then stopped else stopping;
  stopped_at = if has_no_process s.state then some now else s.stopped_at;
  stop_reason = some "asked to stop";
}

unfoldable pub request_stop : ℕ → ℕ → Tables → Bool × Tables
request_stop now session_id = update_one (at_id session_id can_stop) (stop_asked now)

-- `state in ('requested','starting','running')`
abbrev pub can_pause : State → Bool
can_pause state = is_requested state || is_capturing state

unfoldable pub put_on_hold : Session → Session
put_on_hold s = record s { state = paused; stop_reason = none }

unfoldable pub pause : ℕ → Tables → Bool × Tables
pause session_id = update_one (at_id session_id can_pause) put_on_hold

unfoldable pub requeued : Session → Session
requeued s = record s { state = requested; last_error = none; captured_until = none }

unfoldable pub resume : ℕ → Tables → Bool × Tables
resume session_id = update_one (at_id session_id is_paused) requeued

-- `state not in {"stopped", "failed"}` is `is_live`.
unfoldable pub ended : ℕ → State → String → Option Note → Session → Session
ended now state reason error s = record s {
  state = state;
  stop_reason = some reason;
  stopped_at = some now;
  last_error = coalesce error s.last_error;
}

unfoldable pub finish : ℕ → ℕ → State → String → Option Note → Tables → Outcome Tables
finish now session_id state reason error t =
    let rows = update (at_id session_id any_state) (ended now state reason error) t.sessions in
    if is_live state then raised value_error else ok (record t { sessions = rows })

abbrev pub max_restarts : ℕ
max_restarts = 3

-- `state in ('starting','running','stopping')`
abbrev pub has_process : State → Bool
has_process state = is_capturing state || is_stopping state

unfoldable pub settled : ℕ → ℕ → Session → Session
settled now bound s =
    let asked = is_stopping s.state in
    let spent = leb bound s.restarts in
    record s {
      state = if asked then stopped else if spent then failed else requested;
      stop_reason = if not asked && spent then some "supervisor_restart" else s.stop_reason;
      stopped_at = if asked || spent then some now else s.stopped_at;
      last_error =
          if not asked && spent
          then some (counted "restarted " s.restarts " times without capturing anything in between")
          else s.last_error;
      restarts = if asked then s.restarts else s.restarts + 1;
    }

unfoldable pub reconcile : ℕ → ℕ → Tables → ℕ × Tables
reconcile now bound t =
    let test = λ (s : Session). has_process s.state in
    (count test t.sessions, record t { sessions = update test (settled now bound) t.sessions })

-- The keyword arguments of `count_chunk`.
pub record Chunk : Type 0 where
  pub ok_count : ℕ
  pub failed_count : ℕ
  pub dropped_count : ℕ
  pub seconds : ℕ
  pub until : Option ℕ
  pub error : Option Note

unfoldable pub accounted : Chunk → Session → Session
accounted c s = record s {
  chunks_ok = s.chunks_ok + c.ok_count;
  chunks_failed = s.chunks_failed + c.failed_count;
  chunks_dropped = s.chunks_dropped + c.dropped_count;
  captured_seconds = s.captured_seconds + c.seconds;
  captured_until =
      if is_capturing s.state then coalesce c.until s.captured_until else s.captured_until;
  restarts = if ltb 0 c.seconds then 0 else s.restarts;
  last_error = coalesce c.error s.last_error;
}

unfoldable pub count_chunk : ℕ → Chunk → Tables → Tables
count_chunk session_id c t = record t {
  sessions = update (at_id session_id any_state) (accounted c) t.sessions;
}

unfoldable pub max_seq : List Segment → ℕ
max_seq [] = 0
max_seq (l ∷ lines) = max l.seq (max_seq lines)

unfoldable pub next_seq : ℕ → Tables → ℕ
next_seq session_id t = max_seq (lines_of session_id t) + 1

-- `on conflict (session_id, seq) do nothing`
unfoldable pub insert_line : Segment → List Segment → List Segment
insert_line line lines =
    let taken =
      leb 1 (count (λ (l : Segment). l.session_id == line.session_id && l.seq == line.seq) lines) in
    if taken then lines else lines ++ line ∷ []

unfoldable pub insert_lines : List Segment → List Segment → List Segment
insert_lines [] lines = lines
insert_lines (line ∷ values) lines = insert_lines values (insert_line line lines)

-- What `append_segments` stores of the rows it is given.
unfoldable pub values_of : List Segment → List Segment
values_of rows =
    keep (λ (l : Segment). not (is_blank l.text))
      (map (λ (l : Segment). record l { text = without_nul l.text }) rows)

unfoldable pub append_segments : ℕ → List Segment → Tables → ℕ × Tables
append_segments session_id rows t =
    let values = values_of (map (λ (l : Segment). record l { session_id = session_id }) rows) in
    (length values, record t { lines = insert_lines values t.lines })

unfoldable pub segments : ℕ → ℕ → ℕ → Tables → List Segment
segments session_id after limit t = take limit (
    order_by (λ (a b : Segment). ltb a.seq b.seq)
      (keep (λ (l : Segment). ltb after l.seq) (lines_of session_id t)))

-- The lines go with the row (`on delete cascade`).
unfoldable pub delete : ℕ → Tables → Bool × Tables
delete session_id t = (
  nat_eq (count (at_id session_id any_state) t.sessions) 1,
  record t {
    sessions = keep (λ (s : Session). not (s.id == session_id)) t.sessions;
    lines = keep (λ (l : Segment). not (l.session_id == session_id)) t.lines;
  },
)
