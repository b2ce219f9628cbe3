-- ===== src/Skybird/Store/Steps.antt =====
-- Every way in which a statement of src/screener/skybird/store.py moves the tables, and what an
-- update does to one row and to the number of rows that pass a test.
use stock_aggregator.Prelude.{
  subst, ap, if◌then◌else◌, ◌==◌, Bool-cases, keep, count, some-injective, ok, ℕ, ◌+◌, ◌≤◌, String,
  ◌≡◌, inl, inr, Bool, true, Option, some, List, [], ◌∷◌, ◌++◌, arith, ℕ_key, String_key,
}
use stock_aggregator.Skybird.Session.{Note, State, Session, StreamRef, Segment}
use stock_aggregator.Skybird.Store.{
  Tables, update, create, find_session, start, describe, request_stop, pause, resume, finish,
  reconcile, Chunk, count_chunk, append_segments, delete,
}

pub data Step (t : Tables) : Tables → Type 0 where
  creates :
      (now : ℕ) (ref : StreamRef) (requested_by : String) (chunk_seconds : ℕ)
      → Step t (create now ref requested_by chunk_seconds t).1
  starts : (session_id : ℕ) → Step t (start session_id t).1
  describes :
      (now session_id : ℕ) (title channel embed_url : Option String) (now_running : Bool)
      → Step t (describe now session_id title channel embed_url now_running t)
  asks_to_stop : (now session_id : ℕ) → Step t (request_stop now session_id t).1
  pauses : (session_id : ℕ) → Step t (pause session_id t).1
  resumes : (session_id : ℕ) → Step t (resume session_id t).1
  finishes :
      (now session_id : ℕ) (state : State) (reason : String) (error : Option Note) {u : Tables}
      → finish now session_id state reason error t ≡ ok u
      → Step t u
  reconciles : (now bound : ℕ) → Step t (reconcile now bound t).1
  counts : (session_id : ℕ) (c : Chunk) → Step t (count_chunk session_id c t)
  appends : (session_id : ℕ) (rows : List Segment) → Step t (append_segments session_id rows t).1
  deletes : (session_id : ℕ) → Step t (delete session_id t).1

abbrev pub empty_tables : Tables
empty_tables = record { sessions = []; lines = []; next_id = 1 }

-- The tables that some sequence of statements leaves, from empty ones.
pub data Reach : Tables → Type 0 where
  begin : Reach empty_tables
  later : {t u : Tables} → Reach t → Step t u → Reach u

pub count-update :
    (q test : Session → Bool) (change : Session → Session)
    → ((s : Session) → test s ≡ true → q (change s) ≡ true → q s ≡ true)
    → (rows : List Session) → count q (update test change rows) ≤ count q rows
unfolding count update
count-update q test change h [] = omega arith
count-update q test change h (s ∷ rows) = ground (arith, h s, count-update q test change h rows)

pub count-append :
    (q : Session → Bool) (xs ys : List Session) → count q (xs ++ ys) ≡ count q xs + count q ys
unfolding count
count-append q [] ys = omega arith
count-append q (x ∷ xs) ys = omega (arith, count-append q xs ys)

pub count-keep : (q p : Session → Bool) (rows : List Session) → count q (keep p rows) ≤ count q rows
unfolding count keep
count-keep q p [] = omega arith
count-keep q p (s ∷ rows) = ground (arith, count-keep q p rows)

-- What an update makes of a row.
abbrev pub changed : (Session → Bool) → (Session → Session) → Session → Session
changed test change s = if test s then change s else s

changed-id :
    (test : Session → Bool) (change : Session → Session)
    → ((s : Session) → (change s).id ≡ s.id)
    → (s : Session) → (changed test change s).id ≡ s.id
changed-id test change h s = ground (arith, h s)

-- An update that keeps the identities changes the row that is found, and no other.
pub find_session-update :
    (test : Session → Bool) (change : Session → Session)
    → ((s : Session) → (change s).id ≡ s.id)
    → (i : ℕ) (rows : List Session) (s : Session) → find_session i rows ≡ some s
    → find_session i (update test change rows) ≡ some (changed test change s)
unfolding find_session update
find_session-update test change h i [] s e = cc e
find_session-update test change h i (r ∷ rows) s e = elim (Bool-cases (r.id == i)) [
  | inl same ↦
      rw (changed-id test change h r, same, find_session)
        (ap (λ x. some (changed test change x)) (some-injective (rw same at e)))
  | inr other ↦
      rw (changed-id test change h r, other, find_session)
        (find_session-update test change h i rows s (rw other at e))
]

pub find_session_id :
    (i : ℕ) (rows : List Session) (s : Session) → find_session i rows ≡ some s → s.id ≡ i
unfolding find_session
find_session_id i [] s e = cc e
find_session_id i (r ∷ rows) s e = elim (Bool-cases (r.id == i)) [
  | inl same ↦
      subst (λ x. x.id ≡ i) (some-injective (rw same at e)) ((ℕ_key.same_iff r.id i).0 same)
  | inr other ↦ find_session_id i rows s (rw other at e)
]
