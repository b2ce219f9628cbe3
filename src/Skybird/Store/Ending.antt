-- ===== src/Skybird/Store/Ending.antt =====
-- Sessions that were stopped or failed under each statement of src/screener/skybird/store.py.
use stock_aggregator.Prelude.{
  refl, keep, not, subst, ◌∙◌, leb, ◌==◌, Bool-cases, keep, count, ok-injective, ok, ℕ, String, ◌≡◌,
  refl, subst, ◌⊎◌, inl, inr, Bool, true, false, not, ◌&&◌, Option, none, some, List, [], ◌∷◌, ◌++◌,
  arith, ℕ_key, String_key,
}
use stock_aggregator.Skybird.Session.{
  Note, State, is_live, is_requested, is_paused, is_capturing, Session, StreamRef,
}
use stock_aggregator.Skybird.Store.{
  Tables, at_id, any_state, update, holds_stream, create, find_session, claimed, start, described,
  describe, can_stop, stop_asked, request_stop, can_pause, put_on_hold, pause, requeued, resume,
  ended, finish, has_process, settled, reconcile, accounted, count_chunk, append_segments, delete,
}
use stock_aggregator.Skybird.Store.Steps.{
  Step, changed, find_session-update, creates, starts, describes, asks_to_stop, pauses, resumes,
  finishes, reconciles, counts, appends, deletes,
}
use stock_aggregator.Skybird.Store.Live.{
  requested_live, paused_live, can_stop_live, can_pause_live, capturing_live, has_process_live,
  at_id-state,
}

abbrev pub IsEnded : ℕ → Tables → Type 0
IsEnded i t = (s : Session) × (find_session i t.sessions ≡ some s) × (is_live s.state ≡ false)

abbrev pub IsGone : ℕ → Tables → Type 0
IsGone i t = find_session i t.sessions ≡ none

-- A change that leaves an ended row ended, on the rows it is made to.
record KeepsEnd (test : Session → Bool) (change : Session → Session) : Type 0 where
  same_id : (s : Session) → (change s).id ≡ s.id
  still_over :
      (s : Session) → test s ≡ true → is_live s.state ≡ false → is_live (change s).state ≡ false

changed-over :
    (test : Session → Bool) (change : Session → Session)
    → KeepsEnd test change
    → (s : Session) → is_live s.state ≡ false
    → is_live (changed test change s).state ≡ false
changed-over test change k s over = elim (Bool-cases (test s)) [
  | inl hit ↦ rw hit (k.still_over s hit over)
  | inr miss ↦ rw miss over
]

update-IsEnded :
    (test : Session → Bool) (change : Session → Session)
    → KeepsEnd test change
    → (i : ℕ) (t : Tables) → IsEnded i t
    → IsEnded i (record t { sessions = update test change t.sessions })
update-IsEnded test change k i t (s, e, over) = (
  changed test change s,
  find_session-update test change k.same_id i t.sessions s e,
  changed-over test change k s over,
)

-- A change to live rows only.
KeepsEnd-live :
    (test : Session → Bool) (change : Session → Session)
    → ((s : Session) → (change s).id ≡ s.id)
    → ((s : Session) → test s ≡ true → is_live s.state ≡ true)
    → KeepsEnd test change
KeepsEnd-live test change same live = record {
  same_id = same;
  still_over = λ s hit over. cc (live s hit, over);
}

described-over :
    (now : ℕ) (title channel embed_url : Option String) (now_running : Bool) (s : Session)
    → is_live s.state ≡ false
    → is_live (described now title channel embed_url now_running s).state ≡ false
unfolding described
described-over now title channel embed_url now_running s over =
    elim (Bool-cases (now_running && is_capturing s.state)) [
      | inl begins ↦ cc (capturing_live s.state (ground arith), over)
      | inr other ↦ rw other over
    ]

find_session-append :
    (i : ℕ) (rows more : List Session) (s : Session)
    → find_session i rows ≡ some s
    → find_session i (rows ++ more) ≡ some s
unfolding find_session
find_session-append i [] more s e = cc e
find_session-append i (r ∷ rows) more s e = elim (Bool-cases (r.id == i)) [
  | inl same ↦ rw (same, find_session) (rw same at e)
  | inr other ↦ rw (other, find_session) (find_session-append i rows more s (rw other at e))
]

create-IsEnded :
    (now : ℕ) (ref : StreamRef) (requested_by : String) (chunk_seconds i : ℕ) (t : Tables)
    → IsEnded i t
    → IsEnded i (create now ref requested_by chunk_seconds t).1
unfolding create
create-IsEnded now ref requested_by chunk_seconds i t (s, e, over) =
    elim (Bool-cases (leb 1 (count (holds_stream ref.platform ref.external_id) t.sessions))) [
      | inl taken ↦ rw taken (s, e, over)
      | inr free ↦ rw free (s, find_session-append i t.sessions _ s e, over)
    ]

finish-IsEnded :
    (now j : ℕ) (state : State) (reason : String) (error : Option Note) (i : ℕ) (t u : Tables)
    → IsEnded i t
    → finish now j state reason error t ≡ ok u
    → IsEnded i u
unfolding finish ended
finish-IsEnded now j state reason error i t u h e = elim (Bool-cases (is_live state)) [
  | inl live ↦ cc (rw live at e)
  | inr over ↦ subst (IsEnded i) (ok-injective (rw over at e)) (
      update-IsEnded (at_id j any_state) (ended now state reason error)
        (record { same_id = λ s. refl; still_over = λ s hit old. over }) i t h)
]

find_session-deleted :
    (i : ℕ) (rows : List Session)
    → find_session i (keep (λ (r : Session). not (r.id == i)) rows) ≡ none
unfolding find_session keep
find_session-deleted i [] = refl
find_session-deleted i (r ∷ rows) = ground (arith, find_session-deleted i rows)

find_session-kept :
    (i j : ℕ)
    → (i == j) ≡ false
    → (rows : List Session)
    → find_session i (keep (λ (r : Session). not (r.id == j)) rows) ≡ find_session i rows
unfolding find_session keep
find_session-kept i j other [] = refl
find_session-kept i j other (r ∷ rows) = ground (arith, find_session-kept i j other rows)

-- The row that is found is kept, or it is the one deleted.
find_session-delete :
    (i j : ℕ) (rows : List Session) (s : Session)
    → find_session i rows ≡ some s
    → (find_session i (keep (λ (r : Session). not (r.id == j)) rows) ≡ some s)
      ⊎ (find_session i (keep (λ (r : Session). not (r.id == j)) rows) ≡ none)
find_session-delete i j rows s e = elim (Bool-cases (i == j)) [
  | inl same ↦ inr (
      subst (λ k. find_session i (keep (λ (r : Session). not (r.id == k)) rows) ≡ none)
        ((ℕ_key.same_iff i j).0 same) (find_session-deleted i rows))
  | inr other ↦ inl (find_session-kept i j other rows ∙ e)
]

-- In any step a session that has ended stays ended, or its row is deleted.
pub Step-IsEnded : {t u : Tables} (i : ℕ) → Step t u → IsEnded i t → IsEnded i u ⊎ IsGone i u
unfolding start claimed describe described request_stop stop_asked pause put_on_hold resume requeued
    reconcile settled count_chunk accounted append_segments delete
Step-IsEnded {t} i (creates now ref requested_by chunk_seconds) h =
    inl (create-IsEnded now ref requested_by chunk_seconds i t h)
Step-IsEnded {t} i (starts j) h = inl (
    update-IsEnded (at_id j is_requested) claimed
      (KeepsEnd-live _ claimed (λ s. refl)
        (λ s hit. requested_live s.state (at_id-state j is_requested s hit)))
      i t h)
Step-IsEnded {t} i (describes now j title channel embed_url now_running) h = inl (
    update-IsEnded (at_id j any_state) (described now title channel embed_url now_running)
      (record {
        same_id = λ s. refl;
        still_over = λ s hit. described-over now title channel embed_url now_running s;
      })
      i t h)
Step-IsEnded {t} i (asks_to_stop now j) h = inl (
    update-IsEnded (at_id j can_stop) (stop_asked now)
      (KeepsEnd-live _ (stop_asked now) (λ s. refl)
        (λ s hit. can_stop_live s.state (at_id-state j can_stop s hit)))
      i t h)
Step-IsEnded {t} i (pauses j) h = inl (
    update-IsEnded (at_id j can_pause) put_on_hold
      (KeepsEnd-live _ put_on_hold (λ s. refl)
        (λ s hit. can_pause_live s.state (at_id-state j can_pause s hit)))
      i t h)
Step-IsEnded {t} i (resumes j) h = inl (
    update-IsEnded (at_id j is_paused) requeued
      (KeepsEnd-live _ requeued (λ s. refl)
        (λ s hit. paused_live s.state (at_id-state j is_paused s hit)))
      i t h)
Step-IsEnded {t} i (finishes now j state reason error {u} e) h =
    inl (finish-IsEnded now j state reason error i t u h e)
Step-IsEnded {t} i (reconciles now bound) h = inl (
    update-IsEnded (λ (s : Session). has_process s.state) (settled now bound)
      (KeepsEnd-live _ (settled now bound) (λ s. refl) (λ s hit. has_process_live s.state hit)) i t
      h)
Step-IsEnded {t} i (counts j c) h = inl (
    update-IsEnded (at_id j any_state) (accounted c)
      (record { same_id = λ s. refl; still_over = λ s hit over. over }) i t h)
Step-IsEnded {t} i (appends j rows) h = inl h
Step-IsEnded {t} i (deletes j) (s, e, over) = elim (find_session-delete i j t.sessions s e) [
  | inl there ↦ inl (s, there, over)
  | inr gone ↦ inr gone
]
