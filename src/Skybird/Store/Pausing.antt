-- ===== src/Skybird/Store/Pausing.antt =====
-- `resume` of src/screener/skybird/store.py, with chunks that are accounted for late.
use stock_aggregator.Prelude.{
  if◌then◌else◌, ℕ_key, ℕ, ◌+◌, ◌≡◌, refl, subst, true, none, some, List, [], ◌∷◌, arith,
}
use stock_aggregator.Skybird.Session.{is_paused, Session, requested, paused}
use stock_aggregator.Skybird.Store.{
  Tables, at_id, any_state, find_session, requeued, resume, Chunk, accounted, count_chunk,
}
use stock_aggregator.Skybird.Store.Steps.{find_session-update, find_session_id}

-- Chunks accounted for one after the other.
unfoldable pub count_chunks : ℕ → List Chunk → Tables → Tables
count_chunks i [] t = t
count_chunks i (c ∷ chunks) t = count_chunks i chunks (count_chunk i c t)

unfoldable pub total_seconds : List Chunk → ℕ
total_seconds [] = 0
total_seconds (c ∷ chunks) = c.seconds + total_seconds chunks

pub find_session-count_chunk :
    (i : ℕ) (c : Chunk) (t : Tables) (s : Session)
    → find_session i t.sessions ≡ some s
    → find_session i (count_chunk i c t).sessions ≡ some (accounted c s)
unfolding count_chunk accounted
find_session-count_chunk i c t s e =
    let hit : at_id i any_state s ≡ true =
      rw ((ℕ_key.same_iff s.id i).1 (find_session_id i t.sessions s e)) refl in
    subst (λ b. find_session i (count_chunk i c t).sessions ≡ some (if b then accounted c s else s))
      hit (find_session-update (at_id i any_state) (accounted c) (λ r. refl) i t.sessions s e)

-- A row that waits in the queue with nothing to rewind to.
pub record IsForgotten (i seconds : ℕ) (t : Tables) : Type 0 where
  pub row : Session
  pub found : find_session i t.sessions ≡ some row
  pub queued : row.state ≡ requested
  pub no_rewind : row.captured_until ≡ none
  pub heard : row.captured_seconds ≡ seconds

IsForgotten-count_chunks :
    (i seconds : ℕ) (chunks : List Chunk) (t : Tables)
    → IsForgotten i seconds t
    → IsForgotten i (seconds + total_seconds chunks) (count_chunks i chunks t)
unfolding count_chunks total_seconds accounted
IsForgotten-count_chunks i seconds [] t f = subst (λ n. IsForgotten i n t) (omega arith) f
IsForgotten-count_chunks i seconds (c ∷ chunks) t f =
    subst (λ n. IsForgotten i n (count_chunks i chunks (count_chunk i c t))) (omega arith)
      (IsForgotten-count_chunks i (seconds + c.seconds) chunks (count_chunk i c t) (record {
        row = accounted c f.row;
        found = find_session-count_chunk i c t f.row f.found;
        queued = f.queued;
        no_rewind = rw (f.queued) (f.no_rewind);
        heard = omega (arith, f.heard);
      }))

-- A paused capture that is resumed is queued with no instant to rewind to, and stays so whatever
-- chunks are accounted for before it is started, while their seconds still move its clock.
pub resume-IsForgotten :
    (i : ℕ) (t : Tables) (s : Session) (chunks : List Chunk)
    → find_session i t.sessions ≡ some s
    → s.state ≡ paused
    → IsForgotten i
        (s.captured_seconds + total_seconds chunks)
        (count_chunks i chunks (resume i t).1)
unfolding resume requeued
resume-IsForgotten i t s chunks e held =
    let hit : at_id i is_paused s ≡ true =
      rw (held, (ℕ_key.same_iff s.id i).1 (find_session_id i t.sessions s e)) refl in
    IsForgotten-count_chunks i s.captured_seconds chunks (resume i t).1 (record {
      row = requeued s;
      found =
          subst (λ b. find_session i (resume i t).1.sessions ≡ some (if b then requeued s else s))
            hit (find_session-update (at_id i is_paused) requeued (λ r. refl) i t.sessions s e);
      queued = refl;
      no_rewind = refl;
      heard = refl;
    })
