-- ===== src/Skybird/Store/Restarting.antt =====
-- `reconcile` of src/screener/skybird/store.py against a supervisor that dies again and again: a
-- round is a capture that is claimed, after which the process goes away before a chunk is heard.
use stock_aggregator.Prelude.{
  leb, if◌then◌else◌, ℕ_key, ℕ, zero, suc, ◌+◌, ◌≤◌, ◌<◌, ◌≡◌, refl, ap, ◌∙◌, subst, true, false,
  some, arith,
}
use stock_aggregator.Skybird.Session.{is_requested, Session, requested, failed}
use stock_aggregator.Skybird.Store.{
  Tables, at_id, find_session, claimed, start, has_process, settled, reconcile,
}
use stock_aggregator.Skybird.Store.Steps.{find_session-update, find_session_id}

abbrev pub crash_round : ℕ → ℕ → ℕ → Tables → Tables
crash_round now bound i t = (reconcile now bound (start i t).1).1

-- As many rounds, each at a later instant.
unfoldable pub crash_rounds : ℕ → ℕ → ℕ → ℕ → Tables → Tables
crash_rounds zero now bound i t = t
crash_rounds (suc n) now bound i t = crash_rounds n (now + 1) bound i (crash_round now bound i t)

-- What a round makes of a queued row.
find_session-crash_round :
    (now bound i : ℕ) (t : Tables) (s : Session)
    → find_session i t.sessions ≡ some s
    → s.state ≡ requested
    → find_session i (crash_round now bound i t).sessions ≡ some (settled now bound (claimed s))
unfolding start claimed reconcile settled
find_session-crash_round now bound i t s e queued =
    let hit : at_id i is_requested s ≡ true =
      rw (queued, (ℕ_key.same_iff s.id i).1 (find_session_id i t.sessions s e)) refl in
    let started : find_session i (start i t).1.sessions ≡ some (claimed s) =
      subst (λ b. find_session i (start i t).1.sessions ≡ some (if b then claimed s else s)) hit
        (find_session-update (at_id i is_requested) claimed (λ r. refl) i t.sessions s e) in
    find_session-update (λ (r : Session). has_process r.state) (settled now bound) (λ r. refl) i
      (start i t).1.sessions (claimed s) started

-- A queued row as it goes through rounds: its audio is not forgotten.
pub record IsQueued (i restarts : ℕ) (s : Session) (t : Tables) : Type 0 where
  pub row : Session
  pub found : find_session i t.sessions ≡ some row
  pub queued : row.state ≡ requested
  pub counted_restarts : row.restarts ≡ restarts
  pub same_until : row.captured_until ≡ s.captured_until
  pub same_seconds : row.captured_seconds ≡ s.captured_seconds

pub IsQueued-crash_round :
    (now bound i restarts : ℕ) (s : Session) (t : Tables)
    → restarts < bound
    → IsQueued i restarts s t
    → IsQueued i (restarts + 1) s (crash_round now bound i t)
unfolding settled claimed
IsQueued-crash_round now bound i restarts s t lt q =
    let below : leb bound q.row.restarts ≡ false = rw (q.counted_restarts) (ground arith) in
    record {
      row = settled now bound (claimed q.row);
      found = find_session-crash_round now bound i t q.row q.found q.queued;
      queued = rw below refl;
      counted_restarts = omega (arith, q.counted_restarts);
      same_until = q.same_until;
      same_seconds = q.same_seconds;
    }

pub IsQueued-crash_rounds :
    (n now bound i restarts : ℕ) (s : Session) (t : Tables)
    → restarts + n ≤ bound
    → IsQueued i restarts s t
    → IsQueued i (restarts + n) s (crash_rounds n now bound i t)
unfolding crash_rounds
IsQueued-crash_rounds zero now bound i restarts s t le q =
    subst (λ r. IsQueued i r s t) (omega arith) q
IsQueued-crash_rounds (suc n) now bound i restarts s t le q =
    subst (λ r. IsQueued i r s (crash_rounds n (now + 1) bound i (crash_round now bound i t)))
      (omega arith)
      (IsQueued-crash_rounds n (now + 1) bound i (restarts + 1) s (crash_round now bound i t)
        (omega arith) (IsQueued-crash_round now bound i restarts s t (omega arith) q))

-- The rounds written from the other end: the last one comes after the others.
crash_rounds-suc :
    (n now bound i : ℕ) (t : Tables)
    → crash_rounds (suc n) now bound i t
      ≡ crash_round (now + n) bound i (crash_rounds n now bound i t)
unfolding crash_rounds
crash_rounds-suc zero now bound i t = let same : now + 0 ≡ now = omega arith in rw same refl
crash_rounds-suc (suc n) now bound i t =
    crash_rounds-suc n (now + 1) bound i (crash_round now bound i t)
    ∙ ap (λ m. crash_round m bound i (crash_rounds n (now + 1) bound i (crash_round now bound i t)))
        (omega arith)

-- A queued capture that has not been restarted comes back to the queue after every one of `bound`
-- crashes, with its captured seconds and the instant where its audio stops as they were; the crash
-- after that fails it, and the row says that the supervisor was restarted.
pub crash_rounds_end :
    (now bound i : ℕ) (t : Tables) (s : Session)
    → find_session i t.sessions ≡ some s
    → s.state ≡ requested
    → s.restarts ≡ 0
    → IsQueued i bound s (crash_rounds bound now bound i t)
      × ((r : Session) × (find_session i (crash_rounds (suc bound) now bound i t).sessions ≡ some r)
          × (r.state ≡ failed)
          × (r.stop_reason ≡ some "supervisor_restart"))
unfolding settled claimed
crash_rounds_end now bound i t s e queued fresh =
    let first : IsQueued i 0 s t = record {
      row = s;
      found = e;
      queued = queued;
      counted_restarts = fresh;
      same_until = refl;
      same_seconds = refl;
    } in
    let q : IsQueued i bound s (crash_rounds bound now bound i t) =
      subst (λ r. IsQueued i r s (crash_rounds bound now bound i t)) (omega arith)
        (IsQueued-crash_rounds bound now bound i 0 s t (omega arith) first) in
    let spent : leb bound q.row.restarts ≡ true = rw (q.counted_restarts) (ground arith) in
    (
      q,
      (
        settled (now + bound) bound (claimed q.row),
        rw (crash_rounds-suc bound now bound i t) (
            find_session-crash_round (now + bound) bound i (crash_rounds bound now bound i t) q.row
              q.found q.queued),
        rw spent refl,
        rw spent refl,
      ),
    )
