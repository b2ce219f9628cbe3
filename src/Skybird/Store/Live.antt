-- ===== src/Skybird/Store/Live.antt =====
-- Live rows for one stream under each statement of src/screener/skybird/store.py, where the partial
-- unique index of migrations/015_skybird_pause.sql is the test that `create` makes.
use stock_aggregator.Prelude.{
  leb, ◌==◌, String_key, Bool-cases, all, count, ok-injective, ok, ℕ, ◌≤◌, String, ◌≡◌, refl, subst,
  inl, inr, Bool, true, false, not, ◌&&◌, ◌||◌, Option, [], ◌∷◌, arith, ℕ_key, String_key,
}
use stock_aggregator.Skybird.Session.{
  Note, State, is_live, is_requested, is_paused, is_capturing, Session, StreamRef, requested,
  starting, running, paused, stopping, stopped, failed,
}
use stock_aggregator.Skybird.Store.{
  Tables, at_id, any_state, update, holds_stream, new_session, create, claimed, start, described,
  describe, can_stop, stop_asked, request_stop, can_pause, put_on_hold, pause, requeued, resume,
  ended, finish, has_process, settled, reconcile, accounted, count_chunk, append_segments, delete,
}
use stock_aggregator.Skybird.Store.Steps.{
  Reach, begin, later, Step, count-update, count-append, count-keep, creates, starts, describes,
  asks_to_stop, pauses, resumes, finishes, reconciles, counts, appends, deletes,
}

abbrev pub IsExclusive : Tables → Type 0
IsExclusive t =
    (platform external_id : String) → count (holds_stream platform external_id) t.sessions ≤ 1

-- A change that names the same stream and does not bring an ended row back.
record KeepsStream (test : Session → Bool) (change : Session → Session) : Type 0 where
  same_platform : (s : Session) → (change s).platform ≡ s.platform
  same_external_id : (s : Session) → (change s).external_id ≡ s.external_id
  not_revived :
      (s : Session) → test s ≡ true → is_live (change s).state ≡ true → is_live s.state ≡ true

still_held : (a b c d : Bool) → (a ≡ true → b ≡ true) → (a && c && d) ≡ true → (b && c && d) ≡ true
still_held true b c d h e = rw (h refl) e
still_held false b c d h e = cc e

update-IsExclusive :
    (test : Session → Bool) (change : Session → Session)
    → KeepsStream test change
    → (t : Tables) → IsExclusive t
    → (platform external_id : String)
    → count (holds_stream platform external_id) (update test change t.sessions) ≤ 1
update-IsExclusive test change k t h platform external_id =
    let q = holds_stream platform external_id in
    let kept : (s : Session) → test s ≡ true → q (change s) ≡ true → q s ≡ true = λ s e held.
      still_held (is_live (change s).state) (is_live s.state) _ _ (k.not_revived s e)
        (rw (k.same_platform s, k.same_external_id s) at held) in
    omega (arith, count-update q test change kept t.sessions, h platform external_id)

-- A test on the state is implied by another where it is at each of the seven states.
pub by_states :
    (p q : State → Bool)
    → all
        (λ state. not (p state) || q state)
        (requested ∷ starting ∷ running ∷ paused ∷ stopping ∷ stopped ∷ failed ∷ [])
      ≡ true
    → (state : State) → p state ≡ true
    → q state ≡ true
unfolding all
by_states p q h requested e = ground arith
by_states p q h starting e = ground arith
by_states p q h running e = ground arith
by_states p q h paused e = ground arith
by_states p q h stopping e = ground arith
by_states p q h stopped e = ground arith
by_states p q h failed e = ground arith

pub requested_live : (state : State) → is_requested state ≡ true → is_live state ≡ true
unfolding all
requested_live = by_states is_requested is_live refl

pub paused_live : (state : State) → is_paused state ≡ true → is_live state ≡ true
unfolding all
paused_live = by_states is_paused is_live refl

pub can_stop_live : (state : State) → can_stop state ≡ true → is_live state ≡ true
unfolding all
can_stop_live = by_states can_stop is_live refl

pub can_pause_live : (state : State) → can_pause state ≡ true → is_live state ≡ true
unfolding all
can_pause_live = by_states can_pause is_live refl

pub capturing_live : (state : State) → is_capturing state ≡ true → is_live state ≡ true
unfolding all
capturing_live = by_states is_capturing is_live refl

pub has_process_live : (state : State) → has_process state ≡ true → is_live state ≡ true
unfolding all
has_process_live = by_states has_process is_live refl

-- A row found by its id and a test on its state passes the test.
pub at_id-state :
    (i : ℕ) (test : State → Bool) (s : Session) → at_id i test s ≡ true → test s.state ≡ true
at_id-state i test s e = ground arith

described-live :
    (now : ℕ) (title channel embed_url : Option String) (now_running : Bool) (s : Session)
    → is_live (described now title channel embed_url now_running s).state ≡ true
    → is_live s.state ≡ true
unfolding described
described-live now title channel embed_url now_running s e =
    elim (Bool-cases (now_running && is_capturing s.state)) [
      | inl begins ↦ capturing_live s.state (ground arith)
      | inr other ↦ rw other at e
    ]

both_same : (a b c d : String) → (a == b && c == d) ≡ true → (a ≡ b) × (c ≡ d)
both_same a b c d h = ground (arith, String_key.same_iff a b, String_key.same_iff c d)

create-IsExclusive :
    (now : ℕ) (ref : StreamRef) (requested_by : String) (chunk_seconds : ℕ) (t : Tables)
    → IsExclusive t
    → IsExclusive (create now ref requested_by chunk_seconds t).1
unfolding create new_session count
create-IsExclusive now ref requested_by chunk_seconds t h platform external_id =
    let q = holds_stream platform external_id in
    let s = new_session t.next_id now ref requested_by chunk_seconds in
    elim (Bool-cases (leb 1 (count (holds_stream ref.platform ref.external_id) t.sessions))) [
      | inl taken ↦ rw taken (h platform external_id)
      | inr free ↦
          rw (free, count-append q t.sessions (s ∷ []))
            (elim (Bool-cases (ref.platform == platform && ref.external_id == external_id)) [
              | inl same ↦
                  let (ep, ee) = both_same ref.platform platform ref.external_id external_id same in
                  let none_yet =
                    subst (λ x. leb 1 (count (holds_stream x external_id) t.sessions) ≡ false) ep
                      (subst (λ x. leb 1 (count (holds_stream ref.platform x) t.sessions) ≡ false)
                        ee free) in
                  rw same (ground (arith, none_yet))
              | inr other ↦ rw other (omega (arith, h platform external_id))
            ])
    ]

finish-IsExclusive :
    (now i : ℕ) (state : State) (reason : String) (error : Option Note) (t u : Tables)
    → IsExclusive t
    → finish now i state reason error t ≡ ok u
    → IsExclusive u
unfolding finish ended
finish-IsExclusive now i state reason error t u h e = elim (Bool-cases (is_live state)) [
  | inl live ↦ cc (rw live at e)
  | inr over ↦ subst IsExclusive (ok-injective (rw over at e)) (
      update-IsExclusive (at_id i any_state) (ended now state reason error)
        (record {
          same_platform = λ s. refl;
          same_external_id = λ s. refl;
          not_revived = λ s m live. cc (over, live);
        })
        t h)
]

-- Every statement keeps it: where each stream has at most one live row, it still has at most one
-- after any step, whatever ids, states and chunks the statement is given.
pub Step-IsExclusive : {t u : Tables} → Step t u → IsExclusive t → IsExclusive u
unfolding start claimed describe described request_stop stop_asked pause put_on_hold resume requeued
    reconcile settled count_chunk accounted append_segments delete
Step-IsExclusive {t} (creates now ref requested_by chunk_seconds) h =
    create-IsExclusive now ref requested_by chunk_seconds t h
Step-IsExclusive {t} (starts i) h =
    update-IsExclusive (at_id i is_requested) claimed
      (record {
        same_platform = λ s. refl;
        same_external_id = λ s. refl;
        not_revived = λ s e live. requested_live s.state (at_id-state i is_requested s e);
      })
      t h
Step-IsExclusive {t} (describes now i title channel embed_url now_running) h =
    update-IsExclusive (at_id i any_state) (described now title channel embed_url now_running)
      (record {
        same_platform = λ s. refl;
        same_external_id = λ s. refl;
        not_revived = λ s e. described-live now title channel embed_url now_running s;
      })
      t h
Step-IsExclusive {t} (asks_to_stop now i) h =
    update-IsExclusive (at_id i can_stop) (stop_asked now)
      (record {
        same_platform = λ s. refl;
        same_external_id = λ s. refl;
        not_revived = λ s e live. can_stop_live s.state (at_id-state i can_stop s e);
      })
      t h
Step-IsExclusive {t} (pauses i) h =
    update-IsExclusive (at_id i can_pause) put_on_hold
      (record {
        same_platform = λ s. refl;
        same_external_id = λ s. refl;
        not_revived = λ s e live. can_pause_live s.state (at_id-state i can_pause s e);
      })
      t h
Step-IsExclusive {t} (resumes i) h =
    update-IsExclusive (at_id i is_paused) requeued
      (record {
        same_platform = λ s. refl;
        same_external_id = λ s. refl;
        not_revived = λ s e live. paused_live s.state (at_id-state i is_paused s e);
      })
      t h
Step-IsExclusive {t} (finishes now i state reason error {u} e) h =
    finish-IsExclusive now i state reason error t u h e
Step-IsExclusive {t} (reconciles now bound) h =
    update-IsExclusive (λ (s : Session). has_process s.state) (settled now bound)
      (record {
        same_platform = λ s. refl;
        same_external_id = λ s. refl;
        not_revived = λ s e live. has_process_live s.state e;
      })
      t h
Step-IsExclusive {t} (counts i c) h =
    update-IsExclusive (at_id i any_state) (accounted c)
      (record {
        same_platform = λ s. refl;
        same_external_id = λ s. refl;
        not_revived = λ s e live. live;
      })
      t h
Step-IsExclusive {t} (appends i rows) h = h
Step-IsExclusive {t} (deletes i) h = λ platform external_id.
    let other = λ (s : Session). not (s.id == i) in
    omega (
      arith,
      count-keep (holds_stream platform external_id) other t.sessions,
      h platform external_id,
    )

-- From empty tables no sequence of statements, whatever their order and arguments, leaves two live
-- rows for one stream.
pub Reach-IsExclusive : {t : Tables} → Reach t → IsExclusive t
unfolding count
Reach-IsExclusive begin = λ platform external_id. omega arith
Reach-IsExclusive (later r step) = Step-IsExclusive step (Reach-IsExclusive r)
