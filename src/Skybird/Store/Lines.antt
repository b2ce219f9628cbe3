-- ===== src/Skybird/Store/Lines.antt =====
-- `append_segments` of src/screener/skybird/store.py, with lines numbered from `next_seq` on.
use stock_aggregator.Prelude.{
  ◌==◌, ℕ_key, Bool-cases, length, keep, length-append, All, count, ℕ, ◌+◌, ◌≤◌, ◌<◌, max, ◌≡◌,
  refl, sym, ap, ◌∙◌, subst, inl, inr, Bool, true, false, ◌&&◌, List, [], ◌∷◌, ◌++◌, map, arith,
  ℕ_key, String_key,
}
use stock_aggregator.Skybird.Session.{Segment, is_blank, without_nul}
use stock_aggregator.Skybird.Store.{
  Tables, lines_of, max_seq, insert_line, insert_lines, values_of, append_segments,
}

-- Numbers that ascend from above a bound.
abbrev pub Ascends : ℕ → List Segment → Type 0
Ascends bound [] = Unit
Ascends bound (l ∷ lines) = (bound < l.seq) × Ascends l.seq lines

abbrev pub of_session : ℕ → Segment → Bool
of_session i l = l.session_id == i

Ascends-le : (a b : ℕ) (lines : List Segment) → a ≤ b → Ascends b lines → Ascends a lines
Ascends-le a b [] le h = tt
Ascends-le a b (l ∷ lines) le h = (omega (arith, h.0), h.1)

Ascends-values_of :
    (i bound : ℕ) (rows : List Segment)
    → Ascends bound rows
    → Ascends bound (values_of (map (λ (l : Segment). record l { session_id = i }) rows))
unfolding values_of keep
Ascends-values_of i bound [] h = tt
Ascends-values_of i bound (l ∷ rows) h = elim (Bool-cases (is_blank (without_nul l.text))) [
  | inl blank ↦
      rw blank (Ascends-le bound l.seq _ (omega (arith, h.0)) (Ascends-values_of i l.seq rows h.1))
  | inr kept ↦ rw kept (h.0, Ascends-values_of i l.seq rows h.1)
]

of_session-values_of :
    (i : ℕ) (rows : List Segment)
    → All
        (λ (l : Segment). l.session_id ≡ i)
        (values_of (map (λ (l : Segment). record l { session_id = i }) rows))
unfolding values_of keep
of_session-values_of i [] = tt
of_session-values_of i (l ∷ rows) = elim (Bool-cases (is_blank (without_nul l.text))) [
  | inl blank ↦ rw blank (of_session-values_of i rows)
  | inr kept ↦ rw kept (refl, of_session-values_of i rows)
]

-- A number above every stored one is not taken.
fresh-insert_line :
    (l : Segment) (lines : List Segment)
    → max_seq (keep (of_session l.session_id) lines) < l.seq
    → count (λ (k : Segment). k.session_id == l.session_id && k.seq == l.seq) lines ≡ 0
unfolding count keep max_seq
fresh-insert_line l [] h = refl
fresh-insert_line l (k ∷ lines) h = elim (Bool-cases (k.session_id == l.session_id)) [
  | inl mine ↦
      let tail : max k.seq (max_seq (keep (of_session l.session_id) lines)) < l.seq =
        rw mine at h in
      let apart : (k.seq == l.seq) ≡ false = ground (arith) in
      rw (mine, apart) (omega (arith, fresh-insert_line l lines (omega arith)))
  | inr other ↦ rw other (omega (arith, fresh-insert_line l lines (rw other at h)))
]

keep-append :
    (p : Segment → Bool) (xs ys : List Segment) → keep p (xs ++ ys) ≡ keep p xs ++ keep p ys
unfolding keep
keep-append p [] ys = refl
keep-append p (x ∷ xs) ys = elim (Bool-cases (p x)) [
  | inl in_it ↦ rw in_it (ap (λ r. x ∷ r) (keep-append p xs ys))
  | inr out ↦ rw out (keep-append p xs ys)
]

max_seq-append : (xs ys : List Segment) → max_seq (xs ++ ys) ≡ max (max_seq xs) (max_seq ys)
unfolding max_seq
max_seq-append [] ys = omega arith
max_seq-append (x ∷ xs) ys = omega (arith, max_seq-append xs ys)

append_assoc :
    (xs : List Segment) (y : Segment) (ys : List Segment) → (xs ++ y ∷ []) ++ ys ≡ xs ++ y ∷ ys
append_assoc [] y ys = refl
append_assoc (x ∷ xs) y ys = ap (λ r. x ∷ r) (append_assoc xs y ys)

append_nil : (xs : List Segment) → xs ++ [] ≡ xs
append_nil [] = refl
append_nil (x ∷ xs) = ap (λ r. x ∷ r) (append_nil xs)

keep_one : (p : Segment → Bool) (l : Segment) → p l ≡ true → keep p (l ∷ []) ≡ l ∷ []
unfolding keep
keep_one p l h = rw h refl

max_seq_one : (l : Segment) → max_seq (l ∷ []) ≡ l.seq
unfolding max_seq
max_seq_one l = omega arith

insert_lines-Ascends :
    (i : ℕ) (values lines : List Segment)
    → All (λ (l : Segment). l.session_id ≡ i) values
    → Ascends (max_seq (keep (of_session i) lines)) values
    → keep (of_session i) (insert_lines values lines) ≡ keep (of_session i) lines ++ values
unfolding insert_lines insert_line
insert_lines-Ascends i [] lines own h = sym (append_nil (keep (of_session i) lines))
insert_lines-Ascends i (l ∷ values) lines own h =
    let mine : of_session i l ≡ true = (ℕ_key.same_iff l.session_id i).1 own.0 in
    let free : count (λ (k : Segment). k.session_id == l.session_id && k.seq == l.seq) lines ≡ 0 =
      fresh-insert_line l lines
        (subst (λ j. max_seq (keep (of_session j) lines) < l.seq) (sym own.0) h.0) in
    let grown : keep (of_session i) (lines ++ l ∷ []) ≡ keep (of_session i) lines ++ l ∷ [] =
      keep-append (of_session i) lines (l ∷ [])
      ∙ ap (λ r. keep (of_session i) lines ++ r) (keep_one (of_session i) l mine) in
    let above : max_seq (keep (of_session i) (lines ++ l ∷ [])) ≤ l.seq =
      rw grown
        (omega (arith, max_seq-append (keep (of_session i) lines) (l ∷ []), max_seq_one l, h.0)) in
    rw free (
      insert_lines-Ascends i values (lines ++ l ∷ []) own.1 (Ascends-le _ l.seq values above h.1)
      ∙ ap (λ r. r ++ values) grown
      ∙ append_assoc (keep (of_session i) lines) l values)

-- Lines whose numbers ascend from above the newest stored one are all stored, after those that were
-- there and in their order, except those with nothing but white space once NULs are taken out; the
-- number returned is the number of lines that the session has gained.
pub append_segments-Ascends :
    (i : ℕ) (rows : List Segment) (t : Tables)
    → Ascends (max_seq (lines_of i t)) rows
    → (lines_of i (append_segments i rows t).1
        ≡ lines_of i t ++ values_of (map (λ (l : Segment). record l { session_id = i }) rows))
      × (length (lines_of i (append_segments i rows t).1)
          ≡ length (lines_of i t) + (append_segments i rows t).0)
unfolding append_segments
append_segments-Ascends i rows t h =
    let values = values_of (map (λ (l : Segment). record l { session_id = i }) rows) in
    let landed =
      insert_lines-Ascends i values t.lines (of_session-values_of i rows)
        (Ascends-values_of i _ rows h) in
    (landed, ap length landed ∙ length-append (lines_of i t) values)
