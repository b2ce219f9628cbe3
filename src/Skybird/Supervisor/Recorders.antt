-- ===== src/Skybird/Supervisor/Recorders.antt =====
-- Recorders that the process of src/screener/skybird/supervisor.py has started and not stopped,
-- counted against its dictionary of captures.
use stock_aggregator.Prelude.{
  sym, refl, ◌∙◌, suc, ◌==◌, ℕ_key, Bool-cases, length, Dict, lookup, insert, lookup-insert,
  some-injective, ℕ, suc, ◌+◌, ◌≤◌, ◌≡◌, refl, ap, subst, inl, inr, Bool, true, false, none, some,
  [], ◌∷◌, arith, ℕ_key, String_key,
}
use stock_aggregator.Skybird.Supervisor.{Running}
use stock_aggregator.Skybird.Supervisor.Connecting.{remove}

abbrev pub number_of : Bool → ℕ
number_of true = 1
number_of false = 0

unfoldable pub captures : Dict ℕ Running → ℕ
captures [] = 0
captures ((i, run) ∷ runs) = number_of run.capture + captures runs

unfoldable pub entries : ℕ → Dict ℕ Running → ℕ
entries i [] = 0
entries i ((j, run) ∷ runs) = number_of (j == i) + entries i runs

-- Each entry is under the session that its run is of.
abbrev pub IsKeyed : Dict ℕ Running → Type 0
IsKeyed [] = Unit
IsKeyed ((i, run) ∷ runs) = (run.session_id ≡ i) × IsKeyed runs

-- As many recorders as captures hold one, one entry for a session, no more than the cap.
pub record IsBalanced (cap : ℕ) (runs : Dict ℕ Running) (recorders : ℕ) : Type 0 where
  pub all_held : recorders ≡ captures runs
  pub one_entry : (i : ℕ) → entries i runs ≤ 1
  pub own_key : IsKeyed runs
  pub under_cap : length runs ≤ cap

pub captures-insert :
    (i : ℕ) (new old : Running) (runs : Dict ℕ Running)
    → lookup i runs ≡ some old
    → captures (insert i new runs) + number_of old.capture ≡ captures runs + number_of new.capture
unfolding captures insert lookup
captures-insert i new old [] e = cc e
captures-insert i new old ((j, run) ∷ runs) e = elim (Bool-cases (j == i)) [
  | inl same ↦
      let own : run ≡ old = some-injective (rw same at e) in
      rw (same, captures)
        (subst
          (λ r.
            number_of new.capture + captures runs + number_of r.capture
            ≡ number_of run.capture + captures runs + number_of new.capture)
          own (omega arith))
  | inr other ↦ rw (other, captures) (omega (arith, captures-insert i new old runs (rw other at e)))
]

pub captures-insert_new :
    (i : ℕ) (new : Running) (runs : Dict ℕ Running)
    → lookup i runs ≡ none
    → captures (insert i new runs) ≡ captures runs + number_of new.capture
unfolding captures insert lookup
captures-insert_new i new [] e = omega arith
captures-insert_new i new ((j, run) ∷ runs) e = elim (Bool-cases (j == i)) [
  | inl same ↦ cc (rw same at e)
  | inr other ↦ rw (other, captures) (omega (arith, captures-insert_new i new runs (rw other at e)))
]

pub length-insert :
    (i : ℕ) (new old : Running) (runs : Dict ℕ Running)
    → lookup i runs ≡ some old
    → length (insert i new runs) ≡ length runs
unfolding insert lookup
length-insert i new old [] e = cc e
length-insert i new old ((j, run) ∷ runs) e = elim (Bool-cases (j == i)) [
  | inl same ↦ rw same refl
  | inr other ↦ rw other (ap suc (length-insert i new old runs (rw other at e)))
]

pub length-insert_le :
    (i : ℕ) (new : Running) (runs : Dict ℕ Running) → length (insert i new runs) ≤ length runs + 1
unfolding insert
length-insert_le i new [] = omega arith
length-insert_le i new ((j, run) ∷ runs) = elim (Bool-cases (j == i)) [
  | inl same ↦ rw same (omega arith)
  | inr other ↦ rw other (omega (arith, length-insert_le i new runs))
]

-- An entry replaced or added for one session leaves the others' as they are.
entries-insert_other :
    (i k : ℕ) (new : Running) (runs : Dict ℕ Running)
    → (k == i) ≡ false
    → entries i (insert k new runs) ≡ entries i runs
unfolding entries insert
entries-insert_other i k new [] other = rw other refl
entries-insert_other i k new ((j, run) ∷ runs) other = elim (Bool-cases (j == k)) [
  | inl same ↦ rw (same, entries) refl
  | inr apart ↦ rw (apart, entries) (omega (arith, entries-insert_other i k new runs other))
]

entries-insert_same :
    (k : ℕ) (new : Running) (runs : Dict ℕ Running)
    → entries k runs ≤ 1
    → entries k (insert k new runs) ≤ 1
unfolding entries insert
entries-insert_same k new [] le = ground arith
entries-insert_same k new ((j, run) ∷ runs) le = elim (Bool-cases (j == k)) [
  | inl same ↦ rw (same, entries) le
  | inr apart ↦
      rw (apart, entries)
        (rw apart (
          omega (
            arith,
            entries-insert_same k new runs (let one = (rw apart at le) in omega (arith, one)),
          )))
]

pub entries-insert :
    (k : ℕ) (new : Running) (runs : Dict ℕ Running)
    → ((i : ℕ) → entries i runs ≤ 1)
    → (i : ℕ) → entries i (insert k new runs) ≤ 1
entries-insert k new runs one i = elim (Bool-cases (k == i)) [
  | inl same ↦
      subst (λ m. entries m (insert k new runs) ≤ 1) ((ℕ_key.same_iff k i).0 same)
        (entries-insert_same k new runs (one k))
  | inr other ↦ omega (arith, entries-insert_other i k new runs other, one i)
]

pub captures-remove :
    (i : ℕ) (old : Running) (runs : Dict ℕ Running)
    → lookup i runs ≡ some old
    → (captures (remove i runs) + number_of old.capture ≡ captures runs)
      × (length (remove i runs) + 1 ≡ length runs)
unfolding captures remove lookup
captures-remove i old [] e = cc e
captures-remove i old ((j, run) ∷ runs) e = elim (Bool-cases (j == i)) [
  | inl same ↦
      let own : run ≡ old = some-injective (rw same at e) in
      rw (same, captures)
        (
          subst (λ r. captures runs + number_of r.capture ≡ number_of run.capture + captures runs)
              own (omega arith),
          omega arith,
        )
  | inr other ↦
      let rest = captures-remove i old runs (rw other at e) in
      rw (other, captures) (omega (arith, rest.0), omega (arith, rest.1))
]

pub entries-remove : (i k : ℕ) (runs : Dict ℕ Running) → entries i (remove k runs) ≤ entries i runs
unfolding entries remove
entries-remove i k [] = omega arith
entries-remove i k ((j, run) ∷ runs) = elim (Bool-cases (j == k)) [
  | inl same ↦ rw (same, entries) (omega arith)
  | inr apart ↦ rw (apart, entries) (omega (arith, entries-remove i k runs))
]

lookup-entries : (i : ℕ) (runs : Dict ℕ Running) → entries i runs ≡ 0 → lookup i runs ≡ none
unfolding entries lookup
lookup-entries i [] e = refl
lookup-entries i ((j, run) ∷ runs) e = elim (Bool-cases (j == i)) [
  | inl same ↦ absurd (ground arith)
  | inr apart ↦
      rw apart (lookup-entries i runs (let nought = (rw apart at e) in omega (arith, nought)))
]

pub lookup-remove :
    (i : ℕ) (runs : Dict ℕ Running) → entries i runs ≤ 1 → lookup i (remove i runs) ≡ none
unfolding entries lookup remove
lookup-remove i [] le = refl
lookup-remove i ((j, run) ∷ runs) le = elim (Bool-cases (j == i)) [
  | inl same ↦
      rw (same, lookup) (lookup-entries i runs (let one = (rw same at le) in omega (arith, one)))
  | inr apart ↦
      rw (apart, lookup)
        (rw apart (lookup-remove i runs (let one = (rw apart at le) in omega (arith, one))))
]

pub lookup-insert_same :
    (i : ℕ) (new : Running) (runs : Dict ℕ Running) → lookup i (insert i new runs) ≡ some new
lookup-insert_same i new runs = ground (arith, lookup-insert i i new runs, ℕ_key.same_iff i i)

pub IsKeyed-insert :
    (new : Running) (runs : Dict ℕ Running)
    → IsKeyed runs
    → IsKeyed (insert new.session_id new runs)
unfolding insert
IsKeyed-insert new [] k = (refl, tt)
IsKeyed-insert new ((j, run) ∷ runs) k = elim (Bool-cases (j == new.session_id)) [
  | inl same ↦ rw same (sym ((ℕ_key.same_iff j new.session_id).0 same), k.1)
  | inr apart ↦ rw apart (k.0, IsKeyed-insert new runs k.1)
]

pub IsKeyed-remove : (i : ℕ) (runs : Dict ℕ Running) → IsKeyed runs → IsKeyed (remove i runs)
unfolding remove
IsKeyed-remove i [] k = tt
IsKeyed-remove i ((j, run) ∷ runs) k = elim (Bool-cases (j == i)) [
  | inl same ↦ rw same (k.1)
  | inr apart ↦ rw apart (k.0, IsKeyed-remove i runs k.1)
]

pub IsKeyed-lookup :
    (i : ℕ) (run : Running) (runs : Dict ℕ Running)
    → IsKeyed runs
    → lookup i runs ≡ some run
    → run.session_id ≡ i
unfolding lookup
IsKeyed-lookup i run [] k e = cc e
IsKeyed-lookup i run ((j, r) ∷ runs) k e = elim (Bool-cases (j == i)) [
  | inl same ↦
      subst (λ x. x.session_id ≡ i) (some-injective (rw same at e))
        (k.0 ∙ (ℕ_key.same_iff j i).0 same)
  | inr apart ↦ IsKeyed-lookup i run runs k.1 (rw apart at e)
]
