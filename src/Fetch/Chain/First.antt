-- ===== src/Fetch/Chain/First.antt =====
-- What `fetch` of src/screener/fetch/chain.py answers, said of each strategy on its own.
use mathlib.Core.List.{append_assoc}
use stock_aggregator.Skybird.Session.{is_blank}
use stock_aggregator.Prelude.{
  arith, Bool-cases, Returns, bind-ok, ok-injective, some-injective, subst, true, false, not, ◌&&◌,
  ◌⊎◌, Option-cases, is_some, keep, All, Dict, lookup, Outcome, Outcome-cases, ok, raised, String,
  ◌≡◌, refl, sym, ap, ◌∙◌, inl, inr, Bool, Option, none, some, List, [], ◌∷◌, ◌++◌, map, ℕ_key,
  String_key,
}
use stock_aggregator.Fetch.Chain.{
  FetchResult, Failure, Fetched, validated, attempt, fetch_from, fetch, unknown, failed, got,
  all_failed, no_strategies,
}

append_nil : {A : Type 0} (xs : List A) → xs ≡ xs ++ []
append_nil [] = refl
append_nil (x ∷ xs) = ap (λ ys. x ∷ ys) (append_nil xs)

map-append : {A B : Type 0} (f : A → B) (xs ys : List A) → map f (xs ++ ys) ≡ map f xs ++ map f ys
map-append f [] ys = refl
map-append f (x ∷ xs) ys = ap (λ zs. f x ∷ zs) (map-append f xs ys)

module _ (table : Dict String (Outcome FetchResult)) (allow_empty : Bool)
    (validate : Option (FetchResult → Outcome Bool)) where
  pub data Verdict : Type 0 where
    good : FetchResult → Verdict
    bad : Failure → Verdict

  abbrev judged : String → Outcome FetchResult → Verdict
  judged name (ok result) = good result
  judged name (raised e) = bad (failed name e)

  -- What one strategy comes to, whichever stood before it.
  unfoldable pub verdict : String → Verdict
  unfolding lookup attempt
  verdict name = elim (lookup name table) [
    | none ↦ bad (unknown name)
    | some answer ↦ judged name (attempt table allow_empty validate answer)
  ]

  abbrev IsBad : String → Type 0
  IsBad name = (f : Failure) × (verdict name ≡ bad f)

  -- the strategies that there are
  abbrev known : List String → List String
  known = keep (λ (name : String). is_some (lookup name table))

  -- The first good strategy, and what is known of those before it.
  pub record IsFirst (attempted names : List String) (result : FetchResult) : Type 0 where
    pub before : List String
    pub name : String
    pub after : List String
    pub answer : FetchResult
    pub order : names ≡ before ++ name ∷ after
    pub all_bad : All IsBad before
    pub answers : lookup name table ≡ some (ok answer)
    pub not_empty : (allow_empty ≡ true) ⊎ (is_blank answer.text ≡ false)
    pub checked :
        (check : FetchResult → Outcome Bool) → validate ≡ some check → Returns (check answer)
    pub result_is : result ≡ record answer { attempts = attempted ++ (known before ++ name ∷ []) }

  -- Each part of the answer.
  abbrev pub Describes : List String → List Failure → List String → Fetched → Type 0
  Describes attempted errors names (got result) = IsFirst attempted names result
  Describes attempted errors names (all_failed failures) =
      map bad failures ≡ map bad errors ++ map verdict names
  Describes attempted errors names no_strategies = ⊥

  -- The check of the caller, where there is one, does not raise, and changes nothing.
  validated-inv :
      (answer result : FetchResult)
      → validated table allow_empty validate answer ≡ ok result
      → (answer ≡ result)
        × ((check : FetchResult → Outcome Bool) → validate ≡ some check → Returns (check answer))
  unfolding validated
  validated-inv answer result h = elim (Option-cases validate) [
    | inl e ↦ (ok-injective (rw (validated, e) at h), λ check e'. cc (e, e'))
    | inr (check, e) ↦
        let (read, returned, same) = bind-ok (check answer) _ (rw (validated, e) at h) in
        (
          ok-injective same,
          λ other e'.
              (read, subst (λ c. c answer ≡ ok read) (some-injective (sym e ∙ e')) returned),
        )
  ]

  attempt-inv :
      (answer : Outcome FetchResult) (result : FetchResult)
      → attempt table allow_empty validate answer ≡ ok result
      → (answer ≡ ok result)
        × ((allow_empty ≡ true) ⊎ (is_blank result.text ≡ false))
        × ((check : FetchResult → Outcome Bool) → validate ≡ some check → Returns (check result))
  unfolding attempt
  attempt-inv (raised e) result h = cc h
  attempt-inv (ok answer) result h = elim (Bool-cases (not allow_empty && is_blank answer.text)) [
    | inl empty ↦ cc (rw empty at h)
    | inr full ↦
        let (same, checked) = validated-inv answer result (rw full at h) in
        let kept : (allow_empty ≡ true) ⊎ (is_blank answer.text ≡ false) =
          elim (Bool-cases allow_empty) [
            | inl allowed ↦ inl allowed
            | inr refused ↦ inr (ground (arith, full, refused))
          ] in
        subst
          (λ r.
            (ok answer ≡ ok r)
            × ((allow_empty ≡ true) ⊎ (is_blank r.text ≡ false))
            × ((check : FetchResult → Outcome Bool) → validate ≡ some check → Returns (check r)))
          same (refl, kept, checked)
  ]

  -- A bad strategy in front changes neither what is found nor what it is.
  passed-known :
      (name : String) (attempted names : List String) (result : FetchResult)
      (answer : Outcome FetchResult)
      → lookup name table ≡ some answer
      → IsBad name
      → IsFirst (attempted ++ name ∷ []) names result
      → IsFirst attempted (name ∷ names) result
  unfolding keep
  passed-known name attempted names result answer there bad_one k = record {
    before = name ∷ k.before;
    name = k.name;
    after = k.after;
    answer = k.answer;
    order = ap (λ ns. name ∷ ns) k.order;
    all_bad = (bad_one, k.all_bad);
    answers = k.answers;
    not_empty = k.not_empty;
    checked = k.checked;
    result_is =
        k.result_is
        ∙ rw (keep, there)
            (ap (λ ns. record k.answer { attempts = ns })
              (append_assoc attempted (name ∷ []) (known k.before ++ k.name ∷ [])));
  }

  passed-unknown :
      (name : String) (attempted names : List String) (result : FetchResult)
      → lookup name table ≡ none
      → IsBad name
      → IsFirst attempted names result
      → IsFirst attempted (name ∷ names) result
  unfolding keep
  passed-unknown name attempted names result there bad_one k = record {
    before = name ∷ k.before;
    name = k.name;
    after = k.after;
    answer = k.answer;
    order = ap (λ ns. name ∷ ns) k.order;
    all_bad = (bad_one, k.all_bad);
    answers = k.answers;
    not_empty = k.not_empty;
    checked = k.checked;
    result_is = k.result_is ∙ rw (keep, there) refl;
  }

  -- One more error, of the strategy that was passed.
  one_more :
      (name : String) (f : Failure) (errors failures : List Failure) (names : List String)
      → verdict name ≡ bad f
      → map bad failures ≡ map bad (errors ++ f ∷ []) ++ map verdict names
      → map bad failures ≡ map bad errors ++ map verdict (name ∷ names)
  one_more name f errors failures names h k =
      k
      ∙ ap (λ vs. vs ++ map verdict names) (map-append bad errors (f ∷ []))
      ∙ append_assoc (map bad errors) (bad f ∷ []) (map verdict names)
      ∙ ap (λ v. map bad errors ++ v ∷ map verdict names) (sym h)

  passed :
      (name : String) (f : Failure) (attempted next : List String) (errors : List Failure)
      (names : List String) (answer : Fetched)
      → verdict name ≡ bad f
      → ((result : FetchResult)
          → IsFirst next names result
          → IsFirst attempted (name ∷ names) result)
      → Describes next (errors ++ f ∷ []) names answer
      → Describes attempted errors (name ∷ names) answer
  passed name f attempted next errors names (got result) h k d = k result d
  passed name f attempted next errors names (all_failed failures) h k d =
      one_more name f errors failures names h d
  passed name f attempted next errors names no_strategies h k d = d

  fetch_from-Describes :
      (attempted : List String) (errors : List Failure) (names : List String)
      → Describes attempted errors names
          (fetch_from table allow_empty validate attempted errors names)
  unfolding fetch_from verdict keep
  fetch_from-Describes attempted errors [] = append_nil (map bad errors)
  fetch_from-Describes attempted errors (name ∷ names) = elim (Option-cases (lookup name table)) [
    | inl e ↦
        let v : verdict name ≡ bad (unknown name) = rw (verdict, e) refl in
        rw (fetch_from, e)
          (passed name (unknown name) attempted attempted errors names _ v
            (λ result k. passed-unknown name attempted names result e (unknown name, v) k)
            (fetch_from-Describes attempted (errors ++ unknown name ∷ []) names))
    | inr (answer, e) ↦ elim (Outcome-cases (attempt table allow_empty validate answer)) [
      | inl (error, f) ↦
          let v : verdict name ≡ bad (failed name error) = rw (verdict, e, f) refl in
          rw (fetch_from, e, f)
            (passed name (failed name error) attempted (attempted ++ name ∷ []) errors names _ v
              (λ result k.
                passed-known name attempted names result answer e (failed name error, v) k)
              (fetch_from-Describes (attempted ++ name ∷ []) (errors ++ failed name error ∷ [])
                names))
      | inr (result, f) ↦
          let (answered, full, passed_check) = attempt-inv answer result f in
          rw (fetch_from, e, f)
            (record {
              before = [];
              name = name;
              after = names;
              answer = result;
              order = refl;
              all_bad = tt;
              answers = e ∙ ap some answered;
              not_empty = full;
              checked = passed_check;
              result_is = refl;
            })
    ]
  ]

  -- `fetch` with a strategy or more returns the answer of the first strategy that is known, does not
  -- fail, is not empty where that matters and passes the caller's check; its attempts are the known
  -- strategies up to that one, in order. Where there is none, the error tells of every strategy, in
  -- order.
  pub fetch-Describes :
      (name : String) (names : List String)
      → Describes [] [] (name ∷ names) (fetch table allow_empty validate (name ∷ names))
  unfolding fetch
  fetch-Describes name names = fetch_from-Describes [] [] (name ∷ names)
