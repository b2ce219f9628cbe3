-- ===== src/Fetch/Chain.antt =====
-- src/screener/fetch/chain.py: `fetch`. What each strategy answers for the request is the parameter
-- `table`, so a strategy that is named twice answers alike both times; a text is a list of code points.
pub mod First
use stock_aggregator.Prelude.{
  if◌then◌else◌, Dict, lookup, Error, Outcome, ◌>>=◌, runtime_error, ok, raised, ℕ, ◌+◌, String,
  Bool, not, ◌&&◌, Option, none, some, List, [], ◌∷◌, ◌++◌, ℕ_key, String_key,
}
use stock_aggregator.Skybird.Session.{is_blank}

pub record FetchResult : Type 0 where
  pub text : List ℕ
  pub status_code : ℕ
  pub strategy : String
  pub url : String
  pub attempts : List String

-- A line of the message of FetchError.
pub data Failure : Type 0 where
  unknown : String → Failure
  failed : String → Error → Failure

pub data Fetched : Type 0 where
  got : FetchResult → Fetched
  -- FetchError
  all_failed : List Failure → Fetched
  -- ValueError
  no_strategies : Fetched

module _ (table : Dict String (Outcome FetchResult)) (allow_empty : Bool)
    (validate : Option (FetchResult → Outcome Bool)) where
  -- `validate(result)`, whose value is not read
  unfoldable pub validated : FetchResult → Outcome FetchResult
  validated result = elim validate [
    | none ↦ ok result
    | some check ↦ check result >>= λ ignored. ok result
  ]

  -- The body of the `try`.
  unfoldable pub attempt : Outcome FetchResult → Outcome FetchResult
  unfolding validated is_blank
  attempt answer = answer >>= λ result.
      if not allow_empty && is_blank result.text then raised runtime_error else validated result

  -- The loop over the strategies, with those attempted and the errors so far.
  unfoldable pub fetch_from : List String → List Failure → List String → Fetched
  unfolding attempt lookup
  fetch_from attempted errors [] = all_failed errors
  fetch_from attempted errors (name ∷ names) = elim (lookup name table) [
    | none ↦ fetch_from attempted (errors ++ unknown name ∷ []) names
    | some answer ↦ elim (attempt answer) [
      | raised e ↦ fetch_from (attempted ++ name ∷ []) (errors ++ failed name e ∷ []) names
      | ok result ↦ got (record result { attempts = attempted ++ name ∷ [] })
    ]
  ]

  unfoldable pub fetch : List String → Fetched
  unfolding fetch_from
  fetch [] = no_strategies
  fetch (name ∷ names) = fetch_from [] [] (name ∷ names)
