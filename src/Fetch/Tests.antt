-- ===== src/Fetch/Tests.antt =====
-- Runs of src/screener/fetch, and each property at a concrete input.
use stock_aggregator.Prelude.{
  all, Has, Dict, lookup, Outcome, value_error, ok, raised, ℕ, String, ◌≡◌, refl, false, none, List,
  [], ◌∷◌, arith, ℕ_key, String_key,
}
use stock_aggregator.Skybird.Session.{is_blank, is_space}
use stock_aggregator.Fetch.Chain.{FetchResult, validated, attempt, fetch_from, fetch, got}
use stock_aggregator.Fetch.Chain.First.{Describes, fetch-Describes}
use stock_aggregator.Fetch.Lanes.{Pool, park, first_free, acquire, acquire_each}
use stock_aggregator.Fetch.Lanes.Rotation.{IsFree, acquire-IsFree, acquire_each-turn}

abbrev answer_of : List ℕ → FetchResult
answer_of text = record {
  text = text;
  status_code = 200;
  strategy = "";
  url = "https://a.example/";
  attempts = [];
}

abbrev table : Dict String (Outcome FetchResult)
table =
    ("direct", ok (answer_of (32 ∷ [])))
    ∷ ("isp_proxy", raised value_error)
    ∷ ("unlocker", ok (answer_of (65 ∷ [])))
    ∷ []

abbrev names : List String
names = "isp_proxy" ∷ "nothing" ∷ "unlocker" ∷ []

fetch_run :
    fetch table false none ("direct" ∷ names)
    ≡ got (record (answer_of (65 ∷ [])) { attempts = "direct" ∷ "isp_proxy" ∷ "unlocker" ∷ [] })
unfolding fetch fetch_from attempt validated is_blank is_space all lookup
fetch_run = refl

fetch-Describes_example :
    Describes table false none [] [] ("direct" ∷ names) (fetch table false none ("direct" ∷ names))
fetch-Describes_example = fetch-Describes table false none "direct" names

abbrev pool : Pool
pool = record {
  lanes =
      record { name = "a"; free_at = 0 }
      ∷ park 5 60 (record { name = "b"; free_at = 0 })
      ∷ record { name = "c"; free_at = 0 }
      ∷ [];
  next = 1;
}

acquire_run : acquire_each (6 ∷ 7 ∷ 8 ∷ []) pool ≡ 2 ∷ 0 ∷ 2 ∷ []
unfolding acquire_each acquire first_free
acquire_run = refl

acquire-IsFree_example : IsFree pool.lanes (acquire 6 pool).0 6
acquire-IsFree_example = acquire-IsFree pool 0 6 (omega arith) (omega arith) refl

acquire_each-turn_example : Has 0 (acquire_each (6 ∷ 7 ∷ 8 ∷ []) pool)
acquire_each-turn_example =
    acquire_each-turn pool 0 (6 ∷ 7 ∷ 8 ∷ []) (omega arith) (omega arith) (refl, (refl, (refl, tt)))
      refl
