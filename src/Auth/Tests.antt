-- ===== src/Auth/Tests.antt =====
-- A run of src/screener/auth/session.py, and its property there.
use stock_aggregator.Prelude.{
  ℕ, ◌≤◌, ◌≡◌, refl, ok, none, some, [], ◌∷◌, arith, any, all, count, true,
}
use stock_aggregator.Mcp.OAuth.{Env}
use stock_aggregator.Auth.Sessions.{AuthTables, create_session, resolve_session, delete_session}
use stock_aggregator.Auth.Sessions.SignIn.{has_id, create_resolve_delete}

abbrev env : Env
env = record {
  hmac = λ secret material. material;
  s256 = λ verifier. ok verifier;
  compare_digest = λ expected challenge. ok true;
  urlparse = λ uri.
      ok (record { scheme = "https"; hostname = none; netloc = uri; query = ""; fragment = "" });
  parse_qs = λ query. [];
  folded = λ text. text;
  after_bearer = λ header. some header;
  session_secret = some "key";
  allowed_logins = [];
  base_url = "";
}

-- an account that has changed its login since
abbrev tables : AuthTables
tables = record {
  users = record { id = 1; github_id = 77; login = "old-name"; last_seen_at = 0 } ∷ [];
  sessions = [];
  next_id = 2;
}

one_account : (id : ℕ) → count (has_id id) tables.users ≤ 1
unfolding count
one_account id = ground arith

create_resolve_delete_example :
    (u : AuthTables) × (create_session env "key" 10 "t" 77 "ellis" 30 tables ≡ ok u)
    × (resolve_session env "key" 500 "t" u ≡ some "ellis")
    × (resolve_session env "key" 510 "t" (delete_session env "key" 505 "t" u) ≡ none)
unfolding any all
create_resolve_delete_example =
    create_resolve_delete env "key" 10 "t" 77 "ellis" 30 500 505 510 tables refl refl refl
      one_account (omega arith)
