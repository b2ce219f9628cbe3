-- ===== src/Mcp/Tests.antt =====
-- Runs of src/screener/mcp, and each property at a concrete input.
use stock_aggregator.Prelude.{
  ◌==◌, length, keep, all, count, find_row, update_rows, any, Dict, lookup, ok, String, ◌≡◌, refl,
  true, false, Option, none, some, List, [], ◌∷◌, arith, ℕ_key, String_key,
}
use stock_aggregator.Mcp.Tables.{
  client as find_client, Client, Grant, TokenRow, Token, Tables, new_client, new_code, claim_code,
  new_token, token_conflict, save_token, token_of, resolve, spend_refresh, in_family, revoke_family,
  claim_refresh, forget_expired,
}
use stock_aggregator.Mcp.Statements.{
  Statement, perform, perform_all, registers, claims, saves_token, spends, revokes_family, forgets,
}
use stock_aggregator.Mcp.Claims.{claim_code_once}
use stock_aggregator.Mcp.Consistency.{empty_tables, IsConsistent, perform_all-IsConsistent}
use stock_aggregator.Mcp.Rotation.{claim_refresh_replay}
use stock_aggregator.Mcp.OAuth.{
  Env, scope_name, access_purpose, text_of, firsts, token_hash, hash_of, pkce_ok, loopback,
  redirect_allowed, redirect, issued,
}
use stock_aggregator.Mcp.OAuth.Asking.{
  Ask, refused_of, remember, register, read_rest, read_ask, approve, asked,
}
use stock_aggregator.Mcp.OAuth.Granting.{Drawn, exchange_code, entitled, bearer_token, bearer}
use stock_aggregator.Mcp.Journey.{token_row, approve_exchange_bearer}
use stock_aggregator.Mcp.Entitled.{IsEntitled, bearer-IsEntitled}
use stock_aggregator.Mcp.Redirects.{IsSafe, registers as registers_client, nothing, approve-IsSafe}

abbrev callback : String
callback = "https://claude.ai/api/mcp/auth_callback"

-- the consent request that a browser posts back
abbrev request : Dict String (List String)
request =
    ("client_id", "c1" ∷ [])
    ∷ ("redirect_uri", callback ∷ [])
    ∷ ("response_type", "code" ∷ [])
    ∷ ("code_challenge_method", "S256" ∷ [])
    ∷ ("code_challenge", "proof" ∷ [])
    ∷ []

abbrev env : Env
env = record {
  hmac = λ secret material. material;
  s256 = λ verifier. ok verifier;
  compare_digest = λ expected challenge. ok (expected == challenge);
  urlparse = λ uri.
      ok (record { scheme = "https"; hostname = none; netloc = uri; query = ""; fragment = "" });
  parse_qs = λ query. request;
  folded = λ text. text;
  after_bearer = λ header. some header;
  session_secret = some "key";
  allowed_logins = "ellis" ∷ [];
  base_url = "http://localhost:8080";
}

abbrev claude : Client
claude = new_client 0 "c1" (some "Claude") (callback ∷ [])

abbrev with_claude : Tables
with_claude = record { clients = claude ∷ []; codes = []; tokens = [] }

abbrev grant : Grant
grant = record {
  client_id = "c1";
  redirect_uri = callback;
  code_challenge = "proof";
  login = "ellis";
  resource = "http://localhost:8080/mcp";
  scope = scope_name;
}

abbrev one_code_table : Tables
one_code_table = record with_claude { codes = new_code 10 "code" grant 300 ∷ [] }

abbrev first_token : TokenRow
first_token = new_token 20 "f" "a1" "r1" "c1" "ellis" grant.resource scope_name 3600 2592000

abbrev second_token : TokenRow
second_token = new_token 40 "f" "a2" "r2" "c1" "ellis" grant.resource scope_name 3600 2592000

abbrev one_token_table : Tables
one_token_table = record with_claude { tokens = first_token ∷ [] }

claim_run : (claim_code 20 "code" one_code_table).0 ≡ some grant
unfolding claim_code find_row
claim_run = refl

claim_code_once_example :
    (claim_code 30 "code"
      (perform_all (forgets 25 ∷ claims 26 "code" ∷ []) (claim_code 20 "code" one_code_table).1)).0
    ≡ none
unfolding all
claim_code_once_example =
    claim_code_once 20 "code" one_code_table (forgets 25 ∷ claims 26 "code" ∷ []) 30 refl
      (omega arith)

abbrev statements : List Statement
statements =
    registers 0 "c1" (some "Claude") (callback ∷ [])
    ∷ saves_token first_token
    ∷ saves_token first_token
    ∷ forgets 90000
    ∷ []

consistency_run : length (perform_all statements empty_tables).tokens ≡ 1
unfolding perform_all perform register save_token token_conflict forget_expired any keep
consistency_run = refl

perform_all-IsConsistent_example : IsConsistent (perform_all statements empty_tables)
perform_all-IsConsistent_example = perform_all-IsConsistent statements

claim_refresh_replay_example :
    let again =
      claim_refresh 50 "r1"
        (perform_all (saves_token second_token ∷ []) (claim_refresh 30 "r1" one_token_table).1) in
    (again.0 ≡ none) × (any (in_family "f") again.1.tokens ≡ false)
unfolding all count find_row
claim_refresh_replay_example =
    claim_refresh_replay 30 2592020 "r1" one_token_table first_token (saves_token second_token ∷ [])
      50 (omega arith) refl refl refl (omega arith)

-- Two threads present one refresh token: the second revokes the family between the claim and the
-- insert of the first, whose new token stays.
race_run :
    any
      (in_family "f")
      (perform_all
        (spends 30 "r1" ∷ spends 30 "r1" ∷ revokes_family 30 "r1" ∷ saves_token second_token ∷ [])
        one_token_table).tokens
    ≡ true
unfolding any perform_all perform spend_refresh revoke_family save_token token_conflict find_row
    update_rows
race_run = refl

abbrev drawn : Drawn
drawn = record { access = "a"; refresh = "r"; family = "f" }

abbrev form : Dict String (List String)
form = ("payload", "consent" ∷ []) ∷ []

abbrev one : Dict String String
one = ("code", "code") ∷ ("code_verifier", "proof") ∷ ("client_id", "c1") ∷ []

abbrev ask : Ask
ask = record {
  client = claude;
  redirect_uri = callback;
  state = "";
  challenge = "proof";
  scope = scope_name;
  resource = "http://localhost:8080/mcp";
}

read_run : read_ask env (env.parse_qs (text_of "payload" (firsts form))) with_claude ≡ asked ask
unfolding read_ask read_rest firsts find_client find_row any lookup
read_run = refl

token_hash_run : token_hash env "a" "key" access_purpose ≡ "mcp-access:a"
unfolding token_hash
token_hash_run = refl

approve_exchange_bearer_example :
    let approved = approve env 10 "code" form "ellis" true with_claude in
    let exchanged = exchange_code env drawn 20 one approved.1 in
    (approved.0 ≡ ok (redirect callback (("code", "code") ∷ [])))
    × (exchanged.0 ≡ ok (issued "a" "r" scope_name))
    × ((bearer_token env 3000 "a" exchanged.1).0
        ≡ ok (token_of (token_row env "key" refl drawn 20 "ellis" ask)))
unfolding token_conflict any lookup pkce_ok
approve_exchange_bearer_example =
    approve_exchange_bearer env "key" refl 10 20 3000 "code" "ellis" form ask drawn one with_claude
      refl read_run refl refl (omega arith) (omega arith) refl refl refl refl refl refl refl refl

abbrev signed_in : Tables
signed_in = record with_claude {
  tokens =
      new_token 20 "f" "mcp-access:a" "r1" "c1" "ellis" grant.resource scope_name 3600 2592000 ∷ [];
}

abbrev bearer_of_ellis : Token
bearer_of_ellis = record {
  family_id = "f";
  login = "ellis";
  client_id = "c1";
  resource = grant.resource;
  scope = scope_name;
}

bearer_run : (bearer env 30 (some "a") signed_in).0 ≡ ok bearer_of_ellis
unfolding bearer bearer_token entitled resolve hash_of token_hash find_row any
bearer_run = refl

bearer-IsEntitled_example : IsEntitled env 30 (some "a") signed_in bearer_of_ellis
bearer-IsEntitled_example = bearer-IsEntitled env 30 (some "a") signed_in bearer_of_ellis bearer_run

abbrev registration : Option (List String × Option String)
registration = some (callback ∷ "https://elsewhere.example/" ∷ [], none)

refused_run : (register env 0 "c2" registration with_claude).1 ≡ with_claude
unfolding register remember refused_of redirect_allowed loopback any
refused_run = refl

approve-IsSafe_example :
    IsSafe env
      (approve env 10 "code" form "ellis" true
        (register env 0 "c1" (some (callback ∷ [], some "Claude")) empty_tables).1).0
approve-IsSafe_example =
    approve-IsSafe env (registers_client 0 "c1" (some (callback ∷ [], some "Claude")) nothing) 10
      "code" form "ellis" true
