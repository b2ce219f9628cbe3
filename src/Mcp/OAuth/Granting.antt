-- ===== src/Mcp/OAuth/Granting.antt =====
-- The token endpoint of src/screener/mcp/oauth.py, and `bearer`, which reads what it issued.
use stock_aggregator.Prelude.{
  if◌then◌else◌, ◌==◌, any, Dict, Outcome, unauthorized, ok, raised, ℕ, String, Bool, not, ◌&&◌,
  ◌||◌, Option, none, some, ◌>>=◌, ℕ_key, String_key,
}
use stock_aggregator.Mcp.Tables.{
  Grant, Token, Tables, claim_code, new_token, save_token, resolve, claim_refresh,
}
use stock_aggregator.Mcp.OAuth.{
  Env, Reply, stored, invalid_request, invalid_client, invalid_grant, unsupported_grant,
  local_login, access_ttl_seconds, refresh_ttl_seconds, access_purpose, refresh_purpose,
  code_purpose, or_text, text_of, firsts, resource_uri, permits, hash_of, pkce_ok, refusal, issued,
}

-- What `secrets.token_urlsafe` draws for one issue.
pub record Drawn : Type 0 where
  pub access : String
  pub refresh : String
  pub family : String

-- `one.get("client_id") and one["client_id"] != expected`
abbrev pub differs : String → Dict String String → String → Bool
differs key one expected =
    let given = text_of key one in not (given == "") && not (given == expected)

module _ (env : Env) (drawn : Drawn) (now : ℕ) where
  -- `_issue`
  unfoldable pub insert_token : String → String → String → String → String → Tables → Outcome Tables
  unfolding save_token
  insert_token client_id login resource scope family_id t = do
    access_hash ← hash_of env drawn.access access_purpose
    refresh_hash ← hash_of env drawn.refresh refresh_purpose
    save_token
        (new_token now (or_text family_id drawn.family) access_hash refresh_hash client_id login
          resource scope access_ttl_seconds refresh_ttl_seconds)
        t

  unfoldable pub issue : String → String → String → String → String → Tables → Reply
  unfolding insert_token
  issue client_id login resource scope family_id t =
      stored (issued drawn.access drawn.refresh scope) t
        (insert_token client_id login resource scope family_id t)

  -- the checks on a claimed code, and the issue
  unfoldable pub redeem : Dict String String → String → Option Grant → Tables → Reply
  unfolding issue pkce_ok
  redeem one verifier none t = (ok (refusal invalid_grant "that code is not usable" 400), t)
  redeem one verifier (some grant) t =
      if differs "client_id" one grant.client_id
      then (ok (refusal invalid_client "wrong client for that code" 400), t)
      else if differs "redirect_uri" one grant.redirect_uri
      then (ok (refusal invalid_grant "redirect_uri does not match" 400), t)
      else elim (pkce_ok env verifier grant.code_challenge) [
        | raised e ↦ (raised e, t)
        | ok verified ↦
            if verified
            then issue grant.client_id grant.login grant.resource grant.scope "" t
            else (ok (refusal invalid_grant "PKCE verification failed" 400), t)
      ]

  unfoldable pub exchange_code : Dict String String → Tables → Reply
  unfolding redeem claim_code
  exchange_code one t =
      let code = text_of "code" one in
      let verifier = text_of "code_verifier" one in
      if code == "" || verifier == ""
      then (ok (refusal invalid_request "code and code_verifier are required" 400), t)
      else elim (hash_of env code code_purpose) [
        | raised e ↦ (raised e, t)
        | ok code_hash ↦
            let claimed = claim_code now code_hash t in redeem one verifier (claimed.0) (claimed.1)
      ]

  -- the check on a spent refresh token, and the issue in its family
  unfoldable pub renew : Dict String String → Option Token → Tables → Reply
  unfolding issue
  renew one none t = (ok (refusal invalid_grant "that refresh token is not usable" 400), t)
  renew one (some old) t =
      if differs "client_id" one old.client_id
      then (ok (refusal invalid_client "wrong client for that refresh token" 400), t)
      else issue old.client_id old.login old.resource old.scope old.family_id t

  unfoldable pub exchange_refresh : Dict String String → Tables → Reply
  unfolding renew claim_refresh
  exchange_refresh one t =
      let presented = text_of "refresh_token" one in
      if presented == ""
      then (ok (refusal invalid_request "refresh_token is required" 400), t)
      else elim (hash_of env presented refresh_purpose) [
        | raised e ↦ (raised e, t)
        | ok refresh_hash ↦
            let claimed = claim_refresh now refresh_hash t in renew one (claimed.0) (claimed.1)
      ]

  -- The body is decoded outside: none where it is not UTF-8.
  unfoldable pub token : Option String → Tables → Reply
  unfolding exchange_code exchange_refresh firsts
  token none t = (ok (refusal invalid_request "body was not form-encoded" 400), t)
  token (some body) t =
      let one = firsts (env.parse_qs body) in
      let grant_type = text_of "grant_type" one in
      if grant_type == "authorization_code"
      then exchange_code one t
      else if grant_type == "refresh_token"
      then exchange_refresh one t
      else (ok (refusal unsupported_grant "authorization_code or refresh_token" 400), t)

module _ (env : Env) where
  -- the checks of `bearer` on the token that was found
  unfoldable pub entitled : Option Token → Outcome Token
  unfolding any
  entitled none = raised unauthorized
  entitled (some found) =
      if not (found.resource == resource_uri env)
      then raised unauthorized
      else if found.login == local_login || not (permits env found.login)
      then raised unauthorized
      else ok found

module _ (env : Env) (now : ℕ) where
  unfoldable pub bearer_token : String → Tables → Outcome Token × Tables
  unfolding entitled resolve
  bearer_token presented t =
      if presented == ""
      then (raised unauthorized, t)
      else elim (hash_of env presented access_purpose) [
        | raised e ↦ (raised e, t)
        | ok access_hash ↦
            let found = resolve now access_hash t in (entitled env (found.0), found.1)
      ]

  unfoldable pub bearer : Option String → Tables → Outcome Token × Tables
  unfolding bearer_token
  bearer none t = (raised unauthorized, t)
  bearer (some header) t = elim (env.after_bearer header) [
    | none ↦ (raised unauthorized, t)
    | some presented ↦ bearer_token presented t
  ]
