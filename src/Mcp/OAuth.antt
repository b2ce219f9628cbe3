-- ===== src/Mcp/OAuth.antt =====
-- src/screener/mcp/oauth.py: what its handlers share. Hashing, the parsing of addresses and of
-- queries and the environment are the parameters of Env. An answer is a Response without its bytes;
-- Reply adds the tables that the handler leaves, which stay changed when it raises.
pub mod Asking
pub mod Granting
use Prim.Native.String.{◌++◌ as join}
use stock_aggregator.Prelude.{
  if◌then◌else◌, ◌==◌, any, Dict, lookup, Outcome, ◌>>=◌, unauthorized, ok, raised, ℕ, ◌-◌, ◌*◌,
  ◌/◌, String, Bool, true, false, ◌&&◌, Option, none, some, List, [], ◌∷◌, ℕ_key, String_key,
}
use stock_aggregator.Mcp.Tables.{Tables}

-- What `urlparse` finds in an address.
pub record Url : Type 0 where
  pub scheme : String
  pub hostname : Option String
  pub netloc : String
  pub query : String
  pub fragment : String

pub record Env : Type 0 where
  -- `hmac.new(secret, material, sha256)`
  pub hmac : String → String → String
  -- the base64 of the SHA-256 of a verifier in ASCII, and `compare_digest`
  pub s256 : String → Outcome String
  pub compare_digest : String → String → Outcome Bool
  pub urlparse : String → Outcome Url
  pub parse_qs : String → Dict String (List String)
  -- `strip().lower()`
  pub folded : String → String
  -- what follows a leading `bearer ` in a header, stripped
  pub after_bearer : String → Option String
  pub session_secret : Option String
  pub allowed_logins : List String
  pub base_url : String

pub data Response : Type 0 where
  page : String → ℕ → Response
  -- the consent page: the client's name, the checked address, the login and the query it posts back
  consent : String → String → String → String → Response
  -- an address, and the query that is put on it
  redirect : String → Dict String String → Response
  -- an OAuth error: code, description, status
  refusal : String → String → ℕ → Response
  registered : String → Option String → List String → Response
  -- access token, refresh token and scope
  issued : String → String → String → Response

abbrev pub Reply : Type 0
Reply = Outcome Response × Tables

-- The answer after an insert, or what it raised with the tables as they were.
abbrev pub stored : Response → Tables → Outcome Tables → Reply
stored response t (ok u) = (ok response, u)
stored response t (raised e) = (raised e, t)

abbrev pub invalid_request : String
invalid_request = "invalid_request"

abbrev pub invalid_client : String
invalid_client = "invalid_client"

abbrev pub invalid_grant : String
invalid_grant = "invalid_grant"

abbrev pub unsupported_grant : String
unsupported_grant = "unsupported_grant_type"

abbrev pub local_login : String
local_login = "local-dev"

abbrev pub scope_name : String
scope_name = "screener:read"

abbrev pub authorize_path : String
authorize_path = "/oauth/authorize"

abbrev pub access_ttl_seconds : ℕ
access_ttl_seconds = 3600

abbrev pub refresh_ttl_seconds : ℕ
refresh_ttl_seconds = 30 * 24 * 3600

abbrev pub code_ttl_seconds : ℕ
code_ttl_seconds = 300

abbrev pub access_purpose : String
access_purpose = "mcp-access"

abbrev pub refresh_purpose : String
refresh_purpose = "mcp-refresh"

abbrev pub code_purpose : String
code_purpose = "mcp-code"

abbrev pub claude_redirects : List String
claude_redirects = "https://claude.ai/api/mcp/auth_callback" ∷ []

abbrev pub contains : List String → String → Bool
contains texts text = any (λ (x : String). x == text) texts

-- `text or other`
abbrev pub or_text : String → String → String
or_text text other = if text == "" then other else text

-- `one.get(key, "")`
abbrev pub text_of : String → Dict String String → String
text_of key one = elim (lookup key one) [ none ↦ "" | some text ↦ text ]

-- `{k: v[0] for k, v in params.items() if v}`
unfoldable pub firsts : Dict String (List String) → Dict String String
firsts [] = []
firsts ((k, []) ∷ params) = firsts params
firsts ((k, v ∷ _) ∷ params) = (k, v) ∷ firsts params

module _ (env : Env) where
  -- `config.resource()`
  abbrev pub resource_uri : String
  resource_uri = join env.base_url "/mcp"

  -- `AuthConfig.permits`
  abbrev pub permits : String → Bool
  permits login = contains env.allowed_logins (env.folded login)

  -- `auth.token_hash`
  unfoldable pub token_hash : String → String → String → String
  token_hash token secret purpose =
      env.hmac secret (if purpose == "" then token else join purpose (join ":" token))

  -- `_hash`
  unfoldable pub hash_of : String → String → Outcome String
  hash_of value purpose = elim env.session_secret [
    | none ↦ raised unauthorized
    | some secret ↦ ok (token_hash value secret purpose)
  ]

  unfoldable pub pkce_ok : String → String → Outcome Bool
  pkce_ok verifier challenge =
      env.s256 verifier >>= λ expected. env.compare_digest expected challenge

  unfoldable pub loopback : Url → Bool
  unfolding any
  loopback u =
      u.scheme == "http"
      && elim u.hostname [
        | none ↦ false
        | some host ↦ contains ("localhost" ∷ "127.0.0.1" ∷ "::1" ∷ []) host
      ]
      && u.query == ""
      && u.fragment == ""

  unfoldable pub redirect_allowed : String → Outcome Bool
  unfolding any loopback
  redirect_allowed uri =
      if contains claude_redirects uri then ok true else (env.urlparse uri >>= λ u. ok (loopback u))
