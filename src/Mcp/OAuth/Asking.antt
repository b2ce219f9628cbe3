-- ===== src/Mcp/OAuth/Asking.antt =====
-- Registration and consent in src/screener/mcp/oauth.py: register, _read_ask, authorize, approve.
use Prim.Native.String.{◌++◌ as join}
use stock_aggregator.Prelude.{
  if◌then◌else◌, ◌==◌, any, Dict, insert, Outcome, ok, raised, ℕ, String, Bool, not, ◌||◌, Option,
  none, some, List, [], ◌∷◌, ◌>>=◌, ℕ_key, String_key,
}
use stock_aggregator.Mcp.Tables.{
  register as add_client, client as find_client, Client, Tables, save_code, forget_expired,
}
use stock_aggregator.Mcp.OAuth.{
  Env, Response, Reply, stored, invalid_request, local_login, scope_name, authorize_path,
  code_ttl_seconds, code_purpose, contains, or_text, text_of, firsts, resource_uri, hash_of,
  redirect_allowed, page, consent, redirect, refusal, registered,
}

pub record Ask : Type 0 where
  pub client : Client
  pub redirect_uri : String
  pub state : String
  pub challenge : String
  pub scope : String
  pub resource : String

pub data Read : Type 0 where
  asked : Ask → Read
  answered : Response → Read

-- `query["state"] = state`, where there is one
abbrev pub with_state : String → Dict String String → Dict String String
with_state state query = if state == "" then query else insert "state" state query

unfoldable pub bounce : String → String → String → String → Response
bounce redirect_uri state code description =
    redirect redirect_uri
      (with_state state (("error", code) ∷ ("error_description", description) ∷ []))

abbrev pub code_redirect : String → Ask → Response
code_redirect code ask = redirect ask.redirect_uri (with_state ask.state (("code", code) ∷ []))

-- `str(name) if name else None`
abbrev pub given_name : Option String → Option String
given_name none = none
given_name (some text) = if text == "" then none else some text

module _ (env : Env) where
  -- the addresses that are not allowed, in their order
  unfoldable pub refused_of : List String → Outcome (List String)
  unfolding redirect_allowed
  refused_of [] = ok []
  refused_of (uri ∷ uris) = do
    allowed ← redirect_allowed env uri
    rest ← refused_of uris
    ok (if allowed then rest else uri ∷ rest)

  -- the body after its addresses were checked
  unfoldable pub remember :
      ℕ → String → List String → Option String → Outcome (List String) → Tables → Reply
  unfolding forget_expired add_client
  remember now client_id uris name (raised e) t = (raised e, t)
  remember now client_id uris name (ok (uri ∷ refused)) t = (
    ok (
        refusal invalid_request "redirect_uris must be a Claude callback or a loopback address"
          400),
    t,
  )
  remember now client_id uris name (ok []) t =
      let swept = forget_expired now t in
      stored (registered client_id name uris) swept
        (add_client now client_id (given_name name) uris swept)

  -- The body is what its JSON holds: the addresses and the client's name, or none where it has no
  -- list of addresses. The identity of the client is drawn outside.
  unfoldable pub register : ℕ → String → Option (List String × Option String) → Tables → Reply
  unfolding refused_of remember
  register now client_id none t = (ok (refusal invalid_request "redirect_uris is required" 400), t)
  register now client_id (some ([], name)) t =
      (ok (refusal invalid_request "redirect_uris is required" 400), t)
  register now client_id (some (uri ∷ uris, name)) t =
      remember now client_id (uri ∷ uris) name (refused_of (uri ∷ uris)) t

  -- the part of `_read_ask` that trusts the address
  unfoldable pub read_rest : Dict String String → Client → String → Read
  unfolding bounce
  read_rest one client redirect_uri =
      let state = text_of "state" one in
      let challenge = text_of "code_challenge" one in
      if not (text_of "response_type" one == "code")
      then answered (bounce redirect_uri state invalid_request "response_type must be code")
      else if not (text_of "code_challenge_method" one == "S256")
      then answered (bounce redirect_uri state invalid_request "PKCE S256 is required")
      else if challenge == ""
      then answered (bounce redirect_uri state invalid_request "code_challenge is required")
      else asked record {
        client = client;
        redirect_uri = redirect_uri;
        state = state;
        challenge = challenge;
        scope = or_text (text_of "scope" one) scope_name;
        resource = or_text (text_of "resource" one) (resource_uri env);
      }

  unfoldable pub read_ask : Dict String (List String) → Tables → Read
  unfolding any firsts read_rest find_client
  read_ask params t =
      let one = firsts params in
      let client_id = text_of "client_id" one in
      let redirect_uri = text_of "redirect_uri" one in
      elim (if client_id == "" then none else find_client client_id t) [
        | none ↦ answered (page "Unknown client" 400)
        | some client ↦
            if contains client.redirect_uris redirect_uri
            then read_rest one client redirect_uri
            else answered (page "Bad redirect" 400)
      ]

  -- `client_name or "An application"`
  abbrev shown_name : Option String → String
  shown_name none = "An application"
  shown_name (some text) = or_text text "An application"

  -- The consent page of an ask, or the answer there is already.
  unfoldable pub consent_page : String → String → Read → Outcome Response
  consent_page query login (answered response) = ok response
  consent_page query login (asked ask) = do
    url ← env.urlparse ask.redirect_uri
    let name = shown_name ask.client.client_name
    ok (consent name (or_text url.netloc ask.redirect_uri) login query)

  unfoldable pub authorize :
      String → Option String → Bool → Option String → Tables → Outcome Response
  unfolding read_ask consent_page
  authorize query login permitted none t = ok (page "Not configured" 503)
  authorize query none permitted (some secret) t =
      ok (redirect "/auth/login" (("next", join authorize_path (join "?" query)) ∷ []))
  authorize query (some login) permitted (some secret) t =
      if not permitted || login == local_login
      then ok (page "Not permitted" 403)
      else consent_page query login (read_ask (env.parse_qs query) t)

  -- The one-time code of an ask; `code` is drawn outside.
  unfoldable pub insert_code : ℕ → String → String → Ask → Tables → Outcome Tables
  unfolding save_code
  insert_code now code login ask t = do
    code_hash ← hash_of env code code_purpose
    save_code now code_hash
        record {
          client_id = ask.client.client_id;
          redirect_uri = ask.redirect_uri;
          code_challenge = ask.challenge;
          login = login;
          resource = ask.resource;
          scope = ask.scope;
        }
        code_ttl_seconds t

  unfoldable pub grant_code : ℕ → String → String → Read → Tables → Reply
  unfolding insert_code
  grant_code now code login (answered response) t = (ok response, t)
  grant_code now code login (asked ask) t =
      stored (code_redirect code ask) t (insert_code now code login ask t)

  unfoldable pub approve : ℕ → String → Dict String (List String) → String → Bool → Tables → Reply
  unfolding read_ask grant_code firsts
  approve now code form login permitted t =
      if login == "" || not permitted || login == local_login
      then (ok (page "Not permitted" 403), t)
      else grant_code now code login (read_ask (env.parse_qs (text_of "payload" (firsts form))) t) t
