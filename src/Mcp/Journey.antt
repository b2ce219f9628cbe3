-- ===== src/Mcp/Journey.antt =====
-- A connector's way through src/screener/mcp/oauth.py: consent, code, access token, request.
use stock_aggregator.Prelude.{
  ltb, ◌==◌, String_key, is_some, update_rows, any, Dict, unauthorized, ok, raised, ℕ, ◌+◌, ◌<◌,
  String, ◌≡◌, refl, ap, ◌∙◌, true, false, not, ◌||◌, Option, none, some, List, [], ◌∷◌, ◌++◌,
  arith, ℕ_key, String_key,
}
use stock_aggregator.Prelude.Rows.{any_weaken, find_row-last}
use stock_aggregator.Mcp.Tables.{
  Code, TokenRow, Token, Tables, is_code, new_code, code_conflict, save_code, claimable, code_used,
  grant_of, claim_code, has_token, new_token, token_conflict, save_token, resolvable, token_of,
  resolve,
}
use stock_aggregator.Mcp.OAuth.{
  Env, local_login, access_ttl_seconds, refresh_ttl_seconds, code_ttl_seconds, access_purpose,
  refresh_purpose, code_purpose, or_text, text_of, firsts, resource_uri, permits, token_hash,
  hash_of, pkce_ok, redirect, issued,
}
use stock_aggregator.Mcp.OAuth.Asking.{Ask, with_state, read_ask, grant_code, approve, asked}
use stock_aggregator.Mcp.OAuth.Granting.{
  Drawn, differs, issue, redeem, exchange_code, entitled, bearer_token,
}

module _ (env : Env) (secret : String) (configured : env.session_secret ≡ some secret) where
  hash_of-token_hash :
      (value purpose : String)
      → hash_of env value purpose ≡ ok (token_hash env value secret purpose)
  unfolding hash_of
  hash_of-token_hash value purpose =
      ap
        (λ (o : Option String). elim o [
          | none ↦ raised unauthorized
          | some key ↦ ok (token_hash env value key purpose)
        ])
        configured

  -- The row that `_issue` inserts.
  abbrev pub issued_row : Drawn → ℕ → String → String → String → String → String → TokenRow
  issued_row drawn now client_id login resource scope family_id =
      new_token now (or_text family_id drawn.family)
        (token_hash env drawn.access secret access_purpose)
        (token_hash env drawn.refresh secret refresh_purpose) client_id login resource scope
        access_ttl_seconds refresh_ttl_seconds

  issue-new_token :
      (drawn : Drawn) (now : ℕ) (client_id login resource scope family_id : String) (t : Tables)
      → token_conflict (issued_row drawn now client_id login resource scope family_id) t ≡ false
      → issue env drawn now client_id login resource scope family_id t ≡ (
        ok (issued drawn.access drawn.refresh scope),
        record t {
          tokens = t.tokens ++ issued_row drawn now client_id login resource scope family_id ∷ [];
        },
      )
  unfolding issue save_token
  issue-new_token drawn now client_id login resource scope family_id t new =
      rw
        (
          issue,
          hash_of-token_hash drawn.access access_purpose,
          hash_of-token_hash drawn.refresh refresh_purpose,
          save_token,
          new,
        )
        refl

  -- A token that was just inserted is found by its hash while it lives.
  resolve-new_token :
      (later : ℕ) (row : TokenRow) (t : Tables)
      → token_conflict row t ≡ false
      → ltb later row.expires_at ≡ true
      → is_some row.revoked_at ≡ false
      → (resolve later row.token_hash (record t { tokens = t.tokens ++ row ∷ [] })).0
        ≡ some (token_of row)
  unfolding resolve token_conflict
  resolve-new_token later row t new alive unrevoked =
      let unseen : any (has_token row.token_hash) t.tokens ≡ false = ground (arith, new) in
      rw
        (find_row-last (resolvable later row.token_hash) t.tokens row
          (any_weaken (has_token row.token_hash) (resolvable later row.token_hash)
            (λ r e. ground (arith, e)) t.tokens unseen)
          (ground
            (arith, alive, unrevoked, (String_key.same_iff row.token_hash row.token_hash).1 refl)))
        refl

  -- A code that was just inserted can be claimed until it expires.
  claim_code-new_code :
      (soon : ℕ) (row : Code) (t : Tables)
      → code_conflict row t ≡ false
      → ltb soon row.expires_at ≡ true
      → is_some row.used_at ≡ false
      → (claim_code soon row.code_hash (record t { codes = t.codes ++ row ∷ [] })).0
        ≡ some (grant_of row)
  unfolding claim_code
  claim_code-new_code soon row t new alive unused =
      let unseen : any (is_code row.code_hash) t.codes ≡ false = ground (arith, new) in
      rw
        (find_row-last (claimable soon row.code_hash) t.codes row
          (any_weaken (is_code row.code_hash) (claimable soon row.code_hash)
            (λ c e. ground (arith, e)) t.codes unseen)
          (ground (arith, alive, unused, (String_key.same_iff row.code_hash row.code_hash).1 refl)))
        refl

  -- The row of the code that `approve` issues for an ask.
  abbrev pub code_row : ℕ → String → String → Ask → Code
  code_row now code login ask =
      new_code now (token_hash env code secret code_purpose)
        record {
          client_id = ask.client.client_id;
          redirect_uri = ask.redirect_uri;
          code_challenge = ask.challenge;
          login = login;
          resource = ask.resource;
          scope = ask.scope;
        }
        code_ttl_seconds

  -- The row of the token that is issued for that code.
  abbrev pub token_row : Drawn → ℕ → String → Ask → TokenRow
  token_row drawn soon login ask =
      issued_row drawn soon ask.client.client_id login ask.resource ask.scope ""

  abbrev with_code : Tables → Code → Tables
  with_code t row = record t { codes = t.codes ++ row ∷ [] }

  abbrev codes_after : ℕ → Code → Tables → List Code
  codes_after soon row t =
      update_rows (claimable soon row.code_hash) (code_used soon) (t.codes ++ row ∷ [])

  grant_code-new_code :
      (now : ℕ) (code login : String) (ask : Ask) (t : Tables)
      → code_conflict (code_row now code login ask) t ≡ false
      → grant_code env now code login (asked ask) t ≡ (
        ok (redirect ask.redirect_uri (with_state ask.state (("code", code) ∷ []))),
        with_code t (code_row now code login ask),
      )
  unfolding grant_code save_code
  grant_code-new_code now code login ask t new =
      rw (grant_code, hash_of-token_hash code code_purpose, save_code, new) refl

  token_conflict_codes :
      (row : TokenRow) (t : Tables) (codes : List Code)
      → token_conflict row (record t { codes = codes }) ≡ token_conflict row t
  unfolding token_conflict
  token_conflict_codes row t codes = refl

  exchange_code-issued :
      (now soon : ℕ) (code login : String) (ask : Ask) (drawn : Drawn) (one : Dict String String)
      (t : Tables)
      → code_conflict (code_row now code login ask) t ≡ false
      → token_conflict (token_row drawn soon login ask) t ≡ false
      → soon < now + code_ttl_seconds
      → text_of "code" one ≡ code
      → (code == "" || text_of "code_verifier" one == "") ≡ false
      → differs "client_id" one ask.client.client_id ≡ false
      → differs "redirect_uri" one ask.redirect_uri ≡ false
      → pkce_ok env (text_of "code_verifier" one) ask.challenge ≡ ok true
      → exchange_code env drawn soon one (with_code t (code_row now code login ask)) ≡ (
        ok (issued drawn.access drawn.refresh ask.scope),
        record t {
          codes = codes_after soon (code_row now code login ask) t;
          tokens = t.tokens ++ token_row drawn soon login ask ∷ [];
        },
      )
  unfolding exchange_code redeem claim_code
  exchange_code-issued now soon code login ask drawn one t new unseen in_time e₁ given same_client
        same_redirect verified =
      rw
        (
          exchange_code,
          e₁,
          given,
          hash_of-token_hash code code_purpose,
          claim_code-new_code soon (code_row now code login ask) t new (ground (arith, in_time))
              refl,
          redeem,
          same_client,
          same_redirect,
          verified,
        )
        (issue-new_token drawn soon ask.client.client_id login ask.resource ask.scope "" _ (
          token_conflict_codes (token_row drawn soon login ask) t
            (codes_after soon (code_row now code login ask) t)
          ∙ unseen))

  entitled-Token :
      (found : Token)
      → found.resource ≡ resource_uri env
      → (found.login == local_login || not (permits env found.login)) ≡ false
      → entitled env (some found) ≡ ok found
  unfolding entitled
  entitled-Token found here allowed =
      rw ((String_key.same_iff found.resource (resource_uri env)).1 here, allowed) refl

  bearer_token-resolve :
      (later : ℕ) (presented : String) (t : Tables)
      → (presented == "") ≡ false
      → (bearer_token env later presented t).0
        ≡ entitled env (resolve later (token_hash env presented secret access_purpose) t).0
  unfolding bearer_token
  bearer_token-resolve later presented t given =
      rw (bearer_token, given, hash_of-token_hash presented access_purpose) refl

  -- Where sign-in is configured and a permitted login approves a valid request for this server's
  -- resource, `approve` redirects with a code; within five minutes that code, with the verifier of
  -- its challenge, is exchanged for an access token; and for the hour that follows `bearer_token`
  -- answers that token with the login, the client, the resource and the scope that were approved.
  -- What is drawn is new to the tables, and the client of the request is registered there.
  pub approve_exchange_bearer :
      (now soon later : ℕ) (code login : String) (form : Dict String (List String)) (ask : Ask)
      (drawn : Drawn) (one : Dict String String) (t : Tables)
      → (login == "" || not true || login == local_login) ≡ false
      → read_ask env (env.parse_qs (text_of "payload" (firsts form))) t ≡ asked ask
      → code_conflict (code_row now code login ask) t ≡ false
      → token_conflict (token_row drawn soon login ask) t ≡ false
      → soon < now + code_ttl_seconds
      → later < soon + access_ttl_seconds
      → text_of "code" one ≡ code
      → (code == "" || text_of "code_verifier" one == "") ≡ false
      → (drawn.access == "") ≡ false
      → differs "client_id" one ask.client.client_id ≡ false
      → differs "redirect_uri" one ask.redirect_uri ≡ false
      → pkce_ok env (text_of "code_verifier" one) ask.challenge ≡ ok true
      → ask.resource ≡ resource_uri env
      → permits env login ≡ true
      → let approved = approve env now code form login true t in
        let exchanged = exchange_code env drawn soon one approved.1 in
        (approved.0 ≡ ok (redirect ask.redirect_uri (with_state ask.state (("code", code) ∷ []))))
        × (exchanged.0 ≡ ok (issued drawn.access drawn.refresh ask.scope))
        × ((bearer_token env later drawn.access exchanged.1).0
            ≡ ok (token_of (token_row drawn soon login ask)))
  unfolding approve
  approve_exchange_bearer now soon later code login form ask drawn one t signed_in valid new unseen
        in_time alive e₁ given drawn_given same_client same_redirect verified here permitted =
      rw
        (
          approve,
          signed_in,
          valid,
          grant_code-new_code now code login ask t new,
          exchange_code-issued now soon code login ask drawn one t new unseen in_time e₁ given
              same_client same_redirect verified,
        )
        (
          refl,
          refl,
          bearer_token-resolve later drawn.access _ drawn_given
              ∙ ap (entitled env) (
                  resolve-new_token later (token_row drawn soon login ask)
                    (record t { codes = codes_after soon (code_row now code login ask) t })
                    (token_conflict_codes (token_row drawn soon login ask) t
                        (codes_after soon (code_row now code login ask) t)
                      ∙ unseen)
                    (ground (arith, alive)) refl)
              ∙ entitled-Token (token_of (token_row drawn soon login ask)) here
                  (ground (arith, signed_in, permitted)),
        )
