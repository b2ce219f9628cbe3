-- ===== src/Mcp/Clients.antt =====
-- Which requests of src/screener/mcp/oauth.py leave the clients alone.
use stock_aggregator.Prelude.{
  if◌then◌else◌, ◌==◌, Bool-cases, Option-cases, find_row, Dict, Error, Outcome, ok-injective,
  bind-ok, Outcome-cases, ok, raised, ℕ, String, ◌≡◌, refl, ◌∙◌, subst, inl, inr, Bool, true, false,
  not, ◌||◌, Option, none, some, List, ℕ_key, String_key,
}
use stock_aggregator.Mcp.Tables.{
  Grant, TokenRow, Token, Tables, new_code, code_conflict, save_code, claim_code, new_token,
  token_conflict, save_token, resolve, spendable, spend_refresh, claim_refresh,
}
use stock_aggregator.Mcp.Statements.{revoke_family_keeps}
use stock_aggregator.Mcp.OAuth.{
  Env, Response, stored, local_login, access_ttl_seconds, refresh_ttl_seconds, code_ttl_seconds,
  access_purpose, refresh_purpose, code_purpose, or_text, text_of, firsts, hash_of, pkce_ok, issued,
}
use stock_aggregator.Mcp.OAuth.Asking.{
  Ask, Read, code_redirect, insert_code, grant_code, approve, asked, answered,
}
use stock_aggregator.Mcp.OAuth.Granting.{
  Drawn, differs, insert_token, issue, redeem, exchange_code, renew, exchange_refresh, token,
  bearer_token, bearer,
}

module _ (env : Env) where
  -- An insert elsewhere leaves the clients.
  stored-clients :
      (response : Response) (t : Tables) (o : Outcome Tables)
      → ((u : Tables) → o ≡ ok u → u.clients ≡ t.clients)
      → (stored response t o).1.clients ≡ t.clients
  stored-clients response t (ok u) k = k u refl
  stored-clients response t (raised e) k = refl

  -- An insert that is refused or leaves the clients.
  inserted-clients :
      (refused : Bool) (e : Error) (t v u : Tables)
      → v.clients ≡ t.clients
      → (if refused then raised e else ok v) ≡ ok u
      → u.clients ≡ t.clients
  inserted-clients true e t v u k h = cc h
  inserted-clients false e t v u k h =
      subst (λ (x : Tables). x.clients ≡ t.clients) (ok-injective h) k

  save_code-clients :
      (now : ℕ) (hash : String) (grant : Grant) (ttl : ℕ) (t u : Tables)
      → save_code now hash grant ttl t ≡ ok u
      → u.clients ≡ t.clients
  unfolding save_code
  save_code-clients now hash grant ttl t u h =
      inserted-clients (code_conflict (new_code now hash grant ttl) t) _ t _ u refl h

  save_token-clients :
      (row : TokenRow) (t u : Tables) → save_token row t ≡ ok u → u.clients ≡ t.clients
  unfolding save_token
  save_token-clients row t u h = inserted-clients (token_conflict row t) _ t _ u refl h

  insert_code-clients :
      (now : ℕ) (code login : String) (ask : Ask) (t u : Tables)
      → insert_code env now code login ask t ≡ ok u
      → u.clients ≡ t.clients
  unfolding insert_code
  insert_code-clients now code login ask t u h =
      let (hash, e, e₁) = bind-ok (hash_of env code code_purpose) _ h in
      save_code-clients now hash _ code_ttl_seconds t u e₁

  pub grant_code-clients :
      (now : ℕ) (code login : String) (read : Read) (t : Tables)
      → (grant_code env now code login read t).1.clients ≡ t.clients
  unfolding grant_code
  grant_code-clients now code login (answered response) t = refl
  grant_code-clients now code login (asked ask) t =
      stored-clients (code_redirect code ask) t (insert_code env now code login ask t)
        (λ u h. insert_code-clients now code login ask t u h)

  pub approve-clients :
      (now : ℕ) (code : String) (form : Dict String (List String)) (login : String)
      (permitted : Bool) (t : Tables)
      → (approve env now code form login permitted t).1.clients ≡ t.clients
  unfolding approve
  approve-clients now code form login permitted t =
      elim (Bool-cases (login == "" || not permitted || login == local_login)) [
        | inl e ↦ rw (approve, e) refl
        | inr e ↦ rw (approve, e) (grant_code-clients now code login _ t)
      ]

  module _ (drawn : Drawn) (now : ℕ) where
    insert_token-clients :
        (client_id login resource scope family_id : String) (t u : Tables)
        → insert_token env drawn now client_id login resource scope family_id t ≡ ok u
        → u.clients ≡ t.clients
    unfolding insert_token
    insert_token-clients client_id login resource scope family_id t u h =
        let (access_hash, e, e₁) = bind-ok (hash_of env drawn.access access_purpose) _ h in
        let (refresh_hash, f, e₂) = bind-ok (hash_of env drawn.refresh refresh_purpose) _ e₁ in
        save_token-clients
          (new_token now (or_text family_id drawn.family) access_hash refresh_hash client_id login
            resource scope access_ttl_seconds refresh_ttl_seconds)
          t u e₂

    issue-clients :
        (client_id login resource scope family_id : String) (t : Tables)
        → (issue env drawn now client_id login resource scope family_id t).1.clients ≡ t.clients
    unfolding issue
    issue-clients client_id login resource scope family_id t =
        stored-clients (issued drawn.access drawn.refresh scope) t
          (insert_token env drawn now client_id login resource scope family_id t)
          (λ u h. insert_token-clients client_id login resource scope family_id t u h)

    redeem-clients :
        (one : Dict String String) (verifier : String) (grant : Option Grant) (t : Tables)
        → (redeem env drawn now one verifier grant t).1.clients ≡ t.clients
    unfolding redeem
    redeem-clients one verifier none t = refl
    redeem-clients one verifier (some grant) t =
        elim (Bool-cases (differs "client_id" one grant.client_id)) [
          | inl e ↦ rw (redeem, e) refl
          | inr e ↦ elim (Bool-cases (differs "redirect_uri" one grant.redirect_uri)) [
            | inl f ↦ rw (redeem, e, f) refl
            | inr f ↦ elim (Outcome-cases (pkce_ok env verifier grant.code_challenge)) [
              | inl (error, g) ↦ rw (redeem, e, f, g) refl
              | inr (true, g) ↦
                  rw (redeem, e, f, g)
                    (issue-clients grant.client_id grant.login grant.resource grant.scope "" t)
              | inr (false, g) ↦ rw (redeem, e, f, g) refl
            ]
          ]
        ]

    exchange_code-clients :
        (one : Dict String String) (t : Tables)
        → (exchange_code env drawn now one t).1.clients ≡ t.clients
    unfolding exchange_code claim_code
    exchange_code-clients one t =
        elim (Bool-cases (text_of "code" one == "" || text_of "code_verifier" one == "")) [
          | inl e ↦ rw (exchange_code, e) refl
          | inr e ↦ elim (Outcome-cases (hash_of env (text_of "code" one) code_purpose)) [
            | inl (error, f) ↦ rw (exchange_code, e, f) refl
            | inr (hash, f) ↦
                rw (exchange_code, e, f)
                  (redeem-clients one (text_of "code_verifier" one) (claim_code now hash t).0
                    (claim_code now hash t).1)
          ]
        ]

    renew-clients :
        (one : Dict String String) (old : Option Token) (t : Tables)
        → (renew env drawn now one old t).1.clients ≡ t.clients
    unfolding renew
    renew-clients one none t = refl
    renew-clients one (some old) t = elim (Bool-cases (differs "client_id" one old.client_id)) [
      | inl e ↦ rw (renew, e) refl
      | inr e ↦
          rw (renew, e)
            (issue-clients old.client_id old.login old.resource old.scope old.family_id t)
    ]

    claim_refresh-clients :
        (hash : String) (t : Tables) → (claim_refresh now hash t).1.clients ≡ t.clients
    unfolding claim_refresh spend_refresh
    claim_refresh-clients hash t = elim (Option-cases (find_row (spendable now hash) t.tokens)) [
      | inl e ↦
          rw (claim_refresh, e)
            (revoke_family_keeps (λ (u : Tables). u.clients ≡ t.clients) now hash
              (spend_refresh now hash t).1 refl (λ family. refl))
      | inr (row, e) ↦ rw (claim_refresh, e) refl
    ]

    exchange_refresh-clients :
        (one : Dict String String) (t : Tables)
        → (exchange_refresh env drawn now one t).1.clients ≡ t.clients
    unfolding exchange_refresh
    exchange_refresh-clients one t = elim (Bool-cases (text_of "refresh_token" one == "")) [
      | inl e ↦ rw (exchange_refresh, e) refl
      | inr e ↦ elim (Outcome-cases (hash_of env (text_of "refresh_token" one) refresh_purpose)) [
        | inl (error, f) ↦ rw (exchange_refresh, e, f) refl
        | inr (hash, f) ↦
            rw (exchange_refresh, e, f)
              (renew-clients one (claim_refresh now hash t).0 (claim_refresh now hash t).1
                ∙ claim_refresh-clients hash t)
      ]
    ]

    pub token-clients :
        (body : Option String) (t : Tables) → (token env drawn now body t).1.clients ≡ t.clients
    unfolding token
    token-clients none t = refl
    token-clients (some body) t =
        let one = firsts (env.parse_qs body) in
        elim (Bool-cases (text_of "grant_type" one == "authorization_code")) [
          | inl e ↦ rw (token, e) (exchange_code-clients one t)
          | inr e ↦ elim (Bool-cases (text_of "grant_type" one == "refresh_token")) [
            | inl f ↦ rw (token, e, f) (exchange_refresh-clients one t)
            | inr f ↦ rw (token, e, f) refl
          ]
        ]

  bearer_token-clients :
      (now : ℕ) (presented : String) (t : Tables)
      → (bearer_token env now presented t).1.clients ≡ t.clients
  unfolding bearer_token resolve
  bearer_token-clients now presented t = elim (Bool-cases (presented == "")) [
    | inl e ↦ rw (bearer_token, e) refl
    | inr e ↦ elim (Outcome-cases (hash_of env presented access_purpose)) [
      | inl (error, f) ↦ rw (bearer_token, e, f) refl
      | inr (hash, f) ↦ rw (bearer_token, e, f) refl
    ]
  ]

  pub bearer-clients :
      (now : ℕ) (header : Option String) (t : Tables)
      → (bearer env now header t).1.clients ≡ t.clients
  unfolding bearer
  bearer-clients now none t = refl
  bearer-clients now (some header) t = elim (Option-cases (env.after_bearer header)) [
    | inl e ↦ rw (bearer, e) refl
    | inr (presented, e) ↦ rw (bearer, e) (bearer_token-clients now presented t)
  ]
