-- ===== src/Mcp/Redirects.antt =====
-- Where src/screener/mcp/oauth.py sends a browser with a code or with an error.
use stock_aggregator.Prelude.{
  if◌then◌else◌, ◌==◌, String_key, Bool-cases, Option-cases, all, All, any, Dict, Outcome,
  ok-injective, bind-ok, Outcome-cases, ok, raised, ℕ, String, ◌≡◌, refl, sym, ap, ◌∙◌, subst, inl,
  inr, Bool, true, false, not, ◌||◌, Option, none, some, List, [], ◌∷◌, ℕ_key, String_key,
}
use stock_aggregator.Prelude.Rows.{find_row-Has, All-Has, All-append_one, All-keep}
use stock_aggregator.Mcp.Tables.{
  register as add_client, client as find_client, Client, Tables, is_client, new_client,
  revoke_login, forget_expired,
}
use stock_aggregator.Mcp.Clients.{approve-clients, token-clients, bearer-clients}
use stock_aggregator.Mcp.Consistency.{empty_tables}
use stock_aggregator.Mcp.OAuth.{
  Env, Response, local_login, contains, text_of, firsts, redirect_allowed, redirect,
}
use stock_aggregator.Mcp.OAuth.Asking.{
  Read, bounce, given_name, refused_of, remember, register, read_rest, read_ask, insert_code,
  grant_code, approve, asked, answered,
}
use stock_aggregator.Mcp.OAuth.Granting.{Drawn, token, bearer}

module _ (env : Env) where
  -- The requests that have been served, one after the other.
  pub data Served : Tables → Type 0 where
    nothing : Served empty_tables
    registers :
        {t : Tables} (now : ℕ) (client_id : String) (body : Option (List String × Option String))
        → Served t
        → Served (register env now client_id body t).1
    approves :
        {t : Tables} (now : ℕ) (code : String) (form : Dict String (List String)) (login : String)
        (permitted : Bool)
        → Served t
        → Served (approve env now code form login permitted t).1
    exchanges :
        {t : Tables} (drawn : Drawn) (now : ℕ) (body : Option String)
        → Served t
        → Served (token env drawn now body t).1
    calls :
        {t : Tables} (now : ℕ) (header : Option String)
        → Served t
        → Served (bearer env now header t).1
    signs_out :
        {t : Tables} (now : ℕ) (login : String) → Served t → Served (revoke_login now login t).1

  abbrev Allowed : String → Type 0
  Allowed uri = redirect_allowed env uri ≡ ok true

  abbrev IsAllowed : List Client → Type 0
  IsAllowed = All (λ (c : Client). All Allowed c.redirect_uris)

  refused_of-Allowed : (uris : List String) → refused_of env uris ≡ ok [] → All Allowed uris
  unfolding refused_of
  refused_of-Allowed [] h = tt
  refused_of-Allowed (uri ∷ uris) h =
      let (allowed, e, e₁) = bind-ok (redirect_allowed env uri) _ h in
      let (rest, f, e₂) = bind-ok (refused_of env uris) _ e₁ in
      elim (Bool-cases allowed) [
        | inl g ↦ (e ∙ ap ok g, refused_of-Allowed uris (f ∙ rw g at e₂))
        | inr g ↦ cc (ok-injective (rw g at e₂))
      ]

  add_client-IsAllowed :
      (now : ℕ) (client_id : String) (name : Option String) (uris : List String) (t u : Tables)
      → add_client now client_id name uris t ≡ ok u
      → All Allowed uris
      → IsAllowed t.clients
      → IsAllowed u.clients
  unfolding add_client
  add_client-IsAllowed now client_id name uris t u h allowed k =
      elim (Bool-cases (any (is_client client_id) t.clients)) [
        | inl e ↦ cc (rw e at h)
        | inr e ↦
            subst (λ (x : Tables). IsAllowed x.clients) (ok-injective (rw e at h))
              (All-append_one (λ (c : Client). All Allowed c.redirect_uris) t.clients
                (new_client now client_id name uris) k allowed)
      ]

  remember-IsAllowed :
      (now : ℕ) (client_id : String) (uris : List String) (name : Option String)
      (refused : Outcome (List String)) (t : Tables)
      → (refused ≡ ok [] → All Allowed uris)
      → IsAllowed t.clients
      → IsAllowed (remember env now client_id uris name refused t).1.clients
  unfolding remember forget_expired
  remember-IsAllowed now client_id uris name (raised e) t h k = k
  remember-IsAllowed now client_id uris name (ok (uri ∷ refused)) t h k = k
  remember-IsAllowed now client_id uris name (ok []) t h k =
      let swept = All-keep (λ (c : Client). All Allowed c.redirect_uris) _ t.clients k in
      elim (Outcome-cases
        (add_client now client_id (given_name name) uris (forget_expired now t))) [
          | inl (error, e) ↦ rw (remember, e) swept
          | inr (u, e) ↦
              rw (remember, e)
                (add_client-IsAllowed now client_id (given_name name) uris (forget_expired now t) u
                  e (h refl) swept)
        ]

  register-IsAllowed :
      (now : ℕ) (client_id : String) (body : Option (List String × Option String)) (t : Tables)
      → IsAllowed t.clients
      → IsAllowed (register env now client_id body t).1.clients
  unfolding register
  register-IsAllowed now client_id none t k = k
  register-IsAllowed now client_id (some ([], name)) t k = k
  register-IsAllowed now client_id (some (uri ∷ uris, name)) t k =
      remember-IsAllowed now client_id (uri ∷ uris) name (refused_of env (uri ∷ uris)) t
        (refused_of-Allowed (uri ∷ uris)) k

  Served-IsAllowed : (t : Tables) → Served t → IsAllowed t.clients
  unfolding revoke_login
  Served-IsAllowed t nothing = tt
  Served-IsAllowed _ (registers {t} now client_id body served) =
      register-IsAllowed now client_id body t (Served-IsAllowed t served)
  Served-IsAllowed _ (approves {t} now code form login permitted served) =
      subst IsAllowed (sym (approve-clients env now code form login permitted t))
        (Served-IsAllowed t served)
  Served-IsAllowed _ (exchanges {t} drawn now body served) =
      subst IsAllowed (sym (token-clients env drawn now body t)) (Served-IsAllowed t served)
  Served-IsAllowed _ (calls {t} now header served) =
      subst IsAllowed (sym (bearer-clients env now header t)) (Served-IsAllowed t served)
  Served-IsAllowed _ (signs_out {t} now login served) = Served-IsAllowed t served

  -- A redirect goes to an address that is allowed.
  abbrev SafeResponse : Response → Type 0
  SafeResponse (redirect uri query) = Allowed uri
  SafeResponse _ = Unit

  abbrev pub IsSafe : Outcome Response → Type 0
  IsSafe (ok response) = SafeResponse response
  IsSafe (raised e) = Unit

  abbrev SafeRead : Read → Type 0
  SafeRead (asked ask) = Allowed ask.redirect_uri
  SafeRead (answered response) = SafeResponse response

  contained :
      (uris : List String) (uri : String)
      → All Allowed uris
      → contains uris uri ≡ true
      → Allowed uri
  unfolding any
  contained [] uri all h = cc h
  contained (x ∷ uris) uri all h = elim (Bool-cases (x == uri)) [
    | inl e ↦ subst Allowed ((String_key.same_iff x uri).0 e) (all.0)
    | inr e ↦ contained uris uri (all.1) (rw e at h)
  ]

  read_rest-SafeRead :
      (one : Dict String String) (client : Client) (uri : String)
      → Allowed uri
      → SafeRead (read_rest env one client uri)
  unfolding read_rest bounce
  read_rest-SafeRead one client uri k = elim (Bool-cases (text_of "response_type" one == "code")) [
    | inr e ↦ rw (read_rest, e) k
    | inl e ↦ elim (Bool-cases (text_of "code_challenge_method" one == "S256")) [
      | inr f ↦ rw (read_rest, e, f) k
      | inl f ↦ elim (Bool-cases (text_of "code_challenge" one == "")) [
        | inl g ↦ rw (read_rest, e, f, g) k
        | inr g ↦ rw (read_rest, e, f, g) k
      ]
    ]
  ]

  given :
      (b : Bool) (o : Option Client) (c : Client) → (if b then none else o) ≡ some c → o ≡ some c
  given true o c h = cc h
  given false o c h = h

  find_client-Allowed :
      (client_id : String) (t : Tables) (c : Client)
      → IsAllowed t.clients
      → find_client client_id t ≡ some c
      → All Allowed c.redirect_uris
  unfolding find_client
  find_client-Allowed client_id t c k h =
      All-Has (λ (x : Client). All Allowed x.redirect_uris) t.clients c k
        (find_row-Has (is_client client_id) t.clients c h)

  read_ask-SafeRead :
      (params : Dict String (List String)) (t : Tables)
      → IsAllowed t.clients
      → SafeRead (read_ask env params t)
  unfolding read_ask find_client
  read_ask-SafeRead params t k =
      let client_id = text_of "client_id" (firsts params) in
      let uri = text_of "redirect_uri" (firsts params) in
      elim (Option-cases (if client_id == "" then none else find_client client_id t)) [
        | inl e ↦ rw (read_ask, e) tt
        | inr (client, e) ↦ elim (Bool-cases (contains client.redirect_uris uri)) [
          | inr f ↦ rw (read_ask, e, f) tt
          | inl f ↦
              rw (read_ask, e, f)
                (read_rest-SafeRead (firsts params) client uri (
                  contained client.redirect_uris uri
                    (find_client-Allowed client_id t client k
                      (given (client_id == "") (find_client client_id t) client e))
                    f))
        ]
      ]

  grant_code-IsSafe :
      (now : ℕ) (code login : String) (read : Read) (t : Tables)
      → SafeRead read
      → IsSafe (grant_code env now code login read t).0
  unfolding grant_code
  grant_code-IsSafe now code login (answered response) t k = k
  grant_code-IsSafe now code login (asked ask) t k =
      elim (Outcome-cases (insert_code env now code login ask t)) [
        | inl (e, h) ↦ rw (grant_code, h) tt
        | inr (u, h) ↦ rw (grant_code, h) k
      ]

  -- Whatever requests were served before, `approve` sends a code, and an error, to no address but one
  -- that `_redirect_allowed` accepts.
  pub approve-IsSafe :
      {t : Tables}
      → Served t
      → (now : ℕ) (code : String) (form : Dict String (List String)) (login : String)
        (permitted : Bool)
      → IsSafe (approve env now code form login permitted t).0
  unfolding approve
  approve-IsSafe {t} served now code form login permitted =
      elim (Bool-cases (login == "" || not permitted || login == local_login)) [
        | inl e ↦ rw (approve, e) tt
        | inr e ↦
            rw (approve, e)
              (grant_code-IsSafe now code login
                (read_ask env (env.parse_qs (text_of "payload" (firsts form))) t) t
                (read_ask-SafeRead (env.parse_qs (text_of "payload" (firsts form))) t
                  (Served-IsAllowed t served)))
      ]
