-- ===== src/Mcp/Entitled.antt =====
-- Who `bearer` of src/screener/mcp/oauth.py lets in.
use Prim.Native.String.{◌++◌ as join}
use stock_aggregator.Prelude.{
  ◌==◌, String_key, Bool-cases, Option-cases, is_some, Has, find_row, ok-injective, Outcome-cases,
  ok, ℕ, ◌<◌, String, ◌≡◌, refl, subst, inl, inr, true, false, not, ◌||◌, sym, ◌∙◌, Option, none,
  some, arith, ℕ_key, String_key,
}
use stock_aggregator.Prelude.Rows.{find_row-passes, find_row-Has, map-some}
use stock_aggregator.Mcp.Tables.{TokenRow, Token, Tables, resolvable, token_of, resolve}
use stock_aggregator.Mcp.OAuth.{
  Env, local_login, access_purpose, resource_uri, permits, token_hash, hash_of,
}
use stock_aggregator.Mcp.OAuth.Granting.{token, entitled, bearer_token, bearer}

module _ (env : Env) (now : ℕ) where
  -- The header carries a token whose keyed hash, under the purpose of access tokens, is that of a
  -- row of the table. The row is live, was issued for this server, and its login may still sign in.
  pub record IsEntitled (header : Option String) (t : Tables) (found : Token) : Type 0 where
    pub raw : String
    pub presented : String
    pub secret : String
    pub sent : header ≡ some raw
    pub carried : env.after_bearer raw ≡ some presented
    pub not_empty : (presented == "") ≡ false
    pub keyed : env.session_secret ≡ some secret
    pub row : TokenRow
    pub in_table : Has row t.tokens
    pub of_token : row.token_hash ≡ env.hmac secret (join access_purpose (join ":" presented))
    pub of_row : token_of row ≡ found
    pub unexpired : now < row.expires_at
    pub not_revoked : row.revoked_at ≡ none
    pub for_us : found.resource ≡ resource_uri env
    pub permitted : permits env found.login ≡ true
    pub not_local : (found.login == local_login) ≡ false

  entitled-inv :
      (o : Option Token) (found : Token)
      → entitled env o ≡ ok found
      → (o ≡ some found)
        × (found.resource ≡ resource_uri env)
        × ((found.login == local_login || not (permits env found.login)) ≡ false)
  unfolding entitled
  entitled-inv none found h = cc h
  entitled-inv (some token) found h = elim (Bool-cases (token.resource == resource_uri env)) [
    | inr e ↦ cc (rw e at h)
    | inl e ↦ elim (Bool-cases (token.login == local_login || not (permits env token.login))) [
      | inl f ↦ cc (rw (e, f) at h)
      | inr f ↦
          let same : token ≡ found = ok-injective (rw (e, f) at h) in
          subst
            (λ x.
              (some token ≡ some x)
              × (x.resource ≡ resource_uri env)
              × ((x.login == local_login || not (permits env x.login)) ≡ false))
            same (refl, (String_key.same_iff token.resource (resource_uri env)).0 e, f)
    ]
  ]

  unrevoked : (o : Option ℕ) → is_some o ≡ false → o ≡ none
  unrevoked none h = refl
  unrevoked (some n) h = cc h

  resolvable-inv :
      (hash : String) (row : TokenRow)
      → resolvable now hash row ≡ true
      → (row.token_hash ≡ hash) × (now < row.expires_at) × (row.revoked_at ≡ none)
  resolvable-inv hash row h = (
    (String_key.same_iff row.token_hash hash).0 (ground (arith, h)),
    ground (arith, h),
    unrevoked row.revoked_at (ground (arith, h)),
  )

  -- the key is there whenever a hash is
  hash_of-inv :
      (presented hash : String)
      → hash_of env presented access_purpose ≡ ok hash
      → (secret : String) × (env.session_secret ≡ some secret)
        × (hash ≡ env.hmac secret (join access_purpose (join ":" presented)))
  unfolding hash_of token_hash
  hash_of-inv presented hash h = elim (Option-cases env.session_secret) [
    | inl e ↦ cc (rw (hash_of, e) at h)
    | inr (secret, e) ↦ (secret, e, sym (ok-injective (rw (hash_of, e) at h)))
  ]

  module _ (raw presented : String) (carried : env.after_bearer raw ≡ some presented) (t : Tables)
      (found : Token) where
    resolve-IsEntitled :
        (hash : String)
        → (presented == "") ≡ false
        → hash_of env presented access_purpose ≡ ok hash
        → entitled env (resolve now hash t).0 ≡ ok found
        → IsEntitled (some raw) t found
    unfolding resolve
    resolve-IsEntitled hash not_empty hashed h =
        let (secret, keyed, of_key) = hash_of-inv presented hash hashed in
        let (o, here, allowed) = entitled-inv (resolve now hash t).0 found h in
        let (row, e, same) = map-some token_of (find_row (resolvable now hash) t.tokens) o in
        let (named, live, kept) =
          resolvable-inv hash row (find_row-passes (resolvable now hash) t.tokens row e) in
        record {
          raw = raw;
          presented = presented;
          secret = secret;
          sent = refl;
          carried = carried;
          not_empty = not_empty;
          keyed = keyed;
          row = row;
          in_table = find_row-Has (resolvable now hash) t.tokens row e;
          of_token = named ∙ of_key;
          of_row = same;
          unexpired = live;
          not_revoked = kept;
          for_us = here;
          permitted = ground (arith, allowed);
          not_local = ground (arith, allowed);
        }

    bearer_token-IsEntitled :
        (bearer_token env now presented t).0 ≡ ok found → IsEntitled (some raw) t found
    unfolding bearer_token
    bearer_token-IsEntitled h = elim (Bool-cases (presented == "")) [
      | inl e ↦ cc (rw (bearer_token, e) at h)
      | inr e ↦ elim (Outcome-cases (hash_of env presented access_purpose)) [
        | inl (error, f) ↦ cc (rw (bearer_token, e, f) at h)
        | inr (hash, f) ↦ resolve-IsEntitled hash e f (rw (bearer_token, e, f) at h)
      ]
    ]

  -- Whoever `bearer` lets in sent a header with a token that is not empty. Under the session secret,
  -- which is set, the keyed hash of that token for the purpose `mcp-access` is the hash of a row of
  -- the table, and what `bearer` answers is read from that row. The row is neither expired nor
  -- revoked, was issued for this server, and belongs to a login that is on the allow-list now and is
  -- not the local sign-in.
  pub bearer-IsEntitled :
      (header : Option String) (t : Tables) (found : Token)
      → (bearer env now header t).0 ≡ ok found
      → IsEntitled header t found
  unfolding bearer
  bearer-IsEntitled none t found h = cc h
  bearer-IsEntitled (some header) t found h = elim (Option-cases (env.after_bearer header)) [
    | inl e ↦ cc (rw (bearer, e) at h)
    | inr (presented, e) ↦ bearer_token-IsEntitled header presented e t found (rw (bearer, e) at h)
  ]
