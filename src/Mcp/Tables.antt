-- ===== src/Mcp/Tables.antt =====
-- src/screener/mcp/store.py: every statement on the `mcp` schema of migrations/018_mcp.sql. Instants
-- are in seconds, and `now()` is an argument. A constraint of the schema that an insert would break
-- raises.
use mathlib.Core.Option.{map}
use stock_aggregator.Prelude.{
  ltb, if◌then◌else◌, ◌==◌, is_some, keep, count, find_row, update_rows, any, Outcome,
  integrity_error, ok, raised, ℕ, ◌+◌, String, Bool, false, not, ◌&&◌, ◌||◌, Option, none, some,
  List, [], ◌∷◌, ◌++◌, ℕ_key, String_key,
}

pub record Client : Type 0 where
  pub client_id : String
  pub client_name : Option String
  pub redirect_uris : List String
  pub created_at : ℕ

-- A row of `mcp.authorization`.
pub record Code : Type 0 where
  pub code_hash : String
  pub client_id : String
  pub redirect_uri : String
  pub code_challenge : String
  pub login : String
  pub resource : String
  pub scope : String
  pub expires_at : ℕ
  pub used_at : Option ℕ

pub record Grant : Type 0 where
  pub client_id : String
  pub redirect_uri : String
  pub code_challenge : String
  pub login : String
  pub resource : String
  pub scope : String

-- A row of `mcp.token`.
pub record TokenRow : Type 0 where
  pub family_id : String
  pub token_hash : String
  pub refresh_hash : Option String
  pub client_id : String
  pub login : String
  pub resource : String
  pub scope : String
  pub expires_at : ℕ
  pub refresh_expires_at : Option ℕ
  pub used_at : Option ℕ
  pub revoked_at : Option ℕ
  pub last_used_at : Option ℕ

pub record Token : Type 0 where
  pub family_id : String
  pub login : String
  pub client_id : String
  pub resource : String
  pub scope : String

pub record Tables : Type 0 where
  pub clients : List Client
  pub codes : List Code
  pub tokens : List TokenRow

abbrev pub is_client : String → Client → Bool
is_client client_id c = c.client_id == client_id

abbrev pub new_client : ℕ → String → Option String → List String → Client
new_client now client_id client_name redirect_uris = record {
  client_id = client_id;
  client_name = client_name;
  redirect_uris = redirect_uris;
  created_at = now;
}

unfoldable pub register : ℕ → String → Option String → List String → Tables → Outcome Tables
unfolding any
register now client_id client_name redirect_uris t =
    if any (is_client client_id) t.clients
    then raised integrity_error
    else ok (record t {
      clients = t.clients ++ new_client now client_id client_name redirect_uris ∷ [];
    })

unfoldable pub client : String → Tables → Option Client
unfolding find_row
client client_id t = find_row (is_client client_id) t.clients

abbrev pub is_code : String → Code → Bool
is_code code_hash c = c.code_hash == code_hash

-- the row that `save_code` inserts
abbrev pub new_code : ℕ → String → Grant → ℕ → Code
new_code now code_hash grant ttl_seconds = record {
  code_hash = code_hash;
  client_id = grant.client_id;
  redirect_uri = grant.redirect_uri;
  code_challenge = grant.code_challenge;
  login = grant.login;
  resource = grant.resource;
  scope = grant.scope;
  expires_at = now + ttl_seconds;
  used_at = none;
}

abbrev pub code_conflict : Code → Tables → Bool
code_conflict row t =
    any (is_code row.code_hash) t.codes || not (any (is_client row.client_id) t.clients)

unfoldable pub save_code : ℕ → String → Grant → ℕ → Tables → Outcome Tables
unfolding any
save_code now code_hash grant ttl_seconds t =
    let row = new_code now code_hash grant ttl_seconds in
    if code_conflict row t
    then raised integrity_error
    else ok (record t { codes = t.codes ++ row ∷ [] })

-- `where code_hash = %s and used_at is null and expires_at > now()`
abbrev pub claimable : ℕ → String → Code → Bool
claimable now code_hash c = is_code code_hash c && not (is_some c.used_at) && ltb now c.expires_at

abbrev pub code_used : ℕ → Code → Code
code_used now c = record c { used_at = some now }

abbrev pub grant_of : Code → Grant
grant_of c = record {
  client_id = c.client_id;
  redirect_uri = c.redirect_uri;
  code_challenge = c.code_challenge;
  login = c.login;
  resource = c.resource;
  scope = c.scope;
}

unfoldable pub claim_code : ℕ → String → Tables → Option Grant × Tables
unfolding find_row update_rows
claim_code now code_hash t = (
  map grant_of (find_row (claimable now code_hash) t.codes),
  record t { codes = update_rows (claimable now code_hash) (code_used now) t.codes },
)

abbrev pub has_token : String → TokenRow → Bool
has_token token_hash r = r.token_hash == token_hash

-- `refresh_hash = %s`, which a null is not
abbrev pub has_refresh : String → TokenRow → Bool
has_refresh refresh_hash r = elim r.refresh_hash [ none ↦ false | some h ↦ h == refresh_hash ]

-- the row that `save_token` inserts
abbrev pub new_token :
    ℕ → String → String → String → String → String → String → String → ℕ → ℕ → TokenRow
new_token now family_id token_hash refresh_hash client_id login resource scope access_ttl
      refresh_ttl =
    record {
      family_id = family_id;
      token_hash = token_hash;
      refresh_hash = some refresh_hash;
      client_id = client_id;
      login = login;
      resource = resource;
      scope = scope;
      expires_at = now + access_ttl;
      refresh_expires_at = some (now + refresh_ttl);
      used_at = none;
      revoked_at = none;
      last_used_at = none;
    }

-- the unique columns and the reference to the client
unfoldable pub token_conflict : TokenRow → Tables → Bool
unfolding any
token_conflict row t =
    any (has_token row.token_hash) t.tokens
    || any (λ r. elim row.refresh_hash [ none ↦ false | some h ↦ has_refresh h r ]) t.tokens
    || not (any (is_client row.client_id) t.clients)

unfoldable pub save_token : TokenRow → Tables → Outcome Tables
unfolding token_conflict
save_token row t =
    if token_conflict row t
    then raised integrity_error
    else ok (record t { tokens = t.tokens ++ row ∷ [] })

-- `where token_hash = %s and expires_at > now() and revoked_at is null`
abbrev pub resolvable : ℕ → String → TokenRow → Bool
resolvable now token_hash r =
    has_token token_hash r && ltb now r.expires_at && not (is_some r.revoked_at)

abbrev pub token_of : TokenRow → Token
token_of r = record {
  family_id = r.family_id;
  login = r.login;
  client_id = r.client_id;
  resource = r.resource;
  scope = r.scope;
}

unfoldable pub resolve : ℕ → String → Tables → Option Token × Tables
unfolding find_row update_rows
resolve now token_hash t = (
  map token_of (find_row (resolvable now token_hash) t.tokens),
  record t {
    tokens =
        update_rows (resolvable now token_hash) (λ r. record r { last_used_at = some now })
          t.tokens;
  },
)

-- `where refresh_hash = %s and used_at is null and revoked_at is null and refresh_expires_at > now()`
abbrev pub spendable : ℕ → String → TokenRow → Bool
spendable now refresh_hash r =
    has_refresh refresh_hash r
    && not (is_some r.used_at)
    && not (is_some r.revoked_at)
    && elim r.refresh_expires_at [ none ↦ false | some at ↦ ltb now at ]

-- The first statement of `claim_refresh`.
unfoldable pub spend_refresh : ℕ → String → Tables → Option Token × Tables
unfolding find_row update_rows
spend_refresh now refresh_hash t = (
  map token_of (find_row (spendable now refresh_hash) t.tokens),
  record t {
    tokens =
        update_rows (spendable now refresh_hash) (λ r. record r { used_at = some now }) t.tokens;
  },
)

abbrev pub in_family : String → TokenRow → Bool
in_family family_id r = not (is_some r.revoked_at) && r.family_id == family_id

abbrev pub revoked_now : ℕ → TokenRow → TokenRow
revoked_now now r = record r { revoked_at = some now }

-- Its second statement, with the subquery for the family.
unfoldable pub revoke_family : ℕ → String → Tables → Tables
unfolding find_row update_rows
revoke_family now refresh_hash t = elim (find_row (has_refresh refresh_hash) t.tokens) [
  | none ↦ t
  | some row ↦ record t {
    tokens = update_rows (in_family row.family_id) (revoked_now now) t.tokens;
  }
]

unfoldable pub claim_refresh : ℕ → String → Tables → Option Token × Tables
unfolding spend_refresh revoke_family
claim_refresh now refresh_hash t =
    let (found, spent) = spend_refresh now refresh_hash t in
    elim found [
      | some token ↦ (some token, spent)
      | none ↦ (none, revoke_family now refresh_hash spent)
    ]

abbrev pub of_login : String → TokenRow → Bool
of_login login r = r.login == login && not (is_some r.revoked_at)

unfoldable pub revoke_login : ℕ → String → Tables → ℕ × Tables
unfolding count update_rows
revoke_login now login t = (
  count (of_login login) t.tokens,
  record t { tokens = update_rows (of_login login) (revoked_now now) t.tokens },
)

abbrev pub is_dead : ℕ → TokenRow → Bool
is_dead now r = ltb (elim r.refresh_expires_at [ none ↦ r.expires_at | some at ↦ at ]) now

-- `now() - interval '1 day'`
abbrev pub is_orphan : ℕ → List TokenRow → List Code → Client → Bool
is_orphan now tokens codes c =
    not (any (λ (r : TokenRow). r.client_id == c.client_id) tokens)
    && not (any (λ (a : Code). a.client_id == c.client_id) codes)
    && ltb (c.created_at + 86400) now

unfoldable pub forget_expired : ℕ → Tables → Tables
unfolding keep any
forget_expired now t =
    let codes = keep (λ (c : Code). not (ltb c.expires_at now)) t.codes in
    let tokens = keep (λ (r : TokenRow). not (is_dead now r)) t.tokens in
    record {
      clients = keep (λ (c : Client). not (is_orphan now tokens codes c)) t.clients;
      codes = codes;
      tokens = tokens;
    }
