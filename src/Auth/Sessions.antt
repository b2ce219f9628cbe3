-- ===== src/Auth/Sessions.antt =====
-- create_session, resolve_session and delete_session of src/screener/auth/session.py on the tables of
-- the `auth` schema. Instants are in seconds; the token is drawn outside. A user agent is kept but
-- never read, and is left out.
pub mod SignIn
use stock_aggregator.Prelude.{
  ltb, if◌then◌else◌, ◌==◌, keep, find_row, update_rows, any, Outcome, integrity_error, ok, raised,
  ℕ, ◌+◌, ◌*◌, String, Bool, not, ◌&&◌, Option, none, some, List, [], ◌∷◌, ◌++◌, ℕ_key, String_key,
}
use stock_aggregator.Mcp.OAuth.{Env, token_hash}

pub record User : Type 0 where
  pub id : ℕ
  pub github_id : ℕ
  pub login : String
  pub last_seen_at : ℕ

pub record SessionRow : Type 0 where
  pub user_id : ℕ
  pub token_hash : String
  pub expires_at : ℕ

pub record AuthTables : Type 0 where
  pub users : List User
  pub sessions : List SessionRow
  pub next_id : ℕ

abbrev pub is_account : ℕ → User → Bool
is_account github_id u = u.github_id == github_id

abbrev pub has_hash : String → SessionRow → Bool
has_hash hash s = s.token_hash == hash

-- `insert into auth.app_user … on conflict (github_id) do update … returning id`
unfoldable pub upsert_user : ℕ → ℕ → String → AuthTables → ℕ × AuthTables
unfolding find_row update_rows
upsert_user now github_id login t = elim (find_row (is_account github_id) t.users) [
  | some u ↦ (
    u.id,
    record t {
      users =
          update_rows (is_account github_id) (λ v. record v { login = login; last_seen_at = now })
            t.users;
    },
  )
  | none ↦ (
    t.next_id,
    record t {
      users =
          t.users
          ++ record { id = t.next_id; github_id = github_id; login = login; last_seen_at = now }
            ∷ [];
      next_id = t.next_id + 1;
    },
  )
]

-- the first session of a hash that is live and whose user is there, with that user's login
unfoldable pub login_of : ℕ → String → List User → List SessionRow → Option String
unfolding find_row
login_of now hash users [] = none
login_of now hash users (s ∷ sessions) =
    let rest = login_of now hash users sessions in
    if has_hash hash s && ltb now s.expires_at
    then elim (find_row (λ (u : User). u.id == s.user_id) users) [
      | some u ↦ some u.login
      | none ↦ rest
    ]
    else rest

module _ (env : Env) (secret : String) where
  unfoldable pub create_session : ℕ → String → ℕ → String → ℕ → AuthTables → Outcome AuthTables
  unfolding upsert_user any
  create_session now token github_id login days t =
      let hash = token_hash env token secret "" in
      let (user_id, u) = upsert_user now github_id login t in
      if any (has_hash hash) u.sessions
      then raised integrity_error
      else ok (record u {
        sessions =
            u.sessions
            ++ record { user_id = user_id; token_hash = hash; expires_at = now + days * 86400 }
              ∷ [];
      })

  unfoldable pub resolve_session : ℕ → String → AuthTables → Option String
  unfolding login_of
  resolve_session now token t =
      if token == "" then none else login_of now (token_hash env token secret "") t.users t.sessions

  unfoldable pub delete_session : ℕ → String → AuthTables → AuthTables
  unfolding keep
  delete_session now token t = record t {
    sessions =
        keep (λ (s : SessionRow). ltb now s.expires_at)
          (keep (λ (s : SessionRow). not (has_hash (token_hash env token secret "") s)) t.sessions);
  }
