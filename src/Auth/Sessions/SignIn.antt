-- ===== src/Auth/Sessions/SignIn.antt =====
-- Signing in and out in src/screener/auth/session.py.
use stock_aggregator.Prelude.{
  ltb, ◌==◌, ℕ_key, String_key, Bool-cases, Option-cases, keep, all, count, find_row, update_rows,
  any, some-injective, ok, ℕ, ◌+◌, ◌*◌, ◌≤◌, ◌<◌, String, ◌≡◌, refl, ap, ◌∙◌, inl, inr, Bool, true,
  false, not, none, some, List, [], ◌∷◌, ◌++◌, arith, ℕ_key, String_key,
}
use stock_aggregator.Prelude.Rows.{any-Has, any-keep, find_row-Has}
use stock_aggregator.Mcp.OAuth.{Env, token_hash}
use stock_aggregator.Auth.Sessions.{
  User, SessionRow, AuthTables, is_account, has_hash, upsert_user, login_of, create_session,
  resolve_session, delete_session,
}

-- Once the sessions of a hash are deleted there is none to resolve.
login_of-none :
    (now : ℕ) (hash : String) (users : List User) (sessions : List SessionRow)
    → any (has_hash hash) sessions ≡ false
    → login_of now hash users sessions ≡ none
unfolding login_of any
login_of-none now hash users [] h = refl
login_of-none now hash users (s ∷ sessions) h = elim (Bool-cases (has_hash hash s)) [
  | inl e ↦ cc (rw (any, e) at h)
  | inr e ↦ rw (login_of, e) (login_of-none now hash users sessions (rw (any, e) at h))
]

any-keep-not :
    (hash : String) (sessions : List SessionRow)
    → any (has_hash hash) (keep (λ (s : SessionRow). not (has_hash hash s)) sessions) ≡ false
unfolding any keep
any-keep-not hash [] = refl
any-keep-not hash (s ∷ sessions) = elim (Bool-cases (has_hash hash s)) [
  | inl e ↦ rw e (any-keep-not hash sessions)
  | inr e ↦ rw (e, any, e) (any-keep-not hash sessions)
]

-- A session of a new hash is the one that is found.
login_of-last :
    (now : ℕ) (users : List User) (u : User) (row : SessionRow) (sessions : List SessionRow)
    → any (has_hash row.token_hash) sessions ≡ false
    → ltb now row.expires_at ≡ true
    → find_row (λ (v : User). v.id == row.user_id) users ≡ some u
    → login_of now row.token_hash users (sessions ++ row ∷ []) ≡ some u.login
unfolding login_of any
login_of-last now users u row [] h alive found =
    rw ((String_key.same_iff row.token_hash row.token_hash).1 refl, alive, found) refl
login_of-last now users u row (s ∷ sessions) h alive found =
    elim (Bool-cases (has_hash row.token_hash s)) [
      | inl e ↦ cc (rw (any, e) at h)
      | inr e ↦ rw e (login_of-last now users u row sessions (rw (any, e) at h) alive found)
    ]

-- The identities in use are below the next one, and differ.
abbrev pub below_next : AuthTables → Bool
below_next t = all (λ (u : User). ltb u.id t.next_id) t.users

abbrev with_login : ℕ → String → User → User
with_login now login v = record v { login = login; last_seen_at = now }

find-new :
    (users : List User) (u : User)
    → all (λ (v : User). ltb v.id u.id) users ≡ true
    → find_row (λ (v : User). v.id == u.id) (users ++ u ∷ []) ≡ some u
unfolding all find_row
find-new [] u h = rw ((ℕ_key.same_iff u.id u.id).1 refl) refl
find-new (v ∷ users) u h =
    let other : (v.id == u.id) ≡ false = ground (arith, h) in
    rw other (find-new users u (ground (arith, h)))

count_some : {A : Type 0} (q : A → Bool) (xs : List A) → any q xs ≡ true → 1 ≤ count q xs
unfolding any count
count_some q [] h = cc h
count_some q (x ∷ xs) h = elim (Bool-cases (q x)) [
  | inl e ↦ ground (arith, e)
  | inr e ↦ ground (arith, e, count_some q xs (rw (any, e) at h))
]

abbrev pub has_id : ℕ → User → Bool
has_id id u = u.id == id

-- The account that was found by its GitHub identity is found by its own, with the new login.
find-updated :
    (now github_id : ℕ) (login : String) (users : List User) (u : User)
    → find_row (is_account github_id) users ≡ some u
    → count (has_id u.id) users ≤ 1
    → (v : User) × (find_row
          (has_id u.id)
          (update_rows (is_account github_id) (with_login now login) users)
        ≡ some v)
      × (v.login ≡ login)
unfolding find_row update_rows count
find-updated now github_id login [] u h one = cc h
find-updated now github_id login (v ∷ users) u h one = elim (Bool-cases (is_account github_id v)) [
  | inl e ↦
      let same : v ≡ u = some-injective (rw e at h) in
      (
        with_login now login v,
        rw (e, find_row, (ℕ_key.same_iff v.id u.id).1 (ap (λ (x : User). x.id) same)) refl,
        refl,
      )
  | inr e ↦
      let found = rw e at h in
      elim (Bool-cases (has_id u.id v)) [
        | inl f ↦ absurd (
            ground (
              arith,
              f,
              one,
              count_some (has_id u.id) users (
                  any-Has (has_id u.id) users u (find_row-Has (is_account github_id) users u found)
                    ((ℕ_key.same_iff u.id u.id).1 refl)),
            ))
        | inr f ↦
            let (w, g, k) =
              find-updated now github_id login users u found (ground (arith, f, one)) in
            (w, rw (e, find_row, f) g, k)
      ]
]

-- What a sign-in leaves of its user.
record Recorded (login : String) (t : AuthTables) (r : ℕ × AuthTables) : Type 0 where
  user : User
  found : find_row (has_id (r.0)) (r.1).users ≡ some user
  login_is : user.login ≡ login
  sessions_are : (r.1).sessions ≡ t.sessions

upsert_user-Recorded :
    (now github_id : ℕ) (login : String) (t : AuthTables)
    → below_next t ≡ true
    → ((id : ℕ) → count (has_id id) t.users ≤ 1)
    → Recorded login t (upsert_user now github_id login t)
unfolding upsert_user
upsert_user-Recorded now github_id login t below one =
    elim (Option-cases (find_row (is_account github_id) t.users)) [
      | inr (u, e) ↦
          let (v, f, k) = find-updated now github_id login t.users u e (one u.id) in
          rw (upsert_user, e) (record { user = v; found = f; login_is = k; sessions_are = refl })
      | inl e ↦
          rw (upsert_user, e)
            (record {
              user = record {
                id = t.next_id;
                github_id = github_id;
                login = login;
                last_seen_at = now;
              };
              found =
                  find-new t.users
                    (record {
                      id = t.next_id;
                      github_id = github_id;
                      login = login;
                      last_seen_at = now;
                    })
                    below;
              login_is = refl;
              sessions_are = refl;
            })
    ]

module _ (env : Env) (secret : String) where
  -- Where the token is new, `create_session` returns; until the session expires the token resolves to
  -- the login that signed in; and once it is deleted it resolves to nothing, whatever the times. The
  -- identities of users differ and are below the next one.
  pub create_resolve_delete :
      (now : ℕ) (token : String) (github_id : ℕ) (login : String) (days later deleted again : ℕ)
      (t : AuthTables)
      → (token == "") ≡ false
      → any (has_hash (token_hash env token secret "")) t.sessions ≡ false
      → below_next t ≡ true
      → ((id : ℕ) → count (has_id id) t.users ≤ 1)
      → later < now + days * 86400
      → (u : AuthTables) × (create_session env secret now token github_id login days t ≡ ok u)
        × (resolve_session env secret later token u ≡ some login)
        × (resolve_session env secret again token (delete_session env secret deleted token u)
            ≡ none)
  unfolding create_session resolve_session delete_session
  create_resolve_delete now token github_id login days later deleted again t given new below one
        alive =
      let hash = token_hash env token secret "" in
      let signed = upsert_user now github_id login t in
      let r = upsert_user-Recorded now github_id login t below one in
      let unseen : any (has_hash hash) (signed.1).sessions ≡ false =
        ap (any (has_hash hash)) r.sessions_are ∙ new in
      let row : SessionRow = record {
        user_id = signed.0;
        token_hash = hash;
        expires_at = now + days * 86400;
      } in
      let u : AuthTables = record (signed.1) { sessions = (signed.1).sessions ++ row ∷ [] } in
      (
        u,
        rw (create_session, unseen) refl,
        rw (resolve_session, given)
            (login_of-last later (signed.1).users r.user row (signed.1).sessions unseen
                (ground (arith, alive)) r.found
              ∙ ap some r.login_is),
        rw (resolve_session, given)
            (login_of-none again hash u.users _ (
              any-keep (has_hash hash) (λ (s : SessionRow). ltb deleted s.expires_at) _
                (any-keep-not hash u.sessions))),
      )
