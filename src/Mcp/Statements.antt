-- ===== src/Mcp/Statements.antt =====
-- The statements of src/screener/mcp/store.py in any order: each is atomic on a connection that
-- commits by itself, so the requests of several threads are a list of them.
use stock_aggregator.Prelude.{
  if◌then◌else◌, Option-cases, all, find_row, update_rows, any, Error, Outcome, integrity_error, ok,
  raised, ℕ, String, ◌≡◌, refl, inl, inr, Bool, true, false, Option, List, [], ◌∷◌, ◌++◌, arith,
}
use stock_aggregator.Mcp.Tables.{
  Grant, TokenRow, Tables, is_client, new_client, register, new_code, code_conflict, save_code,
  claim_code, has_refresh, token_conflict, save_token, resolve, spend_refresh, in_family,
  revoked_now, revoke_family, revoke_login, forget_expired,
}

pub data Statement : Type 0 where
  registers : ℕ → String → Option String → List String → Statement
  saves_code : ℕ → String → Grant → ℕ → Statement
  claims : ℕ → String → Statement
  saves_token : TokenRow → Statement
  resolves : ℕ → String → Statement
  spends : ℕ → String → Statement
  revokes_family : ℕ → String → Statement
  revokes_login : ℕ → String → Statement
  forgets : ℕ → Statement

-- An insert that is refused changes nothing.
abbrev pub unless_raised : Tables → Outcome Tables → Tables
unless_raised t (ok u) = u
unless_raised t (raised e) = t

unfoldable pub perform : Statement → Tables → Tables
unfolding register save_code claim_code save_token resolve spend_refresh revoke_family revoke_login
    forget_expired
perform (registers now client_id name uris) t = unless_raised t (register now client_id name uris t)
perform (saves_code now code_hash grant ttl) t =
    unless_raised t (save_code now code_hash grant ttl t)
perform (claims now code_hash) t = (claim_code now code_hash t).1
perform (saves_token row) t = unless_raised t (save_token row t)
perform (resolves now token_hash) t = (resolve now token_hash t).1
perform (spends now refresh_hash) t = (spend_refresh now refresh_hash t).1
perform (revokes_family now refresh_hash) t = revoke_family now refresh_hash t
perform (revokes_login now login) t = (revoke_login now login t).1
perform (forgets now) t = forget_expired now t

unfoldable pub perform_all : List Statement → Tables → Tables
unfolding perform
perform_all [] t = t
perform_all (s ∷ rest) t = perform_all rest (perform s t)

-- What a statement keeps, a list of those that pass a test keeps.
pub perform_all-keeps :
    (P : Tables → Type 0) (test : Statement → Bool)
    → ((s : Statement) (t : Tables) → test s ≡ true → P t → P (perform s t))
    → (statements : List Statement) (t : Tables) → all test statements ≡ true
    → P t
    → P (perform_all statements t)
unfolding perform_all all
perform_all-keeps P test k [] t h p = p
perform_all-keeps P test k (s ∷ rest) t h p =
    perform_all-keeps P test k rest (perform s t) (ground (arith, h)) (k s t (ground (arith, h)) p)

pub perform_all-always :
    (P : Tables → Type 0)
    → ((s : Statement) (t : Tables) → P t → P (perform s t))
    → (statements : List Statement) (t : Tables) → P t
    → P (perform_all statements t)
unfolding perform_all
perform_all-always P k [] t p = p
perform_all-always P k (s ∷ rest) t p = perform_all-always P k rest (perform s t) (k s t p)

-- An insert is refused, or adds what it adds.
unless_raised_keeps :
    (P : Tables → Type 0) (refused : Bool) (e : Error) (t u : Tables)
    → P t
    → (refused ≡ false → P u)
    → P (unless_raised t (if refused then raised e else ok u))
unless_raised_keeps P true e t u p k = p
unless_raised_keeps P false e t u p k = k refl

pub register_keeps :
    (P : Tables → Type 0) (now : ℕ) (client_id : String) (name : Option String) (uris : List String)
    (t : Tables)
    → P t
    → P (record t { clients = t.clients ++ new_client now client_id name uris ∷ [] })
    → P (perform (registers now client_id name uris) t)
unfolding perform register
register_keeps P now client_id name uris t p k =
    unless_raised_keeps P (any (is_client client_id) t.clients) integrity_error t _ p (λ _. k)

pub save_code_keeps :
    (P : Tables → Type 0) (now : ℕ) (hash : String) (grant : Grant) (ttl : ℕ) (t : Tables)
    → P t
    → (code_conflict (new_code now hash grant ttl) t ≡ false
        → P (record t { codes = t.codes ++ new_code now hash grant ttl ∷ [] }))
    → P (perform (saves_code now hash grant ttl) t)
unfolding perform save_code
save_code_keeps P now hash grant ttl t p k =
    unless_raised_keeps P (code_conflict (new_code now hash grant ttl) t) integrity_error t _ p k

pub save_token_keeps :
    (P : Tables → Type 0) (row : TokenRow) (t : Tables)
    → P t
    → (token_conflict row t ≡ false → P (record t { tokens = t.tokens ++ row ∷ [] }))
    → P (perform (saves_token row) t)
unfolding perform save_token
save_token_keeps P row t p k = unless_raised_keeps P (token_conflict row t) integrity_error t _ p k

-- A family is revoked, or there is none.
pub revoke_family_keeps :
    (P : Tables → Type 0) (now : ℕ) (refresh_hash : String) (t : Tables)
    → P t
    → ((family : String)
        → P (record t { tokens = update_rows (in_family family) (revoked_now now) t.tokens }))
    → P (revoke_family now refresh_hash t)
unfolding revoke_family
revoke_family_keeps P now refresh_hash t p k =
    elim (Option-cases (find_row (has_refresh refresh_hash) t.tokens)) [
      | inl e ↦ rw (revoke_family, e) p
      | inr (row, e) ↦ rw (revoke_family, e) (k row.family_id)
    ]
