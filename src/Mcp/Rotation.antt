-- ===== src/Mcp/Rotation.antt =====
-- Refresh tokens in src/screener/mcp/store.py: `claim_refresh` under any statements of any threads.
use mathlib.Core.Option.{map}
use stock_aggregator.Prelude.{
  leb, Option-cases, all, count, find_row, update_rows, any, ℕ, ◌≤◌, String, ◌≡◌, refl, sym, ap,
  ◌∙◌, subst, inl, inr, Bool, true, false, not, Option, none, some, List, [], ◌∷◌, ◌++◌, arith,
}
use stock_aggregator.Prelude.Rows.{
  any-append_one, any-none, any-keep, any-update, any-update_own, any_weaken, find_row-append,
  find_row-keep, find_row-update, find_row-only, map-some,
}
use stock_aggregator.Mcp.Tables.{
  TokenRow, Tables, register, save_code, claim_code, has_refresh, save_token, resolvable, resolve,
  spendable, spend_refresh, in_family, revoked_now, revoke_family, claim_refresh, of_login,
  revoke_login, is_dead, forget_expired,
}
use stock_aggregator.Mcp.Statements.{
  Statement, perform, perform_all, perform_all-keeps, register_keeps, save_code_keeps,
  save_token_keeps, revoke_family_keeps, registers, saves_code, claims, saves_token, resolves,
  spends, revokes_family, revokes_login, forgets,
}

abbrev origin : TokenRow → String × Option ℕ
origin r = (r.family_id, r.refresh_expires_at)

module _ (now until : ℕ) (refresh_hash : String) where
  -- The statement does not issue the same refresh token again, and does not sweep before it expired.
  abbrev pub within_life : Statement → Bool
  within_life (saves_token row) = not (has_refresh refresh_hash row)
  within_life (forgets at) = leb at until
  within_life _ = true

  -- What can be spent at a time could be spent before.
  earlier :
      {later : ℕ} (r : TokenRow)
      → now ≤ later
      → spendable later refresh_hash r ≡ true
      → spendable now refresh_hash r ≡ true
  earlier r at e = elim (Option-cases r.refresh_expires_at) [
    | inl f ↦ rw f (rw f at e)
    | inr (expiry, f) ↦ rw f (ground (arith, at, rw f at e))
  ]

  module _ (family : String) where
    -- The token cannot be spent, and its row still tells the family.
    abbrev IsSpent : Tables → Type 0
    IsSpent t =
        (any (spendable now refresh_hash) t.tokens ≡ false)
        × (map origin (find_row (has_refresh refresh_hash) t.tokens) ≡ some (family, some until))

    -- A change of the tokens that does not unspend.
    update-IsSpent :
        (test : TokenRow → Bool) (change : TokenRow → TokenRow)
        → ((r : TokenRow)
            → spendable now refresh_hash (change r) ≡ true
            → spendable now refresh_hash r ≡ true)
        → ((r : TokenRow) → has_refresh refresh_hash (change r) ≡ has_refresh refresh_hash r)
        → ((r : TokenRow) → origin (change r) ≡ origin r)
        → (t : Tables) → IsSpent t
        → IsSpent (record t { tokens = update_rows test change t.tokens })
    update-IsSpent test change a b c t k = (
      any-update (spendable now refresh_hash) test change (λ r e f. a r f) t.tokens (k.0),
      find_row-update (has_refresh refresh_hash) origin test change b c t.tokens ∙ k.1,
    )

    save_token-IsSpent :
        (row : TokenRow) (t : Tables)
        → not (has_refresh refresh_hash row) ≡ true
        → IsSpent t
        → IsSpent (record t { tokens = t.tokens ++ row ∷ [] })
    save_token-IsSpent row t h k =
        let (r, found, e) = map-some origin _ (k.1) in
        (
          any-append_one (spendable now refresh_hash) t.tokens row (k.0) (ground (arith, h)),
          ap (map origin) (find_row-append (has_refresh refresh_hash) t.tokens (row ∷ []) r found)
              ∙ ap some e,
        )

    spared :
        (at : ℕ) (r : TokenRow)
        → leb at until ≡ true
        → origin r ≡ (family, some until)
        → not (is_dead at r) ≡ true
    spared at r h e =
        let f : r.refresh_expires_at ≡ some until = ap (λ o. o.1) e in rw f (ground (arith, h))

    forget_expired-IsSpent :
        (at : ℕ) (t : Tables) → leb at until ≡ true → IsSpent t → IsSpent (forget_expired at t)
    unfolding forget_expired
    forget_expired-IsSpent at t h k =
        let (r, found, e) = map-some origin _ (k.1) in
        (
          any-keep (spendable now refresh_hash) _ t.tokens (k.0),
          ap (map origin) (
                find_row-keep (has_refresh refresh_hash) (λ (x : TokenRow). not (is_dead at x))
                  t.tokens r found (spared at r h e))
              ∙ ap some e,
        )

    perform-IsSpent :
        (s : Statement) (t : Tables) → within_life s ≡ true → IsSpent t → IsSpent (perform s t)
    unfolding perform register save_code claim_code save_token resolve spend_refresh revoke_login
    perform-IsSpent (registers at client_id name uris) t h k =
        register_keeps IsSpent at client_id name uris t k k
    perform-IsSpent (saves_code at hash grant ttl) t h k =
        save_code_keeps IsSpent at hash grant ttl t k (λ _. k)
    perform-IsSpent (claims at hash) t h k = k
    perform-IsSpent (saves_token row) t h k =
        save_token_keeps IsSpent row t k (λ _. save_token-IsSpent row t h k)
    perform-IsSpent (resolves at hash) t h k =
        update-IsSpent (resolvable at hash) _ (λ r e. e) (λ r. refl) (λ r. refl) t k
    perform-IsSpent (spends at hash) t h k =
        update-IsSpent (spendable at hash) _ (λ r e. ground (arith, e)) (λ r. refl) (λ r. refl) t k
    perform-IsSpent (revokes_family at hash) t h k =
        revoke_family_keeps IsSpent at hash t k (λ other.
          update-IsSpent (in_family other) (revoked_now at) (λ r e. ground (arith, e)) (λ r. refl)
            (λ r. refl) t k)
    perform-IsSpent (revokes_login at login) t h k =
        update-IsSpent (of_login login) (revoked_now at) (λ r e. ground (arith, e)) (λ r. refl)
          (λ r. refl) t k
    perform-IsSpent (forgets at) t h k = forget_expired-IsSpent at t h k

  spend-IsSpent :
      (t : Tables) (row : TokenRow)
      → count (has_refresh refresh_hash) t.tokens ≤ 1
      → find_row (spendable now refresh_hash) t.tokens ≡ some row
      → row.refresh_expires_at ≡ some until
      → IsSpent row.family_id (claim_refresh now refresh_hash t).1
  unfolding claim_refresh spend_refresh
  spend-IsSpent t row one found expiry =
      rw (claim_refresh, found)
        (
          any-update_own (spendable now refresh_hash) (λ r. record r { used_at = some now })
              (λ r. ground arith) t.tokens,
          find_row-update (has_refresh refresh_hash) origin (spendable now refresh_hash)
                (λ r. record r { used_at = some now }) (λ r. refl) (λ r. refl) t.tokens
              ∙ ap (map origin) (
                  find_row-only (has_refresh refresh_hash) (spendable now refresh_hash)
                    (λ r e. ground (arith, e)) t.tokens row one found)
              ∙ ap (λ o. some (row.family_id, o)) expiry,
        )

  revoke_family-revokes :
      (family : String) (later : ℕ) (t : Tables)
      → IsSpent family t
      → any (in_family family) (revoke_family later refresh_hash t).tokens ≡ false
  unfolding revoke_family
  revoke_family-revokes family later t k =
      let (r, found, e) = map-some origin _ (k.1) in
      rw (revoke_family, found)
        (subst
          (λ f.
            any (in_family family) (update_rows (in_family f) (revoked_now later) t.tokens) ≡ false)
          (sym (ap (λ o. o.0) e))
          (any-update_own (in_family family) (revoked_now later) (λ x. ground arith) t.tokens))

  -- Where a refresh token was redeemed, and then any statements ran, of any threads, that neither
  -- issue the same token again nor sweep rows before it expires: presenting it again at any later
  -- time gives nothing, and leaves no token of its family that is not revoked. Its hash stands in one
  -- row at most.
  pub claim_refresh_replay :
      (t : Tables) (row : TokenRow) (statements : List Statement) (later : ℕ)
      → count (has_refresh refresh_hash) t.tokens ≤ 1
      → find_row (spendable now refresh_hash) t.tokens ≡ some row
      → row.refresh_expires_at ≡ some until
      → all within_life statements ≡ true
      → now ≤ later
      → let again =
          claim_refresh later refresh_hash
            (perform_all statements (claim_refresh now refresh_hash t).1) in
        (again.0 ≡ none) × (any (in_family row.family_id) again.1.tokens ≡ false)
  unfolding claim_refresh spend_refresh perform_all perform
  claim_refresh_replay t row statements later one found expiry h at =
      let u = perform_all statements (claim_refresh now refresh_hash t).1 in
      let k : IsSpent row.family_id u =
        perform_all-keeps (IsSpent row.family_id) within_life (perform-IsSpent row.family_id)
          statements (claim_refresh now refresh_hash t).1 h
          (spend-IsSpent t row one found expiry) in
      let none_left : find_row (spendable later refresh_hash) u.tokens ≡ none =
        any-none (spendable later refresh_hash) u.tokens (
          any_weaken (spendable now refresh_hash) (spendable later refresh_hash)
            (λ r e. earlier r at e) u.tokens (k.0)) in
      rw (claim_refresh, none_left)
        (
          refl,
          revoke_family-revokes row.family_id later (spend_refresh later refresh_hash u).1
              (perform-IsSpent row.family_id (spends later refresh_hash) u refl k),
        )
