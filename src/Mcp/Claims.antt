-- ===== src/Mcp/Claims.antt =====
-- One-time codes in src/screener/mcp/store.py: `claim_code` under any statements of any threads.
use mathlib.Core.Option.{map}
use stock_aggregator.Prelude.{
  ◌==◌, all, any, ℕ, ◌≤◌, String, ◌≡◌, ap, Bool, true, false, not, none, List, arith, ℕ_key,
  String_key,
}
use stock_aggregator.Prelude.Rows.{
  any-append_one, any-none, any-keep, any-update, any-update_own, any_weaken,
}
use stock_aggregator.Mcp.Tables.{
  new_code, Tables, register, save_code, claimable, code_used, grant_of, claim_code, save_token,
  resolve, spend_refresh, revoke_login, forget_expired,
}
use stock_aggregator.Mcp.Statements.{
  register_keeps, save_code_keeps, save_token_keeps, Statement, perform, perform_all,
  perform_all-keeps, revoke_family_keeps, registers, saves_code, claims, saves_token, resolves,
  spends, revokes_family, revokes_login, forgets,
}

module _ (now : ℕ) (code_hash : String) where
  -- no code of this hash can be claimed at this time
  abbrev IsClaimed : Tables → Type 0
  IsClaimed t = any (claimable now code_hash) t.codes ≡ false

  -- the statement is not the issue of a code of this hash
  abbrev pub new_codes_only : Statement → Bool
  new_codes_only (saves_code at hash grant ttl) = not (hash == code_hash)
  new_codes_only _ = true

  claim-IsClaimed : (t : Tables) → IsClaimed ((claim_code now code_hash t).1)
  unfolding claim_code
  claim-IsClaimed t =
      any-update_own (claimable now code_hash) (code_used now) (λ c. ground arith) t.codes

  perform-IsClaimed :
      (s : Statement) (t : Tables) → new_codes_only s ≡ true → IsClaimed t → IsClaimed (perform s t)
  unfolding perform register save_code claim_code save_token resolve spend_refresh revoke_login
      forget_expired
  perform-IsClaimed (registers at client_id name uris) t h p =
      register_keeps IsClaimed at client_id name uris t p p
  perform-IsClaimed (saves_code at hash grant ttl) t h p =
      save_code_keeps IsClaimed at hash grant ttl t p (λ _.
        any-append_one (claimable now code_hash) t.codes (new_code at hash grant ttl) p
          (ground (arith, h)))
  perform-IsClaimed (claims at hash) t h p =
      any-update (claimable now code_hash) (claimable at hash) (code_used at)
        (λ c e f. ground (arith, f)) t.codes p
  perform-IsClaimed (saves_token row) t h p = save_token_keeps IsClaimed row t p (λ _. p)
  perform-IsClaimed (resolves at hash) t h p = p
  perform-IsClaimed (spends at hash) t h p = p
  perform-IsClaimed (revokes_family at hash) t h p =
      revoke_family_keeps IsClaimed at hash t p (λ family. p)
  perform-IsClaimed (revokes_login at login) t h p = p
  perform-IsClaimed (forgets at) t h p = any-keep (claimable now code_hash) _ t.codes p

  -- Once a code was presented, whatever statements follow, in any order and of any thread, and at
  -- any later time, it is not redeemed, unless a code of the same hash is issued again.
  pub claim_code_once :
      (t : Tables) (statements : List Statement) (later : ℕ)
      → all new_codes_only statements ≡ true
      → now ≤ later
      → (claim_code later code_hash (perform_all statements (claim_code now code_hash t).1)).0
        ≡ none
  unfolding claim_code
  claim_code_once t statements later h at =
      let p =
        perform_all-keeps IsClaimed new_codes_only perform-IsClaimed statements
          ((claim_code now code_hash t).1) h (claim-IsClaimed t) in
      ap (map grant_of) (
        any-none (claimable later code_hash) _ (
          any_weaken (claimable now code_hash) (claimable later code_hash)
            (λ c e. ground (arith, e)) _ p))
