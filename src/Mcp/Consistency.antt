-- ===== src/Mcp/Consistency.antt =====
-- What holds of the `mcp` tables under every list of statements of src/screener/mcp/store.py.
use stock_aggregator.Prelude.{
  ltb, ◌==◌, String_key, Bool-cases, Option-cases, keep, All, count, update_rows, any,
  some-injective, ℕ, ◌≤◌, String, ◌≡◌, refl, sym, ap, ◌∙◌, subst, inl, inr, Bool, true, false, not,
  ◌||◌, Option, none, some, List, [], ◌∷◌, ◌++◌, arith, ℕ_key, String_key,
}
use stock_aggregator.Prelude.Rows.{
  any-append, any-count, count_append, count-keep_le, count-update_same, any-Has, any-keep_all,
  All-each, All-Has, All-append_one, All-keep, All-update, All-weaken,
}
use stock_aggregator.Mcp.Tables.{
  Client, Code, TokenRow, Tables, is_client, new_client, register, is_code, new_code, code_conflict,
  save_code, claimable, code_used, claim_code, has_token, has_refresh, token_conflict, save_token,
  resolvable, resolve, spendable, spend_refresh, in_family, of_login, revoke_login, is_dead,
  is_orphan, forget_expired,
}
use stock_aggregator.Mcp.Statements.{
  register_keeps, save_code_keeps, save_token_keeps, Statement, perform, perform_all,
  perform_all-always, revoke_family_keeps, registers, saves_code, claims, saves_token, resolves,
  spends, revokes_family, revokes_login, forgets,
}

abbrev pub empty_tables : Tables
empty_tables = record { clients = []; codes = []; tokens = [] }

-- The client is in the table.
abbrev Knows : List Client → String → Type 0
Knows clients client_id = any (is_client client_id) clients ≡ true

abbrev KnowsCodes : Tables → Type 0
KnowsCodes t = All (λ (c : Code). Knows t.clients c.client_id) t.codes

abbrev KnowsTokens : Tables → Type 0
KnowsTokens t = All (λ (r : TokenRow). Knows t.clients r.client_id) t.tokens

-- Each hash stands in one row at most, and each code and token names a client that is there.
pub record IsConsistent (t : Tables) : Type 0 where
  pub one_code : (hash : String) → count (is_code hash) t.codes ≤ 1
  pub one_token : (hash : String) → count (has_token hash) t.tokens ≤ 1
  pub one_refresh : (hash : String) → count (has_refresh hash) t.tokens ≤ 1
  pub code_clients : KnowsCodes t
  pub token_clients : KnowsTokens t

-- One more row, where no row had its hash.
count_one_more :
    {A : Type 0} (is : String → A → Bool) (hash_of : A → Option String)
    → ((hash : String) (x : A) → is hash x ≡ true → hash_of x ≡ some hash)
    → (rows : List A) (row : A)
    → ((hash : String) → hash_of row ≡ some hash → any (is hash) rows ≡ false)
    → ((hash : String) → count (is hash) rows ≤ 1)
    → (hash : String) → count (is hash) (rows ++ row ∷ []) ≤ 1
unfolding count
count_one_more is hash_of k rows row new one hash = elim (Bool-cases (is hash row)) [
  | inl e ↦ ground (
    arith,
    e,
    count_append (is hash) rows (row ∷ []),
    any-count (is hash) rows (new hash (k hash row e)),
  )
  | inr e ↦ ground (arith, e, count_append (is hash) rows (row ∷ []), one hash)
]

-- A change of the tokens that leaves each row's hashes and client.
update-IsConsistent :
    (test : TokenRow → Bool) (change : TokenRow → TokenRow)
    → ((r : TokenRow) → (change r).token_hash ≡ r.token_hash)
    → ((r : TokenRow) → (change r).refresh_hash ≡ r.refresh_hash)
    → ((r : TokenRow) → (change r).client_id ≡ r.client_id)
    → (t : Tables) → IsConsistent t
    → IsConsistent (record t { tokens = update_rows test change t.tokens })
update-IsConsistent test change a b c t k = record {
  one_code = k.one_code;
  one_token = λ hash.
      subst (λ n. n ≤ 1)
        (sym (
          count-update_same (has_token hash) test change (λ r. ap (λ h. h == hash) (a r)) t.tokens))
        (k.one_token hash);
  one_refresh = λ hash.
      subst (λ n. n ≤ 1)
        (sym (
          count-update_same (has_refresh hash) test change
            (λ r. ap (λ o. elim o [ none ↦ false | some h ↦ h == hash ]) (b r)) t.tokens))
        (k.one_refresh hash);
  code_clients = k.code_clients;
  token_clients =
      All-update (λ (r : TokenRow). Knows t.clients r.client_id) test change
        (λ r e p. subst (λ id. Knows t.clients id) (sym (c r)) p) t.tokens k.token_clients;
}

-- A client who is there stays when another is appended.
Knows-append :
    (clients : List Client) (c : Client) (client_id : String)
    → Knows clients client_id
    → Knows (clients ++ c ∷ []) client_id
Knows-append clients c client_id h = any-append (is_client client_id) clients (c ∷ []) ∙ rw h refl

register-IsConsistent :
    (c : Client) (t : Tables)
    → IsConsistent t
    → IsConsistent (record t { clients = t.clients ++ c ∷ [] })
register-IsConsistent c t k = record {
  one_code = k.one_code;
  one_token = k.one_token;
  one_refresh = k.one_refresh;
  code_clients =
      All-weaken (λ (a : Code). Knows t.clients a.client_id) _
        (λ a. Knows-append t.clients c a.client_id) t.codes k.code_clients;
  token_clients =
      All-weaken (λ (r : TokenRow). Knows t.clients r.client_id) _
        (λ r. Knows-append t.clients c r.client_id) t.tokens k.token_clients;
}

-- Neither of two tests that were both false.
or_false : (a b : Bool) → (a || b) ≡ false → (a ≡ false) × (b ≡ false)
or_false a b h = ground arith

none_of : (a b c : Bool) → (a || b || c) ≡ false → (a ≡ false) × (b ≡ false) × (c ≡ false)
none_of a b c h = ground arith

known : (b : Bool) → not b ≡ false → b ≡ true
known b h = ground arith

save_code-IsConsistent :
    (row : Code) (t : Tables)
    → code_conflict row t ≡ false
    → IsConsistent t
    → IsConsistent (record t { codes = t.codes ++ row ∷ [] })
save_code-IsConsistent row t h k =
    let (new, client_known) = or_false (any (is_code row.code_hash) t.codes) _ h in
    record {
      one_code =
          count_one_more is_code (λ (c : Code). some c.code_hash)
            (λ hash c e. ap some ((String_key.same_iff c.code_hash hash).0 e)) t.codes row
            (λ hash e. subst (λ x. any (is_code x) t.codes ≡ false) (some-injective e) new)
            k.one_code;
      one_token = k.one_token;
      one_refresh = k.one_refresh;
      code_clients =
          All-append_one (λ (c : Code). Knows t.clients c.client_id) t.codes row k.code_clients
            (known _ client_known);
      token_clients = k.token_clients;
    }

refresh_known :
    (hash : String) (r : TokenRow) → has_refresh hash r ≡ true → r.refresh_hash ≡ some hash
refresh_known hash r e = elim (Option-cases r.refresh_hash) [
  | inl f ↦ cc (rw f at e)
  | inr (h, f) ↦ f ∙ ap some ((String_key.same_iff h hash).0 (rw f at e))
]

save_token-IsConsistent :
    (row : TokenRow) (t : Tables)
    → token_conflict row t ≡ false
    → IsConsistent t
    → IsConsistent (record t { tokens = t.tokens ++ row ∷ [] })
unfolding token_conflict
save_token-IsConsistent row t h k =
    let (new_token_hash, new_refresh, client_known) =
      none_of (any (has_token row.token_hash) t.tokens) _ _ h in
    record {
      one_code = k.one_code;
      one_token =
          count_one_more has_token (λ (r : TokenRow). some r.token_hash)
            (λ hash r e. ap some ((String_key.same_iff r.token_hash hash).0 e)) t.tokens row
            (λ hash e.
              subst (λ x. any (has_token x) t.tokens ≡ false) (some-injective e) new_token_hash)
            k.one_token;
      one_refresh =
          count_one_more has_refresh (λ (r : TokenRow). r.refresh_hash) refresh_known t.tokens row
            (λ hash e. rw e at new_refresh) k.one_refresh;
      code_clients = k.code_clients;
      token_clients =
          All-append_one (λ (r : TokenRow). Knows t.clients r.client_id) t.tokens row
            k.token_clients (known _ client_known);
    }

claim_code-IsConsistent :
    (now : ℕ) (hash : String) (t : Tables) → IsConsistent t → IsConsistent (claim_code now hash t).1
unfolding claim_code
claim_code-IsConsistent now hash t k = record {
  one_code = λ other.
      subst (λ n. n ≤ 1)
        (sym (
          count-update_same (is_code other) (claimable now hash) (code_used now) (λ c. refl)
            t.codes))
        (k.one_code other);
  one_token = k.one_token;
  one_refresh = k.one_refresh;
  code_clients =
      All-update (λ (c : Code). Knows t.clients c.client_id) (claimable now hash) (code_used now)
        (λ c e p. p) t.codes k.code_clients;
  token_clients = k.token_clients;
}

-- The sweep spares a client that a remaining row names.
forget-Knows :
    (now : ℕ) (codes : List Code) (tokens : List TokenRow) (clients : List Client)
    (client_id : String)
    → (any (λ (r : TokenRow). r.client_id == client_id) tokens
        || any (λ (a : Code). a.client_id == client_id) codes)
      ≡ true
    → Knows clients client_id
    → Knows (keep (λ (c : Client). not (is_orphan now tokens codes c)) clients) client_id
forget-Knows now codes tokens clients client_id named h =
    any-keep_all (is_client client_id) _ clients
      (λ c e.
        let same = (String_key.same_iff c.client_id client_id).0 e in
        spared c (
          subst
            (λ id.
              (any (λ (r : TokenRow). r.client_id == id) tokens
                || any (λ (a : Code). a.client_id == id) codes)
              ≡ true)
            (sym same) named))
      h
  where
    spared :
        (c : Client)
        → (any (λ (r : TokenRow). r.client_id == c.client_id) tokens
            || any (λ (a : Code). a.client_id == c.client_id) codes)
          ≡ true
        → not (is_orphan now tokens codes c) ≡ true
    spared c e = ground (arith, e)

forget_expired-IsConsistent :
    (now : ℕ) (t : Tables) → IsConsistent t → IsConsistent (forget_expired now t)
unfolding forget_expired
forget_expired-IsConsistent now t k =
    let codes = keep (λ (c : Code). not (ltb c.expires_at now)) t.codes in
    let tokens = keep (λ (r : TokenRow). not (is_dead now r)) t.tokens in
    record {
      one_code = λ hash. omega (
        arith,
        count-keep_le (is_code hash) (λ (c : Code). not (ltb c.expires_at now)) t.codes,
        k.one_code hash,
      );
      one_token = λ hash. omega (
        arith,
        count-keep_le (has_token hash) (λ (r : TokenRow). not (is_dead now r)) t.tokens,
        k.one_token hash,
      );
      one_refresh = λ hash. omega (
        arith,
        count-keep_le (has_refresh hash) (λ (r : TokenRow). not (is_dead now r)) t.tokens,
        k.one_refresh hash,
      );
      code_clients = All-each _ codes (λ (c : Code) here.
          forget-Knows now codes tokens t.clients c.client_id
            (ground (
              arith,
              any-Has (λ (a : Code). a.client_id == c.client_id) codes c here
                  ((String_key.same_iff c.client_id c.client_id).1 refl),
            ))
            (All-Has (λ (a : Code). Knows t.clients a.client_id) codes c
              (All-keep _ _ t.codes k.code_clients) here));
      token_clients = All-each _ tokens (λ (r : TokenRow) here.
          forget-Knows now codes tokens t.clients r.client_id
            (ground (
              arith,
              any-Has (λ (a : TokenRow). a.client_id == r.client_id) tokens r here
                  ((String_key.same_iff r.client_id r.client_id).1 refl),
            ))
            (All-Has (λ (a : TokenRow). Knows t.clients a.client_id) tokens r
              (All-keep _ _ t.tokens k.token_clients) here));
    }

perform-IsConsistent : (s : Statement) (t : Tables) → IsConsistent t → IsConsistent (perform s t)
unfolding perform register save_code save_token resolve spend_refresh revoke_login
perform-IsConsistent (registers now client_id name uris) t k =
    register_keeps IsConsistent now client_id name uris t k
      (register-IsConsistent (new_client now client_id name uris) t k)
perform-IsConsistent (saves_code now hash grant ttl) t k =
    save_code_keeps IsConsistent now hash grant ttl t k
      (λ e. save_code-IsConsistent (new_code now hash grant ttl) t e k)
perform-IsConsistent (claims now hash) t k = claim_code-IsConsistent now hash t k
perform-IsConsistent (saves_token row) t k =
    save_token_keeps IsConsistent row t k (λ e. save_token-IsConsistent row t e k)
perform-IsConsistent (resolves now hash) t k =
    update-IsConsistent (resolvable now hash) _ (λ r. refl) (λ r. refl) (λ r. refl) t k
perform-IsConsistent (spends now hash) t k =
    update-IsConsistent (spendable now hash) _ (λ r. refl) (λ r. refl) (λ r. refl) t k
perform-IsConsistent (revokes_family now hash) t k =
    revoke_family_keeps IsConsistent now hash t k
      (λ family. update-IsConsistent (in_family family) _ (λ r. refl) (λ r. refl) (λ r. refl) t k)
perform-IsConsistent (revokes_login now login) t k =
    update-IsConsistent (of_login login) _ (λ r. refl) (λ r. refl) (λ r. refl) t k
perform-IsConsistent (forgets now) t k = forget_expired-IsConsistent now t k

empty_tables-IsConsistent : IsConsistent empty_tables
unfolding count
empty_tables-IsConsistent = record {
  one_code = λ hash. omega arith;
  one_token = λ hash. omega arith;
  one_refresh = λ hash. omega arith;
  code_clients = tt;
  token_clients = tt;
}

-- Whatever statements run, from empty tables, in any order and of any thread: no hash of a code, of
-- an access token or of a refresh token stands in two rows, and every code and every token names a
-- client that is registered, the sweep of dead rows included.
pub perform_all-IsConsistent :
    (statements : List Statement) → IsConsistent (perform_all statements empty_tables)
perform_all-IsConsistent statements =
    perform_all-always IsConsistent perform-IsConsistent statements empty_tables
      empty_tables-IsConsistent
