-- ===== src/Postgres/Consistent.antt =====
-- The constraints of the schema as an invariant of the tables, and what keeps it list by list.
use postulate.Base.{
  ◌∙◌, Bool-cases, inl, inr, ◌==◌, text_Eq, ℕ, ◌≤◌, ◌≡◌, refl, String, Bool, true, ◌&&◌, not, none,
  List, ◌∷◌, find, delete, update, count, All, arith, eq_iff, nat_eq_iff,
}
use postulate.Base.Counts.{
  count-find, find-count, count-delete-le, count-update, count-update-le, count-update_out,
  All-delete, All-update, All-mono,
}
use postulate.Domain.{User, OAuthAccount}
use postulate.Postgres.{Db, TokenRow}
use postulate.Postgres.Users.{has_id, has_email, is_row, role_check, status_check, updated_user}
use postulate.Postgres.Accounts.{has_provider, merged_account}
use postulate.Postgres.Tokens.{has_hash}

abbrev pub IsValidUser : User → Type 0
IsValidUser u = (role_check u.role ≡ true) × (status_check u.status ≡ true)

-- users: primary key, UNIQUE (email), and the two CHECKs.
pub record AreUsers (us : List User) : Type 0 where
  pub ids : (id : ℕ) → count (has_id id) us ≤ 1
  pub emails : (email : String) → count (has_email email) us ≤ 1
  pub checked : All IsValidUser us

-- oauth_accounts: UNIQUE (provider, provider_uid), and the foreign key to users.
pub record AreAccounts (us : List User) (accs : List OAuthAccount) : Type 0 where
  pub keys : (p q : String) → count (has_provider p q) accs ≤ 1
  pub owned : All (λ a. count (has_id a.user_id) us ≡ 1) accs

-- refresh_tokens: UNIQUE (token_hash), and the foreign key to users.
pub record AreTokens (us : List User) (ts : List TokenRow) : Type 0 where
  pub hashes : (h : String) → count (has_hash h) ts ≤ 1
  pub held : All (λ t. count (has_id t.user_id) us ≡ 1) ts

pub record IsConsistent (db : Db) : Type 0 where
  pub users : AreUsers db.users
  pub accounts : AreAccounts db.users db.accounts
  pub tokens : AreTokens db.users db.tokens

-- No user disappears from the table.
abbrev pub Covers : List User → List User → Type 0
Covers us us' = (id : ℕ) → count (has_id id) us ≡ 1 → count (has_id id) us' ≡ 1

pub grow-accounts :
    (us us' : List User) (accs : List OAuthAccount)
    → Covers us us'
    → AreAccounts us accs
    → AreAccounts us' accs
grow-accounts us us' accs c h = record {
  keys = h.keys;
  owned = All-mono _ _ accs (λ a. c a.user_id) h.owned;
}

pub grow-tokens :
    (us us' : List User) (ts : List TokenRow) → Covers us us' → AreTokens us ts → AreTokens us' ts
grow-tokens us us' ts c h = record {
  hashes = h.hashes;
  held = All-mono _ _ ts (λ t. c t.user_id) h.held;
}

pub insert-AreUsers :
    (u : User) (us : List User)
    → find (has_id u.id) us ≡ none
    → find (has_email u.email) us ≡ none
    → IsValidUser u
    → AreUsers us
    → AreUsers (u ∷ us)
unfolding count
insert-AreUsers u us new fresh valid h = record {
  ids = λ id. ground (arith, h.ids id, nat_eq_iff u.id id, count-find (has_id u.id) us new);
  emails = λ email.
      ground (arith, h.emails email, eq_iff u.email email, count-find (has_email u.email) us fresh);
  checked = (valid, h.checked);
}

pub insert-Covers : (u : User) (us : List User) → find (has_id u.id) us ≡ none → Covers us (u ∷ us)
unfolding count
insert-Covers u us new id h = ground (arith, nat_eq_iff u.id id, count-find (has_id u.id) us new)

-- An update of one row: what it sets is valid, and its email is no other row's.
pub update-AreUsers :
    (u : User) (db : Db)
    → find (λ row. has_email u.email row && not (has_id u.id row)) db.users ≡ none
    → IsValidUser u
    → AreUsers db.users
    → AreUsers (update (has_id u.id) (updated_user u db) db.users)
update-AreUsers u db other valid h = record {
  ids = λ id. ground (
    arith,
    h.ids id,
    count-update (has_id id) (has_id u.id) (updated_user u db) db.users (λ row. refl),
  );
  emails = λ email. elim (Bool-cases (u.email == email)) [
    | inr other_email ↦ ground (
      arith,
      h.emails email,
      count-update_out (has_email email) (has_id u.id) (updated_user u db) db.users
          (λ row. other_email),
    )
    | inl same ↦ rw (← (eq_iff u.email email).0 same) (
        omega (
          arith,
          count-update-le (has_email u.email) (has_id u.id) (updated_user u db) db.users,
          count-find (λ row. has_email u.email row && not (has_id u.id row)) db.users other,
          h.ids u.id,
        ))
  ];
  checked =
      All-update IsValidUser (has_id u.id) (updated_user u db) db.users (λ row _. valid) h.checked;
}

pub update-Covers :
    (q : User → Bool) (f : User → User) (us : List User)
    → ((id : ℕ) (row : User) → has_id id (f row) ≡ has_id id row)
    → Covers us (update q f us)
update-Covers q f us keep id h = count-update (has_id id) q f us (keep id) ∙ h

pub delete-AreTokens :
    (q : TokenRow → Bool) (us : List User) (ts : List TokenRow)
    → AreTokens us ts
    → AreTokens us (delete q ts)
delete-AreTokens q us ts h = record {
  hashes = λ hash. omega (arith, count-delete-le (has_hash hash) q ts, h.hashes hash);
  held = All-delete _ q ts h.held;
}

pub insert-AreTokens :
    (t : TokenRow) (us : List User) (ts : List TokenRow)
    → find (has_hash t.token_hash) ts ≡ none
    → count (has_id t.user_id) us ≡ 1
    → AreTokens us ts
    → AreTokens us (t ∷ ts)
unfolding count
insert-AreTokens t us ts fresh user h = record {
  hashes = λ hash.
      ground (
        arith,
        h.hashes hash,
        eq_iff t.token_hash hash,
        count-find (has_hash t.token_hash) ts fresh,
      );
  held = (user, h.held);
}

pub insert-AreAccounts :
    (a : OAuthAccount) (us : List User) (accs : List OAuthAccount)
    → find (has_provider a.provider a.provider_uid) accs ≡ none
    → count (has_id a.user_id) us ≡ 1
    → AreAccounts us accs
    → AreAccounts us (a ∷ accs)
unfolding count
insert-AreAccounts a us accs fresh user h = record {
  keys = λ p q. ground (
    arith,
    h.keys p q,
    eq_iff a.provider p,
    eq_iff a.provider_uid q,
    count-find (has_provider a.provider a.provider_uid) accs fresh,
  );
  owned = (user, h.owned);
}

pub merge-AreAccounts :
    (a : OAuthAccount) (db : Db) (us : List User) (accs : List OAuthAccount) (x y : String)
    → AreAccounts us accs
    → AreAccounts us (update (has_provider x y) (merged_account a db) accs)
merge-AreAccounts a db us accs x y h = record {
  keys = λ p q.
      rw
        (count-update (has_provider p q) (has_provider x y) (merged_account a db) accs
          (λ row. refl))
        (h.keys p q);
  owned = All-update _ (has_provider x y) (merged_account a db) accs (λ row k. k) h.owned;
}

-- A row that was found is the only one.
pub found-one :
    (us : List User) (id : ℕ)
    → AreUsers us
    → is_row (find (has_id id) us) ≡ true
    → count (has_id id) us ≡ 1
found-one us id h found = ground (arith, h.ids id, find-count (has_id id) us)
