-- ===== src/Postgres/RowOrder.antt =====
-- A table has no order: what the look-ups make of two arrangements of the same rows.
use mathlib.Core.List.{Permᴰ}
use postulate.Base.{
  Option-cases, inl, inr, ap, ◌∙◌, ℕ, ◌≤◌, ◌≡◌, refl, String, Bool, List, find, count, length,
  arith,
}
use postulate.Postgres.{Db, user_count_all}
use postulate.Postgres.Users.{
  has_id, has_email, find_user_by_id, find_user_by_email, count_all_users,
}
use postulate.Postgres.Accounts.{has_provider, find_by_provider}
use postulate.Postgres.Tokens.{has_hash, find_by_token_hash}
use postulate.Postgres.Consistent.{IsConsistent}

module _ {A : Type 0} where
  count-perm : (p : A → Bool) {xs ys : List A} → Permᴰ xs ys → count p xs ≡ count p ys
  unfolding count
  count-perm p Permᴰ.nil = refl
  count-perm p (Permᴰ.cons e d) = ground (arith, ap p e, count-perm p d)
  count-perm p (Permᴰ.swap e f) = ground (arith, ap p e, ap p f)
  count-perm p (Permᴰ.trans d e) = count-perm p d ∙ count-perm p e

  length-perm : {xs ys : List A} → Permᴰ xs ys → length xs ≡ length ys
  length-perm Permᴰ.nil = refl
  length-perm (Permᴰ.cons e d) = omega (arith, length-perm d)
  length-perm (Permᴰ.swap e f) = refl
  length-perm (Permᴰ.trans d e) = length-perm d ∙ length-perm e

  find-perm : (p : A → Bool) {xs ys : List A} → Permᴰ xs ys → count p xs ≤ 1 → find p xs ≡ find p ys
  unfolding count find
  find-perm p Permᴰ.nil h = refl
  find-perm p (Permᴰ.cons e d) h = ground (arith, e, ap p e, find-perm p d)
  find-perm p (Permᴰ.swap e f) h = ground (arith, e, f, ap p e, ap p f)
  find-perm p (Permᴰ.trans d e) h =
      find-perm p d h ∙ find-perm p e (omega (arith, count-perm p d, h))

-- The same rows in another order, and all else alike.
pub record IsRearranged (d d' : Db) : Type 0 where
  pub users : Permᴰ d.users d'.users
  pub accounts : Permᴰ d.accounts d'.accounts
  pub tokens : Permᴰ d.tokens d'.tokens
  pub fault : d.fault ≡ d'.fault

-- For a consistent database whose rows of users, accounts and refresh tokens are put into another
-- order, with the same faults in store, the look-ups of a user by id and by email, of an account by
-- provider and of a token by hash give the same, and so does the count of the users.
pub reads-IsRearranged :
    (d d' : Db) (id : ℕ) (email provider uid hash : String)
    → IsConsistent d
    → IsRearranged d d'
    → (find_user_by_id id d ≡ find_user_by_id id d')
      × (find_user_by_email email d ≡ find_user_by_email email d')
      × (find_by_provider provider uid d ≡ find_by_provider provider uid d')
      × (find_by_token_hash hash d ≡ find_by_token_hash hash d')
      × (count_all_users d ≡ count_all_users d')
unfolding find_user_by_id find_user_by_email find_by_provider find_by_token_hash count_all_users
reads-IsRearranged d d' id email provider uid hash c same =
    let counts : count_all_users d ≡ count_all_users d' =
      elim (Option-cases (d.fault user_count_all)) [
        | inl fine ↦ ground (arith, ap (λ f. f user_count_all) same.fault, length-perm same.users)
        | inr (e, broken) ↦ ground (arith, ap (λ f. f user_count_all) same.fault)
      ] in
    let by_id = find-perm (has_id id) same.users (c.users.ids id) in
    let by_email = find-perm (has_email email) same.users (c.users.emails email) in
    let by_provider =
      find-perm (has_provider provider uid) same.accounts (c.accounts.keys provider uid) in
    let by_hash = find-perm (has_hash hash) same.tokens (c.tokens.hashes hash) in
    (
      rw (by_id, same.fault) refl,
      rw (by_email, same.fault) refl,
      rw (by_provider, same.fault) refl,
      rw (by_hash, same.fault) refl,
      counts,
    )
