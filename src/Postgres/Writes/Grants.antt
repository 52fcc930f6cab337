-- ===== src/Postgres/Writes/Grants.antt =====
-- Writes of refresh tokens and sessions keep the constraints.
use postulate.Base.{
  ℕ, suc, ◌≡◌, refl, Bool, true, none, List, ◌∷◌, find, delete, arith, Option-cases, inl, inr,
  nat_Eq,
}
use postulate.Base.Counts.{All-update, count-update}
use postulate.Domain.{RefreshToken, Session}
use postulate.Postgres.{
  Db, TokenRow, written, execute, token_mark_used, token_delete_by_user, token_delete_by_session,
  token_delete_expired, session_delete_expired,
}
use postulate.Postgres.Users.{has_id, is_row}
use postulate.Postgres.Tokens.{
  has_hash, has_token_id, of_user, of_session, expires_before, marked, insert_token, inserted_token,
  create_token, mark_used, delete_by_session_id, delete_by_user_id, delete_expired_tokens,
}
use postulate.Postgres.Sessions.{
  Inet, insert_session, create_session, update_last_active, revoke_session, revoke_all_for_user,
  delete_expired_sessions, cascades, session_expires_before,
}
use postulate.Postgres.Consistent.{IsConsistent, delete-AreTokens, insert-AreTokens, found-one}
use postulate.Postgres.Writes.{execute-keeps}

insert_token-written :
    (t t' : RefreshToken) (db db' : Db)
    → insert_token t db ≡ written t' db'
    → IsConsistent db
    → IsConsistent db'
unfolding insert_token
insert_token-written t t' db db' e h =
    let user : is_row (find (has_id t.user_id) db.users) ≡ true = ground arith in
    let fresh : find (has_hash t.token_hash) db.tokens ≡ none = ground arith in
    let same : db' ≡ record db { tokens = inserted_token t db ∷ db.tokens; drawn = suc db.drawn } =
      ground arith in
    rw same (record {
      users = h.users;
      accounts = h.accounts;
      tokens =
          insert-AreTokens (inserted_token t db) db.users db.tokens fresh
            (found-one db.users t.user_id h.users user) h.tokens;
    })

pub create_token-IsConsistent :
    (t : RefreshToken) (db : Db) → IsConsistent db → IsConsistent (create_token t db).1
unfolding create_token
create_token-IsConsistent t db h =
    execute-keeps IsConsistent _ (insert_token t) db h
      (λ t' db' e. insert_token-written t t' db db' e h)

-- A statement that only deletes rows of refresh_tokens, and one that only changes `sessions`.
with_tokens :
    (q : TokenRow → Bool) (db : Db) (sessions : List Session)
    → IsConsistent db
    → IsConsistent (record db { sessions = sessions; tokens = delete q db.tokens })
with_tokens q db sessions h = record {
  users = h.users;
  accounts = h.accounts;
  tokens = delete-AreTokens q db.users db.tokens h.tokens;
}

pub mark_used-IsConsistent :
    (id at : ℕ) (db : Db) → IsConsistent db → IsConsistent (mark_used id at db).1
unfolding mark_used
mark_used-IsConsistent id at db h = elim (Option-cases (db.fault token_mark_used)) [
  | inr (e, f) ↦ rw (f, execute) h
  | inl f ↦
      rw (f, execute)
        (record {
          users = h.users;
          accounts = h.accounts;
          tokens = record {
            hashes = λ hash.
                rw
                  (count-update (has_hash hash) (has_token_id id) (marked at) db.tokens
                    (λ row. refl))
                  (h.tokens.hashes hash);
            held = All-update _ (has_token_id id) (marked at) db.tokens (λ row k. k) h.tokens.held;
          };
        })
]

pub delete_by_user_id-IsConsistent :
    (id : ℕ) (db : Db) → IsConsistent db → IsConsistent (delete_by_user_id id db).1
unfolding delete_by_user_id
delete_by_user_id-IsConsistent id db h = elim (Option-cases (db.fault token_delete_by_user)) [
  | inr (e, f) ↦ rw (f, execute) h
  | inl f ↦ rw (f, execute) (with_tokens (of_user id) db db.sessions h)
]

pub delete_by_session_id-IsConsistent :
    (id : ℕ) (db : Db) → IsConsistent db → IsConsistent (delete_by_session_id id db).1
unfolding delete_by_session_id
delete_by_session_id-IsConsistent id db h = elim (Option-cases (db.fault token_delete_by_session)) [
  | inr (e, f) ↦ rw (f, execute) h
  | inl f ↦ rw (f, execute) (with_tokens (of_session id) db db.sessions h)
]

pub delete_expired-IsConsistent :
    (before : ℕ) (db : Db) → IsConsistent db → IsConsistent (delete_expired_tokens before db).1
unfolding delete_expired_tokens
delete_expired-IsConsistent before db h = elim (Option-cases (db.fault token_delete_expired)) [
  | inr (e, f) ↦ rw (f, execute) h
  | inl f ↦ rw (f, execute) (with_tokens (expires_before before) db db.sessions h)
]

pub delete_expired_sessions-IsConsistent :
    (before : ℕ) (db : Db) → IsConsistent db → IsConsistent (delete_expired_sessions before db).1
unfolding delete_expired_sessions
delete_expired_sessions-IsConsistent before db h =
    elim (Option-cases (db.fault session_delete_expired)) [
      | inr (e, f) ↦ rw (f, execute) h
      | inl f ↦
          rw (f, execute)
            (with_tokens (cascades before db.sessions) db
              (delete (session_expires_before before) db.sessions) h)
    ]

-- The invariant reads three of the tables.
same-IsConsistent :
    (db db' : Db)
    → (db'.users ≡ db.users) × (db'.accounts ≡ db.accounts) × (db'.tokens ≡ db.tokens)
    → IsConsistent db
    → IsConsistent db'
same-IsConsistent db db' (u, a, t) h = record {
  users = rw u h.users;
  accounts = rw (u, a) h.accounts;
  tokens = rw (u, t) h.tokens;
}

pub create_session-IsConsistent :
    (inet : Inet) (s : Session) (db : Db)
    → IsConsistent db
    → IsConsistent (create_session inet s db).1
unfolding create_session insert_session
create_session-IsConsistent inet s db h =
    same-IsConsistent db _ (ground arith, ground arith, ground arith) h

pub update_last_active-IsConsistent :
    (id at : ℕ) (db : Db) → IsConsistent db → IsConsistent (update_last_active id at db).1
unfolding update_last_active
update_last_active-IsConsistent id at db h =
    same-IsConsistent db _ (ground arith, ground arith, ground arith) h

pub revoke_session-IsConsistent :
    (id : ℕ) (db : Db) → IsConsistent db → IsConsistent (revoke_session id db).1
unfolding revoke_session
revoke_session-IsConsistent id db h =
    same-IsConsistent db _ (ground arith, ground arith, ground arith) h

pub revoke_all-IsConsistent :
    (id : ℕ) (db : Db) → IsConsistent db → IsConsistent (revoke_all_for_user id db).1
unfolding revoke_all_for_user
revoke_all-IsConsistent id db h =
    same-IsConsistent db _ (ground arith, ground arith, ground arith) h
