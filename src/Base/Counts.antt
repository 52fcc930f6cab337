-- ===== src/Base/Counts.antt =====
-- How deletions and updates of rows change the number of rows that pass a test.
use postulate.Base.{
  length, ◌+◌, ◌≤◌, ◌≡◌, refl, Bool, true, false, not, ◌&&◌, none, some, List, [], ◌∷◌, find,
  delete, update, count, All, arith, Bool-cases, inl, inr,
}

module _ {ℓ} {A : Type ℓ} where
  pub count-find : (p : A → Bool) (xs : List A) → find p xs ≡ none → count p xs ≡ 0
  unfolding find count
  count-find p [] h = refl
  count-find p (x ∷ xs) h = ground (arith, count-find p xs)

  pub find-count : (p : A → Bool) (xs : List A) → count p xs ≡ 0 → find p xs ≡ none
  unfolding find count
  find-count p [] h = refl
  find-count p (x ∷ xs) h = ground (arith, find-count p xs)

  pub count-delete-le : (p q : A → Bool) (xs : List A) → count p (delete q xs) ≤ count p xs
  unfolding delete count
  count-delete-le p q [] = omega arith
  count-delete-le p q (x ∷ xs) = ground (arith, count-delete-le p q xs)

  pub length-delete : (q : A → Bool) (xs : List A) → length (delete q xs) + count q xs ≡ length xs
  unfolding delete count
  length-delete q [] = omega arith
  length-delete q (x ∷ xs) = ground (arith, length-delete q xs)

  -- The only row that passes `p` goes with it.
  pub find-delete_only :
      (p q : A → Bool) (xs : List A) (a : A)
      → find p xs ≡ some a
      → q a ≡ true
      → count p xs ≤ 1
      → find p (delete q xs) ≡ none
  unfolding find delete count
  find-delete_only p q [] a h e n = refl
  find-delete_only p q (x ∷ xs) a h e n = ground (
    arith,
    find-delete_only p q xs a,
    find-count p xs,
    find-count p (delete q xs),
    count-delete-le p q xs,
  )

  pub find-delete_kept :
      (p q : A → Bool) (xs : List A) (a : A)
      → find p xs ≡ some a
      → q a ≡ false
      → find p (delete q xs) ≡ some a
  unfolding find delete
  find-delete_kept p q [] a h e = h
  find-delete_kept p q (x ∷ xs) a h e = ground (arith, find-delete_kept p q xs a)

  pub find-delete-none :
      (p q : A → Bool) (xs : List A) → find p xs ≡ none → find p (delete q xs) ≡ none
  unfolding find delete
  find-delete-none p q [] h = refl
  find-delete-none p q (x ∷ xs) h = ground (arith, find-delete-none p q xs)

  pub count-update :
      (p q : A → Bool) (f : A → A) (xs : List A)
      → ((x : A) → p (f x) ≡ p x)
      → count p (update q f xs) ≡ count p xs
  unfolding update count
  count-update p q f [] h = refl
  count-update p q f (x ∷ xs) h = ground (arith, count-update p q f xs h, h x)

  -- An update may make every row that it touches pass `p`, and no other.
  pub count-update-le :
      (p q : A → Bool) (f : A → A) (xs : List A)
      → count p (update q f xs) ≤ count (λ x. p x && not (q x)) xs + count q xs
  unfolding update count
  count-update-le p q f [] = omega arith
  count-update-le p q f (x ∷ xs) = ground (arith, count-update-le p q f xs)

  pub count-update_out :
      (p q : A → Bool) (f : A → A) (xs : List A)
      → ((x : A) → p (f x) ≡ false)
      → count p (update q f xs) ≤ count p xs
  unfolding update count
  count-update_out p q f [] h = omega arith
  count-update_out p q f (x ∷ xs) h = ground (arith, count-update_out p q f xs h, h x)

  module _ {κ} (P : A → Type κ) where
    pub All-delete : (q : A → Bool) (xs : List A) → All P xs → All P (delete q xs)
    unfolding delete
    All-delete q [] h = tt
    All-delete q (x ∷ xs) h = ground (arith, All-delete q xs h.1, h.0)

    pub All-update :
        (q : A → Bool) (f : A → A) (xs : List A)
        → ((x : A) → P x → P (f x))
        → All P xs
        → All P (update q f xs)
    unfolding update
    All-update q f [] k h = tt
    All-update q f (x ∷ xs) k h = (
      elim (Bool-cases (q x)) [ inl e ↦ rw e (k x h.0) | inr e ↦ rw e h.0 ],
      All-update q f xs k h.1,
    )

  pub All-mono {κ μ} :
      (P : A → Type κ) (Q : A → Type μ) (xs : List A) → ((x : A) → P x → Q x) → All P xs → All Q xs
  All-mono P Q [] k h = tt
  All-mono P Q (x ∷ xs) k h = (k x h.0, All-mono P Q xs k h.1)
