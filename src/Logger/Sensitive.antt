-- ===== src/Logger/Sensitive.antt =====
-- Which keys are redacted.
use postulate.Base.{
  ap, ◌∙◌, find, some, inl, inr, Bool-cases, eq_iff, text_Eq, ℕ, ◌≡◌, refl, String, true, List, [],
  ◌∷◌, ◌++◌, map, arith, nat_eq_refl, ◌==◌, nat_Eq,
}
use postulate.Logger.{
  codes, starts_with, contains, any_pattern, is_sensitive, sensitive_key_patterns,
}

starts_with-append : (p s : List ℕ) → starts_with p (p ++ s) ≡ true
unfolding starts_with
starts_with-append [] s = refl
starts_with-append (c ∷ p) s = ground (arith, starts_with-append p s, nat_eq_refl c)

contains-append : (before p after : List ℕ) → contains p (before ++ (p ++ after)) ≡ true
unfolding contains
contains-append [] [] [] = refl
contains-append [] [] (c ∷ after) = refl
contains-append [] (c ∷ p) after = ground (arith, starts_with-append (c ∷ p) after)
contains-append (b ∷ before) p after = ground (arith, contains-append before p after)

any_pattern-found :
    (ps : List String) (p : String) (s : List ℕ)
    → find (λ q. q == p) ps ≡ some p
    → contains (codes p) s ≡ true
    → any_pattern ps s ≡ true
unfolding any_pattern find
any_pattern-found [] p s h c = absurd (ground arith)
any_pattern-found (q ∷ ps) p s h c = elim (Bool-cases (q == p)) [
  | inl here ↦
      let same : q ≡ p = (eq_iff q p).0 here in
      let hit : contains (codes q) s ≡ true = ap (λ t. contains (codes t) s) same ∙ c in
      ground arith
  | inr other ↦ ground (arith, any_pattern-found ps p s)
]

-- A key is sensitive if one of the patterns stands anywhere in it, in capital or small letters.
pub found-is_sensitive :
    (lower : ℕ → ℕ) (key p : String) (before after : List ℕ)
    → find (λ q. q == p) sensitive_key_patterns ≡ some p
    → map lower (codes key) ≡ before ++ (codes p ++ after)
    → is_sensitive lower key ≡ true
unfolding is_sensitive
found-is_sensitive lower key p before after listed spelt =
    any_pattern-found sensitive_key_patterns p (map lower (codes key)) listed
      (ap (contains (codes p)) spelt ∙ contains-append before (codes p) after)
