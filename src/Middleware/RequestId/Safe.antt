-- ===== src/Middleware/RequestId/Safe.antt =====
-- What an id that RequestID lets through looks like.
use Prim.Native.Char.{code}
use postulate.Base.{
  ap, ◌≢◌, eq_iff, ℕ, zero, suc, ◌≡◌, ◌⊎◌, inl, inr, refl, String, Bool, true, List, [], ◌∷◌, ◌++◌,
  ◌||◌, ◌&&◌, leb, length, All, Bool-cases, arith, ◌==◌, nat_Eq,
}
use postulate.Http.{Request, Problem, write_problem}
use postulate.Middleware.RequestId.{
  is_ulid_char, is_hex_char, is_dash, ulid_pattern, uuid_pattern, times, fits, valid_request_id,
  picked_id, request_id,
}

-- The code points of a text.
abbrev pub codes : String → List ℕ
codes String.[] = []
codes (String.◌∷◌ c s) = code c ∷ codes s

-- Letters of ASCII, digits and the dash.
abbrev pub is_plain : ℕ → Bool
is_plain c =
    (leb b'0' c && leb c b'9')
    || (leb b'A' c && leb c b'Z')
    || (leb b'a' c && leb c b'z')
    || c == b'-'

abbrev pub IsPlain : String → Type 0
IsPlain s = All (λ c. is_plain c ≡ true) (codes s)

-- A class that has plain characters only.
abbrev Covers : (ℕ → Bool) → Type 0
Covers p = (c : ℕ) → p c ≡ true → is_plain c ≡ true

fits-length : (ps : List (ℕ → Bool)) (s : String) → fits ps s ≡ true → length (codes s) ≡ length ps
unfolding fits
fits-length [] String.[] h = refl
fits-length [] (String.◌∷◌ c s) h = absurd (ground arith)
fits-length (p ∷ ps) String.[] h = absurd (ground arith)
fits-length (p ∷ ps) (String.◌∷◌ c s) h = ground (arith, fits-length ps s)

fits-IsPlain : (ps : List (ℕ → Bool)) (s : String) → All Covers ps → fits ps s ≡ true → IsPlain s
unfolding fits
fits-IsPlain [] String.[] k h = tt
fits-IsPlain [] (String.◌∷◌ c s) k h = absurd (ground arith)
fits-IsPlain (p ∷ ps) String.[] k h = absurd (ground arith)
fits-IsPlain (p ∷ ps) (String.◌∷◌ c s) (here, rest) h =
    (ground (arith, here (code c)), fits-IsPlain ps s rest (ground arith))

ulid-Covers : Covers is_ulid_char
ulid-Covers c h = ground arith

hex-Covers : Covers is_hex_char
hex-Covers c h = ground arith

dash-Covers : Covers is_dash
dash-Covers c h = ground arith

times-Covers : (n : ℕ) (p : ℕ → Bool) → Covers p → All Covers (times n p)
times-Covers zero p h = tt
times-Covers (suc n) p h = (h, times-Covers n p h)

append-Covers : (ps qs : List (ℕ → Bool)) → All Covers ps → All Covers qs → All Covers (ps ++ qs)
append-Covers [] qs h k = k
append-Covers (p ∷ ps) qs (here, rest) k = (here, append-Covers ps qs rest k)

-- What follows the first, the second and the third group of digits.
abbrev groups₃ : List (ℕ → Bool)
groups₃ = is_dash ∷ (times 4 is_hex_char ++ (is_dash ∷ times 12 is_hex_char))

abbrev groups₂ : List (ℕ → Bool)
groups₂ = is_dash ∷ (times 4 is_hex_char ++ groups₃)

abbrev groups₁ : List (ℕ → Bool)
groups₁ = is_dash ∷ (times 4 is_hex_char ++ groups₂)

uuid-Covers : All Covers uuid_pattern
uuid-Covers =
    let group : All Covers (times 4 is_hex_char) = times-Covers 4 is_hex_char hex-Covers in
    let last : All Covers (is_dash ∷ times 12 is_hex_char) =
      (dash-Covers, times-Covers 12 is_hex_char hex-Covers) in
    append-Covers (times 8 is_hex_char) groups₁ (times-Covers 8 is_hex_char hex-Covers) (
      dash-Covers,
      append-Covers (times 4 is_hex_char) groups₂ group (
        dash-Covers,
        append-Covers (times 4 is_hex_char) groups₃ group (
          dash-Covers,
          append-Covers (times 4 is_hex_char) (is_dash ∷ times 12 is_hex_char) group last,
        ),
      ),
    )

valid-IsPlain :
    (s : String)
    → valid_request_id s ≡ true
    → IsPlain s × ((length (codes s) ≡ 26) ⊎ (length (codes s) ≡ 36))
unfolding valid_request_id
valid-IsPlain s h = elim (Bool-cases (fits ulid_pattern s)) [
  | inl ulid ↦ (
    fits-IsPlain ulid_pattern s (times-Covers 26 is_ulid_char ulid-Covers) ulid,
    inl (fits-length ulid_pattern s ulid),
  )
  | inr other ↦
      let uuid : fits uuid_pattern s ≡ true = ground arith in
      (fits-IsPlain uuid_pattern s uuid-Covers uuid, inr (fits-length uuid_pattern s uuid))
]

valid-ne-empty : (s : String) → valid_request_id s ≡ true → s ≢ ""
unfolding valid_request_id fits
valid-ne-empty s h e = ground (arith, ap valid_request_id e)

picked-valid :
    (fresh : String) (r : Request)
    → valid_request_id fresh ≡ true
    → valid_request_id (picked_id fresh r) ≡ true
unfolding picked_id
picked-valid fresh r h = ground arith

-- Whatever header a request brings, the id that is put into the answer's header consists of ASCII
-- letters, digits and dashes and is 26 or 36 characters long, as long as the new ids are valid, and
-- it is the id of every problem that the handler behind reports with no id of its own.
pub request_id_safe :
    {S : Type 0} (fresh : String) (p : Problem) (r : Request) (s : S)
    → valid_request_id fresh ≡ true
    → p.request_id ≡ ""
    → let answer = request_id fresh (λ seen (s' : S). (write_problem seen p, s')) r s in
      IsPlain answer.0.0
      × ((length (codes answer.0.0) ≡ 26) ⊎ (length (codes answer.0.0) ≡ 36))
      × (answer.0.1 ≡ write_problem r (record p { request_id = answer.0.0 }))
unfolding request_id write_problem
request_id_safe fresh p r s h none_yet =
    let id = picked_id fresh r in
    let good = picked-valid fresh r h in
    let (plain, long) = valid-IsPlain id good in
    (plain, long, ground (arith, valid-ne-empty id good, eq_iff id "", eq_iff p.request_id ""))
