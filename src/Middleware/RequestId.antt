-- ===== src/Middleware/RequestId.antt =====
-- middleware/requestid.go: an id for every request.
pub mod Safe
use Prim.Native.Char.{code}
use postulate.Base.{
  ℕ, zero, suc, String, Bool, true, false, ◌&&◌, ◌||◌, not, Option, none, some, List, [], ◌∷◌, ◌++◌,
  leb, ◌==◌, nat_Eq, if◌then◌else◌,
}
use postulate.Auth.ProviderUser.{Context}
use postulate.Http.{Request}

abbrev between : ℕ → ℕ → ℕ → Bool
between lo hi c = leb lo c && leb c hi

-- [0-9A-HJKMNP-TV-Z], [0-9a-f] and a dash
abbrev pub is_ulid_char : ℕ → Bool
is_ulid_char c =
    between b'0' b'9' c
    || between b'A' b'H' c
    || c == b'J'
    || c == b'K'
    || c == b'M'
    || c == b'N'
    || between b'P' b'T' c
    || between b'V' b'Z' c

abbrev pub is_hex_char : ℕ → Bool
is_hex_char c = between b'0' b'9' c || between b'a' b'f' c

abbrev pub is_dash : ℕ → Bool
is_dash c = c == b'-'

abbrev pub times : ℕ → (ℕ → Bool) → List (ℕ → Bool)
times zero p = []
times (suc n) p = p ∷ times n p

-- The two sides of the regular expression, one class for each character.
abbrev pub ulid_pattern : List (ℕ → Bool)
ulid_pattern = times 26 is_ulid_char

abbrev pub uuid_pattern : List (ℕ → Bool)
uuid_pattern =
    times 8 is_hex_char
    ++ (is_dash
        ∷ (times 4 is_hex_char
            ++ (is_dash
                ∷ (times 4 is_hex_char
                    ++ (is_dash ∷ (times 4 is_hex_char ++ (is_dash ∷ times 12 is_hex_char)))))))

-- A whole text against one class for each character.
unfoldable pub fits : List (ℕ → Bool) → String → Bool
fits [] String.[] = true
fits [] (String.◌∷◌ c s) = false
fits (p ∷ ps) String.[] = false
fits (p ∷ ps) (String.◌∷◌ c s) = p (code c) && fits ps s

-- validRequestID.MatchString
unfoldable pub valid_request_id : String → Bool
valid_request_id s = fits ulid_pattern s || fits uuid_pattern s

-- ContextWithRequestID
abbrev pub context_with_request_id : Context → String → Context
context_with_request_id ctx id = record ctx { request_id = some id }

-- The id that RequestID picks; `fresh` is the text of ulid.Make().
unfoldable pub picked_id : String → Request → String
picked_id fresh r =
    if not (valid_request_id r.request_id_header) then fresh else r.request_id_header

abbrev pub with_request_id : Request → String → Request
with_request_id r id = record r { context = context_with_request_id r.context id }

-- RequestID: the X-Request-ID header of the answer, and what the next handler answers.
unfoldable pub request_id :
    {S A : Type 0} → String → (Request → S → A × S) → Request → S → (String × A) × S
unfolding picked_id
request_id fresh next r s =
    let id = picked_id fresh r in
    let (answer, s') = next (with_request_id r id) s in ((id, answer), s')
