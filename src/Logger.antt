-- ===== src/Logger.antt =====
-- api/internal/logger: the handler that redacts, and the logger that main makes. A text is the list of
-- its code points; `lower` is unicode.ToLower.
pub mod Sensitive
pub mod Silent
use Prim.Native.Char.{code}
use postulate.Base.{
  ℕ, leb, String, Bool, true, false, ◌&&◌, ◌||◌, Option, none, some, List, [], ◌∷◌, ◌++◌, map, ◌==◌,
  text_Eq, nat_Eq, if◌then◌else◌,
}
use postulate.Config.{ObservabilityConfig}

abbrev pub codes : String → List ℕ
codes String.[] = []
codes (String.◌∷◌ c s) = code c ∷ codes s

-- strings.HasPrefix and strings.Contains
unfoldable pub starts_with : List ℕ → List ℕ → Bool
starts_with [] s = true
starts_with (p ∷ ps) [] = false
starts_with (p ∷ ps) (c ∷ s) = p == c && starts_with ps s

unfoldable pub contains : List ℕ → List ℕ → Bool
unfolding starts_with
contains p [] = starts_with p []
contains p (c ∷ s) = starts_with p (c ∷ s) || contains p s

-- sensitiveKeyPatterns
abbrev pub sensitive_key_patterns : List String
sensitive_key_patterns =
    "password" ∷ "token" ∷ "secret" ∷ "key" ∷ "credential" ∷ "authorization" ∷ []

unfoldable pub any_pattern : List String → List ℕ → Bool
any_pattern [] s = false
any_pattern (p ∷ ps) s = contains (codes p) s || any_pattern ps s

-- isSensitive
unfoldable pub is_sensitive : (ℕ → ℕ) → String → Bool
is_sensitive lower key = any_pattern sensitive_key_patterns (map lower (codes key))

-- slog.Attr, with the values that matter here: a text, a number, or a group of attributes.
mutual
  pub data Value : Type 0 where
    text : String → Value
    number : ℕ → Value
    group : Attrs → Value

  pub data Attrs : Type 0 where
    end : Attrs
    attr : String → Value → Attrs → Attrs

-- slog.Record
pub record LogRecord : Type 0 where
  pub time : ℕ
  pub level : ℕ
  pub message : String
  pub attrs : Attrs

-- What a handler is given between its making and a record: attributes, or a group that is open from
-- then on.
pub data Given : Type 0 where
  given_attrs : Attrs → Given
  opens_group : String → Given

-- The otelHandler: the lowest level that its inner handler takes, and what that has been given.
pub record Handler : Type 0 where
  pub min_level : ℕ
  pub given : List Given

-- What the inner handler makes its output of: what it was given, and a record with no time.
pub record Logged : Type 0 where
  pub own : List Given
  pub level : ℕ
  pub message : String
  pub attrs : Attrs

-- The ids of the span in the context, if it has a valid one: extractSpanIDs.
abbrev pub extract_span_ids : Option (String × String) → String × String
extract_span_ids none = ("", "")
extract_span_ids (some ids) = ids

-- The loops over attributes of Handle and WithAttrs: only the key of an attribute is looked at.
unfoldable pub redact : (ℕ → ℕ) → Attrs → Attrs
redact lower end = end
redact lower (attr k v rest) =
    attr k (if is_sensitive lower k then text "[redacted]" else v) (redact lower rest)

-- Handle
unfoldable pub handle : (ℕ → ℕ) → Option (String × String) → LogRecord → Handler → Logged
unfolding redact
handle lower span r h =
    let (trace_id, span_id) = extract_span_ids span in
    record {
      own = h.given;
      level = r.level;
      message = r.message;
      attrs =
          attr "timestamp" (number r.time)
            (attr "traceId" (text trace_id) (attr "spanId" (text span_id) (redact lower r.attrs)));
    }

-- WithAttrs
unfoldable pub with_attrs : (ℕ → ℕ) → Attrs → Handler → Handler
unfolding redact
with_attrs lower attrs h = record h { given = h.given ++ (given_attrs (redact lower attrs) ∷ []) }

-- WithGroup
abbrev pub with_group : String → Handler → Handler
with_group name h = record h { given = h.given ++ (opens_group name ∷ []) }

-- Enabled
abbrev pub enabled : ℕ → Handler → Bool
enabled level h = leb h.min_level level

-- The levels of slog, less four, so that none is negative.
abbrev pub level_debug : ℕ
level_debug = 0

abbrev pub level_info : ℕ
level_info = 4

abbrev pub level_warn : ℕ
level_warn = 8

abbrev pub level_error : ℕ
level_error = 12

-- parseLevel; `plain` is strings.ToLower after strings.TrimSpace.
unfoldable pub parse_level : (String → String) → String → ℕ
parse_level plain s =
    let name = plain s in
    if name == "debug"
    then level_debug
    else if name == "warn" || name == "warning"
    then level_warn
    else if name == "error"
    then level_error
    else level_info

-- The logger: whether it writes JSON, and its handler.
pub record Logger : Type 0 where
  pub is_json : Bool
  pub handler : Handler

-- The instance id: the host's name stands in for an empty one, if there is one.
unfoldable pub instance_id_of : Option String → String → String
instance_id_of hostname given =
    if given == "" then elim hostname [ none ↦ given | some h ↦ h ] else given

-- The default attributes.
abbrev pub with_ids : (ℕ → ℕ) → Option String → ObservabilityConfig → Handler → Handler
with_ids lower hostname cfg inner =
    with_attrs lower
      (attr "serviceId" (text cfg.service_id)
        (attr "instanceId" (text (instance_id_of hostname cfg.instance_id)) end))
      inner

-- NewWithHandler: the handler that it puts around the given one.
unfoldable pub new_with_handler : (ℕ → ℕ) → Option String → Handler → ObservabilityConfig → Handler
unfolding with_attrs
new_with_handler lower hostname inner cfg = with_ids lower hostname cfg inner

-- NewWithWriter, and New, which writes to the standard output.
unfoldable pub new :
    (ℕ → ℕ) → (String → String) → Option String → ObservabilityConfig → String → Logger
unfolding with_attrs parse_level
new lower plain hostname cfg environment = record {
  is_json = environment == "production" || environment == "staging";
  handler =
      with_ids lower hostname cfg
        (record { min_level = parse_level plain cfg.log_level; given = [] });
}
