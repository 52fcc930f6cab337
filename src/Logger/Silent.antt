-- ===== src/Logger/Silent.antt =====
-- What the logs tell of the values of sensitive keys.
use postulate.Base.{ℕ, ◌≡◌, refl, String, true, false, Option, arith}
use postulate.Logger.{
  Value, group, Attrs, end, attr, LogRecord, Handler, is_sensitive, redact, handle, with_attrs,
}

module _ (lower : ℕ → ℕ) where
  -- The same keys in the same order, with the same values but for sensitive keys.
  pub data AgreesWith : Attrs → Attrs → Type 0 where
    done : AgreesWith end end
    secret :
        (k : String) (v w : Value) {rest rest' : Attrs}
        → is_sensitive lower k ≡ true
        → AgreesWith rest rest'
        → AgreesWith (attr k v rest) (attr k w rest')
    shown :
        (k : String) (v : Value) {rest rest' : Attrs}
        → AgreesWith rest rest'
        → AgreesWith (attr k v rest) (attr k v rest')

  redact-AgreesWith : {a b : Attrs} → AgreesWith a b → redact lower a ≡ redact lower b
  unfolding redact
  redact-AgreesWith done = refl
  redact-AgreesWith (secret k v w s h) = ground (arith, redact-AgreesWith h)
  redact-AgreesWith (shown k v h) = ground (arith, redact-AgreesWith h)

  -- Logs do not depend on the values of sensitive keys among the outermost attributes, neither those
  -- of the record nor those that the logger was given last: with others in their place the inner
  -- handler gets the same.
  pub handle-AgreesWith :
      (span : Option (String × String)) (r : LogRecord) (h : Handler) (a b own own' : Attrs)
      → AgreesWith a b
      → AgreesWith own own'
      → handle lower span (record r { attrs = a }) (with_attrs lower own h)
        ≡ handle lower span (record r { attrs = b }) (with_attrs lower own' h)
  unfolding handle with_attrs
  handle-AgreesWith span r h a b own own' same given =
      rw (redact-AgreesWith same, redact-AgreesWith given) refl

  -- But only the keys of the outermost attributes are looked at: what is logged under a key that is
  -- not sensitive shows a group whole, the values of sensitive keys in it included.
  pub group_shown :
      (span : Option (String × String)) (r : LogRecord) (h : Handler) (k : String)
      (inner inner' rest : Attrs)
      → is_sensitive lower k ≡ false
      → handle lower span (record r { attrs = attr k (group inner) rest }) h
        ≡ handle lower span (record r { attrs = attr k (group inner') rest }) h
      → inner ≡ inner'
  unfolding handle redact
  group_shown span r h k inner inner' rest plain same = ground arith
