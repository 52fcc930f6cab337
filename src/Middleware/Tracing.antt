-- ===== src/Middleware/Tracing.antt =====
-- middleware/tracing.go: the name of a request's span, which is all that the program adds to otelhttp.
use Prim.Native.String.{◌++◌}
use postulate.Base.{String, not, ◌==◌, text_Eq, if◌then◌else◌}
use postulate.Http.{Request}

-- The formatter of Tracing; `pattern` is the pattern of the route that chi has matched, or empty.
abbrev pub span_name : String → Request → String
span_name pattern r =
    if not (pattern == "") then r.method ++ (" " ++ pattern) else r.method ++ (" " ++ r.path)
