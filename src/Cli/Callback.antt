-- ===== src/Cli/Callback.antt =====
-- cli/internal/callback/callback.go: the local listener that takes the redirect of a login. The
-- goroutines are events, which come in any order; a handler and a send are one step each.
pub mod Ports
pub mod Delivery
pub mod RoundTrip
use Prim.Native.String.{◌++◌ as join}
use postulate.Base.{
  ℕ, zero, suc, ◌+◌, String, Bool, true, false, ◌&&◌, not, Option, none, some, List, [], ◌∷◌, leb,
  ◌==◌, text_Eq, if◌then◌else◌,
}
use postulate.Base.Result.{Error, Result, ok, err, message}
use postulate.Http.{query_get}

abbrev pub port_range_start : ℕ
port_range_start = 18000

abbrev pub port_range_end : ℕ
port_range_end = 18099

-- callback.Result
pub record CallbackResult : Type 0 where
  pub token : String
  pub refresh_token : String
  pub expires_at : String
  pub role : String
  pub error : Option Error

-- callback.Server: `result` is the channel with room for one, and `taken` what the caller received
-- from it first; `stopping` is whether a Shutdown is under way, `serving` whether connections are
-- taken, and `ended` whether the context is done.
pub record Server : Type 0 where
  pub port : ℕ
  pub result : Option CallbackResult
  pub taken : Option CallbackResult
  pub serving : Bool
  pub stopping : Bool
  pub ended : Bool

-- The loop of New, from `port` on. `listens` says on which ports net.Listen succeeds.
unfoldable pub scan_ports : ℕ → ℕ → (ℕ → Bool) → Option ℕ
scan_ports zero port listens = none
scan_ports (suc fuel) port listens =
    let rest = scan_ports fuel (port + 1) listens in
    if leb port port_range_end then (if listens port then some port else rest) else none

-- More rounds than there are ports: the loop always ends by its test.
abbrev pub rounds : ℕ
rounds = 101

abbrev pub new_server : ℕ → Server
new_server port = record {
  port = port;
  result = none;
  taken = none;
  serving = false;
  stopping = false;
  ended = false;
}

-- New
unfoldable pub new : (ℕ → Bool) → Result Server
new listens = elim (scan_ports rounds port_range_start listens) [
  | none ↦ err (message "no available port in range 18000–18099")
  | some port ↦ ok (new_server port)
]

-- RedirectURI; `show` writes a number in decimals.
abbrev pub redirect_uri : (ℕ → String) → Server → String
redirect_uri show s = join "http://127.0.0.1:" (join (show s.port) "/callback")

-- Start
abbrev pub start : Server → Server
start s = record s { serving = true }

-- `select { case s.result <- res: default: }`
unfoldable pub offer : CallbackResult → Server → Server
offer res s = elim s.result [ none ↦ record s { result = some res } | some first ↦ s ]

abbrev pub timeout_result : CallbackResult
timeout_result = record {
  token = "";
  refresh_token = "";
  expires_at = "";
  role = "";
  error = some (message "login timed out — no callback received");
}

-- The result that handleCallback reads from a query.
unfoldable pub result_of : List (String × String) → CallbackResult
result_of q =
    let token = query_get "token" q in
    record {
      token = token;
      refresh_token = query_get "refresh_token" q;
      expires_at = query_get "expires_at" q;
      role = query_get "role" q;
      error = if token == "" then some (message "callback missing token parameter") else none;
    }

-- handleCallback: the status of the answer, and the server with its Shutdown under way.
unfoldable pub handle_callback : List (String × String) → Server → ℕ × Server
unfolding offer result_of
handle_callback q s = (
  elim (result_of q).error [ some e ↦ 400 | none ↦ 200 ],
  record (offer (result_of q) s) { stopping = true },
)

-- The caller receives what is in the channel, and so makes room for another result.
unfoldable pub take : Server → Server
take s = elim s.result [
  | none ↦ s
  | some res ↦ record s {
    result = none;
    taken = elim s.taken [ none ↦ some res | some first ↦ some first ];
  }
]

-- A callback that comes in, the end of the context, a Shutdown that is done, the send that follows it
-- in the goroutine that waits for the context, and a receipt by the caller.
pub data Event : Type 0 where
  callback_comes : List (String × String) → Event
  context_ends shutdown_ends timeout_is_sent result_is_taken : Event

unfoldable pub step : Event → Server → Server
unfolding handle_callback take
step (callback_comes q) s = if s.serving then (handle_callback q s).1 else s
step context_ends s = record s { ended = true; stopping = true }
step shutdown_ends s = if s.stopping then record s { serving = false } else s
step timeout_is_sent s = if s.ended && not s.serving then offer timeout_result s else s
step result_is_taken s = take s

-- The first result that the caller gets: the one that was received, or else the one in the channel.
abbrev pub first_result : Server → Option CallbackResult
first_result s = elim s.taken [ some r ↦ some r | none ↦ s.result ]

unfoldable pub run : List Event → Server → Server
run [] s = s
run (e ∷ es) s = run es (step e s)
