-- ===== src/Cli/Callback/Ports.antt =====
-- Which port the listener takes.
use postulate.Base.{ℕ, zero, suc, ◌+◌, ◌≡◌, refl, Bool, none, some, List, [], ◌∷◌, find, arith}
use postulate.Base.Result.{ok, err, message}
use postulate.Cli.Callback.{port_range_start, port_range_end, scan_ports, new_server, new}

-- The numbers from `from` on, `count` of them.
unfoldable pub range : ℕ → ℕ → List ℕ
range zero from = []
range (suc count) from = from ∷ range count (from + 1)

scan_ports-find :
    (count port : ℕ) (listens : ℕ → Bool)
    → count + port ≡ port_range_end + 1
    → scan_ports (suc count) port listens ≡ find listens (range count port)
unfolding scan_ports find range
scan_ports-find zero port listens h = ground arith
scan_ports-find (suc count) port listens h =
    ground (arith, scan_ports-find count (port + 1) listens)

-- New takes the first of the hundred ports from 18000 to 18099 that can be listened on, and fails
-- exactly if none can; its loop always ends within its rounds.
pub new-find :
    (listens : ℕ → Bool)
    → new listens ≡ elim (find listens (range 100 port_range_start)) [
      | none ↦ err (message "no available port in range 18000–18099")
      | some port ↦ ok (new_server port)
    ]
unfolding new
new-find listens = rw (scan_ports-find 100 port_range_start listens refl, new) refl
