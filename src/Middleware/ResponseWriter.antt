-- ===== src/Middleware/ResponseWriter.antt =====
-- middleware/responsewriter.go: the recorder between a handler and net/http.
use postulate.Base.{
  ℕ, ◌+◌, ◌≡◌, refl, Bool, true, false, ◌&&◌, ◌||◌, not, List, [], ◌∷◌, leb, ◌==◌, nat_Eq,
  if◌then◌else◌, arith,
}

-- What a handler does to its writer: it sets a status, or writes, of which the writer below takes so
-- many bytes.
pub data WriterCall : Type 0 where
  write_header write : ℕ → WriterCall

pub record StatusRecorder : Type 0 where
  pub status : ℕ
  pub bytes : ℕ

-- newStatusRecorder
abbrev pub new_status_recorder : StatusRecorder
new_status_recorder = record { status = 200; bytes = 0 }

-- WriteHeader and Write, on the recorder's own fields.
unfoldable pub record_call : WriterCall → StatusRecorder → StatusRecorder
record_call (write_header status) r = record r { status = status }
record_call (write n) r = record r { bytes = r.bytes + n }

unfoldable pub record_calls : List WriterCall → StatusRecorder → StatusRecorder
record_calls [] r = r
record_calls (c ∷ cs) r = record_calls cs (record_call c r)

-- net/http: the first final status is sent, a write with none before it sends 200, as does a handler
-- that does neither; later ones are ignored. A status 1xx but 101 is not final.
abbrev pub is_final : ℕ → Bool
is_final status = status == 101 || not (leb 100 status && leb status 199)

unfoldable pub sent_status : List WriterCall → ℕ
sent_status [] = 200
sent_status (write_header status ∷ cs) =
    let rest = sent_status cs in if is_final status then status else rest
sent_status (write n ∷ cs) = 200

abbrev pub bytes_of : WriterCall → ℕ
bytes_of (write_header status) = 0
bytes_of (write n) = n

unfoldable pub sent_bytes : List WriterCall → ℕ
sent_bytes [] = 0
sent_bytes (c ∷ cs) = bytes_of c + sent_bytes cs

-- No status is set after the first final one or the first write.
unfoldable pub writes_only : List WriterCall → Bool
writes_only [] = true
writes_only (write_header status ∷ cs) = false
writes_only (write n ∷ cs) = writes_only cs

unfoldable pub sets_once : List WriterCall → Bool
unfolding writes_only
sets_once [] = true
sets_once (write_header status ∷ cs) = is_final status && writes_only cs
sets_once (write n ∷ cs) = writes_only cs

writes_only-record :
    (cs : List WriterCall) (r : StatusRecorder)
    → writes_only cs ≡ true
    → record_calls cs r ≡ record r { bytes = r.bytes + sent_bytes cs }
unfolding writes_only record_calls record_call sent_bytes
writes_only-record [] r h = ground arith
writes_only-record (write_header status ∷ cs) r h = absurd (ground arith)
writes_only-record (write n ∷ cs) r h =
    ground (arith, writes_only-record cs (record r { bytes = r.bytes + n }))

-- For a handler that sets a status once at most, to a final one and before it writes, the recorder
-- ends with the status and the count of bytes that the client gets.
pub recorder-sent :
    (cs : List WriterCall)
    → sets_once cs ≡ true
    → record_calls cs new_status_recorder
      ≡ record { status = sent_status cs; bytes = sent_bytes cs }
unfolding sets_once record_calls record_call sent_status sent_bytes
recorder-sent [] h = refl
recorder-sent (write_header status ∷ cs) h =
    ground (arith, writes_only-record cs (record { status = status; bytes = 0 }))
recorder-sent (write n ∷ cs) h =
    ground (arith, writes_only-record cs (record { status = 200; bytes = n }))
