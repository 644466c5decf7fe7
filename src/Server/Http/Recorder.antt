-- ===== src/Server/Http/Recorder.antt =====
-- internal/server/http.go: the recorder that the reverse proxy writes a response through, as an
-- object with its calls, and what it reports in the end. Bodies and connections are counted by the
-- bytes that the writer below takes.
use zerock.Prelude.{ℕ, ◌+◌, ◌≡◌, Bool, true, false, ◌||◌, List, [], ◌∷◌, ◌++◌, arith, if◌then◌else◌}

pub record Recorder : Type 0 where
  pub status : ℕ
  pub written : ℕ
  pub wrote_header : Bool
  -- The codes that the real writer was given.
  pub sent : List ℕ

-- As `proxyHTTP` makes it.
abbrev pub new_recorder : Recorder
new_recorder = record { status = 200; written = 0; wrote_header = false; sent = [] }

unfoldable pub write_header : ℕ → Recorder → Recorder
write_header code rec =
    if rec.wrote_header
    then rec
    else record rec { wrote_header = true; status = code; sent = rec.sent ++ code ∷ [] }

-- The real writer takes `n` bytes of the body.
unfoldable pub write : ℕ → Recorder → Recorder
unfolding write_header
write n rec =
    let rec' = if rec.wrote_header then rec else write_header 200 rec in
    record rec' { written = rec'.written + n }

-- Whether the connection is handed over; an error changes nothing.
unfoldable pub hijack : Bool → Recorder → Recorder
hijack taken rec = if taken then record rec { wrote_header = true; status = 101 } else rec

-- `countingConn.Write`
unfoldable pub write_conn : ℕ → Recorder → Recorder
write_conn n rec = record rec { written = rec.written + n }

pub data Call : Type 0 where
  write_header_call write_call write_conn_call : ℕ → Call
  hijack_call : Bool → Call
  flush_call : Call

unfoldable pub apply_call : Call → Recorder → Recorder
unfolding write_header write hijack write_conn
apply_call (write_header_call code) rec = write_header code rec
apply_call (write_call n) rec = write n rec
apply_call (write_conn_call n) rec = write_conn n rec
apply_call (hijack_call taken) rec = hijack taken rec
apply_call flush_call rec = rec

unfoldable pub run_calls : List Call → Recorder → Recorder
run_calls [] rec = rec
run_calls (c ∷ cs) rec = run_calls cs (apply_call c rec)

-- What the calls amount to, read off them without a recorder: the bytes of all writes, whether
-- the connection was handed over, and the first code that was sent.
unfoldable pub total : List Call → ℕ
total [] = 0
total (write_header_call code ∷ cs) = total cs
total (write_call n ∷ cs) = n + total cs
total (write_conn_call n ∷ cs) = n + total cs
total (hijack_call taken ∷ cs) = total cs
total (flush_call ∷ cs) = total cs

unfoldable pub upgraded : List Call → Bool
upgraded [] = false
upgraded (write_header_call code ∷ cs) = upgraded cs
upgraded (write_call n ∷ cs) = upgraded cs
upgraded (write_conn_call n ∷ cs) = upgraded cs
upgraded (hijack_call taken ∷ cs) = taken || upgraded cs
upgraded (flush_call ∷ cs) = upgraded cs

unfoldable pub first_code : List Call → List ℕ
first_code [] = []
first_code (write_header_call code ∷ cs) = code ∷ []
first_code (write_call n ∷ cs) = 200 ∷ []
first_code (write_conn_call n ∷ cs) = first_code cs
first_code (hijack_call true ∷ cs) = []
first_code (hijack_call false ∷ cs) = first_code cs
first_code (flush_call ∷ cs) = first_code cs

abbrev pub code_or_200 : List ℕ → ℕ
code_or_200 [] = 200
code_or_200 (c ∷ cs) = c

-- Once a header was written only the upgrade changes the status.
run_written :
    (cs : List Call) (rec : Recorder)
    → rec.wrote_header ≡ true
    → ((run_calls cs rec).status ≡ (if upgraded cs then 101 else rec.status))
      × ((run_calls cs rec).written ≡ rec.written + total cs)
      × ((run_calls cs rec).sent ≡ rec.sent)
unfolding run_calls apply_call total upgraded
run_written [] rec h = ground arith
run_written (write_header_call code ∷ cs) rec h =
    ground (arith, run_written cs (apply_call (write_header_call code) rec))
run_written (write_call n ∷ cs) rec h =
    ground (arith, run_written cs (apply_call (write_call n) rec))
run_written (write_conn_call n ∷ cs) rec h =
    ground (arith, run_written cs (apply_call (write_conn_call n) rec))
run_written (hijack_call true ∷ cs) rec h =
    ground (arith, run_written cs (apply_call (hijack_call true) rec))
run_written (hijack_call false ∷ cs) rec h = ground (arith, run_written cs rec)
run_written (flush_call ∷ cs) rec h = ground (arith, run_written cs rec)

run_unwritten :
    (cs : List Call) (n : ℕ)
    → ((run_calls cs (record new_recorder { written = n })).status
        ≡ (if upgraded cs then 101 else code_or_200 (first_code cs)))
      × ((run_calls cs (record new_recorder { written = n })).written ≡ n + total cs)
      × ((run_calls cs (record new_recorder { written = n })).sent ≡ first_code cs)
unfolding run_calls apply_call total upgraded first_code
run_unwritten [] n = ground arith
run_unwritten (write_header_call code ∷ cs) n = ground (
  arith,
  run_written cs (apply_call (write_header_call code) (record new_recorder { written = n })),
)
run_unwritten (write_call m ∷ cs) n =
    ground (arith, run_written cs (apply_call (write_call m) (record new_recorder { written = n })))
run_unwritten (write_conn_call m ∷ cs) n = ground (arith, run_unwritten cs (n + m))
run_unwritten (hijack_call true ∷ cs) n =
    ground
      (arith, run_written cs (apply_call (hijack_call true) (record new_recorder { written = n })))
run_unwritten (hijack_call false ∷ cs) n = run_unwritten cs n
run_unwritten (flush_call ∷ cs) n = run_unwritten cs n

-- However the proxy calls it, the recorder refines the plain reading of the calls: the status is
-- 101 if the connection was ever handed over and else the first code, explicit or that of a body,
-- or 200; the bytes are those of all writes, upgraded ones included; and the real writer is given
-- one code at most, the first.
pub run_calls_refines :
    (cs : List Call)
    → ((run_calls cs new_recorder).status
        ≡ (if upgraded cs then 101 else code_or_200 (first_code cs)))
      × ((run_calls cs new_recorder).written ≡ total cs)
      × ((run_calls cs new_recorder).sent ≡ first_code cs)
run_calls_refines cs = let (a, b, c) = run_unwritten cs 0 in (a, omega (arith, b), c)
