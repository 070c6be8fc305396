-- ===== src/Tests/Services.antt =====
-- The loop of pollingserver.cpp, and its line of text, on short histories.
use netframe.Base.{
  ◌≤◌, ◌<◌, ◌≡◌, ◌⊎◌, refl, true, false, List, [], ◌∷◌, some, length, replicate, ok, err,
  out_of_bounds, arith,
}
use netframe.PollingServer.{Event, Read, got, Write, eq_bytes, lookup, c_string}
use netframe.PollingServer.Counts.{count_of}
use netframe.PollingServer.Service.{Service, Wake, woken, Opened, init, get_current_time}
use netframe.PollingServer.Service
use netframe.PollingServer.Service.Run.{run-served}
use netframe.PollingServer.Service.Closes.{closes, closes-run}
use netframe.PollingServer.Service.Line.{get_current_time_bounds}

-- Set up, with 50 bytes for the line.
abbrev ready : Service
ready = init (Service.construct (replicate 50 0)) (110 ∷ []) (104 ∷ []) 80

-- The text "a" arrives on descriptor 5.
abbrev sends_a : Event
sends_a = record {
  fd = 5;
  events = 1;
  accepted = 0;
  reading = got (97 ∷ []);
  writing = Write.below;
}

-- Another thread releases the service while the second text is counted; the third is not.
abbrev wakes : List Wake
wakes =
    woken (some (sends_a ∷ [])) false
    ∷ woken (some (sends_a ∷ [])) true
    ∷ woken (some (sends_a ∷ [])) false
    ∷ []

run-served_example :
    (t : Service) × (Service.run
        (λ n. n ∷ [])
        ready
        (some (record { listenfd = 4; bound = true; listening = true }))
        wakes
      ≡ ok (true, t))
    × (count_of t.server (97 ∷ []) ≡ 2)
unfolding lookup eq_bytes c_string
run-served_example = run-served (λ n. n ∷ []) 4 (97 ∷ []) ready wakes refl

-- On descriptor 5 a `read` gives nothing, then one fails with ECONNRESET, on descriptor 6.
abbrev leaves : Event
leaves = record sends_a { reading = got [] }

abbrev breaks : Event
breaks = record sends_a { fd = 6; reading = Read.failed 104 }

closes-run_example :
    (t : Service) × (Service.run
        (λ n. n ∷ [])
        ready
        (some (record { listenfd = 4; bound = true; listening = true }))
        (woken (some (leaves ∷ breaks ∷ [])) true ∷ [])
      ≡ ok (true, t))
    × (closes 5 t.server.log ≡ 0)
closes-run_example =
    closes-run (λ n. n ∷ []) 4 5 ready (woken (some (leaves ∷ breaks ∷ [])) true ∷ []) refl

get_current_time_bounds_example :
    ((3 ≤ 24)
      × ((t : Service) × (get_current_time ready (replicate 26 65) (1 ∷ 2 ∷ 3 ∷ []) ≡ ok t)
          × (length t.log_buf ≡ 50)))
    ⊎ ((24 < 3) × (get_current_time ready (replicate 26 65) (1 ∷ 2 ∷ 3 ∷ []) ≡ err out_of_bounds))
get_current_time_bounds_example =
    get_current_time_bounds ready (replicate 26 65) (1 ∷ 2 ∷ 3 ∷ []) refl (omega arith)
