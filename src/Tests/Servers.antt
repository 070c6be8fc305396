-- ===== src/Tests/Servers.antt =====
-- TcpServer.cpp and pollingserver.cpp on short histories.
use netframe.Base.{ℕ, zero, suc, ◌+◌, ◌≡◌, refl, true, false, List, [], ◌∷◌, ◌++◌, some, inl, ok}
use netframe.TcpServer.{TcpServer, listen, established, destroyed, construct, destruct}
use netframe.TcpServer.History
use netframe.TcpServer.History.{launch-planned}
use netframe.TcpServer.Registry.{Event as Change, accepted, closed, run, destruct_nothing}
use netframe.PollingServer.{
  Server, Act, got, Write, Event, c_string, eq_bytes, lookup, handle_read_fd, handle_send_fd,
  lt_model, wrote,
}
use netframe.PollingServer.Counts.{count_of, reply_of_other}
use mathlib.Core.List.Perm
use netframe.PollingServer.Order.{table, table-lt_model}
use netframe.PollingServer.Dialogue.{Turn, dialogue, written, written-lt_model}

-- A text for a number: as many marks as the number says.
abbrev marks : ℕ → List ℕ
marks zero = []
marks (suc n) = 49 ∷ marks n

-- Listens on "h:1".
abbrev server : TcpServer
server = construct 1 (104 ∷ 58 ∷ 49 ∷ []) (110 ∷ [])

abbrev history : List Change
history = accepted 5 ∷ accepted 6 ∷ closed (record { name = 58 ∷ []; loop = 1; sockfd = 5 }) ∷ []

destruct_nothing_example : (t : TcpServer) × (run marks server history ≡ ok t) × (destruct t ≡ [])
destruct_nothing_example = destruct_nothing marks server history (inl refl) refl

-- Two threads; the second start comes when the acceptor listens.
abbrev opening : List History.Event
opening =
    History.accepts 5
    ∷ History.starts (λ j. j) true true
    ∷ History.accepts 6
    ∷ History.closes (record { name = 58 ∷ []; loop = 20; sockfd = 5 })
    ∷ History.accepts 7
    ∷ []

launch-planned_example :
    History.launch marks server (some 2) (λ j. 20 + j) false opening
    ≡ ok (
        listen
        ∷ established (record { name = 58 ∷ 104 ∷ 58 ∷ 49 ∷ 35 ∷ marks 1; loop = 20; sockfd = 5 })
        ∷ established (record { name = 58 ∷ 104 ∷ 58 ∷ 49 ∷ 35 ∷ marks 2; loop = 21; sockfd = 6 })
        ∷ destroyed (record { name = 58 ∷ []; loop = 20; sockfd = 5 })
        ∷ established (record { name = 58 ∷ 104 ∷ 58 ∷ 49 ∷ 35 ∷ marks 3; loop = 20; sockfd = 7 })
        ∷ [])
launch-planned_example =
    launch-planned marks (104 ∷ 58 ∷ 49 ∷ []) 1 2 (λ j. 20 + j) (110 ∷ []) false opening

abbrev counting : Server
counting = record {
  key = [];
  service_key = [];
  has_send_data = false;
  time_check = 0;
  write_cnt = 0;
  log = [];
}

-- The text "a" arrives on descriptor 5.
abbrev sends_a : Event
sends_a = record {
  fd = 5;
  events = 1;
  accepted = 0;
  reading = got (97 ∷ []);
  writing = Write.below;
}

-- "a" from descriptor 5, "b" from descriptor 6, and the answer to 5.
reply_of_other_example :
    let s₁ = (handle_read_fd counting 5 (got (97 ∷ []))).1 in
    let s₂ = (handle_read_fd s₁ 6 (got (98 ∷ []))).1 in
    (rest : List Act) × ((handle_send_fd marks s₂ 5 (Write.count 1)).1.log
      ≡ s₂.log ++ (wrote 5 (marks (count_of s₂ (c_string (98 ∷ [])))) ∷ rest))
reply_of_other_example = reply_of_other marks counting 5 6 97 98 0 [] []

abbrev sends_b : Event
sends_b = record sends_a { fd = 6; reading = got (98 ∷ []) }

table-lt_model_example :
    table (lt_model marks 4 counting (sends_a ∷ sends_b ∷ []))
    ≡ table (lt_model marks 4 counting (sends_b ∷ sends_a ∷ []))
table-lt_model_example =
    table-lt_model marks 4 counting counting (sends_a ∷ sends_b ∷ []) (sends_b ∷ sends_a ∷ []) refl
      (Perm.swap sends_b sends_a [])

-- "a" from descriptor 5, "b" from 6, and "a" from 6.
abbrev turns : List Turn
turns =
    record { fd = 5; first = 97; rest = []; taken = 0 }
    ∷ record { fd = 6; first = 98; rest = []; taken = 0 }
    ∷ record { fd = 6; first = 97; rest = []; taken = 0 }
    ∷ []

written-lt_model_example :
    written (lt_model marks 4 counting (dialogue turns)).log
    ≡ (5, marks 1) ∷ (6, marks 1) ∷ (6, marks 2) ∷ []
unfolding lookup eq_bytes c_string
written-lt_model_example = written-lt_model marks 4 counting turns (refl, (refl, (refl, tt)))
