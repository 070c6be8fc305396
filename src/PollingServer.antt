-- ===== src/PollingServer.antt =====
-- pollingserver.cpp over Polling.cpp: a server that counts how often each text was sent to it, and
-- answers with the count. What it asks of the system is a log, oldest first; the results of the
-- system calls are arguments. The `int` counts are assumed not to overflow.
pub mod Counts
pub mod Order
pub mod Dialogue
pub mod Service
pub mod Polling
use netframe.Base.{
  ℕ, zero, suc, ◌+◌, ◌%◌, ◌^◌, Bool, true, false, not, ◌&&◌, ◌||◌, List, [], ◌∷◌, ◌++◌, Option,
  none, some, bit_and, ◌==◌, if◌then◌else◌,
}
use netframe.Epoll

-- Comparison of two `std::string`.
unfoldable pub eq_bytes : List ℕ → List ℕ → Bool
eq_bytes [] [] = true
eq_bytes [] (y ∷ ys) = false
eq_bytes (x ∷ xs) [] = false
eq_bytes (x ∷ xs) (y ∷ ys) = (x == y) && eq_bytes xs ys

-- `std::map<std::string, int>`; a key that is missing reads as `none`.
unfoldable pub lookup : List ℕ → List (List ℕ × ℕ) → Option ℕ
lookup k [] = none
lookup k ((j, v) ∷ m) = if eq_bytes j k then some v else lookup k m

unfoldable pub without : List ℕ → List (List ℕ × ℕ) → List (List ℕ × ℕ)
without text [] = []
without text ((j, v) ∷ m) = if eq_bytes j text then without text m else (j, v) ∷ without text m

-- The entry of the text is replaced; the order of the list carries no meaning.
unfoldable pub insert : List ℕ → ℕ → List (List ℕ × ℕ) → List (List ℕ × ℕ)
insert text n counts = (text, n) ∷ without text counts

abbrev pub or_zero : Option ℕ → ℕ
or_zero none = 0
or_zero (some n) = n

pub data Act : Type 0 where
  add_fd : ℕ → ℕ → Act
  mod_fd : ℕ → ℕ → Act
  remove_fd : ℕ → Act
  set_nonblocking : ℕ → Act
  close_fd : ℕ → Act
  wrote : ℕ → List ℕ → Act
  start_record end_record : Act

pub record Server : Type 0 where
  pub key : List ℕ
  pub service_key : List (List ℕ × ℕ)
  pub has_send_data : Bool
  pub time_check : ℕ
  pub write_cnt : ℕ
  pub log : List Act

abbrev pub does : Server → List Act → Server
does s acts = record s { log = s.log ++ acts }

-- A `char*` taken as a text: up to the first zero byte.
unfoldable pub c_string : List ℕ → List ℕ
c_string [] = []
c_string (x ∷ xs) = if x == 0 then [] else x ∷ c_string xs

-- EAGAIN, which is EWOULDBLOCK.
abbrev pub again : ℕ
again = 11

-- The result of `read` or `write`: bytes or a count, the errno of -1, or any other negative value.
pub data Read : Type 0 where
  got : List ℕ → Read
  failed : ℕ → Read
  below : Read

pub data Write : Type 0 where
  count : ℕ → Write
  failed : ℕ → Write
  below : Write

-- `m_handleListenFd`.
abbrev pub handle_listen_fd : Server → ℕ → Server
handle_listen_fd s connfd =
    does (record s { time_check = 0 }) (add_fd connfd Epoll.in_event ∷ set_nonblocking connfd ∷ [])

abbrev pub drop_fd : Server → ℕ → Server
drop_fd s sockfd = does s (remove_fd sockfd ∷ close_fd sockfd ∷ [])

-- One more for a key that has been seen, one for a new key.
abbrev pub bump : Option ℕ → ℕ
bump none = 1
bump (some n) = n + 1

-- What `m_handleReadfd` returns: the `int` is 1, 0, or -n.
pub data Code : Type 0 where
  one naught : Code
  minus : ℕ → Code

-- `m_handleReadfd`. The buffer is zeroed, and one byte longer than what is read into it. A
-- `read` gives at most 9 bytes; here it may give any number.
unfoldable pub handle_read_fd : Server → ℕ → Read → Code × Server
handle_read_fd s sockfd (got []) = (naught, s)
handle_read_fd s sockfd (got (x ∷ xs)) =
    let key = c_string (x ∷ xs) in
    (
      one,
      does
          (record s {
            key = key;
            service_key = insert key (bump (lookup key s.service_key)) s.service_key;
            has_send_data = true;
          })
          (mod_fd sockfd Epoll.out ∷ []),
    )
handle_read_fd s sockfd (Read.failed errno) =
    if errno == again then (minus 1, s) else (minus 2, drop_fd s sockfd)
handle_read_fd s sockfd Read.below = (minus 3, drop_fd s sockfd)

-- `m_serviceKey[m_key]`: a key that is missing is put in, with zero.
abbrev pub subscript : Server → Server
subscript s = record s {
  service_key = insert s.key (or_zero (lookup s.key s.service_key)) s.service_key;
}

-- The clock around the writes: started at the first, and read out at every 100000th.
abbrev pub timing : ℕ → List Act
timing write_cnt =
    (if write_cnt == 0 then start_record ∷ [] else [])
    ++ (if write_cnt % 100000 == 0 then end_record ∷ start_record ∷ [] else [])

abbrev pub time_writes : Server → Server
time_writes s = record s {
  log = s.log ++ timing s.write_cnt;
  write_cnt = (s.write_cnt + 1) % 2 ^ 32;
  has_send_data = false;
}

-- `m_handleSendFd`; `print` is `std::ostream << int`.
unfoldable pub handle_send_fd : (ℕ → List ℕ) → Server → ℕ → Write → Code × Server
handle_send_fd print s sockfd w =
    let v = print (or_zero (lookup s.key s.service_key)) in
    let s' = time_writes (does (subscript s) (wrote sockfd v ∷ [])) in
    elim w [
      | Write.count zero ↦ (minus 3, drop_fd s' sockfd)
      | Write.count (suc n) ↦ (one, does s' (mod_fd sockfd Epoll.in_event ∷ []))
      | Write.failed errno ↦ if errno == again then (minus 1, s') else (minus 2, drop_fd s' sockfd)
      | Write.below ↦ (minus 3, drop_fd s' sockfd)
    ]

-- An event of `epoll_wait`, with what the system calls of its handler will return.
pub record Event : Type 0 where
  pub fd : ℕ
  pub events : ℕ
  pub accepted : ℕ
  pub reading : Read
  pub writing : Write

-- `CanRead` and `CanWrite`.
abbrev pub can_read : Event → Bool
can_read e = not (bit_and e.events Epoll.in_event == 0)

abbrev pub can_write : Event → Bool
can_write e = not (bit_and e.events Epoll.out == 0)

-- A return of zero takes the descriptor off the list.
abbrev pub after_read : ℕ → Code × Server → Server
after_read fd (naught, s) = does s (remove_fd fd ∷ [])
after_read fd (one, s) = s
after_read fd (minus n, s) = s

-- One round of the loop of `LtModel`.
unfoldable pub lt_event : (ℕ → List ℕ) → ℕ → Server → Event → Server
lt_event print listenfd s e =
    if e.fd == listenfd
    then handle_listen_fd s e.accepted
    else if can_read e
    then after_read e.fd (handle_read_fd s e.fd e.reading)
    else if can_write e
    then (handle_send_fd print s e.fd e.writing).1
    else s

unfoldable pub lt_model : (ℕ → List ℕ) → ℕ → Server → List Event → Server
lt_model print listenfd s [] = s
lt_model print listenfd s (e ∷ es) = lt_model print listenfd (lt_event print listenfd s e) es
