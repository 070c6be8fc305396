-- ===== src/TimeStamp.antt =====
-- timestamp.h: the time between two calls. A `long long` is its bit pattern, below 2 ^ 64; what is
-- printed is a log, oldest first. The clock's readings are arguments.
pub mod Reports
use netframe.Base.{ℕ, ◌+◌, ◌-◌, ◌*◌, ◌%◌, ◌^◌, List, [], ◌∷◌, ◌++◌}

-- `m_time` has no initial value, which is the argument of the constructor.
pub record TimeStamp : Type 0 where
  pub time : ℕ
  pub name : List ℕ
  pub start : ℕ
  pub end : ℕ
  pub interval : ℕ
  pub printed : List ℕ

abbrev pub construct : ℕ → List ℕ → TimeStamp
construct garbage name = record {
  time = garbage;
  name = name;
  start = 0;
  end = 0;
  interval = 0;
  printed = [];
}

-- `gettimeofday`, in microseconds.
abbrev pub micros : ℕ × ℕ → ℕ
micros (sec, usec) = (sec * 1000000 + usec) % 2 ^ 64

unfoldable pub start_record : TimeStamp → ℕ × ℕ → TimeStamp
start_record t now = record t { start = micros now }

-- The count and the sum are reset each time, since the test on the count is commented out.
unfoldable pub end_record : TimeStamp → ℕ × ℕ → TimeStamp
end_record t now =
    let last = micros now in
    let sum = (t.interval + (last + 2 ^ 64 - t.start)) % 2 ^ 64 in
    record t { time = 0; end = last; interval = 0; printed = t.printed ++ (sum ∷ []) }

abbrev pub get_time : TimeStamp → ℕ
get_time t = t.interval
