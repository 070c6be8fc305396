-- ===== src/TimeStamp/Reports.antt =====
-- What a time stamp reports.
use netframe.Base.{
  ℕ, ◌-◌, ◌≤◌, ◌≡◌, refl, sym, ap, ◌∙◌, List, [], ◌∷◌, ◌++◌, append_assoc, append-nil, arith,
}
use netframe.TimeStamp.{TimeStamp, micros, start_record, end_record, get_time}

-- A call of the time stamp with the clock's reading.
pub data Call : Type 0 where
  starts ends : ℕ × ℕ → Call

unfoldable pub run : TimeStamp → List Call → TimeStamp
run t [] = t
run t (starts now ∷ cs) = run (start_record t now) cs
run t (ends now ∷ cs) = run (end_record t now) cs

-- The time since the last start, at each end.
abbrev pub spans : ℕ → List Call → List ℕ
spans from [] = []
spans from (starts now ∷ cs) = spans (micros now) cs
spans from (ends now ∷ cs) = (micros now - from) ∷ spans from cs

-- The clock does not go back behind the last start.
abbrev pub Forward : ℕ → List Call → Type 0
Forward from [] = Unit
Forward from (starts now ∷ cs) = Forward (micros now) cs
Forward from (ends now ∷ cs) = (from ≤ micros now) × Forward from cs

-- On a time stamp whose sum is zero, as the constructor leaves it, with a clock that does not go
-- back: each `EndRecord` prints exactly the time since the last `StartRecord`, and `GetTime`
-- returns zero after any calls: nothing is ever added up.
pub run-spans :
    (t : TimeStamp) (cs : List Call)
    → t.interval ≡ 0
    → Forward t.start cs
    → ((run t cs).printed ≡ t.printed ++ spans t.start cs) × (get_time (run t cs) ≡ 0)
unfolding run start_record end_record
run-spans t [] z h = (sym (append-nil _), z)
run-spans t (starts now ∷ cs) z h = run-spans (start_record t now) cs z h
run-spans t (ends now ∷ cs) z h =
    let (reports, none') = run-spans (end_record t now) cs refl h.1 in
    (
      reports
          ∙ append_assoc t.printed _ (spans t.start cs)
          ∙ ap (λ n. t.printed ++ (n ∷ spans t.start cs)) (omega (arith, z, h.0)),
      none',
    )
