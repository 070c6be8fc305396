-- ===== src/PollingServer/Service/Line.antt =====
-- `m_getCurrentTime` and the 50 bytes that it writes into.
use netframe.Base.{
  ℕ, ◌+◌, ◌≤◌, ◌<◌, ◌≡◌, ◌⊎◌, inl, inr, Bool-cases, refl, ◌∙◌, List, [], ◌∷◌, length, take, arith,
  ok, err, out_of_bounds, leb, lt→leb, length-take,
}
use netframe.Buffer.{copy_to}
use netframe.Buffer.Contents.{overwrite, copy_to_lem, length-overwrite}
use netframe.PollingServer.Service.{Service, get_current_time}

copy_to_beyond :
    (bytes : List ℕ) (at : ℕ) (xs : List ℕ)
    → length bytes < at + length xs
    → copy_to bytes at xs ≡ err out_of_bounds
unfolding copy_to
copy_to_beyond bytes at xs h = rw (lt→leb _ _ h)

-- On the array of 50 bytes, with at least 24 characters from `ctime`, `m_getCurrentTime` writes
-- inside the array exactly if the text has at most 24 bytes, and keeps the array's length; with a
-- longer text it writes beyond the array.
pub get_current_time_bounds :
    (s : Service) (str_time id : List ℕ)
    → length s.log_buf ≡ 50
    → 24 ≤ length str_time
    → ((length id ≤ 24)
        × ((t : Service) × (get_current_time s str_time id ≡ ok t) × (length t.log_buf ≡ 50)))
      ⊎ ((24 < length id) × (get_current_time s str_time id ≡ err out_of_bounds))
unfolding get_current_time
get_current_time_bounds s str_time id e h = elim (Bool-cases (leb (length id) 24)) [
  | inl fits ↦
      let len : length id ≤ 24 = ground arith in
      inl (
        len,
        (
          record s { log_buf = overwrite b₃ (25 + length id) (10 ∷ []) },
          rw
              (
                p₁,
                p₂,
                p₃ (omega (arith, len)),
                copy_to_lem b₃ (25 + length id) (10 ∷ [])
                    (omega (arith, len, e₃ (omega (arith, len)))),
              )
              refl,
          length-overwrite b₃ (25 + length id) (10 ∷ [])
                (omega (arith, len, e₃ (omega (arith, len))))
              ∙ e₃ (omega (arith, len)),
        ),
      )
  | inr long ↦
      let len : 24 < length id = ground arith in
      inr (
        len,
        elim (Bool-cases (leb (length id) 25)) [
          | inl just ↦
              let k : length id ≤ 25 = ground arith in
              rw
                (
                  p₁,
                  p₂,
                  p₃ k,
                  copy_to_beyond b₃ (25 + length id) (10 ∷ []) (omega (arith, len, e₃ k)),
                )
                refl
          | inr more ↦
              let k : 25 < length id = ground arith in
              rw (p₁, p₂, copy_to_beyond b₂ 25 id (omega (arith, k, e₂))) refl
        ],
      )
]
  where
    b₁ : List ℕ
    b₁ = overwrite s.log_buf 0 (take 24 str_time)

    b₂ : List ℕ
    b₂ = overwrite b₁ 24 (b' ' ∷ [])

    b₃ : List ℕ
    b₃ = overwrite b₂ 25 id

    head : length (take 24 str_time) ≡ 24
    head = omega (arith, h, length-take 24 str_time)

    e₁ : length b₁ ≡ 50
    e₁ = length-overwrite s.log_buf 0 (take 24 str_time) (omega (arith, e, head)) ∙ e

    e₂ : length b₂ ≡ 50
    e₂ = length-overwrite b₁ 24 (b' ' ∷ []) (omega (arith, e₁)) ∙ e₁

    e₃ : length id ≤ 25 → length b₃ ≡ 50
    e₃ k = length-overwrite b₂ 25 id (omega (arith, e₂)) ∙ e₂

    p₁ : copy_to s.log_buf 0 (take 24 str_time) ≡ ok b₁
    p₁ = copy_to_lem s.log_buf 0 (take 24 str_time) (omega (arith, e, head))

    p₂ : copy_to b₁ 24 (b' ' ∷ []) ≡ ok b₂
    p₂ = copy_to_lem b₁ 24 (b' ' ∷ []) (omega (arith, e₁))

    p₃ : length id ≤ 25 → copy_to b₂ 25 id ≡ ok b₃
    p₃ k = copy_to_lem b₂ 25 id (omega (arith, e₂, k))
