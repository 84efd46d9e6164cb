-- ===== src/RateLimit/Exact.antt =====
-- The limiter is a sliding window: it decides by the requests that it has admitted within the last window.
use edufurthersf_be.Prelude.{
  ℕ, ◌≤◌, ◌≡◌, refl, sym, inl, inr, Bool, true, false, List, [], ◌∷◌, ◌++◌, length, keep, leb, ltb,
  if◌then◌else◌, Bool-cases, arith,
}
use edufurthersf_be.Prelude.Text.{Text, text_eq, text_eq_refl, eq_of_text_eq}
use edufurthersf_be.RateLimit.{
  Bucket, InMemoryRateLimiter, new_limiter, evict_expired, bucket_of, with_bucket, admit, allow,
}
use edufurthersf_be.RateLimit.Buckets.{
  is_recent, Agrees, Agrees-unless_idle, Agrees-later, Agrees-kept, Agrees-added, trimmed-recent,
}

pub record Request : Type 0 where
  pub key : Text
  pub limit : ℕ
  pub now : ℕ

-- The time of each request that was admitted, for each key.
abbrev pub Log : Type 0
Log = Text → List ℕ

-- The clock does not go back.
abbrev pub IsOrdered : ℕ → List Request → Type 0
IsOrdered t [] = Unit
IsOrdered t (r ∷ rs) = (t ≤ r.now) × IsOrdered r.now rs

module _ (window : ℕ) where
  -- A request is admitted exactly if fewer than its limit were admitted within the window before it.
  abbrev pub admits : Log → Request → Bool
  admits log r = ltb (length (keep (is_recent window r.now) (log r.key))) r.limit

  abbrev pub logged : Log → Request → Log
  logged log r k =
      if text_eq r.key k then (if admits log r then log k ++ r.now ∷ [] else log k) else log k

  abbrev pub specified : Log → List Request → List Bool
  specified log [] = []
  specified log (r ∷ rs) = admits log r ∷ specified (logged log r) rs

  abbrev pub answers : InMemoryRateLimiter → List Request → List Bool
  answers s [] = []
  answers s (r ∷ rs) = let done = allow r.key r.limit window r.now s in done.0 ∷ answers done.1 rs

  -- The state of a limiter that has admitted what the log says.
  abbrev pub Follows : ℕ → InMemoryRateLimiter → Log → Type 0
  Follows now s log = (key : Text) → Agrees window now (bucket_of key s) (log key)

  Follows-evict :
      (now : ℕ) (s : InMemoryRateLimiter) (log : Log)
      → Follows now s log
      → Follows now (evict_expired window now s) log
  unfolding evict_expired
  Follows-evict now s log h = elim (Bool-cases (ltb now s.next_sweep)) [
    | inl e ↦ rw e h
    | inr e ↦ rw e (λ key. Agrees-unless_idle window now (s.requests key) (log key) (h key))
  ]

  -- One answer is the specified one, and what is left follows the log with it.
  abbrev pub Answers : Request → Log → Bool × InMemoryRateLimiter → Type 0
  Answers r log done = (done.0 ≡ admits log r) × Follows r.now done.1 (logged log r)

  put-Follows :
      (r : Request) (s : InMemoryRateLimiter) (log after : Log) (bucket : Bucket)
      → Follows r.now s log
      → Agrees window r.now bucket (after r.key)
      → ((key : Text) → text_eq r.key key ≡ false → after key ≡ log key)
      → Follows r.now (with_bucket r.key bucket s) after
  put-Follows r s log after bucket h k others key = elim (Bool-cases (text_eq r.key key)) [
    | inl e ↦ rw (e, sym (eq_of_text_eq r.key key e)) k
    | inr e ↦ rw (e, others key e) (h key)
  ]

  admit-Answers :
      (r : Request) (s : InMemoryRateLimiter) (log : Log) (bucket : Bucket)
      → Follows r.now s log
      → Agrees window r.now bucket (log r.key)
      → bucket ≡ keep (is_recent window r.now) (log r.key)
      → Answers r log (admit r.key r.limit r.now bucket s)
  admit-Answers r s log bucket h k same = elim (Bool-cases (leb r.limit (length bucket))) [
    | inl e ↦
        let refused : admits log r ≡ false = rw (sym same) (ground arith) in
        rw e (
          sym refused,
          put-Follows r s log (logged log r) bucket h (rw (text_eq_refl r.key, refused) k)
              (λ key f. rw f refl),
        )
    | inr e ↦
        let admitted : admits log r ≡ true = rw (sym same) (ground arith) in
        rw e (
          sym admitted,
          put-Follows r s log (logged log r) (bucket ++ r.now ∷ []) h
              (rw (text_eq_refl r.key, admitted) (Agrees-added window r.now bucket (log r.key) k))
              (λ key f. rw f refl),
        )
  ]

  allow-Answers :
      (r : Request) (s : InMemoryRateLimiter) (log : Log)
      → Follows r.now s log
      → Answers r log (allow r.key r.limit window r.now s)
  unfolding allow
  allow-Answers r s log h =
      let swept = Follows-evict r.now s log h in
      let here = swept r.key in
      let bucket = bucket_of r.key (evict_expired window r.now s) in
      rw (trimmed-recent window r.now bucket here.up_to) (
        admit-Answers r (evict_expired window r.now s) log (keep (is_recent window r.now) bucket)
          swept (Agrees-kept window r.now bucket (log r.key) here) here.recent)

  answers_from :
      (t : ℕ) (s : InMemoryRateLimiter) (log : Log) (rs : List Request)
      → IsOrdered t rs
      → Follows t s log
      → answers s rs ≡ specified log rs
  answers_from t s log [] o h = refl
  answers_from t s log (r ∷ rs) o h =
      let step =
        allow-Answers r s log
          (λ key. Agrees-later window t r.now (bucket_of key s) (log key) o.0 (h key)) in
      let rest =
        answers_from r.now (allow r.key r.limit window r.now s).1 (logged log r) rs o.1 step.1 in
      rw (step.0, rest) refl

  -- Whatever requests follow each other, of any keys and limits and under one window, if the clock does not go
  -- back, a new limiter answers each as a sliding window would that never forgets a request: admitted exactly if
  -- fewer than the limit were admitted for the key less than a window ago. The sweeps change no answer.
  pub limiter_exact :
      (rs : List Request) → IsOrdered 0 rs → answers new_limiter rs ≡ specified (λ key. []) rs
  limiter_exact rs o =
      answers_from 0 new_limiter (λ key. []) rs o (λ key. record { up_to = tt; recent = refl })
