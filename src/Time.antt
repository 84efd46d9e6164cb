-- ===== src/Time.antt =====
-- Instants and lengths of time, in microseconds. An instant is aware and stands for a moment in
-- UTC, counted from one day before 0001-01-01T00:00Z, the least value of `datetime` less a day, so
-- that every offset from UTC keeps it a natural number.
use edufurthersf_be.Prelude.{ℕ, ◌*◌}

abbrev pub Instant : Type 0
Instant = ℕ

abbrev pub seconds : ℕ → ℕ
seconds n = n * 1000000

abbrev pub hours : ℕ → ℕ
hours n = seconds (n * 3600)

abbrev pub days : ℕ → ℕ
days n = seconds (n * 86400)
