-- ===== src/Api/Metrics/Codes.antt =====
-- The keys of the status counts are read back by `GetMetrics`.
use sprawler.Common.{
  ℕ, zero, suc, ◌+◌, ◌<◌, ◌≡◌, refl, Bool, true, false, Option, some, [], ◌∷◌, ◌==◌, if◌then◌else◌,
  arith, eq_iff, total,
}
use sprawler.Common.Int.{ℤ, pos, negsuc}
use sprawler.Common.Text.{itoa, itoa_on, atoi}
use sprawler.Api.Metrics.Defs.{AtomicMetrics, numeric_codes, get_metrics, record_status_code}
use sprawler.Common.Dict.{Dict, add_at}

-- A status is read back from its key.
abbrev comes_back : ℕ → Option ℤ → Bool
comes_back status (some (pos read)) = read == status
comes_back status _ = false

comes_back→eq :
    (status : ℕ) (read : Option ℤ) → comes_back status read ≡ true → read ≡ some (pos status)
comes_back→eq status read h = ground arith

-- The least of `left` numbers from `from` on that is not read back decides.
come_back : ℕ → ℕ → Bool
come_back from zero = true
come_back from (suc left) =
    let later = come_back (from + 1) left in
    if comes_back from (atoi (itoa from)) then later else false

codes_table : come_back 0 1000 ≡ true
unfolding come_back atoi itoa_on
codes_table = refl

in_table :
    (from left d n : ℕ)
    → come_back from left ≡ true
    → d < left
    → n ≡ from + d
    → atoi (itoa n) ≡ some (pos n)
unfolding come_back
in_table from zero d n h lt e = absurd (omega arith)
in_table from (suc left) zero n h lt e = ground (arith, comes_back→eq from (atoi (itoa from)))
in_table from (suc left) (suc d) n h lt e = ground (arith, in_table (from + 1) left d n)

-- The key under which a status is counted is read back as that status, for every status of at most
-- three digits.
pub atoi-itoa : (n : ℕ) → n < 1000 → atoi (itoa n) ≡ some (pos n)
atoi-itoa n h = in_table 0 1000 n n codes_table h (omega arith)

abbrev pub count_for : ℕ → ℤ × ℕ → ℕ
count_for n (pos m, count) = if m == n then count else 0
count_for n (negsuc m, count) = 0

reported-add_at :
    (n c : ℕ) (d : Dict ℕ)
    → c < 1000
    → total (count_for n) (numeric_codes (add_at (itoa c) 1 d))
      ≡ total (count_for n) (numeric_codes d) + (if c == n then 1 else 0)
unfolding numeric_codes add_at
reported-add_at n c [] h = ground (arith, atoi-itoa c h)
reported-add_at n c ((key, count) ∷ d) h =
    ground (arith, atoi-itoa c h, reported-add_at n c d h, eq_iff key (itoa c))

-- A status of at most three digits that a hook records is reported by `GetMetrics` once more than
-- before under its number, and every other number as often as before.
pub get_metrics-record :
    (retries n c : ℕ) (m : AtomicMetrics)
    → c < 1000
    → total (count_for n) (get_metrics retries (record_status_code c m)).status_codes
      ≡ total (count_for n) (get_metrics retries m).status_codes + (if c == n then 1 else 0)
unfolding get_metrics record_status_code
get_metrics-record retries n c m h = reported-add_at n c m.status_codes h
