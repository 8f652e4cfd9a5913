-- ===== src/Tests/Leases.antt =====
-- Tests of the retry delays and of the leases.
use hotelops_ai.Prelude.{
  ℕ, ◌↔◌, ◌+◌, ℕ, ◌≤◌, ◌≡◌, refl, Bool, true, false, none, some, List, [], ◌∷◌, ok, arith, length,
  ◌⊎◌, All,
}
use hotelops_ai.Prelude.Int.{pos}
use hotelops_ai.Prelude.Sets.{member, IsDistinct}
use hotelops_ai.Reliability.Backoff.{
  compute_backoff_delay, delay_for, compute_backoff_delay-bounded, IsFraction,
}
use hotelops_ai.Reliability.Leases.{
  Row, get_row, ids, is_due, claim_next, processing, chosen, due_rows, by_time,
}
use hotelops_ai.Reliability.Leases.History.{marks_done, run, run_all, IsLater, run-IsLater}
use hotelops_ai.Reliability.Leases.Claims.{claim_next-exclusive}
use hotelops_ai.Reliability.Leases.Recovery.{abandoned, claim_next-oldest_first}

forty : compute_backoff_delay 40 10 300 (pos 100000) (λ delay. delay + 30) ≡ ok 300
unfolding compute_backoff_delay delay_for
forty = refl

compute_backoff_delay-bounded_example :
    ((delay : ℕ) × (compute_backoff_delay 40 10 300 (pos 100000) (λ delay. delay + 30) ≡ ok delay)
      × (delay ≤ 300))
    ↔ ((1 ≤ 40) × (10 ≤ 300) × IsFraction (pos 100000))
compute_backoff_delay-bounded_example =
    compute_backoff_delay-bounded 40 10 300 (pos 100000) (λ delay. delay + 30)

abbrev none_locked : ℕ → Bool
none_locked i = false

-- A row that was claimed until 50 by a worker that stopped.
abbrev stopped : Row ℕ
stopped = record {
  row_id = 7;
  status = processing;
  attempts = 1;
  available_at = 0;
  claimed_by = some 1;
  claimed_until = some 50;
  last_error = none;
  content = 3;
}

abbrev rows : List (Row ℕ)
rows = stopped ∷ []

rows-IsDistinct : IsDistinct (ids rows)
unfolding member
rows-IsDistinct = (refl, tt)

claim_next-oldest_first_example :
    (member (ids (claim_next none_locked 2 20 30 60 rows).1) 7 ≡ true)
    ⊎ ((length (chosen none_locked 20 60 rows) ≡ 20)
        × All (λ q. q.available_at ≤ 0) (claim_next none_locked 2 20 30 60 rows).1)
claim_next-oldest_first_example =
    claim_next-oldest_first none_locked 2 20 30 60 rows 7 rows-IsDistinct refl
      (abandoned 50 refl refl (omega arith) (omega arith)) refl

recovered : member (ids (claim_next none_locked 2 20 30 60 rows).1) 7 ≡ true
unfolding member claim_next chosen by_time due_rows is_due
recovered = refl

-- The first worker comes back late and marks the row; the lease of the second still holds.
claim_next-exclusive_example :
    member
      (ids
        (claim_next none_locked 3 20 30 80
          (run_all (marks_done 7 1 ∷ []) (claim_next none_locked 2 20 30 60 rows).0)).1)
      7
    ≡ false
claim_next-exclusive_example =
    claim_next-exclusive none_locked none_locked 2 20 30 60 3 20 30 80 (marks_done 7 1 ∷ []) rows 7
      rows-IsDistinct refl recovered (refl, tt) (omega arith)

run-IsLater_example :
    (s : Row ℕ) × (get_row 7 (run (marks_done 7 1) rows) ≡ some s) × IsLater stopped s
run-IsLater_example = run-IsLater (marks_done 7 1) rows 7 rows-IsDistinct refl
