-- ===== src/Billing/Examples.antt =====
-- internal/billstat/runtime.go: the theorem at a run with an upload that fails.
use ad_guard_dns.Base.{◌+◌, ◌%◌, ◌≡◌, refl, true, List, [], ◌∷◌}
use ad_guard_dns.Base.Map.{lookup, insert}
use ad_guard_dns.Billing.{
  new_recorder, int32_mod, record_query, remerge_records, pending, without, start_refresh,
  end_refresh,
}
use ad_guard_dns.Billing.Totals.{
  Event, queries, starts, ends, step, run, total, total_uploading, all_uploaded, all_made,
  run-total,
}

-- A device makes a query, an upload starts, it makes another one, a second upload starts, and the
-- first one fails.
abbrev events : List Event
events =
    queries "dev1234" "CY" 42 100 1
    ∷ starts
    ∷ queries "dev1234" "CY" 42 101 1
    ∷ starts
    ∷ ends 1 true
    ∷ []

total-run : total (run events new_recorder).records ≡ 1
unfolding run step record_query start_refresh end_refresh remerge_records lookup insert pending
    without
total-run = refl

run-total_example :
    (total (run events new_recorder).records
        + total_uploading (run events new_recorder).uploading
        + all_uploaded events new_recorder)
      % int32_mod
    ≡ all_made events % int32_mod
run-total_example = run-total events
