-- ===== src/Billing/Totals.antt =====
-- internal/billstat/runtime.go: no query is lost or counted twice.
use ad_guard_dns.Base.{
  ℕ, zero, suc, ◌+◌, ◌%◌, ◌≡◌, refl, Bool, true, false, String, List, [], ◌∷◌, Option, some, none,
  string_eq, arith, Option-cases, inl, inr,
}
use ad_guard_dns.Base.Map.{lookup, insert}
use ad_guard_dns.Billing.{
  Record, Records, int32_mod, record_query, remerge_records, Recorder, new_recorder, start_refresh,
  end_refresh, pending, without,
}

abbrev pub total : Records → ℕ
total [] = 0
total ((k, r) ∷ m) = r.queries + total m

abbrev counted : Option Record → ℕ
counted none = 0
counted (some r) = r.queries

total-insert :
    (k : String) (v : Record) (m : Records)
    → total (insert k v m) + counted (lookup k m) ≡ total m + v.queries
unfolding insert lookup
total-insert k v [] = omega arith
total-insert k v ((j, w) ∷ m) = ground (arith, total-insert k v m)

abbrev queried : String → ℕ → ℕ → ℕ → ℕ → Record
queried ctry asn start proto n = record {
  time = start;
  country = ctry;
  asn = asn;
  queries = n;
  proto = proto;
}

total-record_query :
    (id ctry : String) (asn start proto : ℕ) (m : Records)
    → total (record_query id ctry asn start proto m) % int32_mod ≡ (total m + 1) % int32_mod
unfolding record_query
total-record_query id ctry asn start proto m = elim (Option-cases (lookup id m)) [
  | inl e ↦ ground (arith, total-insert id (queried ctry asn start proto 1) m)
  | inr (rec, e) ↦
      ground
        (arith, total-insert id (queried ctry asn start proto ((rec.queries + 1) % int32_mod)) m)
]

abbrev merged : Record → Record → Record
merged curr prev = record curr { queries = (curr.queries + prev.queries) % int32_mod }

total-remerge_records :
    (failed m : Records)
    → total (remerge_records failed m) % int32_mod ≡ (total failed + total m) % int32_mod
unfolding remerge_records
total-remerge_records [] m = omega arith
total-remerge_records ((dev, prev) ∷ failed) m = elim (Option-cases (lookup dev m)) [
  | inl e ↦
      ground (arith, total-remerge_records failed (insert dev prev m), total-insert dev prev m)
  | inr (curr, e) ↦
      let v = merged curr prev in
      ground (arith, total-remerge_records failed (insert dev v m), total-insert dev v m)
]

abbrev pub total_uploading : List Records → ℕ
total_uploading [] = 0
total_uploading (b ∷ bs) = total b + total_uploading bs

-- What happens to a recorder: a query of a device, the start of a refresh, and the answer to the
-- upload at an index of those that wait for one (whether it failed). Uploads may overlap, and are
-- answered in any order.
pub data Event : Type 0 where
  queries : String → String → ℕ → ℕ → ℕ → Event
  starts : Event
  ends : ℕ → Bool → Event

unfoldable pub step : Event → Recorder → Recorder
unfolding record_query start_refresh end_refresh
step (queries id ctry asn start proto) r = record r {
  records = record_query id ctry asn start proto r.records;
}
step starts r = start_refresh r
step (ends i failed) r = end_refresh i failed r

abbrev pub total_pending : Option Records → ℕ
total_pending none = 0
total_pending (some b) = total b

total_uploading-without :
    (i : ℕ) (us : List Records)
    → total_uploading us ≡ total_pending (pending i us) + total_uploading (without i us)
unfolding pending without
total_uploading-without i [] = refl
total_uploading-without zero (b ∷ us) = refl
total_uploading-without (suc i) (b ∷ us) = omega (arith, total_uploading-without i us)

-- the queries that the event uploads
abbrev pub uploaded : Event → Recorder → ℕ
uploaded (ends i false) r = total_pending (pending i r.uploading)
uploaded _ r = 0

abbrev pub made : Event → ℕ
made (queries id ctry asn start proto) = 1
made _ = 0

unfoldable pub run : List Event → Recorder → Recorder
run [] r = r
run (e ∷ es) r = run es (step e r)

abbrev pub all_made : List Event → ℕ
all_made [] = 0
all_made (e ∷ es) = made e + all_made es

unfoldable pub all_uploaded : List Event → Recorder → ℕ
all_uploaded [] r = 0
all_uploaded (e ∷ es) r = uploaded e r + all_uploaded es (step e r)

abbrev held : Recorder → ℕ
held r = total r.records + total_uploading r.uploading

ends-held :
    (i : ℕ) (failed : Bool) (r : Recorder)
    → (held (end_refresh i failed r) + uploaded (ends i failed) r) % int32_mod
      ≡ (held r + 0) % int32_mod
unfolding end_refresh
ends-held i true r = elim (Option-cases (pending i r.uploading)) [
  | inl e ↦ ground (arith, total_uploading-without i r.uploading)
  | inr (b, e) ↦
      ground (arith, total_uploading-without i r.uploading, total-remerge_records b r.records)
]
ends-held i false r = elim (Option-cases (pending i r.uploading)) [
  | inl e ↦ ground (arith, total_uploading-without i r.uploading)
  | inr (b, e) ↦ ground (arith, total_uploading-without i r.uploading)
]

step-held :
    (e : Event) (r : Recorder)
    → (held (step e r) + uploaded e r) % int32_mod ≡ (held r + made e) % int32_mod
unfolding step start_refresh end_refresh
step-held (queries id ctry asn start proto) r =
    omega (arith, total-record_query id ctry asn start proto r.records)
step-held starts r = omega arith
step-held (ends i failed) r = ends-held i failed r

run-held :
    (es : List Event) (r : Recorder)
    → (held (run es r) + all_uploaded es r) % int32_mod ≡ (held r + all_made es) % int32_mod
unfolding run all_uploaded
run-held [] r = refl
run-held (e ∷ es) r = omega (arith, run-held es (step e r), step-held e r)

-- In any run from a new recorder, the queries that were recorded are those that were uploaded,
-- those in uploads without an answer, and those that the recorder holds, modulo 2^32 (the counters
-- are 32 bits wide).
pub run-total :
    (es : List Event)
    → let r = run es new_recorder in
      (total r.records + total_uploading r.uploading + all_uploaded es new_recorder) % int32_mod
      ≡ all_made es % int32_mod
run-total es = omega (arith, run-held es new_recorder)
