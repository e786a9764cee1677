-- ===== src/Billing.antt =====
-- internal/billstat/runtime.go: the recorder of the queries of the devices, and their upload.
mod Totals
mod Examples
use ad_guard_dns.Base.{
  ℕ, zero, suc, ◌+◌, ◌%◌, ◌^◌, Bool, true, false, String, List, [], ◌∷◌, Option, some, none,
  string_eq,
}
use ad_guard_dns.Base.Map.{Map, lookup, insert}

-- `queries` is an int32 in the source, here the number that its bits stand for.
pub record Record : Type 0 where
  pub time : ℕ
  pub country : String
  pub asn : ℕ
  pub queries : ℕ
  pub proto : ℕ

abbrev pub int32_mod : ℕ
int32_mod = 2 ^ 32

abbrev pub Records : Type 0
Records = Map String Record

-- `Record` of the recorder
unfoldable pub record_query : String → String → ℕ → ℕ → ℕ → Records → Records
record_query id ctry asn start proto records = elim (lookup id records) [
  | none ↦
      insert id (record { time = start; country = ctry; asn = asn; queries = 1; proto = proto })
        records
  | some rec ↦
      insert id
        (record {
          time = start;
          country = ctry;
          asn = asn;
          queries = (rec.queries + 1) % int32_mod;
          proto = proto;
        })
        records
]

-- `remergeRecords`, over the records of the failed upload
unfoldable pub remerge_records : Records → Records → Records
remerge_records [] records = records
remerge_records ((dev, prev) ∷ failed) records = elim (lookup dev records) [
  | none ↦ remerge_records failed (insert dev prev records)
  | some curr ↦
      remerge_records failed
        (insert dev (record curr { queries = (curr.queries + prev.queries) % int32_mod }) records)
]

-- The recorder, and the records of the uploads that have not been answered.
pub record Recorder : Type 0 where
  pub records : Records
  pub uploading : List Records

abbrev pub new_recorder : Recorder
new_recorder = record { records = []; uploading = [] }

-- `Refresh` up to the upload: `resetRecords`
unfoldable pub start_refresh : Recorder → Recorder
start_refresh r = record { records = []; uploading = r.records ∷ r.uploading }

-- The upload at an index of those that wait for an answer, and the others.
unfoldable pub pending : ℕ → List Records → Option Records
pending i [] = none
pending zero (batch ∷ us) = some batch
pending (suc i) (batch ∷ us) = pending i us

unfoldable pub without : ℕ → List Records → List Records
without i [] = []
without zero (batch ∷ us) = us
without (suc i) (batch ∷ us) = batch ∷ without i us

-- The end of `Refresh`, where the upload at the index has been answered: it failed or not.
unfoldable pub end_refresh : ℕ → Bool → Recorder → Recorder
unfolding remerge_records pending without
end_refresh i failed r = answered failed (pending i r.uploading)
  where
    answered : Bool → Option Records → Recorder
    answered failed none = r
    answered true (some batch) = record {
      records = remerge_records batch r.records;
      uploading = without i r.uploading;
    }
    answered false (some batch) = record r { uploading = without i r.uploading }
