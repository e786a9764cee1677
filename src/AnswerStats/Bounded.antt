-- ===== src/AnswerStats/Bounded.antt =====
-- internal/dnsdb/buffer.go: the size of the buffer and what a full one keeps.
use ad_guard_dns.Base.{
  ℕ, ◌+◌, ◌%◌, ◌^◌, ◌≡◌, ◌≤◌, String, List, [], ◌∷◌, Option, some, none, ◌==◌, leb, length, arith,
  if◌then◌else◌, Option-cases, inl, inr,
}
use ad_guard_dns.Base.Map.{Map, lookup, insert, lookup-insert}
use ad_guard_dns.AnswerStats.{RecordKey, key_eq, Rr, RecordValue, Buffer, add, to_answer_set}

length-insert :
    (k : RecordKey) (v : RecordValue) (m : Map RecordKey RecordValue)
    → length (insert k v m) ≡ (elim (lookup k m) [ none ↦ length m + 1 | some w ↦ length m ])
unfolding insert lookup
length-insert k v [] = omega arith
length-insert k v ((j, w) ∷ m) = ground (arith, length-insert k v m)

-- Where the buffer holds at most its number of records, so it does after an addition, and the count
-- that is returned is the number that are held then.
add-length :
    (target : String) (answers : List Rr) (qt rc : ℕ) (b : Buffer)
    → length b.entries ≤ b.max_size
    → (length (add target answers qt rc b).2.entries ≤ b.max_size)
      × ((add target answers qt rc b).0 ≡ length (add target answers qt rc b).2.entries)
unfolding add
add-length target answers qt rc b h =
    let key : RecordKey = record { target = target; qt = qt } in
    let v : RecordValue = record { answers = to_answer_set answers rc []; hits = 1 } in
    elim (Option-cases (lookup key b.entries)) [
      | inl e ↦ ground (arith, length-insert key v b.entries)
      | inr (w, e) ↦
          ground (arith, length-insert key (record w { hits = (w.hits + 1) % 2 ^ 64 }) b.entries)
    ]

-- What an addition makes of the value of its own key.
abbrev pub counted : List Rr → ℕ → Option RecordValue → RecordValue
unfolding to_answer_set
counted answers rc none = record { answers = to_answer_set answers rc []; hits = 1 }
counted answers rc (some v) = record v { hits = (v.hits + 1) % 2 ^ 64 }

-- After an addition to a buffer that is not full, the value of the key has one hit more and its
-- first answers, or one hit and the answers of the addition where there was none, and the values
-- of the other keys are as before; a full buffer keeps all values as they are, the hits included.
lookup-add :
    (target : String) (answers : List Rr) (qt rc : ℕ) (b : Buffer) (j : RecordKey)
    → let key : RecordKey = record { target = target; qt = qt } in
      lookup j (add target answers qt rc b).2.entries ≡ (
        if leb b.max_size (length b.entries)
        then lookup j b.entries
        else if key == j
        then some (counted answers rc (lookup key b.entries))
        else lookup j b.entries)
unfolding add
lookup-add target answers qt rc b j =
    let key : RecordKey = record { target = target; qt = qt } in
    elim (Option-cases (lookup key b.entries)) [
      | inl e ↦ ground (arith, lookup-insert key j (counted answers rc none) b.entries)
      | inr (w, e) ↦ ground (arith, lookup-insert key j (counted answers rc (some w)) b.entries)
    ]
