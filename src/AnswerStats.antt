-- ===== src/AnswerStats.antt =====
-- internal/dnsdb/buffer.go: the buffer of the statistics of DNS answers.
mod Bounded
mod Examples
use ad_guard_dns.Base.{
  ℕ, ◌+◌, ◌%◌, ◌^◌, ◌≡◌, ◌↔◌, Bool, true, false, ◌&&◌, String, List, [], ◌∷◌, ◌++◌, Option, some,
  none, Comparable, ◌==◌, ==_iff, string_eq, eqb, eqb_iff, leb, length, map, arith, if◌then◌else◌,
}
use ad_guard_dns.Base.Map.{Map, lookup, insert}

pub record RecordKey : Type 0 where
  pub target : String
  pub qt : ℕ

abbrev pub key_beq : RecordKey → RecordKey → Bool
key_beq a b = a.target == b.target && eqb a.qt b.qt

pub key_beq_iff : (a b : RecordKey) → (key_beq a b ≡ true) ↔ (a ≡ b)
key_beq_iff a b = ground (arith, ==_iff a.target b.target, eqb_iff a.qt b.qt)

instance abbrev pub key_eq : Comparable RecordKey
key_eq = record { is_equal = key_beq; is_equal_iff = key_beq_iff }

pub record RecordAnswer : Type 0 where
  pub value : String
  pub rr_type : ℕ
  pub rcode : ℕ

abbrev pub answer_beq : RecordAnswer → RecordAnswer → Bool
answer_beq a b = a.value == b.value && eqb a.rr_type b.rr_type && eqb a.rcode b.rcode

-- A resource record by its data: the text of its address, the target of a CNAME without the dot
-- at its end, or another one, and its type.
pub data Rr : Type 0 where
  address cname : String → ℕ → Rr
  other : ℕ → Rr

-- `answerString` and the type of the header
abbrev pub answer_string : Rr → String × ℕ
answer_string (address s t) = (s, t)
answer_string (cname s t) = (s, t)
answer_string (other t) = ("", t)

-- container.MapSet as the list of its members
abbrev pub add_answer : RecordAnswer → List RecordAnswer → List RecordAnswer
add_answer a [] = a ∷ []
add_answer a (b ∷ bs) = if answer_beq a b then b ∷ bs else b ∷ add_answer a bs

unfoldable pub to_answer_set : List Rr → ℕ → List RecordAnswer → List RecordAnswer
to_answer_set [] rc set = set
to_answer_set (a ∷ rest) rc set =
    let (s, t) = answer_string a in
    to_answer_set rest rc
      (if s == "" then set else add_answer (record { value = s; rr_type = t; rcode = rc }) set)

pub record RecordValue : Type 0 where
  pub answers : List RecordAnswer
  pub hits : ℕ

pub record Buffer : Type 0 where
  pub entries : Map RecordKey RecordValue
  pub max_size : ℕ

abbrev pub new_buffer : ℕ → Buffer
new_buffer n = record { entries = []; max_size = n }

-- `add`: the count, whether the record is a new one, and the buffer
unfoldable pub add : String → List Rr → ℕ → ℕ → Buffer → ℕ × Bool × Buffer
unfolding to_answer_set
add target answers qt rc b =
    let count = length b.entries in
    let key : RecordKey = record { target = target; qt = qt } in
    if leb b.max_size count then (count, false, b) else elim (lookup key b.entries) [
      | some prev ↦ (
        count,
        false,
        record b {
          entries = insert key (record prev { hits = (prev.hits + 1) % 2 ^ 64 }) b.entries;
        },
      )
      | none ↦ (
        count + 1,
        true,
        record b {
          entries =
              insert key (record { answers = to_answer_set answers rc []; hits = 1 }) b.entries;
        },
      )
    ]

pub record Record : Type 0 where
  pub target : String
  pub answer : String
  pub hits : ℕ
  pub rr_type : ℕ
  pub rcode : ℕ

abbrev pub answer_record : RecordKey → ℕ → RecordAnswer → Record
answer_record k hits a = record {
  target = k.target;
  answer = a.value;
  hits = hits;
  rr_type = a.rr_type;
  rcode = a.rcode;
}

unfoldable pub entry_records : RecordKey → RecordValue → List Record
entry_records k v =
    if eqb (length v.answers) 0
    then record { target = k.target; answer = ""; hits = v.hits; rr_type = k.qt; rcode = 0 } ∷ []
    else map (answer_record k v.hits) v.answers

-- `all`, in the order of the list
unfoldable pub all : Map RecordKey RecordValue → List Record
unfolding entry_records
all [] = []
all ((k, v) ∷ m) = entry_records k v ++ all m
