-- ===== src/Filters/Search.antt =====
-- rpc/api/filters/geth_filter.go: `Logs` and the searches that it is made of. The backend and
-- go-ethereum's matcher are parameters; a fetch may fail, or give nothing.
use smartbch.Base.{
  Bool, List, Option, [], add64, false, if◌then◌else◌, leb_i64, ltb, none, not, some, sub64, suc,
  true, u64_mod, zero, ℕ, ◌%◌, ◌*◌, ◌++◌, ◌-◌, ◌==◌, ◌^◌, ◌∷◌,
}
use smartbch.Filters.Matching.{Log, bloom_filter, filter_logs}

pub data Fetched (A : Type 0) : Type 0 where
  fetch_failed : Fetched A
  absent : Fetched A
  fetched : A → Fetched A

pub record Header : Type 0 where
  pub number : ℕ
  pub block_hash : ℕ
  pub bloom : ℕ

-- A logs backend: `bloom_status` is the size of a section and the number of sections; `matches` are the
-- numbers that a session of the matcher gives for a range, and whether it ends without an error.
pub record Backend : Type 0 where
  pub header_by_hash : ℕ → Fetched Header
  pub header_by_number : ℕ → Fetched Header
  pub latest_header : Option Header
  pub get_logs : ℕ → Option (List (List Log))
  pub get_receipts : ℕ → Option (List (List Log))
  pub bloom_status : ℕ × ℕ
  pub bloom_lookup : ℕ → ℕ → Bool
  pub matches : ℕ → ℕ → List ℕ × Bool

-- The block hash 0 stands for a range; `begin` and `end` are `int64`s.
pub record Filter : Type 0 where
  pub addresses : List ℕ
  pub topics : List (List ℕ)
  pub block : ℕ
  pub begin : ℕ
  pub end : ℕ

-- The logs that are returned, and whether an error is returned with them.
abbrev pub Answer : Type 0
Answer = List Log × Bool

abbrev pub minus_one : ℕ
minus_one = 2 ^ 64 - 1

abbrev pub concat_logs : List (List Log) → List Log
concat_logs [] = []
concat_logs (logs ∷ lists) = logs ++ concat_logs lists

abbrev pub prepend_logs : List Log → Answer × ℕ → Answer × ℕ
prepend_logs logs r = ((logs ++ r.0.0, r.0.1), r.1)

module _ (b : Backend) where
  -- `none` is an error.
  unfoldable pub check_matches : Filter → Header → Option (List Log)
  check_matches f header = elim (b.get_logs header.block_hash) [
    | none ↦ none
    | some lists ↦ elim (filter_logs (concat_logs lists) none none f.addresses f.topics) [
      | [] ↦ some []
      | log ∷ logs ↦
          if log.tx_hash == 0
          then elim (b.get_receipts header.block_hash) [
            | none ↦ none
            | some receipts ↦
                some (filter_logs (concat_logs receipts) none none f.addresses f.topics)
          ]
          else some (log ∷ logs)
    ]
  ]

  unfoldable pub block_logs : Filter → Header → Option (List Log)
  block_logs f header =
      if bloom_filter (b.bloom_lookup header.bloom) f.addresses f.topics
      then check_matches f header
      else some []

  -- The loop over a range, with the number of its rounds as fuel; the last component is the new `begin`.
  unfoldable pub unindexed_logs : ℕ → Filter → ℕ → ℕ → Answer × ℕ
  unindexed_logs zero f begin end = (([], false), begin)
  unindexed_logs (suc fuel) f begin end =
      let rest = unindexed_logs fuel f (add64 begin 1) end in
      if leb_i64 begin end
      then elim (b.header_by_number begin) [
        | fetch_failed ↦ (([], true), begin)
        | absent ↦ (([], false), begin)
        | fetched header ↦ elim (block_logs f header) [
          | none ↦ (([], true), begin)
          | some found ↦ prepend_logs found rest
        ]
      ]
      else (([], false), begin)

  -- The loop over the matches of a session for the range up to `end`.
  unfoldable pub indexed_loop : Filter → ℕ → Bool → List ℕ → ℕ → Answer × ℕ
  indexed_loop f end ends_well [] begin =
      (([], not ends_well), if ends_well then add64 end 1 else begin)
  indexed_loop f end ends_well (number ∷ numbers) begin =
      let rest = indexed_loop f end ends_well numbers (add64 number 1) in
      elim (b.header_by_number number) [
        | fetch_failed ↦ (([], true), add64 number 1)
        | absent ↦ (([], false), add64 number 1)
        | fetched header ↦ elim (check_matches f header) [
          | none ↦ (([], true), add64 number 1)
          | some found ↦ prepend_logs found rest
        ]
      ]

  unfoldable pub indexed_logs : Filter → ℕ → ℕ → Answer × ℕ
  indexed_logs f begin end =
      let session = b.matches begin end in indexed_loop f end session.1 session.0 begin

  -- The search of the sections that are indexed, up to the end of the range at most.
  unfoldable pub indexed_part : Filter → ℕ → ℕ → Answer × ℕ
  indexed_part f begin end =
      let indexed = (b.bloom_status.1 * b.bloom_status.0) % u64_mod in
      if ltb begin indexed
      then (if ltb end indexed
          then indexed_logs f begin end
          else indexed_logs f begin (sub64 indexed 1))
      else (([], false), begin)

  -- The rest of the range, unless that search has failed.
  unfoldable pub finish_range : Filter → ℕ → Answer × ℕ → Answer
  finish_range f end first =
      let rest = unindexed_logs (sub64 (add64 end 1) first.1) f first.1 end in
      if first.0.1 then first.0 else (first.0.0 ++ rest.0.0, rest.0.1)

  -- The search of a range after its limits are known.
  abbrev pub range_logs : Filter → ℕ → ℕ → Answer
  range_logs f begin end = finish_range f end (indexed_part f begin end)

  unfoldable pub logs_of : Filter → Answer
  logs_of f =
      if f.block == 0
      then elim b.latest_header [
        | none ↦ ([], false)
        | some header ↦
            range_logs f (if f.begin == minus_one then header.number else f.begin)
              (if f.end == minus_one then header.number else f.end)
      ]
      else elim (b.header_by_hash f.block) [
        | fetch_failed ↦ ([], true)
        | absent ↦ ([], true)
        | fetched header ↦ elim (block_logs f header) [
          | none ↦ ([], true)
          | some found ↦ (found, false)
        ]
      ]
