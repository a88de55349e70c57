-- ===== src/Filters/Api.antt =====
-- rpc/api/filters/filter_api.go: the filters that clients install and poll. Whatever happens under the
-- lock is one event; a subscription's goroutine contributes the events of its channels.
use smartbch.Base.{
  Bool, List, Map, Option, [], add64, erase, false, if◌then◌else◌, insert, lookup, none, some, true,
  ℕ, ◌%◌, ◌++◌, ◌^◌, ◌∷◌,
}
use smartbch.Filters.Matching.{Log}

pub data FilterType : Type 0 where
  logs_subscription blocks_subscription : FilterType

pub record FilterCriteria : Type 0 where
  pub block_hash : Option ℕ
  pub from_block : Option ℕ
  pub to_block : Option ℕ
  pub addresses : List ℕ
  pub topics : List (List ℕ)

-- `expired` tells that the deadline's timer has fired and nobody has received its value.
pub record Installed : Type 0 where
  pub typ : FilterType
  pub expired : Bool
  pub hashes : List ℕ
  pub crit : FilterCriteria
  pub pending : List Log

pub data Event : Type 0 where
  new_filter : ℕ → FilterCriteria → Event
  new_block_filter : ℕ → Event
  logs_arrive : ℕ → List Log → Event
  header_arrives : ℕ → ℕ → Event
  subscription_ends timer_fires uninstall_filter get_filter_changes : ℕ → Event
  timeout_tick : Event

-- What a poll answers; `filter_not_found` is an error.
pub data Changes : Type 0 where
  filter_not_found : Changes
  changed_hashes : List ℕ → Changes
  changed_logs : List Log → Changes

abbrev pub no_criteria : FilterCriteria
no_criteria = record {
  block_hash = none;
  from_block = none;
  to_block = none;
  addresses = [];
  topics = [];
}

abbrev pub fresh : FilterType → FilterCriteria → Installed
fresh typ crit = record { typ = typ; expired = false; hashes = []; crit = crit; pending = [] }

-- A change of the filter with an id, where there is one.
unfoldable pub update : ℕ → (Installed → Installed) → Map Installed → Map Installed
update id f filters = elim (lookup id filters) [
  | none ↦ filters
  | some entry ↦ insert id (f entry) filters
]

-- `timeoutLoop`
unfoldable pub sweep : Map Installed → Map Installed
sweep [] = []
sweep ((id, entry) ∷ filters) = if entry.expired then sweep filters else (id, entry) ∷ sweep filters

abbrev pub changes_of : Installed → Changes
changes_of entry = elim entry.typ [
  | logs_subscription ↦ changed_logs entry.pending
  | blocks_subscription ↦ changed_hashes entry.hashes
]

abbrev pub polled : Installed → Installed
polled entry = elim entry.typ [
  | logs_subscription ↦ record entry { expired = false; pending = [] }
  | blocks_subscription ↦ record entry { expired = false; hashes = [] }
]

unfoldable pub poll : ℕ → Map Installed → Changes
poll id filters = elim (lookup id filters) [
  | none ↦ filter_not_found
  | some entry ↦ changes_of entry
]

unfoldable pub step : Map Installed → Event → Map Installed
step filters (new_filter id crit) = insert id (fresh logs_subscription crit) filters
step filters (new_block_filter id) = insert id (fresh blocks_subscription no_criteria) filters
step filters (logs_arrive id ls) =
    update id (λ entry. record entry { pending = entry.pending ++ ls }) filters
step filters (header_arrives id hash) =
    update id (λ entry. record entry { hashes = entry.hashes ++ hash ∷ [] }) filters
step filters (subscription_ends id) = erase id filters
step filters (timer_fires id) = update id (λ entry. record entry { expired = true }) filters
step filters (uninstall_filter id) = erase id filters
step filters (get_filter_changes id) = update id polled filters
step filters timeout_tick = sweep filters

-- `GetLogs` without a block hash: the range that it asks the history store for, as two `uint32`s. Block
-- numbers are `int64`s as bit patterns.
unfoldable pub get_logs_range : FilterCriteria → ℕ → ℕ × ℕ
get_logs_range crit latest = (begin % 2 ^ 32, add64 end 1 % 2 ^ 32)
  where
    begin : ℕ
    begin = elim crit.from_block [ none ↦ latest | some n ↦ n ]

    end : ℕ
    end = elim crit.to_block [ none ↦ latest | some n ↦ n ]
