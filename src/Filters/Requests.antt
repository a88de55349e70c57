-- ===== src/Filters/Requests.antt =====
-- rpc/api/filters: the searches that clients ask for, `GetLogs` and `GetFilterLogs` of filter_api.go,
-- with the filters of geth_filter.go that they make, and what an installed filter answers to
-- `GetFilterLogs`. The history store's search is a parameter.
use smartbch.Base.{
  All, Bool-cases, List, Map, Option, [], ap, arith, erase, false, foldl, if◌then◌else◌, inl, inr,
  insert, lookup, lookup-erase, lookup-insert, none, not, refl, some, true, ℕ, ◌==◌, ◌∙◌, ◌∷◌, ◌≡◌,
}
use smartbch.Filters.Search.{Answer, Backend, Filter, logs_of}
use smartbch.Filters.Api.{
  step, update, fresh, Event, FilterCriteria, Installed, blocks_subscription, get_filter_changes,
  get_logs_range, header_arrives, logs_arrive, logs_subscription, new_block_filter, new_filter,
  subscription_ends, timeout_tick, timer_fires, uninstall_filter,
}
use smartbch.Filters.Matching.{Log}
use smartbch.Filters.Polling.{differ, spares, update-other, update-same}

-- `NewBlockFilter`
abbrev pub block_filter : ℕ → List ℕ → List (List ℕ) → Filter
block_filter hash addresses topics = record {
  addresses = addresses;
  topics = topics;
  block = hash;
  begin = 0;
  end = 0;
}

-- The clauses of the matcher that `NewRangeFilter` makes; no address is no clause.
unfoldable pub matcher_clauses : List ℕ → List (List ℕ) → List (List ℕ)
matcher_clauses [] topics = topics
matcher_clauses (address ∷ addresses) topics = (address ∷ addresses) ∷ topics

-- `NewRangeFilter`, with the clauses of its matcher.
unfoldable pub range_filter : ℕ → ℕ → List ℕ → List (List ℕ) → Filter × List (List ℕ)
range_filter begin end addresses topics = (
  record { addresses = addresses; topics = topics; block = 0; begin = begin; end = end },
  matcher_clauses addresses topics,
)

module _ (b : Backend) (query_logs : List ℕ → List (List ℕ) → ℕ → ℕ → Option (List Log))
    (latest_height : ℕ) where
  -- The second component of an answer is an error, with which no logs are returned.
  unfoldable pub get_logs : FilterCriteria → Answer
  get_logs crit = elim crit.block_hash [
    | some hash ↦
        let found = logs_of b (block_filter hash crit.addresses crit.topics) in
        if found.1 then ([], true) else found
    | none ↦
        let range = get_logs_range crit latest_height in
        elim (query_logs crit.addresses crit.topics range.0 range.1) [
          | none ↦ ([], true)
          | some logs ↦ (logs, false)
        ]
  ]

  unfoldable pub get_filter_logs : Map Installed → ℕ → Answer
  get_filter_logs filters id = elim (lookup id filters) [
    | none ↦ ([], true)
    | some entry ↦ elim entry.typ [
      | logs_subscription ↦ get_logs entry.crit
      | blocks_subscription ↦ ([], true)
    ]
  ]

-- The filter with an id is a log filter with these criteria.
abbrev Searches : ℕ → FilterCriteria → Map Installed → Type 0
Searches id crit filters =
    (entry : Installed) × (lookup id filters ≡ some entry)
    × (entry.typ ≡ logs_subscription)
    × (entry.crit ≡ crit)

update-Searches :
    (id other : ℕ) (f : Installed → Installed) (crit : FilterCriteria) (filters : Map Installed)
    → ((entry : Installed)
        → entry.typ ≡ logs_subscription
        → ((f entry).typ ≡ entry.typ) × ((f entry).crit ≡ entry.crit))
    → Searches id crit filters
    → Searches id crit (update other f filters)
update-Searches id other f crit filters stays (entry, found, typ, same_crit) =
    elim (Bool-cases (other == id)) [
      | inl same ↦
          let e : other ≡ id = ground arith in
          let kept = stays entry typ in
          rw e (f entry, update-same id f filters entry found, kept.0 ∙ typ, kept.1 ∙ same_crit)
      | inr differs ↦ (entry, update-other id other f filters differs ∙ found, typ, same_crit)
    ]

insert-Searches :
    (id other : ℕ) (new : Installed) (crit : FilterCriteria) (filters : Map Installed)
    → not (other == id) ≡ true
    → Searches id crit filters
    → Searches id crit (insert other new filters)
insert-Searches id other new crit filters h (entry, found, typ, same_crit) =
    (entry, rw (lookup-insert other id new filters, differ (other == id) h) found, typ, same_crit)

erase-Searches :
    (id other : ℕ) (crit : FilterCriteria) (filters : Map Installed)
    → not (other == id) ≡ true
    → Searches id crit filters
    → Searches id crit (erase other filters)
erase-Searches id other crit filters h (entry, found, typ, same_crit) =
    (entry, rw (lookup-erase other id filters, differ (other == id) h) found, typ, same_crit)

step-Searches :
    (id : ℕ) (crit : FilterCriteria) (e : Event) (filters : Map Installed)
    → spares id e ≡ true
    → Searches id crit filters
    → Searches id crit (step filters e)
unfolding step
step-Searches id crit (new_filter other c) filters s h = insert-Searches id other _ crit filters s h
step-Searches id crit (new_block_filter other) filters s h =
    insert-Searches id other _ crit filters s h
step-Searches id crit (logs_arrive other l) filters s h =
    update-Searches id other _ crit filters (λ entry t. (refl, refl)) h
step-Searches id crit (header_arrives other hash) filters s h =
    update-Searches id other _ crit filters (λ entry t. (refl, refl)) h
step-Searches id crit (subscription_ends other) filters s h =
    erase-Searches id other crit filters s h
step-Searches id crit (timer_fires other) filters s h =
    update-Searches id other _ crit filters (λ entry t. (refl, refl)) h
step-Searches id crit (uninstall_filter other) filters s h =
    erase-Searches id other crit filters s h
step-Searches id crit (get_filter_changes other) filters s h =
    update-Searches id other _ crit filters (λ entry t. ground arith) h
step-Searches id crit timeout_tick filters s h = cc s

steps-Searches :
    (id : ℕ) (crit : FilterCriteria) (es : List Event) (filters : Map Installed)
    → All (λ e. spares id e ≡ true) es
    → Searches id crit filters
    → Searches id crit (foldl step filters es)
steps-Searches id crit [] filters s h = h
steps-Searches id crit (e ∷ es) filters s h =
    steps-Searches id crit es (step filters e) s.1 (step-Searches id crit e filters s.0 h)

-- From its installation on, as long as a log filter is not uninstalled, its subscription does not end,
-- its identifier is not given again and no sweep for unused filters comes, whatever is polled, arrives
-- or is installed beside it: `GetFilterLogs` answers what `GetLogs` answers to the criteria that the
-- filter was installed with, all its logs over again, errors included.
pub new_filter-get_filter_logs :
    (b : Backend) (query_logs : List ℕ → List (List ℕ) → ℕ → ℕ → Option (List Log))
    (latest_height id : ℕ) (crit : FilterCriteria) (filters : Map Installed) (es : List Event)
    → All (λ e. spares id e ≡ true) es
    → get_filter_logs b query_logs latest_height
        (foldl step (step filters (new_filter id crit)) es)
        id
      ≡ get_logs b query_logs latest_height crit
unfolding get_filter_logs step
new_filter-get_filter_logs b query_logs latest_height id crit filters es s =
    let (entry, found, typ, same_crit) =
      steps-Searches id crit es (insert id (fresh logs_subscription crit) filters) s (
        fresh logs_subscription crit,
        rw (lookup-insert id id (fresh logs_subscription crit) filters) (ground arith),
        refl,
        refl,
      ) in
    rw (get_filter_logs, found, typ) (ap (get_logs b query_logs latest_height) same_crit)
