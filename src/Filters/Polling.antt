-- ===== src/Filters/Polling.antt =====
-- No log is lost and none comes twice between the polls of a filter (rpc/api/filters/filter_api.go).
use smartbch.Base.{
  All, Bool, Bool-cases, List, Map, Option-cases, [], append-nil, append_assoc, arith, erase, false,
  if◌then◌else◌, inl, inr, insert, lookup, lookup-erase, lookup-insert, not, refl, some, sym, true,
  ℕ, ◌++◌, ◌==◌, ◌∙◌, ◌∷◌, ◌≡◌,
}
use smartbch.Filters.Matching.{Log}
use smartbch.Filters.Api.{
  Changes, Event, Installed, changed_logs, get_filter_changes, logs_arrive, logs_subscription,
  new_filter, new_block_filter, subscription_ends, timeout_tick, uninstall_filter, step, poll,
  update, header_arrives, timer_fires, FilterCriteria, fresh,
}

-- Whether an event leaves the filter with an id installed as it is.
abbrev pub spares : ℕ → Event → Bool
spares id (new_filter other crit) = not (other == id)
spares id (new_block_filter other) = not (other == id)
spares id (subscription_ends other) = not (other == id)
spares id (uninstall_filter other) = not (other == id)
spares id timeout_tick = false
spares id e = true

-- The logs that arrive for an id in a series of events.
abbrev pub arrived : ℕ → List Event → List Log
arrived id [] = []
arrived id (logs_arrive other ls ∷ es) = if other == id then ls ++ arrived id es else arrived id es
arrived id (e ∷ es) = arrived id es

abbrev pub logs_in : Changes → List Log
logs_in (changed_logs ls) = ls
logs_in c = []

-- What the polls of an id answer, one after the other, and what is pending in the end.
abbrev pub collected : ℕ → Map Installed → List Event → List Log
collected id filters [] = logs_in (poll id filters)
collected id filters (get_filter_changes other ∷ es) =
    let rest = collected id (step filters (get_filter_changes other)) es in
    if other == id then logs_in (poll id filters) ++ rest else rest
collected id filters (e ∷ es) = collected id (step filters e) es

abbrev IsLogFilter : ℕ → Map Installed → List Log → Type 0
IsLogFilter id filters ls =
    (entry : Installed) × (lookup id filters ≡ some entry)
    × (entry.typ ≡ logs_subscription)
    × (entry.pending ≡ ls)

pub update-other :
    (id other : ℕ) (f : Installed → Installed) (filters : Map Installed)
    → (other == id) ≡ false
    → lookup id (update other f filters) ≡ lookup id filters
unfolding update
update-other id other f filters h = elim (Option-cases (lookup other filters)) [
  | inl none_there ↦ ground arith
  | inr (entry, found) ↦ ground (arith, lookup-insert other id (f entry) filters)
]

pub update-same :
    (id : ℕ) (f : Installed → Installed) (filters : Map Installed) (entry : Installed)
    → lookup id filters ≡ some entry
    → lookup id (update id f filters) ≡ some (f entry)
unfolding update
update-same id f filters entry h = ground (arith, lookup-insert id id (f entry) filters)

poll-IsLogFilter :
    (id : ℕ) (filters : Map Installed) (ls : List Log)
    → IsLogFilter id filters ls
    → logs_in (poll id filters) ≡ ls
unfolding poll
poll-IsLogFilter id filters ls (entry, found, typ, left) = ground arith

-- What is pending for an id behind an event.
abbrev pending_after : ℕ → Event → List Log → List Log
pending_after id (logs_arrive other ls) pending = if other == id then pending ++ ls else pending
pending_after id (get_filter_changes other) pending = if other == id then [] else pending
pending_after id e pending = pending

-- An update of one filter, that keeps log filters what they are.
update-IsLogFilter :
    (id other : ℕ) (f : Installed → Installed) (filters : Map Installed) (before after : List Log)
    → ((entry : Installed)
        → entry.typ ≡ logs_subscription
        → entry.pending ≡ before
        → ((f entry).typ ≡ logs_subscription) × ((f entry).pending ≡ after))
    → IsLogFilter id filters before
    → IsLogFilter id (update other f filters) (if other == id then after else before)
update-IsLogFilter id other f filters before after stays (entry, found, typ, left) =
    elim (Bool-cases (other == id)) [
      | inl same ↦
          let e : other ≡ id = ground arith in
          let new = stays entry typ left in
          rw (same, e) (f entry, update-same id f filters entry found, new.0, new.1)
      | inr differs ↦ rw differs (entry, update-other id other f filters differs ∙ found, typ, left)
    ]

if_same : (b : Bool) (ls : List Log) → (if b then ls else ls) ≡ ls
if_same true ls = refl
if_same false ls = refl

quiet_update :
    (id other : ℕ) (f : Installed → Installed) (filters : Map Installed) (ls : List Log)
    → ((entry : Installed)
        → entry.typ ≡ logs_subscription
        → entry.pending ≡ ls
        → ((f entry).typ ≡ logs_subscription) × ((f entry).pending ≡ ls))
    → IsLogFilter id filters ls
    → IsLogFilter id (update other f filters) ls
quiet_update id other f filters ls stays h =
    rw (if_same (other == id) ls) at (update-IsLogFilter id other f filters ls ls stays h)

insert-IsLogFilter :
    (id other : ℕ) (new : Installed) (filters : Map Installed) (ls : List Log)
    → (other == id) ≡ false
    → IsLogFilter id filters ls
    → IsLogFilter id (insert other new filters) ls
insert-IsLogFilter id other new filters ls h (entry, found, typ, left) =
    (entry, rw (lookup-insert other id new filters, h) found, typ, left)

erase-IsLogFilter :
    (id other : ℕ) (filters : Map Installed) (ls : List Log)
    → (other == id) ≡ false
    → IsLogFilter id filters ls
    → IsLogFilter id (erase other filters) ls
erase-IsLogFilter id other filters ls h (entry, found, typ, left) =
    (entry, rw (lookup-erase other id filters, h) found, typ, left)

pub differ : (b : Bool) → not b ≡ true → b ≡ false
differ true h = cc h
differ false h = refl

step-IsLogFilter :
    (id : ℕ) (e : Event) (filters : Map Installed) (ls : List Log)
    → spares id e ≡ true
    → IsLogFilter id filters ls
    → IsLogFilter id (step filters e) (pending_after id e ls)
unfolding step
step-IsLogFilter id (new_filter other crit) filters ls s h =
    insert-IsLogFilter id other _ filters ls (differ (other == id) s) h
step-IsLogFilter id (new_block_filter other) filters ls s h =
    insert-IsLogFilter id other _ filters ls (differ (other == id) s) h
step-IsLogFilter id (logs_arrive other l) filters ls s h =
    update-IsLogFilter id other _ filters ls (ls ++ l) (λ entry t p. (t, rw p refl)) h
step-IsLogFilter id (header_arrives other hash) filters ls s h =
    quiet_update id other _ filters ls (λ entry t p. (t, p)) h
step-IsLogFilter id (subscription_ends other) filters ls s h =
    erase-IsLogFilter id other filters ls (differ (other == id) s) h
step-IsLogFilter id (timer_fires other) filters ls s h =
    quiet_update id other _ filters ls (λ entry t p. (t, p)) h
step-IsLogFilter id (uninstall_filter other) filters ls s h =
    erase-IsLogFilter id other filters ls (differ (other == id) s) h
step-IsLogFilter id (get_filter_changes other) filters ls s h =
    update-IsLogFilter id other _ filters ls [] (λ entry t p. ground arith) h
step-IsLogFilter id timeout_tick filters ls s h = cc s

arrived-cons :
    (id : ℕ) (e : Event) (es : List Event) (ls : List Log) (filters : Map Installed)
    → IsLogFilter id filters ls
    → collected id (step filters e) es ≡ pending_after id e ls ++ arrived id es
    → collected id filters (e ∷ es) ≡ ls ++ arrived id (e ∷ es)
arrived-cons id (new_filter other crit) es ls filters h r = r
arrived-cons id (new_block_filter other) es ls filters h r = r
arrived-cons id (logs_arrive other l) es ls filters h r = elim (Bool-cases (other == id)) [
  | inl same ↦ ground (arith, append_assoc ls l (arrived id es))
  | inr differs ↦ ground arith
]
arrived-cons id (header_arrives other hash) es ls filters h r = r
arrived-cons id (subscription_ends other) es ls filters h r = r
arrived-cons id (timer_fires other) es ls filters h r = r
arrived-cons id (uninstall_filter other) es ls filters h r = r
arrived-cons id (get_filter_changes other) es ls filters h r = elim (Bool-cases (other == id)) [
  | inl same ↦ ground (arith, poll-IsLogFilter id filters ls h)
  | inr differs ↦ ground arith
]
arrived-cons id timeout_tick es ls filters h r = r

collected-arrived :
    (id : ℕ) (es : List Event) (ls : List Log) (filters : Map Installed)
    → IsLogFilter id filters ls
    → All (λ e. spares id e ≡ true) es
    → collected id filters es ≡ ls ++ arrived id es
collected-arrived id [] ls filters h s = poll-IsLogFilter id filters ls h ∙ sym (append-nil ls)
collected-arrived id (e ∷ es) ls filters h s = arrived-cons id e es ls filters h (
    collected-arrived id es (pending_after id e ls) (step filters e)
      (step-IsLogFilter id e filters ls s.0 h) s.1)

-- From its installation on, as long as a log filter is not uninstalled, its subscription does not end,
-- its identifier is not given again and no sweep for unused filters comes, and whatever else happens
-- in whatever order: the logs that its polls answer, in their order, and the logs that are pending in
-- the end are together exactly the logs that have arrived for it, each once and in order.
pub new_filter-collected :
    (id : ℕ) (crit : FilterCriteria) (filters : Map Installed) (es : List Event)
    → All (λ e. spares id e ≡ true) es
    → collected id (step filters (new_filter id crit)) es ≡ arrived id es
unfolding step
new_filter-collected id crit filters es s =
    collected-arrived id es [] (insert id (fresh logs_subscription crit) filters)
      (
        fresh logs_subscription crit,
        rw (lookup-insert id id (fresh logs_subscription crit) filters) (ground arith),
        refl,
        refl,
      )
      s
