-- ===== src/Filters/Broadcast/Subscribed.antt =====
-- A log filter's subscription in the index of the event loop (rpc/api/filters/geth_filter_system.go).
use smartbch.Base.{
  Bool-cases, Map, [], arith, erase, false, inl, inr, insert, keep_if, refl, some, ℕ, ◌==◌, ◌∷◌,
  ◌≡◌, ◌⊎◌,
}
use smartbch.Filters.Api.{FilterCriteria, FilterType, logs_subscription, blocks_subscription}
use smartbch.Filters.Events.{
  FilterIndex, Subscription, install_sub, subscribe_logs, uninstall_sub, new_sub,
}
use smartbch.Filters.Broadcast.{has_key}

-- The subscriptions for logs have an entry with a key, and it is the only one.
unfoldable pub HasSub : ℕ → Subscription → FilterIndex → Type 0
HasSub id sub subs = keep_if (has_key id) subs.of_logs ≡ (id, sub) ∷ []

keep_if-insert_other :
    (id other : ℕ) (sub : Subscription) (subs : Map Subscription)
    → (other == id) ≡ false
    → keep_if (has_key id) (insert other sub subs) ≡ keep_if (has_key id) subs
unfolding insert
keep_if-insert_other id other sub [] h = ground arith
keep_if-insert_other id other sub (entry ∷ entries) h =
    ground (arith, keep_if-insert_other id other sub entries h)

pub keep_if-insert_new :
    (id : ℕ) (sub : Subscription) (subs : Map Subscription)
    → keep_if (has_key id) subs ≡ []
    → keep_if (has_key id) (insert id sub subs) ≡ (id, sub) ∷ []
unfolding insert
keep_if-insert_new id sub [] h = ground arith
keep_if-insert_new id sub (entry ∷ entries) h = elim (Bool-cases (entry.0 == id)) [
  | inl same ↦ absurd (ground arith)
  | inr differs ↦ ground (arith, keep_if-insert_new id sub entries)
]

keep_if-erase_other :
    (id other : ℕ) (subs : Map Subscription)
    → (other == id) ≡ false
    → keep_if (has_key id) (erase other subs) ≡ keep_if (has_key id) subs
unfolding erase
keep_if-erase_other id other [] h = refl
keep_if-erase_other id other (entry ∷ entries) h =
    ground (arith, keep_if-erase_other id other entries h)

pub made-subscribe_logs :
    (crit : FilterCriteria) (id : ℕ) {sub : Subscription}
    → subscribe_logs crit id ≡ some sub
    → sub ≡ new_sub id crit
unfolding subscribe_logs
made-subscribe_logs crit id {sub} h = ground arith

pub install_sub-logs :
    (subs : FilterIndex) (sub : Subscription)
    → sub.typ ≡ logs_subscription
    → (install_sub subs sub).of_logs ≡ insert sub.id sub subs.of_logs
unfolding install_sub
install_sub-logs subs sub h = ground arith

install_sub-blocks :
    (subs : FilterIndex) (sub : Subscription)
    → sub.typ ≡ blocks_subscription
    → (install_sub subs sub).of_logs ≡ subs.of_logs
unfolding install_sub
install_sub-blocks subs sub h = ground arith

uninstall_sub-logs :
    (subs : FilterIndex) (sub : Subscription)
    → sub.typ ≡ logs_subscription
    → (uninstall_sub subs sub).of_logs ≡ erase sub.id subs.of_logs
unfolding uninstall_sub
uninstall_sub-logs subs sub h = ground arith

uninstall_sub-blocks :
    (subs : FilterIndex) (sub : Subscription)
    → sub.typ ≡ blocks_subscription
    → (uninstall_sub subs sub).of_logs ≡ subs.of_logs
unfolding uninstall_sub
uninstall_sub-blocks subs sub h = ground arith

FilterType-cases : (t : FilterType) → (t ≡ logs_subscription) ⊎ (t ≡ blocks_subscription)
FilterType-cases logs_subscription = inl refl
FilterType-cases blocks_subscription = inr refl

pub install_sub-HasSub :
    (id : ℕ) (sub other : Subscription) (subs : FilterIndex)
    → (other.id == id) ≡ false
    → HasSub id sub subs
    → HasSub id sub (install_sub subs other)
unfolding HasSub
install_sub-HasSub id sub other subs h has = elim (FilterType-cases other.typ) [
  | inl e ↦
      rw (install_sub-logs subs other e, keep_if-insert_other id other.id other subs.of_logs h) has
  | inr e ↦ rw (install_sub-blocks subs other e) has
]

pub uninstall_sub-HasSub :
    (id : ℕ) (sub other : Subscription) (subs : FilterIndex)
    → (other.id == id) ≡ false
    → HasSub id sub subs
    → HasSub id sub (uninstall_sub subs other)
unfolding HasSub
uninstall_sub-HasSub id sub other subs h has = elim (FilterType-cases other.typ) [
  | inl e ↦ rw (uninstall_sub-logs subs other e, keep_if-erase_other id other.id subs.of_logs h) has
  | inr e ↦ rw (uninstall_sub-blocks subs other e) has
]
