-- ===== src/Rpc/HeightRange.antt =====
-- Which heights the searches of the sbch requests cover (rpc/api/sbch_api.go).
use smartbch.Base.{Bool-cases, arith, inl, inr, ltb_i64, ℕ, ◌+◌, ◌-◌, ◌<◌, ◌^◌, ◌↔◌, ◌≡◌, ◌≤◌, ◌⊎◌}
use smartbch.Backend.{Node}
use smartbch.Rpc.Sbch.{prepare_height_range}

range_cases :
    (n : Node) (a b : ℕ)
    → a < 2 ^ 32 - 1
    → b < 2 ^ 32 - 1
    → ((prepare_height_range n a b ≡ (a + 1, b)) × (b < a))
      ⊎ ((prepare_height_range n a b ≡ (a, b + 1)) × (a ≤ b))
unfolding prepare_height_range
range_cases n a b below_a below_b = elim (Bool-cases (ltb_i64 b a)) [
  | inl falls ↦ inl (ground arith, ground arith)
  | inr rises ↦ inr (ground arith, ground arith)
]

-- Whether a height lies between two others, the smaller included and the greater not.
abbrev pub IsBetween : ℕ → ℕ × ℕ → Type 0
IsBetween h range = ((range.0 ≤ h) × (h < range.1)) ⊎ ((range.1 ≤ h) × (h < range.0))

covers_falling :
    (a b h : ℕ) → b < a → IsBetween h (a + 1, b) ↔ (((a ≤ h) × (h ≤ b)) ⊎ ((b ≤ h) × (h ≤ a)))
covers_falling a b h order = (
  λ between. elim between [
    | inl (low, high) ↦ absurd (omega arith)
    | inr (low, high) ↦ inr (low, omega arith)
  ],
  λ asked. elim asked [
    | inl (low, high) ↦ absurd (omega arith)
    | inr (low, high) ↦ inr (low, omega arith)
  ],
)

covers_rising :
    (a b h : ℕ) → a ≤ b → IsBetween h (a, b + 1) ↔ (((a ≤ h) × (h ≤ b)) ⊎ ((b ≤ h) × (h ≤ a)))
covers_rising a b h order = (
  λ between. elim between [
    | inl (low, high) ↦ inl (low, omega arith)
    | inr (low, high) ↦ absurd (omega arith)
  ],
  λ asked. elim asked [
    | inl (low, high) ↦ inl (low, omega arith)
    | inr (low, high) ↦ inl (omega arith, omega arith)
  ],
)

-- For two heights from 0 up to 2 ^ 32 - 2, the prepared pair of `uint32`s covers both heights and all
-- between them, whichever of them comes first: a height lies between the two, the smaller included and
-- the greater not, exactly if it lies between the heights that were asked for, both included. And
-- the pair rises exactly if those do not fall.
pub prepare_height_range_lem :
    (n : Node) (a b h : ℕ)
    → a < 2 ^ 32 - 1
    → b < 2 ^ 32 - 1
    → (IsBetween h (prepare_height_range n a b) ↔ (((a ≤ h) × (h ≤ b)) ⊎ ((b ≤ h) × (h ≤ a))))
      × (((prepare_height_range n a b).0 < (prepare_height_range n a b).1) ↔ (a ≤ b))
prepare_height_range_lem n a b h below_a below_b = elim (range_cases n a b below_a below_b) [
  | inl (falls, order) ↦
      rw falls
        (covers_falling a b h order, (λ rise. absurd (omega arith), λ rise. absurd (omega arith)))
  | inr (rises, order) ↦ rw rises (covers_rising a b h order, (λ rise. order, λ rise. omega arith))
]
