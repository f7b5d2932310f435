-- ===== src/Funded/Escrow/Fee.antt =====
-- The fee that apps/agent/src/escrow-service.ts quotes to the funder.
use grainlify_bounty_agent.Base.{
  ℕ, ◌+◌, ◌*◌, ◌/◌, ◌≤◌, ◌<◌, ◌≡◌, refl, ◌⊎◌, inl, inr, true, false, Bool-cases, none, some, arith,
  ltb, if◌then◌else◌,
}
use grainlify_bounty_agent.Funded.Escrow.{Quote, quote}

pct-le : (n : ℕ) → (n ≤ 10000 * ((n + 9999) / 10000)) × (10000 * ((n + 9999) / 10000) < n + 10000)
pct-le n = (omega arith, omega arith)

fee_of : ℕ → ℕ → ℕ
fee_of pct minimum = if ltb minimum pct then pct else minimum

fee_of-cases :
    (n minimum : ℕ)
    → let pct = (n + 9999) / 10000 in
      (minimum ≤ fee_of pct minimum)
      × (n ≤ 10000 * fee_of pct minimum)
      × ((ltb pct (fee_of pct minimum) ≡ true) × (fee_of pct minimum ≡ minimum)
          ⊎ (ltb pct (fee_of pct minimum) ≡ false) × (10000 * fee_of pct minimum < n + 10000))
unfolding fee_of
fee_of-cases n minimum =
    let (above, below) = pct-le n in
    elim (Bool-cases (ltb minimum ((n + 9999) / 10000))) [
      | inl over ↦
          rw over (
            (
              ground (arith, over),
              ground (arith, above),
              inr (ground arith, ground (arith, below)),
            ))
      | inr under ↦ rw under (
          (
            ground arith,
            ground (arith, under, above),
            elim (Bool-cases (ltb ((n + 9999) / 10000) minimum)) [
              | inl less ↦ inl (less, refl)
              | inr not_less ↦ inr (not_less, ground (arith, not_less, under, below))
            ],
          ))
    ]

-- The fee is on top of the amount; it is at least the minimum and at least the percentage, rounded up by
-- less than one unit; and it is exactly one of the two, the minimum where it says so. A quote is refused
-- only where the amount is zero.
pub quote-fee :
    (amount bps minimum : ℕ)
    → ((amount ≡ 0) × (quote amount bps minimum ≡ none))
      ⊎ ((q : Quote) × (quote amount bps minimum ≡ some q)
          × (q.total_minor ≡ amount + q.fee_amount_minor)
          × (minimum ≤ q.fee_amount_minor)
          × (amount * bps ≤ 10000 * q.fee_amount_minor)
          × ((q.floored_by_minimum ≡ true) × (q.fee_amount_minor ≡ minimum)
              ⊎ (q.floored_by_minimum ≡ false)
                × (10000 * q.fee_amount_minor < amount * bps + 10000)))
unfolding quote fee_of
quote-fee amount bps minimum = elim (Bool-cases (ltb 0 amount)) [
  | inl positive ↦
      let (least, covers, which) = fee_of-cases (amount * bps) minimum in
      inr (rw positive (_, refl, refl, least, covers, which))
  | inr zero_amount ↦ inl (ground arith, ground arith)
]
