-- ===== src/Grainhack/Caps.antt =====
-- services/signer/src/grainhack/caps.ts: the ceilings of hackathon payouts.
use grainlify_bounty_agent.Base.{
  ℕ, ◌≤◌, ◌≡◌, ◌&&◌, Option, none, some, arith, ltb, if◌then◌else◌, String, text_eq, Option-cases,
  inl, inr,
}

pub record GrainhackCaps : Type 0 where
  pub per_payout_max_minor : ℕ
  pub per_event_max_minor : ℕ
  pub daily_max_minor : ℕ

-- Partial<GrainhackCaps>
pub record PartialCaps : Type 0 where
  pub per_payout_max_minor : Option ℕ
  pub per_event_max_minor : Option ℕ
  pub daily_max_minor : Option ℕ

unfoldable pub grainhack_hard_caps : String → Option GrainhackCaps
grainhack_hard_caps currency =
    if text_eq currency "USDC"
    then some (record {
      per_payout_max_minor = 500000000;
      per_event_max_minor = 5000000000;
      daily_max_minor = 2500000000;
    })
    else none

abbrev lower : ℕ → Option ℕ → ℕ
lower hard none = hard
lower hard (some configured) = if ltb 0 configured && ltb configured hard then configured else hard

abbrev lowered : GrainhackCaps → Option PartialCaps → GrainhackCaps
lowered hard none = hard
lowered hard (some c) = record {
  per_payout_max_minor = lower hard.per_payout_max_minor c.per_payout_max_minor;
  per_event_max_minor = lower hard.per_event_max_minor c.per_event_max_minor;
  daily_max_minor = lower hard.daily_max_minor c.daily_max_minor;
}

unfoldable pub grainhack_caps_for : String → Option PartialCaps → Option GrainhackCaps
unfolding grainhack_hard_caps
grainhack_caps_for currency configured = elim (grainhack_hard_caps currency) [
  | none ↦ none
  | some hard ↦ some (lowered hard configured)
]

lower-le : (hard : ℕ) (configured : Option ℕ) → lower hard configured ≤ hard
lower-le hard none = omega arith
lower-le hard (some configured) = ground arith

lowered-le :
    (hard : GrainhackCaps) (configured : Option PartialCaps)
    → ((lowered hard configured).per_payout_max_minor ≤ hard.per_payout_max_minor)
      × ((lowered hard configured).per_event_max_minor ≤ hard.per_event_max_minor)
      × ((lowered hard configured).daily_max_minor ≤ hard.daily_max_minor)
lowered-le hard none = (omega arith, omega arith, omega arith)
lowered-le hard (some c) = (
  lower-le hard.per_payout_max_minor c.per_payout_max_minor,
  lower-le hard.per_event_max_minor c.per_event_max_minor,
  lower-le hard.daily_max_minor c.daily_max_minor,
)

-- Configuration only lowers the caps of a payout, an event and a day, and gives none to a currency
-- that has no hard caps.
pub grainhack_caps_for_le :
    (currency : String) (configured : Option PartialCaps) (k : GrainhackCaps)
    → grainhack_caps_for currency configured ≡ some k
    → (hard : GrainhackCaps) × (grainhack_hard_caps currency ≡ some hard)
      × (k.per_payout_max_minor ≤ hard.per_payout_max_minor)
      × (k.per_event_max_minor ≤ hard.per_event_max_minor)
      × (k.daily_max_minor ≤ hard.daily_max_minor)
unfolding grainhack_caps_for
grainhack_caps_for_le currency configured k e = elim (Option-cases (grainhack_hard_caps currency)) [
  | inl unknown ↦ absurd (ground arith)
  | inr (hard, known) ↦
      let same : k ≡ lowered hard configured = ground arith in
      let (payout, event, day) = lowered-le hard configured in
      (hard, known, rw same payout, rw same event, rw same day)
]
