-- ===== src/Gate/Approval/RoundTrip.antt =====
-- `signEnvelope` and `verifyEnvelope` of packages/gate/src/approval.ts fit together.
use grainlify_bounty_agent.Base.{
  ℕ, ◌+◌, ◌≡◌, true, some, List, arith, String, includes, ltb, if◌then◌else◌,
}
use grainlify_bounty_agent.Gate.Approval.{
  SignedText, Crypto, envelope_message, approved, expired, approval_ttl_ms, sign_envelope,
  verify_envelope,
}

-- What the rest relies on: a signature of the approver's key verifies for its address, and
-- `Date.parse` reads what `toISOString` wrote of the two times.
pub record Agrees {ℓ} {T : Type ℓ} (k : Crypto T) (sign : SignedText T → String) (iso : ℕ → String)
    (address : String) (now : ℕ) : Type ℓ where
  pub verifies : (m : SignedText T) → k.verify_detached address m (sign m) ≡ true
  pub starts : k.date_parse (iso now) ≡ some now
  pub ends : k.date_parse (iso (now + approval_ttl_ms)) ≡ some (now + approval_ttl_ms)

-- The verdict on what a trusted approver signs: accepted until an hour later, and from then on expired.
pub verify_envelope-sign_envelope {ℓ} :
    {T : Type ℓ} (k : Crypto T) (sign : SignedText T → String) (iso : ℕ → String) (domain : String)
    (terms : T) (address : String) (now later : ℕ) (trusted : List String)
    → Agrees k sign iso address now
    → includes trusted address ≡ true
    → verify_envelope k domain (sign_envelope sign iso domain terms address now) trusted later
      ≡ (if ltb later (now + approval_ttl_ms) then approved else expired)
unfolding verify_envelope sign_envelope
verify_envelope-sign_envelope k sign iso domain terms address now later trusted a t = ground (
  arith,
  t,
  a.starts,
  a.ends,
  a.verifies (envelope_message domain terms (iso now) (iso (now + approval_ttl_ms))),
)
