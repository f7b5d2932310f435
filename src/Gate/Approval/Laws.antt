-- ===== src/Gate/Approval/Laws.antt =====
-- What `verifyEnvelope` of packages/gate/src/approval.ts promises.
use grainlify_bounty_agent.Base.{
  ℕ, ◌+◌, ◌≤◌, ◌<◌, ◌≡◌, ◌↔◌, ◌⊎◌, inl, inr, true, none, some, List, arith, String, includes,
  Option-cases,
}
use grainlify_bounty_agent.Gate.Approval.{
  Envelope, Crypto, envelope_message, approved, approval_ttl_ms, verify_envelope,
}

-- An approval that is in force: from a trusted approver, not yet expired, with a lifetime that is
-- within the limit where the start can be read, and with a signature under the domain.
pub record IsInForce {ℓ} {T : Type ℓ} (k : Crypto T) (domain : String) (a : Envelope T)
    (trusted : List String) (now exp : ℕ) : Type ℓ where
  pub is_trusted : includes trusted a.approver ≡ true
  pub expiry : k.date_parse a.expires_at ≡ some exp
  pub unexpired : now < exp
  pub lifetime :
      (k.date_parse a.approved_at ≡ none)
      ⊎ ((start : ℕ) × (k.date_parse a.approved_at ≡ some start) × (exp ≤ start + approval_ttl_ms))
  pub signed :
      k.verify_detached a.approver
        (envelope_message domain a.terms a.approved_at a.expires_at)
        a.signature
      ≡ true

module _ {ℓ} {T : Type ℓ} (k : Crypto T) (domain : String) (a : Envelope T) (trusted : List String)
    (now : ℕ) where
  verify_sound :
      verify_envelope k domain a trusted now ≡ approved
      → (exp : ℕ) × IsInForce k domain a trusted now exp
  unfolding verify_envelope
  verify_sound e = elim (Option-cases (k.date_parse a.expires_at)) [
    | inl unreadable ↦ absurd (ground arith)
    | inr (exp, readable) ↦ (
      exp,
      record {
        is_trusted = ground arith;
        expiry = readable;
        unexpired = ground arith;
        lifetime = elim (Option-cases (k.date_parse a.approved_at)) [
          | inl unknown ↦ inl unknown
          | inr (start, known) ↦ inr (start, known, ground arith)
        ];
        signed = ground arith;
      },
    )
  ]

  verify_complete :
      (exp : ℕ)
      → IsInForce k domain a trusted now exp
      → verify_envelope k domain a trusted now ≡ approved
  unfolding verify_envelope
  verify_complete exp v = elim v.lifetime [
    | inl unreadable ↦ ground (arith, v.is_trusted, v.expiry, v.unexpired, v.signed)
    | inr (start, readable, short) ↦ ground (arith, v.is_trusted, v.expiry, v.unexpired, v.signed)
  ]

  -- An envelope is accepted exactly when its approver is trusted, its expiry can be read and lies
  -- ahead, it ends within an hour of its start if the start can be read, and its signature verifies
  -- under the domain.
  pub verify_envelope_iff :
      (verify_envelope k domain a trusted now ≡ approved)
      ↔ ((exp : ℕ) × IsInForce k domain a trusted now exp)
  verify_envelope_iff = (verify_sound, λ (exp, v). verify_complete exp v)
