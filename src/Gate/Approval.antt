-- ===== src/Gate/Approval.antt =====
-- packages/gate/src/approval.ts: the signed envelope that every payout approval shares. What is
-- signed is the JSON text of the domain, the terms in key order and the two times; it determines
-- these, and stands here as a record of them. Ed25519, `Date.parse` and `BigInt` are parameters.
pub mod Laws
pub mod RoundTrip
use grainlify_bounty_agent.Base.{
  ℕ, ◌+◌, Bool, false, not, Option, none, some, List, ltb, leb, if◌then◌else◌, String, includes,
}

-- 60 * 60 * 1000
abbrev pub approval_ttl_ms : ℕ
approval_ttl_ms = 3600000

pub record Envelope {ℓ} (T : Type ℓ) : Type ℓ where
  pub terms : T
  pub approver : String
  pub approved_at : String
  pub expires_at : String
  pub signature : String

pub record SignedText {ℓ} (T : Type ℓ) : Type ℓ where
  pub domain : String
  pub terms : T
  pub approved_at : String
  pub expires_at : String

abbrev pub envelope_message {ℓ} : {T : Type ℓ} → String → T → String → String → SignedText T
envelope_message domain terms approved_at expires_at = record {
  domain = domain;
  terms = terms;
  approved_at = approved_at;
  expires_at = expires_at;
}

-- `verify_detached address message signature`; `date_parse` is `none` for NaN.
pub record Crypto {ℓ} (T : Type ℓ) : Type ℓ where
  pub verify_detached : String → SignedText T → String → Bool
  pub date_parse : String → Option ℕ

pub data ApprovalCheck : Type 0 where
  approved untrusted expired too_long bad_signature : ApprovalCheck

-- `exp - approved > ttl`, which is false where `approved` is NaN.
abbrev lives_too_long : ℕ → Option ℕ → Bool
lives_too_long exp none = false
lives_too_long exp (some approved_at) = ltb (approved_at + approval_ttl_ms) exp

abbrev check_times : ℕ → Option ℕ → Option ℕ → ApprovalCheck → ApprovalCheck
check_times now none approved_at rest = expired
check_times now (some exp) approved_at rest =
    if leb exp now then expired else if lives_too_long exp approved_at then too_long else rest

unfoldable pub verify_envelope {ℓ} :
    {T : Type ℓ} → Crypto T → String → Envelope T → List String → ℕ → ApprovalCheck
verify_envelope k domain a trusted_approvers now =
    if not (includes trusted_approvers a.approver)
    then untrusted
    else check_times now (k.date_parse a.expires_at) (k.date_parse a.approved_at) (
        if not (
          k.verify_detached a.approver (envelope_message domain a.terms a.approved_at a.expires_at)
            a.signature)
        then bad_signature
        else approved)

pub record PayoutTerms : Type 0 where
  pub payout_id : String
  pub bounty_id : String
  pub repo : String
  pub issue_number : ℕ
  pub pr_number : ℕ
  pub author_login : String
  pub recipient : String
  pub amount_minor : String
  pub currency : String
  pub mint : String
  pub network : String
  pub escrow : Option String

abbrev pub Approval : Type 0
Approval = Envelope PayoutTerms

-- The domain, with the newline that ends it.
abbrev pub prefix : String
prefix = "grainlify-payout-approval:v1\n"

unfoldable pub verify_approval : Crypto PayoutTerms → Approval → List String → ℕ → ApprovalCheck
unfolding verify_envelope
verify_approval k a trusted_approvers now = verify_envelope k prefix a trusted_approvers now

-- `sign` is `signDetached` with the approver's key, and `iso` is `toISOString`.
unfoldable pub sign_envelope {ℓ} :
    {T : Type ℓ} → (SignedText T → String) → (ℕ → String) → String → T → String → ℕ → Envelope T
sign_envelope sign iso domain terms approver_address now = record {
  terms = terms;
  approver = approver_address;
  approved_at = iso now;
  expires_at = iso (now + approval_ttl_ms);
  signature = sign (envelope_message domain terms (iso now) (iso (now + approval_ttl_ms)));
}
