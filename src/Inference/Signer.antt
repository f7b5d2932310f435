-- ===== src/Inference/Signer.antt =====
-- services/signer/src/signer.ts: `Signer.payQuote`, cut at its two awaits, and `balanceProof`. The
-- rail and the clock are parameters; a refusal's text is a constructor of `Reason`.
pub mod Safe
pub mod Ceiling
pub mod Persists
pub mod Once
pub mod Replay
use Prim.Native.String
use grainlify_bounty_agent.Base.{
  ℕ, ◌+◌, min, Bool, true, false, not, Option, none, some, List, [], ◌∷◌, ltb, leb, if◌then◌else◌,
  Result, ok, err, String, text_eq, includes, truthy, Message, JsNumber, positive_safe,
  is_uuid_any_case,
}
use grainlify_bounty_agent.Budget.Governor.{hard_lifetime_ceiling_micro, lamports_to_micro_ceil}
use grainlify_bounty_agent.Inference.Journal.{
  Journal, JournalError, PaymentRow, PaymentStatus, reserved, sent, confirmed, failed_unsent,
  Reservation, ReserveArgs, made, already_paid, over_ceiling, committed_micro, reserve, mark_sent,
  mark_confirmed, mark_failed_unsent, mark_error, record_balance_proof,
}

pub record SignerConfig : Type 0 where
  pub lifetime_ceiling_micro : ℕ
  pub max_per_call_micro : ℕ
  pub sol_usd_ceiling_price : ℕ

-- What the environment says of a setting: nothing or an empty text, a non-negative number, or
-- something for which the process stops at boot. Settings are whole numbers here.
pub data EnvNumber : Type 0 where
  absent : EnvNumber
  number : ℕ → EnvNumber
  malformed : EnvNumber

abbrev num : EnvNumber → ℕ → Option ℕ
num absent d = some d
num (number n) d = some n
num malformed d = none

abbrev bind {ℓ κ} : {A : Type ℓ} {B : Type κ} → Option A → (A → Option B) → Option B
bind none f = none
bind (some a) f = f a

unfoldable pub signer_config : EnvNumber → EnvNumber → EnvNumber → Option SignerConfig
signer_config ceiling max_per_call price = bind (num ceiling hard_lifetime_ceiling_micro) λ c.
    bind (num max_per_call 50000) λ m. bind (num price 400) λ p. some (record {
      lifetime_ceiling_micro = min c hard_lifetime_ceiling_micro;
      max_per_call_micro = m;
      sol_usd_ceiling_price = p;
    })

pub record PayQuoteRequest : Type 0 where
  pub quote_id : String
  pub network : String
  pub asset : String
  pub pay_to : String
  pub amount_microunits : JsNumber
  pub expires_at : Option String

pub data Reason : Type 0 where
  bad_quote_id wrong_network wrong_asset not_allowlisted bad_amount over_per_call expired : Reason
  ceiling quote_already_paid : Reason
  could_not_build outcome_unknown : Message → Reason

pub record Paid : Type 0 where
  pub payer_wallet : String
  pub signature : String
  pub amount_micro : ℕ
  pub fee_lamports : ℕ
  pub fee_micro : ℕ

-- `thrown` is a rejected promise: a journal update that throws outside the `try` blocks.
pub data PayResult : Type 0 where
  paid : Paid → PayResult
  refused : ℕ → Reason → PayResult
  thrown : JournalError → PayResult

-- packages/x402/src/protocol.ts
abbrev pub solana_mainnet : String
solana_mainnet = "solana:5eykt4UsFv8P8NJdTREpY1vzqKqZKvdp"

abbrev pub usepod_pay_to_allowlist : List String
usepod_pay_to_allowlist = "GXfqVnZENHzvim8rNN8TPwqxWXQe8EBbxhcEMYE8Z7BS" ∷ []

-- services/signer/src/solana-rail.ts
abbrev pub fee_reserve_lamports : ℕ
fee_reserve_lamports = 10000

pub record Transfer : Type 0 where
  pub signature : String
  pub fee_lamports : ℕ

-- A built transfer: its signature is known before `broadcast`, whose outcome is the second field.
pub record Prepared : Type 0 where
  pub signature : String
  pub broadcast : Result Message Transfer

pub record Rail : Type 0 where
  pub address : String
  pub sign_message : String → String
  pub prepare_usdc_transfer : String → ℕ → Result Message Prepared

-- The first part of `payQuote` ends with an answer, or with a reservation and the transfer to
-- build.
pub data Begun : Type 0 where
  answer : PayResult → Begun
  build : ℕ → ℕ → Begun

-- The clock's time in milliseconds, and `Date.parse`, where `none` is NaN. A comparison with NaN
-- is false.
pub record Clock : Type 0 where
  pub now : ℕ
  pub date_parse : String → Option ℕ

abbrev is_expiring : Clock → Option String → Bool
is_expiring c none = false
is_expiring c (some s) = elim (c.date_parse s) [ none ↦ false | some t ↦ leb t (c.now + 10000) ]

abbrev pub reserve_args : SignerConfig → PayQuoteRequest → ℕ → ReserveArgs
reserve_args cfg req amount = record {
  quote_id = req.quote_id;
  pay_to = req.pay_to;
  amount_micro = amount;
  fee_reserve_micro = lamports_to_micro_ceil fee_reserve_lamports cfg.sol_usd_ceiling_price;
  ceiling_micro = cfg.lifetime_ceiling_micro;
}

abbrev replayed : String → PaymentRow → String → PayResult
replayed address row sig = paid (record {
  payer_wallet = address;
  signature = sig;
  amount_micro = row.amount_micro;
  fee_lamports = 0;
  fee_micro = elim row.fee_micro [ none ↦ 0 | some fee ↦ fee ];
})

-- A quote that has a row is answered with the same proof if it was confirmed.
abbrev replay : String → PaymentRow → PaymentStatus → Option String → PayResult
replay address row confirmed (some sig) = replayed address row sig
replay address row confirmed none = refused 409 quote_already_paid
replay address row reserved sig = refused 409 quote_already_paid
replay address row sent sig = refused 409 quote_already_paid
replay address row failed_unsent sig = refused 409 quote_already_paid

abbrev reserved_or_answered : String → ℕ → Journal × Reservation → Journal × Begun
reserved_or_answered address amount (j, made id) = (j, build id amount)
reserved_or_answered address amount (j, already_paid row) =
    (j, answer (replay address row row.status (truthy row.tx_signature)))
reserved_or_answered address amount (j, over_ceiling after) = (j, answer (refused 403 ceiling))

abbrev with_amount :
    SignerConfig → Clock → String → PayQuoteRequest → Journal → Option ℕ → Journal × Begun
with_amount cfg c address req j none = (j, answer (refused 400 bad_amount))
with_amount cfg c address req j (some amount) =
    if ltb cfg.max_per_call_micro amount
    then (j, answer (refused 403 over_per_call))
    else if is_expiring c (truthy req.expires_at)
    then (j, answer (refused 400 expired))
    else reserved_or_answered address amount (reserve j (reserve_args cfg req amount))

-- `payQuote` up to the first await.
unfoldable pub begin : SignerConfig → Clock → String → PayQuoteRequest → Journal → Journal × Begun
begin cfg c address req j =
    if not (is_uuid_any_case req.quote_id)
    then (j, answer (refused 400 bad_quote_id))
    else if not (text_eq req.network solana_mainnet)
    then (j, answer (refused 403 wrong_network))
    else if not (text_eq req.asset "USDC")
    then (j, answer (refused 403 wrong_asset))
    else if not (includes usepod_pay_to_allowlist req.pay_to)
    then (j, answer (refused 403 not_allowlisted))
    else with_amount cfg c address req j (positive_safe req.amount_microunits)

-- A rejected promise keeps the journal as it was.
abbrev or_thrown : Journal → PayResult → Result JournalError Journal → Journal × PayResult
or_thrown j r (ok j') = (j', r)
or_thrown j r (err e) = (j, thrown e)

-- The transfer could not be built.
unfoldable pub build_failed : ℕ → Message → Journal → Journal × PayResult
build_failed id e j = or_thrown j (refused 422 (could_not_build e)) (mark_failed_unsent j id e)

-- The signature is in the journal before anything is broadcast.
unfoldable pub built : ℕ → String → Journal → Result JournalError Journal
built id sig j = mark_sent j id sig

abbrev outcome_lost : ℕ → Message → Journal → Journal × PayResult
outcome_lost id e j = (mark_error j id e, refused 502 (outcome_unknown e))

-- What a `String(e)` of a journal's error reads is a parameter of the next function.
unfoldable pub broadcast_ok :
    SignerConfig
    → String
    → (JournalError → Message)
    → ℕ
    → ℕ
    → Transfer
    → Journal
    → Journal × PayResult
broadcast_ok cfg address show id amount t j =
    let fee = lamports_to_micro_ceil t.fee_lamports cfg.sol_usd_ceiling_price in
    elim (mark_confirmed j id fee) [
      | ok j' ↦ (
        j',
        paid (record {
          payer_wallet = address;
          signature = t.signature;
          amount_micro = amount;
          fee_lamports = t.fee_lamports;
          fee_micro = fee;
        }),
      )
      | err e ↦ outcome_lost id (show e) j
    ]

unfoldable pub broadcast_failed : ℕ → Message → Journal → Journal × PayResult
broadcast_failed id e j = outcome_lost id e j

abbrev finish_broadcast :
    SignerConfig
    → String
    → (JournalError → Message)
    → ℕ
    → ℕ
    → Result Message Transfer
    → Journal
    → Journal × PayResult
finish_broadcast cfg address show id amount (ok t) j = broadcast_ok cfg address show id amount t j
finish_broadcast cfg address show id amount (err e) j = broadcast_failed id e j

abbrev finish_build :
    SignerConfig
    → String
    → (JournalError → Message)
    → ℕ
    → ℕ
    → Result Message Prepared
    → Journal
    → Journal × PayResult
finish_build cfg address show id amount (err e) j = build_failed id e j
finish_build cfg address show id amount (ok p) j = elim (built id p.signature j) [
  | ok j' ↦ finish_broadcast cfg address show id amount p.broadcast j'
  | err e ↦ (j, thrown e)
]

abbrev finish :
    SignerConfig
    → Rail
    → (JournalError → Message)
    → PayQuoteRequest
    → Journal × Begun
    → Journal × PayResult
finish cfg rail show req (j, answer r) = (j, r)
finish cfg rail show req (j, build id amount) =
    finish_build cfg rail.address show id amount (rail.prepare_usdc_transfer req.pay_to amount) j

-- `payQuote` with no other request between its parts.
unfoldable pub pay_quote :
    SignerConfig
    → Clock
    → Rail
    → (JournalError → Message)
    → PayQuoteRequest
    → Journal
    → Journal × PayResult
pay_quote cfg c rail show req j = finish cfg rail show req (begin cfg c rail.address req j)

pub data ProofResult : Type 0 where
  proof : String → String → ProofResult
  proof_refused : ℕ → Reason → ProofResult

-- packages/x402/src/protocol.ts
unfoldable pub balance_proof_message : String → String
balance_proof_message quote_id = String.◌++◌ "usepod-x402-spend:" quote_id

unfoldable pub balance_proof : SignerConfig → Rail → String → Journal → Journal × ProofResult
unfolding balance_proof_message
balance_proof cfg rail quote_id j =
    if not (is_uuid_any_case quote_id)
    then (j, proof_refused 400 bad_quote_id)
    else if leb cfg.lifetime_ceiling_micro (committed_micro j)
    then (j, proof_refused 403 ceiling)
    else (
      (record_balance_proof j quote_id).0,
      proof rail.address (rail.sign_message (balance_proof_message quote_id)),
    )
