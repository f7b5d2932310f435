-- ===== src/Inference/Signer/Replay.antt =====
-- Replays and the rail of the file: services/signer/src/signer.ts and journal.ts.
use grainlify_bounty_agent.Base.{
  ℕ, ◌≤◌, ◌≡◌, refl, ◌∙◌, true, false, Option, if_elim, update_if, first-concat, first-update_where,
  none, some, arith, ok, String, text_eq, includes, truthy, Message, positive_safe,
  is_uuid_any_case,
}
use grainlify_bounty_agent.Inference.Journal.{
  PaymentRow, is_status, has_quote, confirmed, RailKind, Journal, JournalError, open_journal,
  reserve, by_quote,
}
use grainlify_bounty_agent.Inference.Signer.{
  SignerConfig, PayQuoteRequest, Clock, Rail, paid, replay, begin, pay_quote, solana_mainnet,
  usepod_pay_to_allowlist, is_expiring,
}
use grainlify_bounty_agent.Inference.Signer.Ceiling.{Reach}
use grainlify_bounty_agent.Inference.Signer.Persists.{IsSameProof, Persists, Reach-P}

-- A request that passes the checks before the journal.
pub record IsAcceptable (cfg : SignerConfig) (c : Clock) (req : PayQuoteRequest) (amount : ℕ)
    : Type 0 where
  pub quote : is_uuid_any_case req.quote_id ≡ true
  pub network : text_eq req.network solana_mainnet ≡ true
  pub asset : text_eq req.asset "USDC" ≡ true
  pub address : includes usepod_pay_to_allowlist req.pay_to ≡ true
  pub positive : positive_safe req.amount_microunits ≡ some amount
  pub within_call : amount ≤ cfg.max_per_call_micro
  pub unexpired : is_expiring c (truthy req.expires_at) ≡ false

-- The row of a quote, confirmed with this signature.
pub record IsPaidAs (sig : String) (paid_amount : ℕ) (paid_fee : Option ℕ) (r : PaymentRow)
    : Type 0 where
  pub was : is_status confirmed r.status ≡ true
  pub signed : truthy r.tx_signature ≡ some sig
  pub amount : r.amount_micro ≡ paid_amount
  pub fee : r.fee_micro ≡ paid_fee

module _ (quote sig : String) (paid_amount : ℕ) (paid_fee : Option ℕ) where
  abbrev HasPaid : Journal → Type 0
  HasPaid j = (r : PaymentRow) × (by_quote j quote ≡ some r) × IsPaidAs sig paid_amount paid_fee r

  IsPaidAs-same :
      (r s : PaymentRow)
      → IsSameProof r s
      → IsPaidAs sig paid_amount paid_fee r
      → IsPaidAs sig paid_amount paid_fee s
  IsPaidAs-same r s k v = record {
    was = rw (k.status) v.was;
    signed = rw (k.tx_signature) v.signed;
    amount = k.amount ∙ v.amount;
    fee = k.fee ∙ v.fee;
  }

  HasPaid-Persists : Persists HasPaid
  unfolding by_quote
  HasPaid-Persists = record {
    inserts = λ j a (r, found, v). (r, first-concat (has_quote quote) j.rows _ r found, v);
    updates = λ j p f forward (r, found, v). (
      update_if p f r,
      first-update_where (has_quote quote) p f j.rows r (λ x. rw (forward.quote x) refl) found,
      if_elim (IsPaidAs sig paid_amount paid_fee) (p r) (f r) r
          (λ hit. IsPaidAs-same r (f r) (forward.settled r hit v.was) v) (λ miss. v),
    );
    signs = λ j proofs h. h;
  }

replay-paid :
    (address sig : String) (r : PaymentRow) (amount : ℕ) (fee : Option ℕ)
    → IsPaidAs sig amount fee r
    → replay address r r.status (truthy r.tx_signature)
      ≡ paid (record {
        payer_wallet = address;
        signature = sig;
        amount_micro = amount;
        fee_lamports = 0;
        fee_micro = elim fee [ none ↦ 0 | some n ↦ n ];
      })
replay-paid address sig r amount fee v = ground (arith, v.was, v.signed, v.amount, v.fee)

-- A payment that was confirmed is replayed for ever: after any later history, whatever the rail would do, a
-- request for its quote that passes the checks before the journal is answered with the recorded signature,
-- amount and fee, with no network fee, and leaves the journal alone.
pub pay_quote_replays :
    (cfg : SignerConfig) (c : Clock) (rail : Rail) (show : JournalError → Message)
    (req : PayQuoteRequest) (j k : Journal) (amount : ℕ) (row : PaymentRow) (sig : String)
    → by_quote j req.quote_id ≡ some row
    → row.status ≡ confirmed
    → truthy row.tx_signature ≡ some sig
    → Reach cfg j k
    → IsAcceptable cfg c req amount
    → pay_quote cfg c rail show req k ≡ (
      k,
      paid (record {
        payer_wallet = rail.address;
        signature = sig;
        amount_micro = row.amount_micro;
        fee_lamports = 0;
        fee_micro = elim row.fee_micro [ none ↦ 0 | some n ↦ n ];
      }),
    )
unfolding pay_quote begin reserve
pay_quote_replays cfg c rail show req j k amount row sig found was signed reach v =
    let (r, there, p) =
      Reach-P (HasPaid req.quote_id sig row.amount_micro row.fee_micro)
        (HasPaid-Persists req.quote_id sig row.amount_micro row.fee_micro) cfg reach
        (row, found, record { was = rw was refl; signed = signed; amount = refl; fee = refl }) in
    ground (
      arith,
      v.quote,
      v.network,
      v.asset,
      v.address,
      v.positive,
      v.within_call,
      v.unexpired,
      there,
      replay-paid rail.address sig r row.amount_micro row.fee_micro p,
    )

has_rail-Persists : (r : RailKind) → Persists (λ j. j.rail ≡ some r)
has_rail-Persists r = record {
  inserts = λ j a h. h;
  updates = λ j p f forward h. h;
  signs = λ j proofs h. h;
}

open_journal-rail : (j j' : Journal) (r : RailKind) → open_journal j r ≡ ok j' → j'.rail ≡ some r
unfolding open_journal
open_journal-rail j j' r e = ground arith

open_journal-bound :
    (j k : Journal) (r s : RailKind) → j.rail ≡ some r → open_journal j s ≡ ok k → s ≡ r
unfolding open_journal
open_journal-bound j k r s bound e = ground arith

-- A journal file that was opened for one rail can, after any history, be opened for no other: mock
-- payments never back a signer that pays for real, nor the other way round.
pub open_journal_binds :
    (cfg : SignerConfig) (j j' k k' : Journal) (r s : RailKind)
    → open_journal j r ≡ ok j'
    → Reach cfg j' k
    → open_journal k s ≡ ok k'
    → s ≡ r
open_journal_binds cfg j j' k k' r s opened reach again =
    open_journal-bound k k' r s
      (Reach-P (λ (i : Journal). i.rail ≡ some r) (has_rail-Persists r) cfg reach
        (open_journal-rail j j' r opened))
      again
