-- ===== src/Inference/Tests.antt =====
-- Runs of the inference signer, and the theorems at concrete inputs.
use grainlify_bounty_agent.Base.{
  ◌≤◌, ◌≡◌, refl, none, some, [], ◌∷◌, arith, ok, err, nat, All, IsApart, Message, is_uuid_any_case,
  text_eq,
}
use grainlify_bounty_agent.Budget.Governor.{hard_lifetime_ceiling_micro, lamports_to_micro_ceil}
use grainlify_bounty_agent.Inference.Journal.{
  PaymentRow, confirmed, reserved, sent, solana, Journal, JournalError, illegal_transition,
  open_journal, committed_micro, by_quote, reserve, mark_sent, mark_confirmed,
}
use grainlify_bounty_agent.Inference.Journal.Sums.{same_quote}
use grainlify_bounty_agent.Inference.Signer.{
  SignerConfig, signer_config, absent, PayQuoteRequest, Clock, Rail, answer, build, PayResult, paid,
  begin, built, broadcast_ok, pay_quote, solana_mainnet,
}
use grainlify_bounty_agent.Inference.Signer.Safe.{IsPayable}
use grainlify_bounty_agent.Inference.Signer.Ceiling.{
  Reach, here, next, begins, builds, empty_journal, Reach-committed_micro,
}
use grainlify_bounty_agent.Inference.Signer.Once.{begin_once, built_once}
use grainlify_bounty_agent.Inference.Signer.Replay.{
  IsAcceptable, pay_quote_replays, open_journal_binds,
}

abbrev cfg : SignerConfig
cfg = record {
  lifetime_ceiling_micro = 5000000;
  max_per_call_micro = 50000;
  sol_usd_ceiling_price = 400;
}

abbrev clock : Clock
clock = record { now = 1000; date_parse = λ s. some 90000 }

abbrev req : PayQuoteRequest
req = record {
  quote_id = "01234567-89ab-cdef-0123-456789ABCDEF";
  network = solana_mainnet;
  asset = "USDC";
  pay_to = "GXfqVnZENHzvim8rNN8TPwqxWXQe8EBbxhcEMYE8Z7BS";
  amount_microunits = nat 12000;
  expires_at = some "2026-09-30T00:00:00Z";
}

abbrev rail : Rail
rail = record {
  address = "wallet";
  sign_message = λ m. m;
  prepare_usdc_transfer = λ to amount. ok (record {
    signature = "sig";
    broadcast = ok (record { signature = "sig"; fee_lamports = 5010 });
  });
}

abbrev show : JournalError → Message
show e = []

abbrev empty : Journal
empty = empty_journal solana

abbrev row : PaymentRow
row = record {
  id = 1;
  quote_id = req.quote_id;
  pay_to = req.pay_to;
  amount_micro = 12000;
  fee_reserve_micro = 4000;
  fee_micro = none;
  status = reserved;
  tx_signature = none;
  error = none;
}

abbrev holding : PaymentRow → Journal
holding r = record { rows = r ∷ []; seq = 1; rail = some solana; balance_proofs = [] }

abbrev sent_row : PaymentRow
sent_row = record row { status = sent; tx_signature = some "sig" }

abbrev paid_row : PaymentRow
paid_row = record sent_row { status = confirmed; fee_micro = some 2004 }

begin-first : begin cfg clock "wallet" req empty ≡ (holding row, build 1 12000)
unfolding begin reserve is_uuid_any_case text_eq committed_micro lamports_to_micro_ceil
begin-first = refl

pay_quote-first : pay_quote cfg clock rail show req empty ≡ (
  holding paid_row,
  paid (record {
    payer_wallet = "wallet";
    signature = "sig";
    amount_micro = 12000;
    fee_lamports = 5010;
    fee_micro = 2004;
  }),
)
unfolding pay_quote begin built broadcast_ok mark_sent mark_confirmed reserve is_uuid_any_case
    text_eq committed_micro lamports_to_micro_ceil
pay_quote-first = refl

holding-Reach : Reach cfg empty (holding row)
unfolding begin reserve is_uuid_any_case text_eq committed_micro lamports_to_micro_ceil
holding-Reach = next here (begins clock "wallet" req empty)

sent-built : built 1 "sig" (holding row) ≡ ok (holding sent_row)
unfolding built mark_sent
sent-built = refl

Reach-committed_micro_example :
    (committed_micro (holding row) ≤ hard_lifetime_ceiling_micro)
    × IsApart same_quote (holding row).rows
    × All (IsPayable cfg) (holding row).rows
unfolding signer_config
Reach-committed_micro_example =
    Reach-committed_micro absent absent absent cfg solana (holding row) refl holding-Reach

begin_once_example :
    (r : PayResult) × (begin cfg clock "wallet" req (holding sent_row)
      ≡ (holding sent_row, answer r))
unfolding begin reserve is_uuid_any_case text_eq committed_micro lamports_to_micro_ceil
begin_once_example =
    begin_once cfg clock clock "wallet" "wallet" req req empty (holding sent_row) 1 12000 refl
      (next here (builds 1 "sig" (holding row) (holding sent_row) sent-built)) refl

built_once_example : built 1 "other" (holding sent_row) ≡ err illegal_transition
built_once_example =
    built_once cfg solana 1 "sig" "other" (holding row) (holding sent_row) (holding sent_row)
      holding-Reach sent-built here

req-IsAcceptable : IsAcceptable cfg clock req 12000
unfolding is_uuid_any_case text_eq
req-IsAcceptable = record {
  quote = refl;
  network = refl;
  asset = refl;
  address = refl;
  positive = refl;
  within_call = omega arith;
  unexpired = refl;
}

-- The quote was paid, and a second request for it came and went.
paid-Reach : Reach cfg (holding paid_row) (holding paid_row)
unfolding begin reserve is_uuid_any_case text_eq committed_micro lamports_to_micro_ceil
paid-Reach = next here (begins clock "wallet" req (holding paid_row))

pay_quote_replays_example : pay_quote cfg clock rail show req (holding paid_row) ≡ (
  holding paid_row,
  paid (record {
    payer_wallet = "wallet";
    signature = "sig";
    amount_micro = 12000;
    fee_lamports = 0;
    fee_micro = 2004;
  }),
)
unfolding by_quote text_eq
pay_quote_replays_example =
    pay_quote_replays cfg clock rail show req (holding paid_row) (holding paid_row) 12000 paid_row
      "sig" refl refl refl paid-Reach req-IsAcceptable

open_journal_binds_example : solana ≡ solana
unfolding open_journal
open_journal_binds_example =
    open_journal_binds cfg empty empty (holding row) (holding row) solana solana refl holding-Reach
      refl
