-- ===== src/Grainhack/Tests.antt =====
-- Runs of the GrainHack signer and its resolver, and the theorems at concrete inputs.
use grainlify_bounty_agent.Base.{
  ◌≤◌, ◌≡◌, refl, true, false, none, some, [], ◌∷◌, ok, String, text_eq, IsApart,
}
use grainlify_bounty_agent.Grainhack.Caps.{
  GrainhackCaps, PartialCaps, grainhack_hard_caps, grainhack_caps_for, grainhack_caps_for_le,
}
use grainlify_bounty_agent.Grainhack.Journal.{
  GrainhackJournal, sent, committed_to_event, committed_on_day, check, for_winner, by_payout_id,
  reserve,
}
use grainlify_bounty_agent.Grainhack.Journal.Move.{mark, never_landed}
use grainlify_bounty_agent.Grainhack.Journal.Keep.{same_payment}
use grainlify_bounty_agent.Grainhack.Resolve.{missing, decide, NeverMoved, decide_never_landed}
use grainlify_bounty_agent.Grainhack.Signer.{
  GrainhackTerms, payable, StatementLine, ResultsStatement, line_for, GrainhackSignerConfig,
  GrainhackPayRequest, Host, Checked, check_request, verify_grainhack_approval, begin, build,
  broadcast, built,
}
use grainlify_bounty_agent.Grainhack.Signer.Within.{
  IsPayable, check_request-IsPayable, Reach, here, next, builds, empty_journal, Reach-winner_once,
}

abbrev terms : GrainhackTerms
terms = record {
  payout_id = "p1";
  statement_id = "s1";
  statement_sha256 = "digest";
  hackathon_id = "h1";
  pool = "contributor";
  github_user_id = 42;
  login = "ada";
  recipient = "wallet";
  amount_minor = "100000000";
  currency = "USDC";
  mint = "usdc";
  network = "solana-mainnet";
}

abbrev req : GrainhackPayRequest
req = record {
  approval = record {
    terms = terms;
    approver = "admin";
    approved_at = "1000";
    expires_at = "1801000";
    signature = "sig";
  };
  statement = "statement";
  statement_signature = "backend";
}

abbrev line : StatementLine
line = record { github_user_id = 42; login = "ada"; amount_minor = "100000000"; status = payable }

abbrev statement : ResultsStatement
statement = record {
  statement_id = "s1";
  hackathon_id = "h1";
  pool = "contributor";
  currency = "USDC";
  network = "solana-mainnet";
  pool_minor = "900000000";
  lines = line ∷ [];
}

abbrev cfg : GrainhackSignerConfig
cfg = record {
  network = "solana-mainnet";
  mints = λ currency. some (record { mint = "usdc"; decimals = 6 });
  caps = λ currency. none;
  trusted_approvers = "admin" ∷ [];
  results_pubkey = "key";
}

abbrev host : Host
host = record {
  has_shape = λ t. true;
  crypto = record {
    verify_detached = λ address message signature. text_eq signature "sig";
    date_parse = λ s. elim (text_eq s "1000") [ true ↦ some 1000 | false ↦ some 1801000 ];
  };
  verify_statement = λ text signature key. some statement;
  statement_sha256 = λ text. "digest";
  is_solana_address = λ s. true;
  big_int = λ s. elim (text_eq s "100000000") [ true ↦ 100000000 | false ↦ 900000000 ];
  address = "float";
}

abbrev caps : GrainhackCaps
caps = record {
  per_payout_max_minor = 500000000;
  per_event_max_minor = 5000000000;
  daily_max_minor = 2500000000;
}

abbrev checked : Checked
checked = record {
  statement = statement;
  mint = record { mint = "usdc"; decimals = 6 };
  line = line;
  amount = 100000000;
  caps = caps;
}

check_request-passes : check_request cfg host req 2000 ≡ ok checked
unfolding check_request verify_grainhack_approval line_for grainhack_caps_for text_eq
check_request-passes = refl

begin-first : begin cfg host req 2000 "2026-09-28" empty_journal ≡ build checked
unfolding begin check_request verify_grainhack_approval line_for grainhack_caps_for text_eq check
    for_winner by_payout_id committed_to_event committed_on_day
begin-first = refl

abbrev after : GrainhackJournal
after = (built cfg host req.approval checked "2026-09-28" "tx" (some 500) empty_journal).0

built-first :
    (built cfg host req.approval checked "2026-09-28" "tx" (some 500) empty_journal).1 ≡ broadcast 1
unfolding built reserve check for_winner committed_to_event committed_on_day mark text_eq
built-first = refl

-- What the first payout commits to its event.
after-committed : committed_to_event after "h1" "contributor" "USDC" "solana-mainnet" ≡ 100000000
unfolding built reserve check for_winner committed_to_event committed_on_day mark text_eq
after-committed = refl

after-Reach : Reach cfg host empty_journal after
after-Reach =
    next here
      (builds req 2000 checked "2026-09-28" "tx" (some 500) empty_journal check_request-passes)

Reach-winner_once_example :
    ((hackathon pool network : String)
      → committed_to_event after hackathon pool "USDC" network ≤ 5000000000)
    × ((network day : String) → committed_on_day after "USDC" network day ≤ 2500000000)
    × IsApart same_payment after.rows
Reach-winner_once_example = Reach-winner_once cfg host after after-Reach

check_request-IsPayable_example : IsPayable cfg host req 2000 checked
check_request-IsPayable_example =
    check_request-IsPayable cfg host req 2000 checked check_request-passes

decide-expired : (decide sent (some 500) (missing 501)).to ≡ some never_landed
unfolding decide
decide-expired = refl

decide_never_landed_example : NeverMoved (some 500) (missing 501)
decide_never_landed_example = decide_never_landed sent (some 500) (missing 501) decide-expired

abbrev low : PartialCaps
low = record {
  per_payout_max_minor = some 1000000;
  per_event_max_minor = some 9000000000;
  daily_max_minor = some 0;
}

abbrev low_caps : GrainhackCaps
low_caps = record caps { per_payout_max_minor = 1000000 }

caps-lowered : grainhack_caps_for "USDC" (some low) ≡ some low_caps
unfolding grainhack_caps_for text_eq
caps-lowered = refl

grainhack_caps_for_le_example :
    (hard : GrainhackCaps) × (grainhack_hard_caps "USDC" ≡ some hard)
    × (low_caps.per_payout_max_minor ≤ hard.per_payout_max_minor)
    × (low_caps.per_event_max_minor ≤ hard.per_event_max_minor)
    × (low_caps.daily_max_minor ≤ hard.daily_max_minor)
grainhack_caps_for_le_example = grainhack_caps_for_le "USDC" (some low) low_caps caps-lowered
