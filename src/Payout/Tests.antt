-- ===== src/Payout/Tests.antt =====
-- Runs of the payout signer, and the theorems at concrete inputs.
use grainlify_bounty_agent.Base.{
  ◌≤◌, ◌≡◌, refl, true, false, Option, none, some, [], ◌∷◌, ok, String, text_eq, nat, All, IsApart,
}
use grainlify_bounty_agent.Gate.Approval.{Approval, PayoutTerms, verify_approval}
use grainlify_bounty_agent.Payout.Journal.{
  PayoutJournal, PayoutJournalRow, reserved, confirmed, committed_today, existing, reserve, mark,
}
use grainlify_bounty_agent.Payout.Journal.Keep.{same_payment}
use grainlify_bounty_agent.Payout.Signer.{
  Caps, hard_caps, caps_for, PayoutSignerConfig, Host, Instant, Checked, check, check_pull, build,
  paid, begin, built, broadcast_ok, pay,
}
use grainlify_bounty_agent.Payout.Signer.Checks.{IsPayable, caps_for_le, check-IsPayable}
use grainlify_bounty_agent.Payout.Signer.Within.{
  daily_max, IsBacked, Reach, here, next, begins, empty_journal, Reach-committed_today,
  Reach-IsBacked,
}

abbrev terms : PayoutTerms
terms = record {
  payout_id = "p1";
  bounty_id = "b1";
  repo = "grainlify/site";
  issue_number = 7;
  pr_number = 9;
  author_login = "ada";
  recipient = "wallet";
  amount_minor = "5000000";
  currency = "USDC";
  mint = "usdc";
  network = "solana";
  escrow = none;
}

abbrev approval : Approval
approval = record {
  terms = terms;
  approver = "admin";
  approved_at = "1000";
  expires_at = "1801000";
  signature = "sig";
}

abbrev cfg : PayoutSignerConfig
cfg = record {
  network = "solana";
  mints = λ currency. some (record { mint = "usdc"; decimals = 6 });
  caps = λ currency. some (record { per_bounty_max_minor = 10000000; daily_max_minor = 900000000 });
  allowed_repos = "grainlify/site" ∷ [];
  trusted_approvers = "admin" ∷ [];
}

abbrev host : Host
host = record {
  crypto = record {
    verify_detached = λ address message signature. text_eq signature "sig";
    date_parse = λ s. elim (text_eq s "1000") [ true ↦ some 1000 | false ↦ some 1801000 ];
  };
  is_solana_address = λ s. true;
  big_int = λ s. nat 5000000;
  to_lower_case = λ s. s;
  address = "float";
}

abbrev instant : Instant
instant = record {
  now = 2000;
  day = "2026-09-28";
  fetch_pull = λ repo number.
      ok (record { merged = true; author_login = "ada"; merged_by_login = some "grace" });
  prepare_transfer = λ mint decimals to amount. ok (record { signature = "tx"; broadcast = none });
}

abbrev row : PayoutJournalRow
row = record {
  id = 1;
  payout_id = "p1";
  bounty_id = "b1";
  approval_signature = "sig";
  recipient = "wallet";
  currency = "USDC";
  amount_minor = 5000000;
  day = "2026-09-28";
  status = reserved;
  tx_signature = none;
  error = none;
}

abbrev holding : PayoutJournalRow → PayoutJournal
holding r = record { rows = r ∷ []; seq = 1 }

abbrev caps : Caps
caps = record { per_bounty_max_minor = 10000000; daily_max_minor = 150000000 }

abbrev checked : Checked
checked = record { amount = 5000000; caps = caps; mint = record { mint = "usdc"; decimals = 6 } }

caps-lowered : caps_for "USDC" (cfg.caps "USDC") ≡ some caps
unfolding caps_for hard_caps text_eq
caps-lowered = refl

check-passes : check cfg host (some approval) 2000 ≡ ok checked
unfolding check verify_approval caps_for hard_caps text_eq
check-passes = refl

begin-first : begin cfg host instant (some approval) empty_journal ≡ (holding row, build 1)
unfolding begin check verify_approval caps_for hard_caps text_eq check_pull reserve existing
    committed_today
begin-first = refl

pay-first :
    pay cfg host (λ e. []) instant (some approval) empty_journal
    ≡ (holding (record row { status = confirmed; tx_signature = some "tx" }), paid "tx" "float")
unfolding pay begin check verify_approval caps_for hard_caps text_eq check_pull reserve existing
    committed_today built broadcast_ok mark
pay-first = refl

-- One request, for the approval above.
abbrev OneRequest : Instant → Option Approval → Type 0
OneRequest i a = (i ≡ instant) × (a ≡ some approval)

holding-Reach : Reach cfg host OneRequest empty_journal (holding row)
unfolding begin check verify_approval caps_for hard_caps text_eq check_pull reserve existing
    committed_today
holding-Reach = next here (begins instant (some approval) empty_journal (refl, refl))

Reach-committed_today_example :
    ((currency day : String) → committed_today (holding row) currency day ≤ daily_max cfg currency)
    × ((day : String) → committed_today (holding row) "USDC" day ≤ 150000000)
Reach-committed_today_example =
    Reach-committed_today cfg host OneRequest (holding row) holding-Reach

Reach-IsBacked_example :
    IsApart same_payment (holding row).rows × All (IsBacked cfg host OneRequest) (holding row).rows
Reach-IsBacked_example = Reach-IsBacked cfg host OneRequest (holding row) holding-Reach

caps_for_le_example :
    (hard : Caps) × (hard_caps "USDC" ≡ some hard)
    × (caps.per_bounty_max_minor ≤ hard.per_bounty_max_minor)
    × (caps.daily_max_minor ≤ hard.daily_max_minor)
caps_for_le_example = caps_for_le "USDC" (cfg.caps "USDC") caps caps-lowered

check-IsPayable_example : IsPayable cfg host approval 2000 5000000 caps
check-IsPayable_example = check-IsPayable cfg host approval 2000 checked check-passes
