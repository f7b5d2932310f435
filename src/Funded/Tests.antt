-- ===== src/Funded/Tests.antt =====
-- The theorems about funded bounties at concrete tables.
use grainlify_bounty_agent.Base.{
  ℕ, ◌+◌, ◌*◌, ◌≤◌, ◌<◌, ◌≡◌, refl, ◌⊎◌, true, false, none, some, [], ◌∷◌, All, ok, any, map,
  text_eq,
}
use grainlify_bounty_agent.DrawService.Sample.{env, bounty, in_review}
use grainlify_bounty_agent.Draw.Config.{bool_of}
use grainlify_bounty_agent.Funded.Tables
use grainlify_bounty_agent.Funded.Tables.{FundedTables, FundedEnv, EscrowRow, draw}
use grainlify_bounty_agent.Funded.Escrow.{Quote, quote}
use grainlify_bounty_agent.Funded.Escrow.Fee.{quote-fee}
use grainlify_bounty_agent.Funded.Propose.{propose}
use grainlify_bounty_agent.Funded.Agree.{respond}
use grainlify_bounty_agent.Funded.Agree.Sides.{IsReply, respond-IsReply}
use grainlify_bounty_agent.Funded.Lapse.{expire_proposals}
use grainlify_bounty_agent.Funded.Lapse.Silence.{
  statuses_of, by_silence, is_overdue, statuses_of-expire_proposals,
}
use grainlify_bounty_agent.Funded.Consent.{IsAnswered, IsJustified}
use grainlify_bounty_agent.Funded.Consent.Histories.{Step, Reach, Reach-consent}

quote-fee_example :
    ((◌≡◌ {A = ℕ} 1000000 0) × (quote 1000000 250 250000 ≡ none))
    ⊎ ((q : Quote) × (quote 1000000 250 250000 ≡ some q)
        × (q.total_minor ≡ 1000000 + q.fee_amount_minor)
        × (250000 ≤ q.fee_amount_minor)
        × (1000000 * 250 ≤ 10000 * q.fee_amount_minor)
        × ((q.floored_by_minimum ≡ true) × (q.fee_amount_minor ≡ 250000)
            ⊎ (q.floored_by_minimum ≡ false)
              × (10000 * q.fee_amount_minor < 1000000 * 250 + 10000)))
quote-fee_example = quote-fee 1000000 250 250000

abbrev escrow : EscrowRow
escrow = record {
  id = 9;
  bounty_id = 1;
  escrow_pubkey = "escrow";
  funder_wallet = "wallet";
  contributor_wallet = some "contributor";
  assignment_mode = draw;
  state = Tables.assigned;
  deadline_at = 900000000;
  amount_minor = 1000000;
  fee_amount_minor = 250000;
  fund_tx = none;
  assign_tx = none;
  last_error = none;
}

abbrev start : FundedTables
start = record {
  core = record in_review { bounties = record bounty { funded_by = some "grace" } ∷ [] };
  escrows = escrow ∷ [];
  escrow_events = [];
  proposals = [];
  conduct_notes = [];
  requests = [];
  payouts_under_way = [];
}

abbrev now : FundedEnv
now = record { base = env; testers = "grace" ∷ []; attestor = none; read_chain = λ pubkey. none }

abbrev later : FundedEnv
later = record now {
  base = record env { now = 1000000000 };
  attestor = some (record { assign = λ e w. ok "signature"; unassign = λ e. ok "signature" });
}

after : FundedTables
after = expire_proposals later (propose now 1 "grace" 5 "no progress" start).0

reached : Reach start after
unfolding after
reached =
    Reach.next (Reach.next Reach.here (Step.proposes start now 1 "grace" 5 "no progress"))
      (Step.expires (propose now 1 "grace" 5 "no progress" start).0 later)

Reach-consent_example :
    All (IsJustified after.proposals) after.requests × All IsAnswered after.proposals
Reach-consent_example = Reach-consent start after refl refl reached

abbrev proposed : FundedTables
proposed = (propose now 1 "grace" 5 "no progress" start).0

statuses_of-expire_proposals_example :
    (statuses_of (expire_proposals later proposed).proposals
      ≡ map (by_silence later.base.now) proposed.proposals)
    × (any (is_overdue later.base.now) (expire_proposals later proposed).proposals ≡ false)
statuses_of-expire_proposals_example = statuses_of-expire_proposals later proposed

-- Grace, who funds, proposed; Ada, who holds the bounty, accepts.
accepted_now :
    statuses_of (respond later 5 "ada" 7 true "" proposed).0.proposals ≡ Tables.accepted ∷ []
unfolding respond propose bool_of text_eq
accepted_now = refl

respond-IsReply_example :
    IsReply later 5 "ada" 7 true "" proposed (respond later 5 "ada" 7 true "" proposed)
respond-IsReply_example = respond-IsReply later 5 "ada" 7 true "" proposed
