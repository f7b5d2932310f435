-- ===== src/Inference/Signer/Ceiling.antt =====
-- The ceiling of services/signer/src/signer.ts under every interleaving of requests: each part of
-- `payQuote` between two awaits is one step.
use grainlify_bounty_agent.Base.{ℕ, ◌≤◌, ◌≡◌, some, [], arith, ok, String, Message, All, IsApart}
use grainlify_bounty_agent.Budget.Governor.{hard_lifetime_ceiling_micro}
use grainlify_bounty_agent.Inference.Journal.{Journal, JournalError, RailKind, committed_micro}
use grainlify_bounty_agent.Inference.Journal.Sums.{same_quote}
use grainlify_bounty_agent.Inference.Signer.{
  SignerConfig, EnvNumber, signer_config, PayQuoteRequest, Clock, Rail, Transfer,
  fee_reserve_lamports, begin, build_failed, built, broadcast_ok, broadcast_failed, balance_proof,
}
use grainlify_bounty_agent.Inference.Signer.Safe.{
  IsPayable, IsSafe, begin-IsSafe, build_failed-IsSafe, built-IsSafe, broadcast_failed-IsSafe,
  broadcast_ok-IsSafe, balance_proof-IsSafe,
}

module _ (cfg : SignerConfig) where
  -- What can happen to the journal between two moments: any part of any request. A broadcast
  -- reports a fee within the reserve of 10,000 lamports, which is the rail's own bound.
  pub data Step : Journal → Journal → Type 0 where
    begins :
        (c : Clock) (address : String) (req : PayQuoteRequest) (j : Journal)
        → Step j (begin cfg c address req j).0
    fails_to_build : (id : ℕ) (e : Message) (j : Journal) → Step j (build_failed id e j).0
    builds : (id : ℕ) (sig : String) (j j' : Journal) → built id sig j ≡ ok j' → Step j j'
    broadcasts :
        (address : String) (show : JournalError → Message) (id amount : ℕ) (t : Transfer)
        (j : Journal)
        → t.fee_lamports ≤ fee_reserve_lamports
        → Step j (broadcast_ok cfg address show id amount t j).0
    loses : (id : ℕ) (e : Message) (j : Journal) → Step j (broadcast_failed id e j).0
    proves : (rail : Rail) (q : String) (j : Journal) → Step j (balance_proof cfg rail q j).0

  pub Step-IsSafe : {j k : Journal} → Step j k → IsSafe cfg j → IsSafe cfg k
  Step-IsSafe (begins c address req j) v = begin-IsSafe cfg c address req j v
  Step-IsSafe (fails_to_build id e j) v = build_failed-IsSafe cfg id e j v
  Step-IsSafe (builds id sig j j' h) v = built-IsSafe cfg id sig j j' v h
  Step-IsSafe (broadcasts address show id amount t j small) v =
      broadcast_ok-IsSafe cfg address show id amount t j small v
  Step-IsSafe (loses id e j) v = broadcast_failed-IsSafe cfg id e j v
  Step-IsSafe (proves rail q j) v = balance_proof-IsSafe cfg rail q j v

  pub data Reach (j : Journal) : Journal → Type 0 where
    here : Reach j j
    next : {k l : Journal} → Reach j k → Step k l → Reach j l

  pub Reach-IsSafe : {j k : Journal} → Reach j k → IsSafe cfg j → IsSafe cfg k
  Reach-IsSafe here v = v
  Reach-IsSafe (next r s) v = Step-IsSafe s (Reach-IsSafe r v)

abbrev pub empty_journal : RailKind → Journal
empty_journal r = record { rows = []; seq = 0; rail = some r; balance_proofs = [] }

pub empty-IsSafe : (cfg : SignerConfig) (r : RailKind) → IsSafe cfg (empty_journal r)
unfolding committed_micro
empty-IsSafe cfg r = record {
  keyed = record { below = tt; apart = tt };
  quotes = tt;
  capped = omega arith;
  reserves = tt;
  rows = tt;
}

-- However the environment configures the signer, and in every interleaving of the parts of its
-- requests whose broadcasts report fees within the fee reserve, what the journal counts as spent is
-- at most $5.00, no quote has two payments, and every payment is a positive amount within the
-- maximum for one call, to an allowlisted address.
pub Reach-committed_micro :
    (ceiling max_per_call price : EnvNumber) (cfg : SignerConfig) (r : RailKind) (j : Journal)
    → signer_config ceiling max_per_call price ≡ some cfg
    → Reach cfg (empty_journal r) j
    → (committed_micro j ≤ hard_lifetime_ceiling_micro)
      × IsApart same_quote j.rows
      × All (IsPayable cfg) j.rows
unfolding signer_config
Reach-committed_micro ceiling max_per_call price cfg r j e reach =
    let v = Reach-IsSafe cfg reach (empty-IsSafe cfg r) in
    (ground (arith, v.capped), v.quotes, v.rows)
