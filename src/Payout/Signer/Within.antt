-- ===== src/Payout/Signer/Within.antt =====
-- Every interleaving of the parts of services/signer/src/payout/payout-signer.ts, and what its journal holds.
-- `Asked` is the set of the requests that are ever made, each with what it meets of the clock, GitHub and the
-- rail; a history begins no other.
use grainlify_bounty_agent.Base.{
  ℕ, ◌≤◌, ◌≡◌, refl, sym, subst, inl, inr, Option, none, some, [], arith, ok, err, String, text_eq,
  Message, Result-cases, All, IsApart,
}
use grainlify_bounty_agent.Gate.Approval.{Approval}
use grainlify_bounty_agent.Payout.Journal.{
  PayoutJournalRow, confirmed, sent, failed_unsent, PayoutJournal, PayoutJournalError,
  committed_today, Reservation, made, already_recorded, over_daily_cap, reserve, mark,
}
use grainlify_bounty_agent.Payout.Journal.Keep.{
  same_payment, IsValid, KeepsColumns, mark-IsValid, note_error-IsValid, reserve-IsValid,
}
use grainlify_bounty_agent.Payout.Signer.{
  Caps, hard_caps, caps_for, PayoutSignerConfig, Host, Instant, Checked, Verdict, PayoutOutcome,
  check, check_pull, reserve_args, reserved_or_answered, after_pull, after_checks, answer_missing,
  begin, build_failed, built, broadcast_failed, broadcast_ok,
}
use grainlify_bounty_agent.Payout.Signer.Checks.{
  IsPayable, IsMerged, check-IsPayable, check_pull-IsMerged,
}

-- The cap on one day's payments; a currency with no caps has none to spend.
abbrev pub daily_max : PayoutSignerConfig → String → ℕ
daily_max cfg currency = elim (caps_for currency (cfg.caps currency)) [
  | none ↦ 0
  | some k ↦ k.daily_max_minor
]

module _ (cfg : PayoutSignerConfig) (h : Host) (Asked : Instant → Option Approval → Type 0) where
  -- A row that pays exactly what the approval of one of the requests says, which was in force and payable
  -- when that request was checked; and GitHub told that request that the pull request the
  -- approval names was merged by another than its author.
  pub record IsBacked (r : PayoutJournalRow) : Type 0 where
    pub approval : Approval
    pub instant : Instant
    pub asked : Asked instant (some approval)
    pub caps : Caps
    pub payable : IsPayable cfg h approval instant.now r.amount_minor caps
    pub merged :
        IsMerged h approval.terms (instant.fetch_pull approval.terms.repo approval.terms.pr_number)
    pub payout : r.payout_id ≡ approval.terms.payout_id
    pub bounty : r.bounty_id ≡ approval.terms.bounty_id
    pub signature : r.approval_signature ≡ approval.signature
    pub recipient : r.recipient ≡ approval.terms.recipient
    pub currency : r.currency ≡ approval.terms.currency

  abbrev pub IsSafe : PayoutJournal → Type 0
  IsSafe = IsValid (daily_max cfg) IsBacked

  IsBacked-keeps :
      (f : PayoutJournalRow → PayoutJournalRow)
      → KeepsColumns f
      → (r : PayoutJournalRow) → IsBacked r
      → IsBacked (f r)
  IsBacked-keeps f k r b = record {
    approval = b.approval;
    instant = b.instant;
    asked = b.asked;
    caps = b.caps;
    payable =
        subst (λ n. IsPayable cfg h b.approval b.instant.now n b.caps) (sym (k.amount r)) b.payable;
    merged = b.merged;
    payout = rw (k.payout r) b.payout;
    bounty = rw (k.bounty r) b.bounty;
    signature = rw (k.approval r) b.signature;
    recipient = rw (k.recipient r) b.recipient;
    currency = rw (k.currency r) b.currency;
  }

  reserved_or_answered-IsSafe :
      (address payout : String) (x : PayoutJournal × Reservation)
      → IsSafe x.0
      → IsSafe (reserved_or_answered address payout x).0
  reserved_or_answered-IsSafe address payout (j, made id) v = v
  reserved_or_answered-IsSafe address payout (j, already_recorded r) v = v
  reserved_or_answered-IsSafe address payout (j, over_daily_cap n) v = v

  after_pull-IsSafe :
      (a : Approval) (c : Checked) (i : Instant) (j : PayoutJournal) (o : Option PayoutOutcome)
      → Asked i (some a)
      → IsPayable cfg h a i.now c.amount c.caps
      → check_pull h a.terms (i.fetch_pull a.terms.repo a.terms.pr_number) ≡ o
      → IsSafe j
      → IsSafe (after_pull h a c i.day j o).0
  after_pull-IsSafe a c i j (some outcome) q p e v = v
  after_pull-IsSafe a c i j none q p e v =
      reserved_or_answered-IsSafe h.address a.terms.payout_id (reserve j (reserve_args a c i.day)) (
        reserve-IsValid (daily_max cfg) IsBacked IsBacked-keeps j (reserve_args a c i.day)
          (ground (arith, p.capped))
          (record {
            approval = a;
            instant = i;
            asked = q;
            caps = c.caps;
            payable = p;
            merged = check_pull-IsMerged h a.terms (i.fetch_pull a.terms.repo a.terms.pr_number) e;
            payout = refl;
            bounty = refl;
            signature = refl;
            recipient = refl;
            currency = refl;
          })
          v)

  after_checks-IsSafe :
      (a : Approval) (i : Instant) (j : PayoutJournal) (verdict : Verdict)
      → Asked i (some a)
      → check cfg h (some a) i.now ≡ verdict
      → IsSafe j
      → IsSafe (after_checks h a i j verdict).0
  after_checks-IsSafe a i j (err outcome) q e v = v
  after_checks-IsSafe a i j (ok c) q e v =
      after_pull-IsSafe a c i j (check_pull h a.terms (i.fetch_pull a.terms.repo a.terms.pr_number))
        q (check-IsPayable cfg h a i.now c e) refl v

  answer_missing-IsSafe :
      (j : PayoutJournal) (verdict : Verdict) → IsSafe j → IsSafe (answer_missing j verdict).0
  answer_missing-IsSafe j (err outcome) v = v
  answer_missing-IsSafe j (ok c) v = v

  begin-IsSafe :
      (i : Instant) (a : Option Approval) (j : PayoutJournal)
      → Asked i a
      → IsSafe j
      → IsSafe (begin cfg h i a j).0
  unfolding begin
  begin-IsSafe i none j q v = answer_missing-IsSafe j (check cfg h none i.now) v
  begin-IsSafe i (some a) j q v = after_checks-IsSafe a i j (check cfg h (some a) i.now) q refl v

  build_failed-IsSafe :
      (id : ℕ) (e : Message) (j : PayoutJournal) → IsSafe j → IsSafe (build_failed id e j).0
  unfolding build_failed
  build_failed-IsSafe id e j v = elim (Result-cases (mark j id failed_unsent none (some e))) [
    | inl (j', done) ↦
        rw (done, build_failed)
          (mark-IsValid (daily_max cfg) IsBacked IsBacked-keeps j j' id failed_unsent none (some e)
            v done)
    | inr (thrown, threw) ↦ rw (threw, build_failed) v
  ]

  broadcast_failed-IsSafe :
      (id : ℕ) (e : Message) (j : PayoutJournal) → IsSafe j → IsSafe (broadcast_failed id e j).0
  unfolding broadcast_failed
  broadcast_failed-IsSafe id e j = note_error-IsValid (daily_max cfg) IsBacked IsBacked-keeps j id e

  broadcast_ok-IsSafe :
      (show : PayoutJournalError → Message) (id : ℕ) (sig : String) (j : PayoutJournal)
      → IsSafe j
      → IsSafe (broadcast_ok h.address show id sig j).0
  unfolding broadcast_ok
  broadcast_ok-IsSafe show id sig j v = elim (Result-cases (mark j id confirmed none none)) [
    | inl (j', done) ↦
        rw (done, broadcast_ok)
          (mark-IsValid (daily_max cfg) IsBacked IsBacked-keeps j j' id confirmed none none v done)
    | inr (thrown, threw) ↦ rw (threw, broadcast_ok) (broadcast_failed-IsSafe id (show thrown) j v)
  ]

  -- Any part of any request.
  pub data Step : PayoutJournal → PayoutJournal → Type 0 where
    begins :
        (i : Instant) (a : Option Approval) (j : PayoutJournal)
        → Asked i a
        → Step j (begin cfg h i a j).0
    fails_to_build : (id : ℕ) (e : Message) (j : PayoutJournal) → Step j (build_failed id e j).0
    builds : (id : ℕ) (sig : String) (j j' : PayoutJournal) → built id sig j ≡ ok j' → Step j j'
    broadcasts :
        (show : PayoutJournalError → Message) (id : ℕ) (sig : String) (j : PayoutJournal)
        → Step j (broadcast_ok h.address show id sig j).0
    loses : (id : ℕ) (e : Message) (j : PayoutJournal) → Step j (broadcast_failed id e j).0

  Step-IsSafe : {j k : PayoutJournal} → Step j k → IsSafe j → IsSafe k
  unfolding built
  Step-IsSafe (begins i a j q) v = begin-IsSafe i a j q v
  Step-IsSafe (fails_to_build id e j) v = build_failed-IsSafe id e j v
  Step-IsSafe (builds id sig j j' e) v =
      mark-IsValid (daily_max cfg) IsBacked IsBacked-keeps j j' id sent (some sig) none v e
  Step-IsSafe (broadcasts show id sig j) v = broadcast_ok-IsSafe show id sig j v
  Step-IsSafe (loses id e j) v = broadcast_failed-IsSafe id e j v

  pub data Reach (j : PayoutJournal) : PayoutJournal → Type 0 where
    here : Reach j j
    next : {k l : PayoutJournal} → Reach j k → Step k l → Reach j l

  Reach-IsSafe : {j k : PayoutJournal} → Reach j k → IsSafe j → IsSafe k
  Reach-IsSafe here v = v
  Reach-IsSafe (next r s) v = Step-IsSafe s (Reach-IsSafe r v)

abbrev pub empty_journal : PayoutJournal
empty_journal = record { rows = []; seq = 0 }

empty-IsSafe :
    (cfg : PayoutSignerConfig) (h : Host) (Asked : Instant → Option Approval → Type 0)
    → IsSafe cfg h Asked empty_journal
unfolding committed_today
empty-IsSafe cfg h Asked = record {
  keyed = record { below = tt; apart = tt };
  apart = tt;
  capped = λ currency day. omega arith;
  rows = tt;
}

usdc_max : (cfg : PayoutSignerConfig) → daily_max cfg "USDC" ≤ 150000000
unfolding caps_for hard_caps text_eq
usdc_max cfg = ground arith

-- In every interleaving of the parts of its requests, the payout signer commits on no day and in no
-- currency more than the daily cap in force, which for USDC is at most $150 whatever the configuration.
pub Reach-committed_today :
    (cfg : PayoutSignerConfig) (h : Host) (Asked : Instant → Option Approval → Type 0)
    (j : PayoutJournal)
    → Reach cfg h Asked empty_journal j
    → ((currency day : String) → committed_today j currency day ≤ daily_max cfg currency)
      × ((day : String) → committed_today j "USDC" day ≤ 150000000)
Reach-committed_today cfg h Asked j reach =
    let v = Reach-IsSafe cfg h Asked reach (empty-IsSafe cfg h Asked) in
    (v.capped, λ day. omega (arith, v.capped "USDC" day, usdc_max cfg))

-- In every interleaving of the parts of the requests in `Asked`, no bounty, payout or approval has two rows,
-- and every row is backed by one of these requests: it pays what the approval of this request says, which was
-- in force and payable when it was checked; and GitHub told this request that the pull request the approval
-- names, in the repository it names, is by the author the approval names and was merged by somebody else.
pub Reach-IsBacked :
    (cfg : PayoutSignerConfig) (h : Host) (Asked : Instant → Option Approval → Type 0)
    (j : PayoutJournal)
    → Reach cfg h Asked empty_journal j
    → IsApart same_payment j.rows × All (IsBacked cfg h Asked) j.rows
Reach-IsBacked cfg h Asked j reach =
    let v = Reach-IsSafe cfg h Asked reach (empty-IsSafe cfg h Asked) in (v.apart, v.rows)
