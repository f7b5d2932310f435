-- ===== src/Grainhack/Signer/Within.antt =====
-- Every interleaving of the parts of services/signer/src/grainhack: the caps on events and days, and one
-- payout per winner.
use grainlify_bounty_agent.Base.{
  ℕ, ◌≤◌, ◌<◌, ◌≡◌, inl, inr, true, false, Option, none, some, [], arith, ok, String, text_eq,
  Message, IsApart, Option-cases, Result-cases,
}
use grainlify_bounty_agent.Gate.Approval.{approved}
use grainlify_bounty_agent.Grainhack.Caps.{
  grainhack_hard_caps, grainhack_caps_for, grainhack_caps_for_le,
}
use grainlify_bounty_agent.Grainhack.Journal.{
  GrainhackJournal, Reserved, made, not_made, threw, committed_to_event, committed_on_day, reserve,
  sent, confirmed, unknown,
}
use grainlify_bounty_agent.Grainhack.Journal.Move.{Final, mark, resolve}
use grainlify_bounty_agent.Grainhack.Journal.Keep.{
  same_payment, IsValid, mark-Valid, resolve-Valid, reserve-Valid,
}
use grainlify_bounty_agent.Grainhack.Signer.{
  GrainhackSignerConfig, Host, GrainhackPayRequest, Checked, payable, line_for,
  verify_grainhack_approval, check_request, limits_of, reservation_of, after_reserve, built,
  broadcast_failed, broadcast_ok,
}

-- What the checks before the journal establish of a request.
pub record IsPayable (cfg : GrainhackSignerConfig) (h : Host) (req : GrainhackPayRequest) (now : ℕ)
    (c : Checked) : Type 0 where
  pub is_approved :
      verify_grainhack_approval h.crypto req.approval cfg.trusted_approvers now ≡ approved
  pub verified :
      h.verify_statement req.statement req.statement_signature cfg.results_pubkey ≡ some c.statement
  pub digest : text_eq (h.statement_sha256 req.statement) req.approval.terms.statement_sha256 ≡ true
  pub event : text_eq c.statement.hackathon_id req.approval.terms.hackathon_id ≡ true
  pub network : text_eq c.statement.network cfg.network ≡ true
  pub listed : line_for c.statement req.approval.terms.github_user_id ≡ some c.line
  pub line_payable : c.line.status ≡ payable
  pub line_amount : text_eq c.line.amount_minor req.approval.terms.amount_minor ≡ true
  pub not_itself : text_eq req.approval.terms.recipient h.address ≡ false
  pub amount : c.amount ≡ h.big_int req.approval.terms.amount_minor
  pub positive : 0 < c.amount
  pub capped :
      grainhack_caps_for req.approval.terms.currency (cfg.caps req.approval.terms.currency)
      ≡ some c.caps
  pub within : c.amount ≤ c.caps.per_payout_max_minor

module _ (cfg : GrainhackSignerConfig) (h : Host) where
  -- A request that passes the checks has an approval in force, a verified statement with the approved
  -- digest that lists the winner as payable for exactly this amount, and an amount within the cap.
  pub check_request-IsPayable :
      (req : GrainhackPayRequest) (now : ℕ) (c : Checked)
      → check_request cfg h req now ≡ ok c
      → IsPayable cfg h req now c
  unfolding check_request
  check_request-IsPayable req now c e = ground arith

abbrev pub event_max : GrainhackSignerConfig → String → ℕ
event_max cfg currency = elim (grainhack_caps_for currency (cfg.caps currency)) [
  | none ↦ 0
  | some k ↦ k.per_event_max_minor
]

abbrev pub daily_max : GrainhackSignerConfig → String → ℕ
daily_max cfg currency = elim (grainhack_caps_for currency (cfg.caps currency)) [
  | none ↦ 0
  | some k ↦ k.daily_max_minor
]

module _ (cfg : GrainhackSignerConfig) (h : Host) where
  abbrev IsSafe : GrainhackJournal → Type 0
  IsSafe = IsValid (event_max cfg) (daily_max cfg)

  after_reserve-IsSafe : (x : GrainhackJournal × Reserved) → IsSafe x.0 → IsSafe (after_reserve x).0
  after_reserve-IsSafe (j, made id) v = elim (Result-cases (mark j id sent none)) [
    | inl (j', done) ↦
        rw (done, after_reserve)
          (mark-Valid (event_max cfg) (daily_max cfg) j j' id sent none v done)
    | inr (e, failed) ↦ rw (failed, after_reserve) v
  ]
  after_reserve-IsSafe (j, not_made refusal) v = v
  after_reserve-IsSafe (j, threw e) v = v

  reserve-IsSafe :
      (req : GrainhackPayRequest) (now : ℕ) (c : Checked) (day tx : String) (height : Option ℕ)
      (j : GrainhackJournal)
      → check_request cfg h req now ≡ ok c
      → IsSafe j
      → IsSafe (reserve j (reservation_of cfg req.approval c day tx height) (limits_of h c)).0
  reserve-IsSafe req now c day tx height j passed v =
      let p = check_request-IsPayable cfg h req now c passed in
      reserve-Valid (event_max cfg) (daily_max cfg) j
        (reservation_of cfg req.approval c day tx height) (limits_of h c) (ground (arith, p.capped))
        (ground (arith, p.capped)) v

  built-IsSafe :
      (req : GrainhackPayRequest) (now : ℕ) (c : Checked) (day tx : String) (height : Option ℕ)
      (j : GrainhackJournal)
      → check_request cfg h req now ≡ ok c
      → IsSafe j
      → IsSafe (built cfg h req.approval c day tx height j).0
  unfolding built
  built-IsSafe req now c day tx height j passed v =
      after_reserve-IsSafe
        (reserve j (reservation_of cfg req.approval c day tx height) (limits_of h c))
        (reserve-IsSafe req now c day tx height j passed v)

  broadcast_failed-IsSafe :
      (id : ℕ) (sig : String) (e : Message) (j : GrainhackJournal)
      → IsSafe j
      → IsSafe (broadcast_failed id sig e j).0
  unfolding broadcast_failed
  broadcast_failed-IsSafe id sig e j v = elim (Result-cases (mark j id unknown (some e))) [
    | inl (j', done) ↦
        rw (done, broadcast_failed)
          (mark-Valid (event_max cfg) (daily_max cfg) j j' id unknown (some e) v done)
    | inr (x, failed) ↦ rw (failed, broadcast_failed) v
  ]

  broadcast_ok-IsSafe :
      (id : ℕ) (sig : String) (j : GrainhackJournal)
      → IsSafe j
      → IsSafe (broadcast_ok h.address id sig j).0
  unfolding broadcast_ok
  broadcast_ok-IsSafe id sig j v = elim (Result-cases (mark j id confirmed none)) [
    | inl (j', done) ↦
        rw (done, broadcast_ok)
          (mark-Valid (event_max cfg) (daily_max cfg) j j' id confirmed none v done)
    | inr (x, failed) ↦ rw (failed, broadcast_ok) v
  ]

  -- Any part of any request that passed the checks, a stop between the row and its mark, and a
  -- resolution by a person.
  pub data Step : GrainhackJournal → GrainhackJournal → Type 0 where
    builds :
        (req : GrainhackPayRequest) (now : ℕ) (c : Checked) (day tx : String) (height : Option ℕ)
        (j : GrainhackJournal)
        → check_request cfg h req now ≡ ok c
        → Step j (built cfg h req.approval c day tx height j).0
    crashes :
        (req : GrainhackPayRequest) (now : ℕ) (c : Checked) (day tx : String) (height : Option ℕ)
        (j : GrainhackJournal)
        → check_request cfg h req now ≡ ok c
        → Step j (reserve j (reservation_of cfg req.approval c day tx height) (limits_of h c)).0
    broadcasts :
        (id : ℕ) (sig : String) (j : GrainhackJournal) → Step j (broadcast_ok h.address id sig j).0
    loses :
        (id : ℕ) (sig : String) (e : Message) (j : GrainhackJournal)
        → Step j (broadcast_failed id sig e j).0
    resolves :
        (trim : String → String) (payout : String) (to : Final) (actor reason evidence : String)
        (j j' : GrainhackJournal)
        → resolve trim j payout to actor reason evidence ≡ ok j'
        → Step j j'

  Step-IsSafe : {j k : GrainhackJournal} → Step j k → IsSafe j → IsSafe k
  Step-IsSafe (builds req now c day tx height j passed) v =
      built-IsSafe req now c day tx height j passed v
  Step-IsSafe (crashes req now c day tx height j passed) v =
      reserve-IsSafe req now c day tx height j passed v
  Step-IsSafe (broadcasts id sig j) v = broadcast_ok-IsSafe id sig j v
  Step-IsSafe (loses id sig e j) v = broadcast_failed-IsSafe id sig e j v
  Step-IsSafe (resolves trim payout to actor reason evidence j j' e) v =
      resolve-Valid (event_max cfg) (daily_max cfg) trim j j' payout to actor reason evidence v e

  pub data Reach (j : GrainhackJournal) : GrainhackJournal → Type 0 where
    here : Reach j j
    next : {k l : GrainhackJournal} → Reach j k → Step k l → Reach j l

  Reach-IsSafe : {j k : GrainhackJournal} → Reach j k → IsSafe j → IsSafe k
  Reach-IsSafe here v = v
  Reach-IsSafe (next r s) v = Step-IsSafe s (Reach-IsSafe r v)

abbrev pub empty_journal : GrainhackJournal
empty_journal = record { rows = []; seq = 0; transitions = [] }

empty-IsSafe : (cfg : GrainhackSignerConfig) → IsValid (event_max cfg) (daily_max cfg) empty_journal
unfolding committed_to_event committed_on_day
empty-IsSafe cfg = record {
  keyed = record { below = tt; apart = tt };
  apart = tt;
  event_capped = λ hackathon pool currency network. omega arith;
  day_capped = λ currency network day. omega arith;
}

usdc_max :
    (cfg : GrainhackSignerConfig)
    → (event_max cfg "USDC" ≤ 5000000000) × (daily_max cfg "USDC" ≤ 2500000000)
unfolding grainhack_hard_caps text_eq
usdc_max cfg = elim (Option-cases (grainhack_caps_for "USDC" (cfg.caps "USDC"))) [
  | inl nothing ↦ (ground arith, ground arith)
  | inr (k, known) ↦
      let (hard, e, p, q, r) = grainhack_caps_for_le "USDC" (cfg.caps "USDC") k known in
      (ground arith, ground arith)
]

-- In every interleaving of payments and resolutions, one event's pool is never committed above $5,000
-- and one day never above $2,500 in USDC on one network, whatever the configuration; and no two rows
-- are for one winner of a pool, one payout, one approval or one transaction.
pub Reach-winner_once :
    (cfg : GrainhackSignerConfig) (h : Host) (j : GrainhackJournal)
    → Reach cfg h empty_journal j
    → ((hackathon pool network : String)
        → committed_to_event j hackathon pool "USDC" network ≤ 5000000000)
      × ((network day : String) → committed_on_day j "USDC" network day ≤ 2500000000)
      × IsApart same_payment j.rows
Reach-winner_once cfg h j reach =
    let v = Reach-IsSafe cfg h reach (empty-IsSafe cfg) in
    let (event, day) = usdc_max cfg in
    (
      (λ hackathon pool network.
          omega (arith, v.event_capped hackathon pool "USDC" network, event)),
      (λ network on. omega (arith, v.day_capped "USDC" network on, day)),
      v.apart,
    )
