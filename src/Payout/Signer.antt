-- ===== src/Payout/Signer.antt =====
-- services/signer/src/payout/payout-signer.ts: `PayoutSigner.pay`, cut at its awaits. GitHub, the rail,
-- Ed25519 and the built-in parsers are parameters; a refusal's text is a constructor of `Reason`.
pub mod Checks
pub mod Within
use grainlify_bounty_agent.Base.{
  ℕ, ◌+◌, ◌==◌, Bool, true, false, not, ◌||◌, ◌&&◌, Option, none, some, List, [], ltb, leb,
  if◌then◌else◌, Result, ok, err, String, text_eq, includes, truthy, Message, JsNumber, nat,
  negative, not_integer,
}
use grainlify_bounty_agent.Gate.Approval.{
  Approval, PayoutTerms, Crypto, ApprovalCheck, approved, untrusted, expired, too_long,
  bad_signature, verify_approval,
}
use grainlify_bounty_agent.Payout.Journal.{
  PayoutJournal, PayoutJournalRow, PayoutJournalStatus, PayoutJournalError, reserved, sent,
  confirmed, failed_unsent, Reservation, ReserveArgs, made, already_recorded, over_daily_cap,
  reserve, mark, note_error,
}

pub record Caps : Type 0 where
  pub per_bounty_max_minor : ℕ
  pub daily_max_minor : ℕ

unfoldable pub hard_caps : String → Option Caps
hard_caps currency =
    if text_eq currency "USDC"
    then some (record { per_bounty_max_minor = 50000000; daily_max_minor = 150000000 })
    else if text_eq currency "ANSEM"
    then some (record { per_bounty_max_minor = 6000000; daily_max_minor = 10000000 })
    else none

abbrev lower_of : ℕ → ℕ → ℕ
lower_of configured hard = if ltb configured hard then configured else hard

abbrev lowered : Caps → Option Caps → Caps
lowered hard none = hard
lowered hard (some configured) = record {
  per_bounty_max_minor = lower_of configured.per_bounty_max_minor hard.per_bounty_max_minor;
  daily_max_minor = lower_of configured.daily_max_minor hard.daily_max_minor;
}

unfoldable pub caps_for : String → Option Caps → Option Caps
unfolding hard_caps
caps_for currency configured = elim (hard_caps currency) [
  | none ↦ none
  | some hard ↦ some (lowered hard configured)
]

pub record MintInfo : Type 0 where
  pub mint : String
  pub decimals : ℕ

pub record PayoutSignerConfig : Type 0 where
  pub network : String
  pub mints : String → Option MintInfo
  pub caps : String → Option Caps
  pub allowed_repos : List String
  pub trusted_approvers : List String

pub record PullFacts : Type 0 where
  pub merged : Bool
  pub author_login : String
  pub merged_by_login : Option String

-- A failed broadcast is its error.
pub record Prepared : Type 0 where
  pub signature : String
  pub broadcast : Option Message

-- `address` is the payout wallet, and `big_int` is `BigInt` of a text (`not_integer` where it throws).
pub record Host : Type 0 where
  pub crypto : Crypto PayoutTerms
  pub is_solana_address : String → Bool
  pub big_int : String → JsNumber
  pub to_lower_case : String → String
  pub address : String

-- What one request meets: the clock with its UTC date, GitHub's answers and the rail's, which may differ for the next.
pub record Instant : Type 0 where
  pub now : ℕ
  pub day : String
  pub fetch_pull : String → ℕ → Result Message PullFacts
  pub prepare_transfer : String → ℕ → String → ℕ → Result Message Prepared

pub data Reason : Type 0 where
  missing_terms for_escrow wrong_network wrong_mint repo_not_allowed bad_recipient to_itself :
      Reason
  bad_amount no_caps over_cap not_merged wrong_author self_merged over_daily recorded : Reason
  bad_approval : ApprovalCheck → Reason
  pull_unread could_not_build outcome_unknown : Message → Reason

pub data PayoutOutcome : Type 0 where
  paid : String → String → PayoutOutcome
  refused : ℕ → Reason → PayoutOutcome
  thrown : PayoutJournalError → PayoutOutcome

-- What the checks before the first await establish.
pub record Checked : Type 0 where
  pub amount : ℕ
  pub caps : Caps
  pub mint : MintInfo

abbrev pub Verdict : Type 0
Verdict = Result PayoutOutcome Checked

abbrev refuse : ℕ → Reason → Verdict
refuse status r = err (refused status r)

abbrev check_caps : ℕ → MintInfo → Option Caps → Verdict
check_caps amount mint none = refuse 403 no_caps
check_caps amount mint (some caps) =
    if leb amount 0 || ltb caps.per_bounty_max_minor amount
    then refuse 403 over_cap
    else ok (record { amount = amount; caps = caps; mint = mint })

abbrev check_amount : PayoutSignerConfig → PayoutTerms → MintInfo → JsNumber → Verdict
check_amount cfg t mint not_integer = refuse 400 bad_amount
check_amount cfg t mint (nat amount) =
    check_caps amount mint (caps_for t.currency (cfg.caps t.currency))
check_amount cfg t mint (negative n) = elim (caps_for t.currency (cfg.caps t.currency)) [
  | none ↦ refuse 403 no_caps
  | some caps ↦ refuse 403 over_cap
]

abbrev check_mint : PayoutSignerConfig → Host → PayoutTerms → Option MintInfo → Verdict
check_mint cfg h t none = refuse 403 wrong_mint
check_mint cfg h t (some mint) =
    if not (text_eq mint.mint t.mint)
    then refuse 403 wrong_mint
    else if not (includes cfg.allowed_repos t.repo)
    then refuse 403 repo_not_allowed
    else if not (h.is_solana_address t.recipient)
    then refuse 400 bad_recipient
    else if text_eq t.recipient h.address
    then refuse 403 to_itself
    else check_amount cfg t mint (h.big_int t.amount_minor)

abbrev check_approval : PayoutSignerConfig → Host → PayoutTerms → ApprovalCheck → Verdict
check_approval cfg h t approved =
    if not (text_eq t.network cfg.network)
    then refuse 403 wrong_network
    else check_mint cfg h t (cfg.mints t.currency)
check_approval cfg h t untrusted = refuse 403 (bad_approval untrusted)
check_approval cfg h t expired = refuse 403 (bad_approval expired)
check_approval cfg h t too_long = refuse 403 (bad_approval too_long)
check_approval cfg h t bad_signature = refuse 403 (bad_approval bad_signature)

abbrev check_escrow : PayoutSignerConfig → Host → Approval → ℕ → Option String → Verdict
check_escrow cfg h a now (some escrow) = refuse 400 for_escrow
check_escrow cfg h a now none =
    check_approval cfg h a.terms (verify_approval h.crypto a cfg.trusted_approvers now)

-- `pay` up to its first await; `none` is an approval with no terms.
unfoldable pub check : PayoutSignerConfig → Host → Option Approval → ℕ → Verdict
check cfg h none now = refuse 400 missing_terms
check cfg h (some a) now = check_escrow cfg h a now a.terms.escrow

abbrev check_merger : Host → PullFacts → Option String → Option PayoutOutcome
check_merger h pr none = some (refused 403 self_merged)
check_merger h pr (some merger) =
    if text_eq (h.to_lower_case merger) (h.to_lower_case pr.author_login)
    then some (refused 403 self_merged)
    else none

-- The merge as GitHub tells it; `none` when nothing is wrong.
unfoldable pub check_pull : Host → PayoutTerms → Result Message PullFacts → Option PayoutOutcome
check_pull h t (err e) = some (refused 503 (pull_unread e))
check_pull h t (ok pr) =
    if not pr.merged
    then some (refused 403 not_merged)
    else if not (text_eq (h.to_lower_case pr.author_login) (h.to_lower_case t.author_login))
    then some (refused 403 wrong_author)
    else check_merger h pr (truthy pr.merged_by_login)

abbrev pub reserve_args : Approval → Checked → String → ReserveArgs
reserve_args a c day = record {
  payout_id = a.terms.payout_id;
  bounty_id = a.terms.bounty_id;
  approval_signature = a.signature;
  recipient = a.terms.recipient;
  currency = a.terms.currency;
  amount_minor = c.amount;
  day = day;
  daily_max_minor = c.caps.daily_max_minor;
}

pub data Begun : Type 0 where
  answer : PayoutOutcome → Begun
  build : ℕ → Begun

abbrev replay :
    String → String → PayoutJournalRow → PayoutJournalStatus → Option String → PayoutOutcome
replay address payout_id row confirmed (some sig) =
    if text_eq row.payout_id payout_id then paid sig address else refused 409 recorded
replay address payout_id row confirmed none = refused 409 recorded
replay address payout_id row reserved sig = refused 409 recorded
replay address payout_id row sent sig = refused 409 recorded
replay address payout_id row failed_unsent sig = refused 409 recorded

abbrev reserved_or_answered : String → String → PayoutJournal × Reservation → PayoutJournal × Begun
reserved_or_answered address payout_id (j, made id) = (j, build id)
reserved_or_answered address payout_id (j, already_recorded row) =
    (j, answer (replay address payout_id row row.status (truthy row.tx_signature)))
reserved_or_answered address payout_id (j, over_daily_cap today) =
    (j, answer (refused 403 over_daily))

abbrev after_pull :
    Host
    → Approval
    → Checked
    → String
    → PayoutJournal
    → Option PayoutOutcome
    → PayoutJournal × Begun
after_pull h a c day j (some outcome) = (j, answer outcome)
after_pull h a c day j none =
    reserved_or_answered h.address a.terms.payout_id (reserve j (reserve_args a c day))

abbrev after_checks : Host → Approval → Instant → PayoutJournal → Verdict → PayoutJournal × Begun
after_checks h a i j (err outcome) = (j, answer outcome)
after_checks h a i j (ok c) =
    after_pull h a c i.day j (check_pull h a.terms (i.fetch_pull a.terms.repo a.terms.pr_number))

abbrev answer_missing : PayoutJournal → Verdict → PayoutJournal × Begun
answer_missing j (err outcome) = (j, answer outcome)
answer_missing j (ok c) = (j, answer (refused 400 missing_terms))

-- `pay` up to the reservation. Nothing before the reservation reads or writes the journal.
unfoldable pub begin :
    PayoutSignerConfig → Host → Instant → Option Approval → PayoutJournal → PayoutJournal × Begun
begin cfg h i none j = answer_missing j (check cfg h none i.now)
begin cfg h i (some a) j = after_checks h a i j (check cfg h (some a) i.now)

abbrev or_thrown :
    PayoutJournal
    → PayoutOutcome
    → Result PayoutJournalError PayoutJournal
    → PayoutJournal × PayoutOutcome
or_thrown j r (ok j') = (j', r)
or_thrown j r (err e) = (j, thrown e)

unfoldable pub build_failed : ℕ → Message → PayoutJournal → PayoutJournal × PayoutOutcome
build_failed id e j =
    or_thrown j (refused 422 (could_not_build e)) (mark j id failed_unsent none (some e))

-- The signature is in the journal before anything is broadcast.
unfoldable pub built : ℕ → String → PayoutJournal → Result PayoutJournalError PayoutJournal
built id sig j = mark j id sent (some sig) none

unfoldable pub broadcast_failed : ℕ → Message → PayoutJournal → PayoutJournal × PayoutOutcome
broadcast_failed id e j = (note_error j id e, refused 502 (outcome_unknown e))

-- A `mark` that throws here is caught, and its text (`show`) noted.
unfoldable pub broadcast_ok :
    String
    → (PayoutJournalError → Message)
    → ℕ
    → String
    → PayoutJournal
    → PayoutJournal × PayoutOutcome
unfolding broadcast_failed
broadcast_ok address show id sig j = elim (mark j id confirmed none none) [
  | ok j' ↦ (j', paid sig address)
  | err e ↦ broadcast_failed id (show e) j
]

abbrev finish_broadcast :
    String
    → (PayoutJournalError → Message)
    → ℕ
    → String
    → Option Message
    → PayoutJournal
    → PayoutJournal × PayoutOutcome
finish_broadcast address show id sig none j = broadcast_ok address show id sig j
finish_broadcast address show id sig (some e) j = broadcast_failed id e j

abbrev finish_build :
    String
    → (PayoutJournalError → Message)
    → ℕ
    → Result Message Prepared
    → PayoutJournal
    → PayoutJournal × PayoutOutcome
finish_build address show id (err e) j = build_failed id e j
finish_build address show id (ok p) j = elim (built id p.signature j) [
  | ok j' ↦ finish_broadcast address show id p.signature p.broadcast j'
  | err e ↦ (j, thrown e)
]

abbrev finish :
    Host
    → (PayoutJournalError → Message)
    → Result Message Prepared
    → PayoutJournal × Begun
    → PayoutJournal × PayoutOutcome
finish h show prepared (j, answer r) = (j, r)
finish h show prepared (j, build id) = finish_build h.address show id prepared j

-- The rail's answer for what the checks passed.
abbrev transfer_of : Instant → Approval → Verdict → Result Message Prepared
transfer_of i a (ok c) = i.prepare_transfer c.mint.mint c.mint.decimals a.terms.recipient c.amount
transfer_of i a (err outcome) = err []

-- `pay` with no other request between its parts.
unfoldable pub pay :
    PayoutSignerConfig
    → Host
    → (PayoutJournalError → Message)
    → Instant
    → Option Approval
    → PayoutJournal
    → PayoutJournal × PayoutOutcome
pay cfg h show i none j = finish h show (err []) (begin cfg h i none j)
pay cfg h show i (some a) j =
    finish h show (transfer_of i a (check cfg h (some a) i.now)) (begin cfg h i (some a) j)
