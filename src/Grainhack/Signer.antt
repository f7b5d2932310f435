-- ===== src/Grainhack/Signer.antt =====
-- services/signer/src/grainhack/grainhack-signer.ts: `GrainhackSigner.pay`, cut at its awaits, with the
-- terms of packages/gate/src/grainhack-approval.ts and the statement of
-- packages/gate/src/grainhack-statement.ts. Their parsing, the signatures and the rail are parameters.
pub mod Within
use grainlify_bounty_agent.Base.{
  ℕ, ◌==◌, Bool, true, false, not, ◌||◌, ◌&&◌, Option, none, some, List, [], ◌∷◌, ltb, leb,
  if◌then◌else◌, Result, ok, err, String, text_eq, first, Message,
}
use grainlify_bounty_agent.Gate.Approval.{
  Envelope, Crypto, ApprovalCheck, approved, untrusted, expired, too_long, bad_signature,
  verify_envelope,
}
use grainlify_bounty_agent.Grainhack.Caps.{GrainhackCaps, PartialCaps, grainhack_caps_for}
use grainlify_bounty_agent.Grainhack.Journal.{
  GrainhackJournal, GrainhackJournalRow, GrainhackJournalStatus, GrainhackError, Reservation,
  CapLimits, ReserveRefusal, Reserved, made, not_made, threw, reserved, sent, confirmed, unknown,
  failed_unsent, by_payout_id, check, reserve,
}
use grainlify_bounty_agent.Grainhack.Journal.Move.{mark}

pub record GrainhackTerms : Type 0 where
  pub payout_id : String
  pub statement_id : String
  pub statement_sha256 : String
  pub hackathon_id : String
  pub pool : String
  pub github_user_id : ℕ
  pub login : String
  pub recipient : String
  pub amount_minor : String
  pub currency : String
  pub mint : String
  pub network : String

abbrev pub GrainhackApproval : Type 0
GrainhackApproval = Envelope GrainhackTerms

abbrev pub grainhack_approval_domain : String
grainhack_approval_domain = "grainlify-grainhack-payout-approval:v1\n"

unfoldable pub verify_grainhack_approval :
    Crypto GrainhackTerms → GrainhackApproval → List String → ℕ → ApprovalCheck
unfolding verify_envelope
verify_grainhack_approval k a trusted_approvers now =
    verify_envelope k grainhack_approval_domain a trusted_approvers now

pub data LineStatus : Type 0 where
  payable held_kyc : LineStatus

pub record StatementLine : Type 0 where
  pub github_user_id : ℕ
  pub login : String
  pub amount_minor : String
  pub status : LineStatus

-- The fields of the statement that the signer reads.
pub record ResultsStatement : Type 0 where
  pub statement_id : String
  pub hackathon_id : String
  pub pool : String
  pub currency : String
  pub network : String
  pub pool_minor : String
  pub lines : List StatementLine

unfoldable pub line_for : ResultsStatement → ℕ → Option StatementLine
line_for s github_user_id =
    first (λ (l : StatementLine). l.github_user_id == github_user_id) s.lines

pub record MintInfo : Type 0 where
  pub mint : String
  pub decimals : ℕ

pub record GrainhackSignerConfig : Type 0 where
  pub network : String
  pub mints : String → Option MintInfo
  pub caps : String → Option PartialCaps
  pub trusted_approvers : List String
  pub results_pubkey : String

pub record GrainhackPayRequest : Type 0 where
  pub approval : GrainhackApproval
  pub statement : String
  pub statement_signature : String

-- `has_shape` is checkGrainhackTermsShape, `verify_statement` verifyStatement with the key (`none` for a
-- refusal), and `big_int` is `BigInt` of a text that both have found decimal.
pub record Host : Type 0 where
  pub has_shape : GrainhackTerms → Bool
  pub crypto : Crypto GrainhackTerms
  pub verify_statement : String → String → String → Option ResultsStatement
  pub statement_sha256 : String → String
  pub is_solana_address : String → Bool
  pub big_int : String → ℕ
  pub address : String

pub data Reason : Type 0 where
  bad_shape bad_statement wrong_sha wrong_statement wrong_event wrong_network wrong_currency :
      Reason
  wrong_mint no_line not_payable wrong_amount wrong_login bad_recipient to_itself no_caps over_cap :
      Reason
  bad_approval : ApprovalCheck → Reason
  could_not_build : Message → Reason
  by_journal : ReserveRefusal → Reason

pub data GrainhackOutcome : Type 0 where
  paid : String → String → GrainhackOutcome
  refused : Reason → GrainhackOutcome
  outcome_unknown : String → Message → GrainhackOutcome
  thrown : GrainhackError → GrainhackOutcome

-- What the checks before the journal establish.
pub record Checked : Type 0 where
  pub statement : ResultsStatement
  pub mint : MintInfo
  pub line : StatementLine
  pub amount : ℕ
  pub caps : GrainhackCaps

abbrev pub Verdict : Type 0
Verdict = Result Reason Checked

module _ (cfg : GrainhackSignerConfig) (h : Host) (t : GrainhackTerms) where
  -- 6. Caps: the one on a payout.
  abbrev check_caps : ResultsStatement → MintInfo → StatementLine → Option GrainhackCaps → Verdict
  check_caps st mint line none = err no_caps
  check_caps st mint line (some caps) =
      if leb (h.big_int t.amount_minor) 0
        || ltb caps.per_payout_max_minor (h.big_int t.amount_minor)
      then err over_cap
      else ok (record {
        statement = st;
        mint = mint;
        line = line;
        amount = h.big_int t.amount_minor;
        caps = caps;
      })

  abbrev is_payable : LineStatus → Bool
  is_payable payable = true
  is_payable held_kyc = false

  -- 4. and 5. The line of the winner, and the recipient.
  abbrev check_line : ResultsStatement → MintInfo → Option StatementLine → Verdict
  check_line st mint none = err no_line
  check_line st mint (some line) =
      if not (is_payable line.status)
      then err not_payable
      else if not (text_eq line.amount_minor t.amount_minor)
      then err wrong_amount
      else if not (text_eq line.login t.login)
      then err wrong_login
      else if not (h.is_solana_address t.recipient)
      then err bad_recipient
      else if text_eq t.recipient h.address
      then err to_itself
      else check_caps st mint line (grainhack_caps_for t.currency (cfg.caps t.currency))

  abbrev check_mint : ResultsStatement → Option MintInfo → Verdict
  check_mint st none = err wrong_mint
  check_mint st (some mint) =
      if not (text_eq mint.mint t.mint)
      then err wrong_mint
      else check_line st mint (line_for st t.github_user_id)

  -- 2. and 3. The statement, its network, currency and mint.
  abbrev check_statement : String → Option ResultsStatement → Verdict
  check_statement text none = err bad_statement
  check_statement text (some st) =
      if not (text_eq (h.statement_sha256 text) t.statement_sha256)
      then err wrong_sha
      else if not (text_eq st.statement_id t.statement_id)
      then err wrong_statement
      else if not (text_eq st.hackathon_id t.hackathon_id) || not (text_eq st.pool t.pool)
      then err wrong_event
      else if not (text_eq st.network cfg.network) || not (text_eq t.network cfg.network)
      then err wrong_network
      else if not (text_eq st.currency t.currency)
      then err wrong_currency
      else check_mint st (cfg.mints t.currency)

  abbrev check_approval : GrainhackPayRequest → ApprovalCheck → Verdict
  check_approval req approved =
      check_statement req.statement
        (h.verify_statement req.statement req.statement_signature cfg.results_pubkey)
  check_approval req untrusted = err (bad_approval untrusted)
  check_approval req expired = err (bad_approval expired)
  check_approval req too_long = err (bad_approval too_long)
  check_approval req bad_signature = err (bad_approval bad_signature)

-- `pay` up to its first look at the journal.
unfoldable pub check_request : GrainhackSignerConfig → Host → GrainhackPayRequest → ℕ → Verdict
check_request cfg h req now =
    if not (h.has_shape req.approval.terms)
    then err bad_shape
    else check_approval cfg h req.approval.terms req
        (verify_grainhack_approval h.crypto req.approval cfg.trusted_approvers now)

abbrev lower_of : ℕ → ℕ → ℕ
lower_of pool cap = if ltb pool cap then pool else cap

abbrev pub limits_of : Host → Checked → CapLimits
limits_of h c = record {
  event_max_minor = lower_of (h.big_int c.statement.pool_minor) c.caps.per_event_max_minor;
  daily_max_minor = c.caps.daily_max_minor;
}

-- `day` is the UTC date of the clock; the last two come with the built transfer.
abbrev pub reservation_of :
    GrainhackSignerConfig → GrainhackApproval → Checked → String → String → Option ℕ → Reservation
reservation_of cfg a c day tx_signature last_valid_block_height = record {
  payout_id = a.terms.payout_id;
  approval_signature = a.signature;
  approver = a.approver;
  statement_id = c.statement.statement_id;
  statement_sha256 = a.terms.statement_sha256;
  hackathon_id = a.terms.hackathon_id;
  pool = a.terms.pool;
  github_user_id = a.terms.github_user_id;
  login = a.terms.login;
  recipient = a.terms.recipient;
  currency = a.terms.currency;
  network = cfg.network;
  mint = c.mint.mint;
  amount_minor = c.amount;
  day = day;
  tx_signature = tx_signature;
  last_valid_block_height = last_valid_block_height;
}

pub data Begun : Type 0 where
  answer : GrainhackOutcome → Begun
  build : Checked → Begun

abbrev pre_check : Checked → Option ReserveRefusal → Begun
pre_check c none = build c
pre_check c (some refusal) = answer (refused (by_journal refusal))

abbrev is_confirmed : GrainhackJournalStatus → Bool
is_confirmed confirmed = true
is_confirmed reserved = false
is_confirmed sent = false
is_confirmed unknown = false
is_confirmed failed_unsent = false

abbrev or_replay : String → String → Begun → Option GrainhackJournalRow → Begun
or_replay address signature rest none = rest
or_replay address signature rest (some row) =
    if text_eq row.approval_signature signature && is_confirmed row.status
    then answer (paid row.tx_signature address)
    else rest

abbrev after_checks :
    GrainhackSignerConfig → Host → GrainhackApproval → String → GrainhackJournal → Verdict → Begun
after_checks cfg h a day j (err reason) = answer (refused reason)
after_checks cfg h a day j (ok c) =
    or_replay h.address a.signature
      (pre_check c (check j (reservation_of cfg a c day "" none) (limits_of h c)))
      (by_payout_id j a.terms.payout_id)

-- `pay` up to its first await. It reads the journal and writes nothing.
unfoldable pub begin :
    GrainhackSignerConfig → Host → GrainhackPayRequest → ℕ → String → GrainhackJournal → Begun
begin cfg h req now day j = after_checks cfg h req.approval day j (check_request cfg h req now)

pub data Sending : Type 0 where
  broadcast : ℕ → Sending
  stopped : GrainhackOutcome → Sending

abbrev mark_sent :
    ℕ → GrainhackJournal → Result GrainhackError GrainhackJournal → GrainhackJournal × Sending
mark_sent id j (ok j') = (j', broadcast id)
mark_sent id j (err e) = (j, stopped (thrown e))

abbrev after_reserve : GrainhackJournal × Reserved → GrainhackJournal × Sending
after_reserve (j, made id) = mark_sent id j (mark j id sent none)
after_reserve (j, not_made refusal) = (j, stopped (refused (by_journal refusal)))
after_reserve (j, threw e) = (j, stopped (thrown e))

-- From the built transfer to the broadcast: the row, then its mark as sent.
unfoldable pub built :
    GrainhackSignerConfig
    → Host
    → GrainhackApproval
    → Checked
    → String
    → String
    → Option ℕ
    → GrainhackJournal
    → GrainhackJournal × Sending
built cfg h a c day tx_signature height j =
    after_reserve (reserve j (reservation_of cfg a c day tx_signature height) (limits_of h c))

abbrev or_thrown :
    GrainhackJournal
    → GrainhackOutcome
    → Result GrainhackError GrainhackJournal
    → GrainhackJournal × GrainhackOutcome
or_thrown j r (ok j') = (j', r)
or_thrown j r (err e) = (j, thrown e)

unfoldable pub broadcast_failed :
    ℕ → String → Message → GrainhackJournal → GrainhackJournal × GrainhackOutcome
broadcast_failed id sig e j = or_thrown j (outcome_unknown sig e) (mark j id unknown (some e))

unfoldable pub broadcast_ok :
    String → ℕ → String → GrainhackJournal → GrainhackJournal × GrainhackOutcome
broadcast_ok address id sig j = or_thrown j (paid sig address) (mark j id confirmed none)
