-- ===== src/Grainhack/Journal.antt =====
-- services/signer/src/grainhack/journal.ts: the rows, the sums over them, check and reserve. Rows and
-- transitions are in rowid order; the times are left out. Amounts, which a column holds as the text of a
-- bigint, are numbers.
pub mod Move
pub mod Keep
use grainlify_bounty_agent.Base.{
  ℕ, suc, ◌+◌, ◌==◌, Bool, true, false, not, ◌||◌, ◌&&◌, Option, none, some, List, [], ◌∷◌, ◌++◌,
  ltb, if◌then◌else◌, Result, ok, err, String, text_eq, Message, slice_to, any, first, sum_by,
  update_where,
}

pub data GrainhackJournalStatus : Type 0 where
  reserved sent confirmed unknown failed_unsent : GrainhackJournalStatus

pub record GrainhackJournalRow : Type 0 where
  pub id : ℕ
  pub payout_id : String
  pub approval_signature : String
  pub approver : String
  pub statement_id : String
  pub statement_sha256 : String
  pub hackathon_id : String
  pub pool : String
  pub github_user_id : ℕ
  pub login : String
  pub recipient : String
  pub currency : String
  pub network : String
  pub mint : String
  pub amount_minor : ℕ
  pub day : String
  pub status : GrainhackJournalStatus
  pub tx_signature : String
  pub last_valid_block_height : Option ℕ
  pub error : Option Message
  pub resolved_by : Option String
  pub resolved_reason : Option String
  pub resolution : Option String

pub record Reservation : Type 0 where
  pub payout_id : String
  pub approval_signature : String
  pub approver : String
  pub statement_id : String
  pub statement_sha256 : String
  pub hackathon_id : String
  pub pool : String
  pub github_user_id : ℕ
  pub login : String
  pub recipient : String
  pub currency : String
  pub network : String
  pub mint : String
  pub amount_minor : ℕ
  pub day : String
  pub tx_signature : String
  pub last_valid_block_height : Option ℕ

pub record CapLimits : Type 0 where
  pub event_max_minor : ℕ
  pub daily_max_minor : ℕ

-- A row of grainhack_transitions; `from_status` is `none` for a new payout.
pub record Transition : Type 0 where
  pub payout_row : ℕ
  pub from_status : Option GrainhackJournalStatus
  pub to_status : GrainhackJournalStatus
  pub actor : String
  pub reason : Option String

pub record GrainhackJournal : Type 0 where
  pub rows : List GrainhackJournalRow
  pub seq : ℕ
  pub transitions : List Transition

pub data GrainhackError : Type 0 where
  illegal_transition duplicate_signature no_actor_or_reason no_row : GrainhackError

-- A refusal with its status and reason; the last two carry the existing row.
pub data ReserveRefusal : Type 0 where
  over_event_cap over_daily_cap : ReserveRefusal
  winner_recorded payout_recorded : GrainhackJournalRow → ReserveRefusal

abbrev pub is_failed_unsent : GrainhackJournalStatus → Bool
is_failed_unsent failed_unsent = true
is_failed_unsent reserved = false
is_failed_unsent sent = false
is_failed_unsent confirmed = false
is_failed_unsent unknown = false

-- What a row adds to the sum for one event's pool, and for one day.
abbrev pub counted_to_event : String → String → String → String → GrainhackJournalRow → ℕ
counted_to_event hackathon pool currency network r =
    if text_eq r.hackathon_id hackathon
      && text_eq r.pool pool
      && text_eq r.currency currency
      && text_eq r.network network
      && not (is_failed_unsent r.status)
    then r.amount_minor
    else 0

abbrev pub counted_on_day : String → String → String → GrainhackJournalRow → ℕ
counted_on_day currency network day r =
    if text_eq r.currency currency
      && text_eq r.network network
      && text_eq r.day day
      && not (is_failed_unsent r.status)
    then r.amount_minor
    else 0

unfoldable pub committed_to_event : GrainhackJournal → String → String → String → String → ℕ
committed_to_event j hackathon pool currency network =
    sum_by (counted_to_event hackathon pool currency network) j.rows

unfoldable pub committed_on_day : GrainhackJournal → String → String → String → ℕ
committed_on_day j currency network day = sum_by (counted_on_day currency network day) j.rows

abbrev pub is_winner : String → String → ℕ → GrainhackJournalRow → Bool
is_winner hackathon pool user r =
    text_eq r.hackathon_id hackathon && text_eq r.pool pool && r.github_user_id == user

unfoldable pub for_winner : GrainhackJournal → String → String → ℕ → Option GrainhackJournalRow
for_winner j hackathon pool user = first (is_winner hackathon pool user) j.rows

unfoldable pub by_payout_id : GrainhackJournal → String → Option GrainhackJournalRow
by_payout_id j payout = first (λ r. text_eq r.payout_id payout) j.rows

-- WHERE payout_id = ? OR approval_signature = ?
abbrev pub is_same : String → String → GrainhackJournalRow → Bool
is_same payout signature r = text_eq r.payout_id payout || text_eq r.approval_signature signature

abbrev refuse_same : Option GrainhackJournalRow → Option ReserveRefusal
refuse_same (some same) = some (payout_recorded same)
refuse_same none = none

abbrev refuse_winner :
    GrainhackJournal → Reservation → Option GrainhackJournalRow → Option ReserveRefusal
refuse_winner j r (some winner) = some (winner_recorded winner)
refuse_winner j r none = refuse_same (first (is_same r.payout_id r.approval_signature) j.rows)

-- `none` is null: nothing speaks against it.
unfoldable pub check : GrainhackJournal → Reservation → CapLimits → Option ReserveRefusal
unfolding for_winner
check j r caps =
    if ltb caps.event_max_minor
      (committed_to_event j r.hackathon_id r.pool r.currency r.network + r.amount_minor)
    then some over_event_cap
    else if ltb caps.daily_max_minor
        (committed_on_day j r.currency r.network r.day + r.amount_minor)
    then some over_daily_cap
    else refuse_winner j r (for_winner j r.hackathon_id r.pool r.github_user_id)

abbrev pub new_row : ℕ → Reservation → GrainhackJournalRow
new_row id r = record {
  id = id;
  payout_id = r.payout_id;
  approval_signature = r.approval_signature;
  approver = r.approver;
  statement_id = r.statement_id;
  statement_sha256 = r.statement_sha256;
  hackathon_id = r.hackathon_id;
  pool = r.pool;
  github_user_id = r.github_user_id;
  login = r.login;
  recipient = r.recipient;
  currency = r.currency;
  network = r.network;
  mint = r.mint;
  amount_minor = r.amount_minor;
  day = r.day;
  status = reserved;
  tx_signature = r.tx_signature;
  last_valid_block_height = r.last_valid_block_height;
  error = none;
  resolved_by = none;
  resolved_reason = none;
  resolution = none;
}

abbrev pub born : ℕ → Transition
born id = record {
  payout_row = id;
  from_status = none;
  to_status = reserved;
  actor = "grainhack-signer";
  reason = none;
}

abbrev pub insert_row : GrainhackJournal → Reservation → GrainhackJournal
insert_row j r = record {
  rows = j.rows ++ new_row (suc j.seq) r ∷ [];
  seq = suc j.seq;
  transitions = j.transitions ++ born (suc j.seq) ∷ [];
}

pub data Reserved : Type 0 where
  made : ℕ → Reserved
  not_made : ReserveRefusal → Reserved
  threw : GrainhackError → Reserved

-- tx_signature is UNIQUE; the other constraints are those that `check` looks at.
abbrev after_check :
    GrainhackJournal → Reservation → Option ReserveRefusal → GrainhackJournal × Reserved
after_check j r (some refusal) = (j, not_made refusal)
after_check j r none =
    if any (λ x. text_eq x.tx_signature r.tx_signature) j.rows
    then (j, threw duplicate_signature)
    else (insert_row j r, made (suc j.seq))

-- One BEGIN IMMEDIATE transaction.
unfoldable pub reserve : GrainhackJournal → Reservation → CapLimits → GrainhackJournal × Reserved
reserve j r caps = after_check j r (check j r caps)
