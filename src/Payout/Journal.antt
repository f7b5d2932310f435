-- ===== src/Payout/Journal.antt =====
-- services/signer/src/payout/journal.ts. Rows are in rowid order; created_at is left out. Amounts,
-- which the column holds as the text of a bigint, are numbers.
pub mod Keep
use grainlify_bounty_agent.Base.{
  ℕ, suc, ◌+◌, ◌==◌, Bool, true, false, not, ◌||◌, ◌&&◌, Option, none, some, List, [], ◌∷◌, ◌++◌,
  ltb, if◌then◌else◌, Result, ok, err, String, text_eq, column_eq, Message, slice_to, any, first,
  sum_by, count_by, update_where,
}

pub data PayoutJournalStatus : Type 0 where
  reserved sent confirmed failed_unsent : PayoutJournalStatus

pub record PayoutJournalRow : Type 0 where
  pub id : ℕ
  pub payout_id : String
  pub bounty_id : String
  pub approval_signature : String
  pub recipient : String
  pub currency : String
  pub amount_minor : ℕ
  pub day : String
  pub status : PayoutJournalStatus
  pub tx_signature : Option String
  pub error : Option Message

pub record PayoutJournal : Type 0 where
  pub rows : List PayoutJournalRow
  pub seq : ℕ

pub data PayoutJournalError : Type 0 where
  illegal_transition duplicate_signature : PayoutJournalError

abbrev pub is_failed_unsent : PayoutJournalStatus → Bool
is_failed_unsent failed_unsent = true
is_failed_unsent reserved = false
is_failed_unsent sent = false
is_failed_unsent confirmed = false

-- What a row adds to `committedToday currency day`.
abbrev pub counted_on : String → String → PayoutJournalRow → ℕ
counted_on currency day r =
    if text_eq r.currency currency && text_eq r.day day && not (is_failed_unsent r.status)
    then r.amount_minor
    else 0

unfoldable pub committed_today : PayoutJournal → String → String → ℕ
committed_today j currency day = sum_by (counted_on currency day) j.rows

pub record ReserveArgs : Type 0 where
  pub payout_id : String
  pub bounty_id : String
  pub approval_signature : String
  pub recipient : String
  pub currency : String
  pub amount_minor : ℕ
  pub day : String
  pub daily_max_minor : ℕ

pub data Reservation : Type 0 where
  made : ℕ → Reservation
  already_recorded : PayoutJournalRow → Reservation
  over_daily_cap : ℕ → Reservation

-- WHERE payout_id = ? OR bounty_id = ? OR approval_signature = ?
abbrev pub is_same : String → String → String → PayoutJournalRow → Bool
is_same payout bounty signature r =
    text_eq r.payout_id payout
    || text_eq r.bounty_id bounty
    || text_eq r.approval_signature signature

abbrev pub new_row : ℕ → ReserveArgs → PayoutJournalRow
new_row id a = record {
  id = id;
  payout_id = a.payout_id;
  bounty_id = a.bounty_id;
  approval_signature = a.approval_signature;
  recipient = a.recipient;
  currency = a.currency;
  amount_minor = a.amount_minor;
  day = a.day;
  status = reserved;
  tx_signature = none;
  error = none;
}

abbrev pub insert_row : PayoutJournal → ReserveArgs → PayoutJournal
insert_row j a = record { rows = j.rows ++ new_row (suc j.seq) a ∷ []; seq = suc j.seq }

unfoldable pub existing : PayoutJournal → ReserveArgs → Option PayoutJournalRow
existing j a = first (is_same a.payout_id a.bounty_id a.approval_signature) j.rows

abbrev after_lookup :
    PayoutJournal → ReserveArgs → Option PayoutJournalRow → PayoutJournal × Reservation
after_lookup j a (some row) = (j, already_recorded row)
after_lookup j a none =
    if ltb a.daily_max_minor (committed_today j a.currency a.day + a.amount_minor)
    then (j, over_daily_cap (committed_today j a.currency a.day))
    else (insert_row j a, made (suc j.seq))

-- One BEGIN IMMEDIATE transaction.
unfoldable pub reserve : PayoutJournal → ReserveArgs → PayoutJournal × Reservation
reserve j a = after_lookup j a (existing j a)

-- The table `from` of `mark`: whether a row of the second status may take the first.
abbrev pub may_follow : PayoutJournalStatus → PayoutJournalStatus → Bool
may_follow sent reserved = true
may_follow confirmed sent = true
may_follow failed_unsent reserved = true
may_follow _ _ = false

-- COALESCE(new, old)
abbrev pub coalesce {ℓ} : {A : Type ℓ} → Option A → Option A → Option A
coalesce none old = old
coalesce (some x) old = some x

abbrev pub in_transition : ℕ → PayoutJournalStatus → PayoutJournalRow → Bool
in_transition id to r = r.id == id && may_follow to r.status

abbrev pub set_status :
    PayoutJournalStatus → Option String → Option Message → PayoutJournalRow → PayoutJournalRow
set_status to sig e r = record r {
  status = to;
  tx_signature = coalesce sig r.tx_signature;
  error = coalesce e r.error;
}

-- tx_signature is UNIQUE.
abbrev clashes : PayoutJournal → ℕ → Option String → Bool
clashes j id none = false
clashes j id (some sig) = any (λ r. column_eq r.tx_signature sig && not (r.id == id)) j.rows

unfoldable pub mark :
    PayoutJournal
    → ℕ
    → PayoutJournalStatus
    → Option String
    → Option Message
    → Result PayoutJournalError PayoutJournal
mark j id to sig e =
    if any (in_transition id to) j.rows && clashes j id sig
    then err duplicate_signature
    else if count_by (in_transition id to) j.rows == 1
    then ok (record j { rows = update_where (in_transition id to) (set_status to sig e) j.rows })
    else err illegal_transition

unfoldable pub note_error : PayoutJournal → ℕ → Message → PayoutJournal
note_error j id e = record j {
  rows = update_where (λ r. r.id == id) (λ r. record r { error = some (slice_to 500 e) }) j.rows;
}
