-- ===== src/Inference/Journal.antt =====
-- services/signer/src/journal.ts: the inference signer's spend journal. The tables are lists in
-- rowid order; the columns created_at and updated_at, which no code reads, are left out.
pub mod Sums
use grainlify_bounty_agent.Base.{
  ℕ, suc, ◌+◌, ◌==◌, Bool, true, false, not, ◌||◌, ◌&&◌, Option, none, some, List, [], ◌∷◌, ◌++◌,
  ltb, if◌then◌else◌, Result, ok, err, String, text_eq, column_eq, includes, Message, slice_to, any,
  first, sum_by, count_by, update_where,
}

pub data PaymentStatus : Type 0 where
  reserved sent confirmed failed_unsent : PaymentStatus

pub record PaymentRow : Type 0 where
  pub id : ℕ
  pub quote_id : String
  pub pay_to : String
  pub amount_micro : ℕ
  pub fee_reserve_micro : ℕ
  pub fee_micro : Option ℕ
  pub status : PaymentStatus
  pub tx_signature : Option String
  pub error : Option Message

pub data RailKind : Type 0 where
  mock solana : RailKind

abbrev same_rail : RailKind → RailKind → Bool
same_rail mock mock = true
same_rail solana solana = true
same_rail _ _ = false

-- The file: `seq` is the last id given out, `rail` the one row of journal_meta.
pub record Journal : Type 0 where
  pub rows : List PaymentRow
  pub seq : ℕ
  pub rail : Option RailKind
  pub balance_proofs : List String

pub data JournalError : Type 0 where
  unknown_rail wrong_rail illegal_transition duplicate_signature : JournalError

-- INSERT OR IGNORE INTO journal_meta
abbrev bind_rail : RailKind → Option RailKind → RailKind
bind_rail r none = r
bind_rail r (some bound) = bound

abbrev is_unbound : Journal → Bool
is_unbound j = elim j.rail [ none ↦ true | some r ↦ false ]

abbrev has_payments : Journal → Bool
has_payments j = elim j.rows [ [] ↦ false | r ∷ rs ↦ true ]

-- The constructor, on the file as it was found.
unfoldable pub open_journal : Journal → RailKind → Result JournalError Journal
open_journal j r =
    if is_unbound j && has_payments j
    then err unknown_rail
    else if same_rail (bind_rail r j.rail) r
    then ok (record j { rail = some (bind_rail r j.rail) })
    else err wrong_rail

-- COALESCE(fee_micro, fee_reserve_micro)
abbrev pub fee_or_reserve : PaymentRow → ℕ
fee_or_reserve r = elim r.fee_micro [ none ↦ r.fee_reserve_micro | some fee ↦ fee ]

abbrev counted_at : PaymentStatus → PaymentRow → ℕ
counted_at failed_unsent r = 0
counted_at confirmed r = r.amount_micro + fee_or_reserve r
counted_at reserved r = r.amount_micro + r.fee_reserve_micro
counted_at sent r = r.amount_micro + r.fee_reserve_micro

abbrev pub counted : PaymentRow → ℕ
counted r = counted_at r.status r

unfoldable pub committed_micro : Journal → ℕ
committed_micro j = sum_by counted j.rows

abbrev pub has_quote : String → PaymentRow → Bool
has_quote q r = text_eq r.quote_id q

unfoldable pub by_quote : Journal → String → Option PaymentRow
by_quote j q = first (has_quote q) j.rows

pub record ReserveArgs : Type 0 where
  pub quote_id : String
  pub pay_to : String
  pub amount_micro : ℕ
  pub fee_reserve_micro : ℕ
  pub ceiling_micro : ℕ

pub data Reservation : Type 0 where
  made : ℕ → Reservation
  already_paid : PaymentRow → Reservation
  over_ceiling : ℕ → Reservation

abbrev pub new_row : ℕ → ReserveArgs → PaymentRow
new_row id a = record {
  id = id;
  quote_id = a.quote_id;
  pay_to = a.pay_to;
  amount_micro = a.amount_micro;
  fee_reserve_micro = a.fee_reserve_micro;
  fee_micro = none;
  status = reserved;
  tx_signature = none;
  error = none;
}

abbrev pub insert_row : Journal → ReserveArgs → Journal
insert_row j a = record j { rows = j.rows ++ new_row (suc j.seq) a ∷ []; seq = suc j.seq }

abbrev after_lookup : Journal → ReserveArgs → Option PaymentRow → Journal × Reservation
after_lookup j a (some existing) = (j, already_paid existing)
after_lookup j a none =
    if ltb a.ceiling_micro (committed_micro j + a.amount_micro + a.fee_reserve_micro)
    then (j, over_ceiling (committed_micro j + a.amount_micro + a.fee_reserve_micro))
    else (insert_row j a, made (suc j.seq))

-- One BEGIN IMMEDIATE transaction.
unfoldable pub reserve : Journal → ReserveArgs → Journal × Reservation
unfolding by_quote
reserve j a = after_lookup j a (by_quote j a.quote_id)

abbrev pub is_status : PaymentStatus → PaymentStatus → Bool
is_status reserved reserved = true
is_status sent sent = true
is_status confirmed confirmed = true
is_status failed_unsent failed_unsent = true
is_status _ _ = false

-- WHERE id = ? AND status IN (from)
abbrev pub in_transition : ℕ → PaymentStatus → PaymentRow → Bool
in_transition id from r = r.id == id && is_status from r.status

-- `update`: it throws unless exactly one row changed. The key is unique, so that is when none did.
unfoldable pub update :
    Journal → ℕ → (PaymentRow → PaymentRow) → PaymentStatus → Result JournalError Journal
update j id set from =
    if count_by (in_transition id from) j.rows == 1
    then ok (record j { rows = update_where (in_transition id from) set j.rows })
    else err illegal_transition

abbrev pub set_sent : String → PaymentRow → PaymentRow
set_sent sig r = record r { status = sent; tx_signature = some sig }

abbrev pub set_confirmed : ℕ → PaymentRow → PaymentRow
set_confirmed fee r = record r { status = confirmed; fee_micro = some fee }

abbrev pub set_failed_unsent : Message → PaymentRow → PaymentRow
set_failed_unsent e r = record r { status = failed_unsent; error = some (slice_to 500 e) }

abbrev pub set_error : Message → PaymentRow → PaymentRow
set_error e r = record r { error = some (slice_to 500 e) }

-- tx_signature is UNIQUE: a second row with the signature makes the statement throw.
unfoldable pub mark_sent : Journal → ℕ → String → Result JournalError Journal
unfolding update
mark_sent j id sig =
    if any (in_transition id reserved) j.rows
      && any (λ r. column_eq r.tx_signature sig && not (r.id == id)) j.rows
    then err duplicate_signature
    else update j id (set_sent sig) reserved

unfoldable pub mark_confirmed : Journal → ℕ → ℕ → Result JournalError Journal
unfolding update
mark_confirmed j id fee = update j id (set_confirmed fee) sent

unfoldable pub mark_failed_unsent : Journal → ℕ → Message → Result JournalError Journal
unfolding update
mark_failed_unsent j id e = update j id (set_failed_unsent e) reserved

unfoldable pub mark_error : Journal → ℕ → Message → Journal
mark_error j id e = record j { rows = update_where (λ r. r.id == id) (set_error e) j.rows }

-- INSERT OR IGNORE: the journal, and whether a row was added.
unfoldable pub record_balance_proof : Journal → String → Journal × Bool
record_balance_proof j q =
    if includes j.balance_proofs q
    then (j, false)
    else (record j { balance_proofs = j.balance_proofs ++ q ∷ [] }, true)
