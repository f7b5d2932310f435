-- ===== src/Payout/Journal/Keep.antt =====
-- What every operation of services/signer/src/payout/journal.ts keeps.
use grainlify_bounty_agent.Base.{
  ℕ, suc, ◌+◌, ◌≤◌, ◌≡◌, refl, subst, ◌⊎◌, inl, inr, Bool, true, false, Option, none, arith, ◌==◌,
  ok, String, text_eq_iff, Message, if_elim, Option-cases, update_where, sum_by-concat,
  sum_by-update_where-le, All, All-concat, All-update_where, IsApart, IsApart-concat,
  IsApart-update_where, IsKeyed, IsKeyed-concat, IsKeyed-update_where, any-first-none, ltb,
}
use grainlify_bounty_agent.Payout.Journal.{
  PayoutJournalStatus, PayoutJournalRow, PayoutJournal, is_failed_unsent, counted_on,
  committed_today, ReserveArgs, Reservation, is_same, new_row, insert_row, existing, reserve,
  in_transition, set_status, mark, note_error,
}

-- Two rows of one payout, one bounty or one approval.
abbrev pub same_payment : PayoutJournalRow → PayoutJournalRow → Bool
same_payment r s = is_same s.payout_id s.bounty_id s.approval_signature r

-- Distinct ids and payments, no day above its cap, and `P` of every row.
pub record IsValid (daily_max : String → ℕ) (P : PayoutJournalRow → Type 0) (j : PayoutJournal)
    : Type 0 where
  pub keyed : IsKeyed (λ (r : PayoutJournalRow). r.id) j.seq j.rows
  pub apart : IsApart same_payment j.rows
  pub capped : (currency day : String) → committed_today j currency day ≤ daily_max currency
  pub rows : All P j.rows

-- The columns that no statement changes.
pub record KeepsColumns (f : PayoutJournalRow → PayoutJournalRow) : Type 0 where
  pub id : (r : PayoutJournalRow) → (f r).id ≡ r.id
  pub payout : (r : PayoutJournalRow) → (f r).payout_id ≡ r.payout_id
  pub bounty : (r : PayoutJournalRow) → (f r).bounty_id ≡ r.bounty_id
  pub approval : (r : PayoutJournalRow) → (f r).approval_signature ≡ r.approval_signature
  pub recipient : (r : PayoutJournalRow) → (f r).recipient ≡ r.recipient
  pub currency : (r : PayoutJournalRow) → (f r).currency ≡ r.currency
  pub amount : (r : PayoutJournalRow) → (f r).amount_minor ≡ r.amount_minor
  pub day : (r : PayoutJournalRow) → (f r).day ≡ r.day

-- A failed row stays failed.
abbrev Counts : (PayoutJournalRow → Bool) → (PayoutJournalRow → PayoutJournalRow) → Type 0
Counts p f =
    (r : PayoutJournalRow)
    → p r ≡ true
    → is_failed_unsent r.status ≡ true
    → is_failed_unsent (f r).status ≡ true

counted_on-le :
    (f : PayoutJournalRow → PayoutJournalRow) (r : PayoutJournalRow) (currency day : String)
    → KeepsColumns f
    → (is_failed_unsent r.status ≡ true → is_failed_unsent (f r).status ≡ true)
    → counted_on currency day (f r) ≤ counted_on currency day r
counted_on-le f r currency day k h = rw (k.currency r, k.day r, k.amount r) (ground arith)

-- A row adds nothing to another currency or day.
counted_on-other :
    (r : PayoutJournalRow) (currency day : String)
    → ((r.currency ≡ currency) × (r.day ≡ day) × (counted_on currency day r ≤ r.amount_minor))
      ⊎ (counted_on currency day r ≡ 0)
counted_on-other r currency day =
    ground (arith, text_eq_iff r.currency currency, text_eq_iff r.day day)

committed_today-insert_row :
    (j : PayoutJournal) (a : ReserveArgs) (currency day : String)
    → committed_today (insert_row j a) currency day
      ≡ committed_today j currency day + counted_on currency day (new_row (suc j.seq) a)
unfolding committed_today
committed_today-insert_row j a currency day =
    sum_by-concat (counted_on currency day) j.rows (new_row (suc j.seq) a)

module _ (daily_max : String → ℕ) (P : PayoutJournalRow → Type 0)
    (keeps : (f : PayoutJournalRow → PayoutJournalRow)
      → KeepsColumns f
      → (r : PayoutJournalRow) → P r
      → P (f r)) where
  update_where-IsValid :
      (j : PayoutJournal) (p : PayoutJournalRow → Bool) (f : PayoutJournalRow → PayoutJournalRow)
      → KeepsColumns f
      → Counts p f
      → IsValid daily_max P j
      → IsValid daily_max P (record j { rows = update_where p f j.rows })
  unfolding committed_today
  update_where-IsValid j p f k c v = record {
    keyed = IsKeyed-update_where (λ r. r.id) j.seq p f j.rows k.id v.keyed;
    apart =
        IsApart-update_where same_payment p f (λ r s. rw (k.payout r, k.bounty r, k.approval r))
          (λ r s. rw (k.payout s, k.bounty s, k.approval s)) j.rows v.apart;
    capped = λ currency day. omega (
      arith,
      v.capped currency day,
      sum_by-update_where-le P (counted_on currency day) p f j.rows
          (λ r hit _. counted_on-le f r currency day k (c r hit)) v.rows,
    );
    rows = All-update_where P p f j.rows (λ r hit. keeps f k r) v.rows;
  }

  pub mark-IsValid :
      (j j' : PayoutJournal) (id : ℕ) (to : PayoutJournalStatus) (sig : Option String)
      (e : Option Message)
      → IsValid daily_max P j
      → mark j id to sig e ≡ ok j'
      → IsValid daily_max P j'
  unfolding mark
  mark-IsValid j j' id to sig e v h = subst (IsValid daily_max P) (ground arith) (
      update_where-IsValid j (in_transition id to) (set_status to sig e)
        (record {
          id = λ r. refl;
          payout = λ r. refl;
          bounty = λ r. refl;
          approval = λ r. refl;
          recipient = λ r. refl;
          currency = λ r. refl;
          amount = λ r. refl;
          day = λ r. refl;
        })
        (λ r hit failed. ground arith) v)

  pub note_error-IsValid :
      (j : PayoutJournal) (id : ℕ) (e : Message)
      → IsValid daily_max P j
      → IsValid daily_max P (note_error j id e)
  unfolding note_error
  note_error-IsValid j id e =
      update_where-IsValid j (λ r. r.id == id) _
        (record {
          id = λ r. refl;
          payout = λ r. refl;
          bounty = λ r. refl;
          approval = λ r. refl;
          recipient = λ r. refl;
          currency = λ r. refl;
          amount = λ r. refl;
          day = λ r. refl;
        })
        (λ r hit failed. failed)

  insert_row-IsValid :
      (j : PayoutJournal) (a : ReserveArgs)
      → a.daily_max_minor ≡ daily_max a.currency
      → P (new_row (suc j.seq) a)
      → IsValid daily_max P j
      → existing j a ≡ none
      → ltb a.daily_max_minor (committed_today j a.currency a.day + a.amount_minor) ≡ false
      → IsValid daily_max P (insert_row j a)
  unfolding existing
  insert_row-IsValid j a cap new v absent under = record {
    keyed = IsKeyed-concat (λ r. r.id) j.seq j.rows (new_row (suc j.seq) a) refl v.keyed;
    apart =
        IsApart-concat same_payment j.rows (new_row (suc j.seq) a)
          (any-first-none (is_same a.payout_id a.bounty_id a.approval_signature) j.rows absent)
          v.apart;
    capped = λ currency day. ground (
      arith,
      cap,
      under,
      v.capped currency day,
      committed_today-insert_row j a currency day,
      counted_on-other (new_row (suc j.seq) a) currency day,
    );
    rows = All-concat P j.rows _ v.rows new;
  }

  pub reserve-IsValid :
      (j : PayoutJournal) (a : ReserveArgs)
      → a.daily_max_minor ≡ daily_max a.currency
      → P (new_row (suc j.seq) a)
      → IsValid daily_max P j
      → IsValid daily_max P (reserve j a).0
  unfolding reserve
  reserve-IsValid j a cap new v = elim (Option-cases (existing j a)) [
    | inr (r, found) ↦ rw (found, reserve) v
    | inl absent ↦
        rw (absent, reserve)
          (if_elim (λ (x : PayoutJournal × Reservation). IsValid daily_max P x.0)
            (ltb a.daily_max_minor (committed_today j a.currency a.day + a.amount_minor)) _ _
            (λ over. v) (λ under. insert_row-IsValid j a cap new v absent under))
  ]
