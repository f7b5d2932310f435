-- ===== src/Inference/Journal/Sums.antt =====
-- What each operation of services/signer/src/journal.ts keeps: distinct ids, one row for each quote,
-- and a committed sum that only `reserve` can raise.
use grainlify_bounty_agent.Base.{
  ℕ, suc, ◌+◌, ◌≤◌, ◌≡◌, refl, subst, inl, inr, Bool, true, false, none, List, arith, ◌==◌, ok,
  String, text_eq, Message, Bool-cases, Option-cases, any, update_where, sum_by-concat,
  sum_by-update_where-le, All, All-concat, All-update_where, IsApart, IsApart-concat,
  IsApart-update_where, IsKeyed, IsKeyed-concat, IsKeyed-update_where, any-first-none, ltb,
}
use grainlify_bounty_agent.Inference.Journal.{
  PaymentRow, PaymentStatus, reserved, sent, Journal, counted, committed_micro, has_quote, by_quote,
  ReserveArgs, new_row, insert_row, reserve, in_transition, update, set_sent, set_confirmed,
  set_failed_unsent, set_error, mark_sent, mark_confirmed, mark_failed_unsent, mark_error,
}

abbrev pub same_quote : PaymentRow → PaymentRow → Bool
same_quote r s = text_eq r.quote_id s.quote_id

abbrev row_id : PaymentRow → ℕ
row_id r = r.id

-- The journal of a signer whose fee reserve is `fee`, and whose rows all meet `P`.
pub record IsValid (ceiling fee : ℕ) (P : PaymentRow → Type 0) (j : Journal) : Type 0 where
  pub keyed : IsKeyed (λ (r : PaymentRow). r.id) j.seq j.rows
  pub quotes : IsApart same_quote j.rows
  pub capped : committed_micro j ≤ ceiling
  pub reserves : All (λ r. r.fee_reserve_micro ≡ fee) j.rows
  pub rows : All P j.rows

-- The columns that no statement changes.
pub record KeepsColumns (f : PaymentRow → PaymentRow) : Type 0 where
  pub id : (r : PaymentRow) → (f r).id ≡ r.id
  pub quote : (r : PaymentRow) → (f r).quote_id ≡ r.quote_id
  pub fee_reserve : (r : PaymentRow) → (f r).fee_reserve_micro ≡ r.fee_reserve_micro

pub record KeepsPayment (f : PaymentRow → PaymentRow) : Type 0 where
  pub pay_to : (r : PaymentRow) → (f r).pay_to ≡ r.pay_to
  pub amount : (r : PaymentRow) → (f r).amount_micro ≡ r.amount_micro

-- An insertion adds the amount and the fee reserve.
pub committed_micro-insert_row :
    (j : Journal) (a : ReserveArgs)
    → committed_micro (insert_row j a) ≡ committed_micro j + (a.amount_micro + a.fee_reserve_micro)
unfolding committed_micro
committed_micro-insert_row j a = sum_by-concat counted j.rows (new_row (suc j.seq) a)

module _ (ceiling fee : ℕ) (P : PaymentRow → Type 0) where
  pub update_where-IsValid :
      (j : Journal) (p : PaymentRow → Bool) (f : PaymentRow → PaymentRow)
      → KeepsColumns f
      → ((r : PaymentRow) → p r ≡ true → r.fee_reserve_micro ≡ fee → counted (f r) ≤ counted r)
      → ((r : PaymentRow) → p r ≡ true → P r → P (f r))
      → IsValid ceiling fee P j
      → IsValid ceiling fee P (record j { rows = update_where p f j.rows })
  unfolding committed_micro
  update_where-IsValid j p f k lighter keeps v = record {
    keyed = IsKeyed-update_where row_id j.seq p f j.rows k.id v.keyed;
    quotes =
        IsApart-update_where same_quote p f (λ r s. rw (k.quote r)) (λ r s. rw (k.quote s)) j.rows
          v.quotes;
    capped = omega (
      arith,
      v.capped,
      sum_by-update_where-le (λ r. r.fee_reserve_micro ≡ fee) counted p f j.rows lighter v.reserves,
    );
    reserves =
        All-update_where (λ r. r.fee_reserve_micro ≡ fee) p f j.rows
          (λ r h e. rw (k.fee_reserve r) e) v.reserves;
    rows = All-update_where P p f j.rows keeps v.rows;
  }

  pub update-IsValid :
      (j j' : Journal) (id : ℕ) (f : PaymentRow → PaymentRow) (from : PaymentStatus)
      → KeepsColumns f
      → ((r : PaymentRow)
          → in_transition id from r ≡ true
          → r.fee_reserve_micro ≡ fee
          → counted (f r) ≤ counted r)
      → ((r : PaymentRow) → in_transition id from r ≡ true → P r → P (f r))
      → IsValid ceiling fee P j
      → update j id f from ≡ ok j'
      → IsValid ceiling fee P j'
  unfolding update
  update-IsValid j j' id f from k lighter keeps v h =
      subst (IsValid ceiling fee P) (ground arith)
        (update_where-IsValid j (in_transition id from) f k lighter keeps v)

  quote_absent :
      (q : String) (xs : List PaymentRow) (r : PaymentRow)
      → r.quote_id ≡ q
      → any (has_quote q) xs ≡ false
      → any (λ s. same_quote s r) xs ≡ false
  quote_absent q xs r e h = rw e h

  pub reserve-IsValid :
      (j : Journal) (a : ReserveArgs)
      → a.ceiling_micro ≤ ceiling
      → a.fee_reserve_micro ≡ fee
      → P (new_row (suc j.seq) a)
      → IsValid ceiling fee P j
      → IsValid ceiling fee P (reserve j a).0
  unfolding reserve
  reserve-IsValid j a below e new v = elim (Option-cases (by_quote j a.quote_id)) [
    | inr (r, found) ↦ rw (found, reserve) v
    | inl absent ↦
        rw (absent, reserve)
          (elim (Bool-cases
            (ltb a.ceiling_micro (committed_micro j + a.amount_micro + a.fee_reserve_micro))) [
              | inl over ↦ rw over v
              | inr under ↦ rw under (inserted absent under)
            ])
  ]
    where
      inserted :
          by_quote j a.quote_id ≡ none
          → ltb a.ceiling_micro (committed_micro j + a.amount_micro + a.fee_reserve_micro) ≡ false
          → IsValid ceiling fee P (insert_row j a)
      inserted absent under = record {
        keyed = IsKeyed-concat row_id j.seq j.rows (new_row (suc j.seq) a) refl v.keyed;
        quotes =
            IsApart-concat same_quote j.rows (new_row (suc j.seq) a)
              (any-first-none (has_quote a.quote_id) j.rows absent) v.quotes;
        capped = ground (arith, under, below, committed_micro-insert_row j a);
        reserves = All-concat (λ r. r.fee_reserve_micro ≡ fee) j.rows _ v.reserves e;
        rows = All-concat P j.rows _ v.rows new;
      }

  module _
      (keeps : (f : PaymentRow → PaymentRow)
        → KeepsPayment f
        → (r : PaymentRow) → P r
        → P (f r)) where
    pub mark_sent-IsValid :
        (j j' : Journal) (id : ℕ) (sig : String)
        → IsValid ceiling fee P j
        → mark_sent j id sig ≡ ok j'
        → IsValid ceiling fee P j'
    unfolding mark_sent
    mark_sent-IsValid j j' id sig v h =
        update-IsValid j j' id (set_sent sig) reserved
          (record { id = λ r. refl; quote = λ r. refl; fee_reserve = λ r. refl })
          (λ r hit e. ground arith)
          (λ r hit. keeps (set_sent sig) (record { pay_to = λ x. refl; amount = λ x. refl }) r) v
          (ground arith)

    pub mark_confirmed-IsValid :
        (j j' : Journal) (id spent : ℕ)
        → spent ≤ fee
        → IsValid ceiling fee P j
        → mark_confirmed j id spent ≡ ok j'
        → IsValid ceiling fee P j'
    unfolding mark_confirmed
    mark_confirmed-IsValid j j' id spent small v h =
        update-IsValid j j' id (set_confirmed spent) sent
          (record { id = λ r. refl; quote = λ r. refl; fee_reserve = λ r. refl })
          (λ r hit e. ground arith)
          (λ r hit.
            keeps (set_confirmed spent) (record { pay_to = λ x. refl; amount = λ x. refl }) r)
          v h

    pub mark_failed_unsent-IsValid :
        (j j' : Journal) (id : ℕ) (e : Message)
        → IsValid ceiling fee P j
        → mark_failed_unsent j id e ≡ ok j'
        → IsValid ceiling fee P j'
    unfolding mark_failed_unsent
    mark_failed_unsent-IsValid j j' id e v h =
        update-IsValid j j' id (set_failed_unsent e) reserved
          (record { id = λ r. refl; quote = λ r. refl; fee_reserve = λ r. refl })
          (λ r hit k. omega arith)
          (λ r hit.
            keeps (set_failed_unsent e) (record { pay_to = λ x. refl; amount = λ x. refl }) r)
          v h

    pub mark_error-IsValid :
        (j : Journal) (id : ℕ) (e : Message)
        → IsValid ceiling fee P j
        → IsValid ceiling fee P (mark_error j id e)
    unfolding mark_error
    mark_error-IsValid j id e =
        update_where-IsValid j (λ r. r.id == id) (set_error e)
          (record { id = λ r. refl; quote = λ r. refl; fee_reserve = λ r. refl })
          (λ r hit k. ground arith)
          (λ r hit. keeps (set_error e) (record { pay_to = λ x. refl; amount = λ x. refl }) r)
