-- ===== src/Grainhack/Journal/Keep.antt =====
-- What every operation of services/signer/src/grainhack/journal.ts keeps.
use grainlify_bounty_agent.Base.{
  ℕ, suc, ◌+◌, ◌≤◌, ◌≡◌, refl, subst, ◌⊎◌, inl, inr, Bool, true, false, ◌||◌, Option, none, some,
  List, [], ◌∷◌, ◌++◌, arith, ◌==◌, ok, String, text_eq, text_eq_iff, Message, if_elim,
  Option-cases, update_where, sum_by-concat, any, first, sum_by-update_where-le, All, IsApart,
  IsApart-concat, IsApart-update_where, IsKeyed, IsKeyed-concat, IsKeyed-update_where,
  any-first-none, Bool-cases,
}
use grainlify_bounty_agent.Grainhack.Journal.{
  GrainhackJournalStatus, GrainhackJournalRow, GrainhackJournal, Transition, is_failed_unsent,
  counted_to_event, counted_on_day, committed_to_event, committed_on_day, Reservation, CapLimits,
  Reserved, is_winner, is_same, for_winner, new_row, insert_row, check, reserve, by_payout_id,
}
use grainlify_bounty_agent.Grainhack.Journal.Move.{
  Fields, set_status, has_id, transition, auto, mark, is_open, Final, status_of, resolve,
}

-- Two rows of one winner, one payout, one approval or one transaction.
abbrev pub same_payment : GrainhackJournalRow → GrainhackJournalRow → Bool
same_payment r s =
    is_winner s.hackathon_id s.pool s.github_user_id r
    || (is_same s.payout_id s.approval_signature r || text_eq r.tx_signature s.tx_signature)

-- Distinct ids and payments, and no event's pool and no day above the ceiling of its currency.
pub record IsValid (event_max daily_max : String → ℕ) (j : GrainhackJournal) : Type 0 where
  pub keyed : IsKeyed (λ (r : GrainhackJournalRow). r.id) j.seq j.rows
  pub apart : IsApart same_payment j.rows
  pub event_capped :
      (hackathon pool currency network : String)
      → committed_to_event j hackathon pool currency network ≤ event_max currency
  pub day_capped :
      (currency network day : String) → committed_on_day j currency network day ≤ daily_max currency

-- A status from which no transition leads to counting again.
abbrev Keeps : (GrainhackJournalStatus → Bool) → Type 0
Keeps from = (s : GrainhackJournalStatus) → from s ≡ true → is_failed_unsent s ≡ false

auto-Keeps : (to : GrainhackJournalStatus) → Keeps (auto to)
auto-Keeps to s h = ground arith

is_open-Keeps : Keeps is_open
is_open-Keeps s h = ground arith

-- An insertion adds nothing to another pool, and nothing to another day.
counted_to_event-other :
    (r : GrainhackJournalRow) (hackathon pool currency network : String)
    → ((r.hackathon_id ≡ hackathon)
        × (r.pool ≡ pool)
        × (r.currency ≡ currency)
        × (r.network ≡ network)
        × (counted_to_event hackathon pool currency network r ≤ r.amount_minor))
      ⊎ (counted_to_event hackathon pool currency network r ≡ 0)
counted_to_event-other r hackathon pool currency network = ground (
  arith,
  text_eq_iff r.hackathon_id hackathon,
  text_eq_iff r.pool pool,
  text_eq_iff r.currency currency,
  text_eq_iff r.network network,
)

counted_on_day-other :
    (r : GrainhackJournalRow) (currency network day : String)
    → ((r.currency ≡ currency)
        × (r.network ≡ network)
        × (r.day ≡ day)
        × (counted_on_day currency network day r ≤ r.amount_minor))
      ⊎ (counted_on_day currency network day r ≡ 0)
counted_on_day-other r currency network day =
    ground
      (arith, text_eq_iff r.currency currency, text_eq_iff r.network network, text_eq_iff r.day day)

any-or :
    (p q : GrainhackJournalRow → Bool) (xs : List GrainhackJournalRow)
    → any p xs ≡ false
    → any q xs ≡ false
    → any (λ x. p x || q x) xs ≡ false
any-or p q [] h k = refl
any-or p q (x ∷ xs) h k = let rest = any-or p q xs (ground arith) (ground arith) in ground arith

day-insert_row :
    (j : GrainhackJournal) (r : Reservation) (cap : ℕ) (daily_max : String → ℕ)
    (currency network day : String)
    → cap ≤ daily_max r.currency
    → committed_on_day j r.currency r.network r.day + r.amount_minor ≤ cap
    → committed_on_day j currency network day ≤ daily_max currency
    → committed_on_day (insert_row j r) currency network day ≤ daily_max currency
unfolding committed_on_day
day-insert_row j r cap daily_max currency network day in_cap under before =
    elim (counted_on_day-other (new_row (suc j.seq) r) currency network day) [
      | inl (c, n, d, small) ↦ ground (
        arith,
        sum_by-concat (counted_on_day currency network day) j.rows (new_row (suc j.seq) r),
      )
      | inr nothing ↦ ground (
        arith,
        sum_by-concat (counted_on_day currency network day) j.rows (new_row (suc j.seq) r),
      )
    ]

module _ (event_max daily_max : String → ℕ) where
  abbrev Valid : GrainhackJournal → Type 0
  Valid = IsValid event_max daily_max

  -- An update of rows that count: only the status, the error and the resolution change.
  set_status-Valid :
      (j : GrainhackJournal) (id : ℕ) (to : GrainhackJournalStatus) (actor : String)
      (reason : Option String) (f : Fields)
      → All
          (λ (r : GrainhackJournalRow). has_id id r ≡ true → is_failed_unsent r.status ≡ false)
          j.rows
      → Valid j
      → Valid (record j { rows = update_where (has_id id) (set_status to actor reason f) j.rows })
  unfolding committed_to_event committed_on_day
  set_status-Valid j id to actor reason f counts v = record {
    keyed =
        IsKeyed-update_where (λ r. r.id) j.seq (has_id id) (set_status to actor reason f) j.rows
          (λ r. refl) v.keyed;
    apart =
        IsApart-update_where same_payment (has_id id) (set_status to actor reason f) (λ r s. refl)
          (λ r s. refl) j.rows v.apart;
    event_capped = λ hackathon pool currency network. omega (
      arith,
      v.event_capped hackathon pool currency network,
      sum_by-update_where-le
          (λ (r : GrainhackJournalRow). has_id id r ≡ true → is_failed_unsent r.status ≡ false)
          (counted_to_event hackathon pool currency network) (has_id id)
          (set_status to actor reason f) j.rows (λ r hit live. let n = live hit in ground arith)
          counts,
    );
    day_capped = λ currency network day. omega (
      arith,
      v.day_capped currency network day,
      sum_by-update_where-le
          (λ (r : GrainhackJournalRow). has_id id r ≡ true → is_failed_unsent r.status ≡ false)
          (counted_on_day currency network day) (has_id id) (set_status to actor reason f) j.rows
          (λ r hit live. let n = live hit in ground arith) counts,
    );
  }

  -- The log of transitions is not looked at.
  log-Valid :
      (j : GrainhackJournal) (log : List Transition)
      → Valid j
      → Valid (record j { transitions = log })
  unfolding committed_to_event committed_on_day
  log-Valid j log v = record {
    keyed = v.keyed;
    apart = v.apart;
    event_capped = v.event_capped;
    day_capped = v.day_capped;
  }

  insert_row-Valid :
      (j : GrainhackJournal) (r : Reservation) (caps : CapLimits)
      → caps.event_max_minor ≤ event_max r.currency
      → caps.daily_max_minor ≤ daily_max r.currency
      → check j r caps ≡ none
      → any (λ x. text_eq x.tx_signature r.tx_signature) j.rows ≡ false
      → Valid j
      → Valid (insert_row j r)
  unfolding check for_winner committed_to_event committed_on_day
  insert_row-Valid j r caps event day clear fresh v =
      let no_winner : first (is_winner r.hackathon_id r.pool r.github_user_id) j.rows ≡ none =
        ground arith in
      let no_same : first (is_same r.payout_id r.approval_signature) j.rows ≡ none = ground arith in
      let under_day : committed_on_day j r.currency r.network r.day + r.amount_minor
          ≤ caps.daily_max_minor =
        ground arith in
      record {
        keyed = IsKeyed-concat (λ r. r.id) j.seq j.rows (new_row (suc j.seq) r) refl v.keyed;
        apart =
            IsApart-concat same_payment j.rows (new_row (suc j.seq) r)
              (any-or (is_winner r.hackathon_id r.pool r.github_user_id) _ j.rows
                (any-first-none (is_winner r.hackathon_id r.pool r.github_user_id) j.rows no_winner)
                (any-or (is_same r.payout_id r.approval_signature) _ j.rows
                  (any-first-none (is_same r.payout_id r.approval_signature) j.rows no_same) fresh))
              v.apart;
        event_capped = λ hackathon pool currency network. ground (
          arith,
          v.event_capped hackathon pool currency network,
          sum_by-concat (counted_to_event hackathon pool currency network) j.rows
              (new_row (suc j.seq) r),
          counted_to_event-other (new_row (suc j.seq) r) hackathon pool currency network,
        );
        day_capped = λ currency network day'.
            day-insert_row j r caps.daily_max_minor daily_max currency network day' day under_day
              (v.day_capped currency network day');
      }

  -- The row of a transition is the only one with its id.
  none-Live :
      (id : ℕ) (xs : List GrainhackJournalRow)
      → any (has_id id) xs ≡ false
      → All (λ (r : GrainhackJournalRow). has_id id r ≡ true → is_failed_unsent r.status ≡ false) xs
  none-Live id [] h = tt
  none-Live id (x ∷ xs) h = ((λ hit. absurd (ground arith)), none-Live id xs (ground arith))

  alone :
      (id : ℕ) (x : GrainhackJournalRow) (xs : List GrainhackJournalRow)
      → x.id ≡ id
      → any (λ r. x.id == r.id) xs ≡ false
      → any (has_id id) xs ≡ false
  alone id x [] e h = refl
  alone id x (y ∷ ys) e h = ground (arith, alone id x ys e)

  first-Live :
      (id : ℕ) (xs : List GrainhackJournalRow) (cur : GrainhackJournalRow)
      → IsApart (λ (r s : GrainhackJournalRow). r.id == s.id) xs
      → first (has_id id) xs ≡ some cur
      → is_failed_unsent cur.status ≡ false
      → All (λ (r : GrainhackJournalRow). has_id id r ≡ true → is_failed_unsent r.status ≡ false) xs
  first-Live id [] cur a e h = tt
  first-Live id (x ∷ xs) cur a e h = elim (Bool-cases (has_id id x)) [
    | inl hit ↦ (
      (λ _. let same : x ≡ cur = ground arith in rw same h),
      none-Live id xs (alone id x xs (ground arith) a.0),
    )
    | inr miss ↦ ((λ hit. absurd (ground arith)), first-Live id xs cur a.1 (ground arith) h)
  ]

  pub transition-Valid :
      (j j' : GrainhackJournal) (id : ℕ) (to : GrainhackJournalStatus)
      (from : GrainhackJournalStatus → Bool) (actor : String) (reason : Option String) (f : Fields)
      → Keeps from
      → Valid j
      → transition j id to from actor reason f ≡ ok j'
      → Valid j'
  unfolding transition
  transition-Valid j j' id to from actor reason f keeps v e =
      elim (Option-cases (first (has_id id) j.rows)) [
        | inl nothing ↦ absurd (ground arith)
        | inr (cur, found) ↦
            let live : is_failed_unsent cur.status ≡ false = keeps cur.status (ground arith) in
            subst Valid (ground arith) (
              log-Valid
                (record j { rows = update_where (has_id id) (set_status to actor reason f) j.rows })
                (j.transitions
                  ++ record {
                    payout_row = id;
                    from_status = some cur.status;
                    to_status = to;
                    actor = actor;
                    reason = reason;
                  }
                    ∷ [])
                (set_status-Valid j id to actor reason f
                  (first-Live id j.rows cur v.keyed.apart found live) v))
      ]

  pub mark-Valid :
      (j j' : GrainhackJournal) (id : ℕ) (to : GrainhackJournalStatus) (error : Option Message)
      → Valid j
      → mark j id to error ≡ ok j'
      → Valid j'
  unfolding mark
  mark-Valid j j' id to error =
      transition-Valid j j' id to (auto to) "grainhack-signer" none
        (record { error = error; resolution = none }) (auto-Keeps to)

  pub resolve-Valid :
      (trim : String → String) (j j' : GrainhackJournal) (payout : String) (to : Final)
      (actor reason evidence : String)
      → Valid j
      → resolve trim j payout to actor reason evidence ≡ ok j'
      → Valid j'
  unfolding resolve
  resolve-Valid trim j j' payout to actor reason evidence v e =
      elim (Option-cases (by_payout_id j payout)) [
        | inl nothing ↦ absurd (ground arith)
        | inr (row, found) ↦
            transition-Valid j j' row.id (status_of to) is_open actor (some reason)
              (record { error = none; resolution = some evidence }) is_open-Keeps v (ground arith)
      ]

  pub reserve-Valid :
      (j : GrainhackJournal) (r : Reservation) (caps : CapLimits)
      → caps.event_max_minor ≤ event_max r.currency
      → caps.daily_max_minor ≤ daily_max r.currency
      → Valid j
      → Valid (reserve j r caps).0
  unfolding reserve
  reserve-Valid j r caps event day v = elim (Option-cases (check j r caps)) [
    | inr (refusal, refused) ↦ rw (refused, reserve) v
    | inl clear ↦
        rw (clear, reserve)
          (if_elim (λ (x : GrainhackJournal × Reserved). Valid x.0)
            (any (λ x. text_eq x.tx_signature r.tx_signature) j.rows) _ _ (λ taken. v)
            (λ fresh. insert_row-Valid j r caps event day clear fresh v))
  ]
