-- ===== src/Inference/Signer/Once.antt =====
-- Repeated requests for a quote and repeated broadcasts of a reservation in services/signer/src/signer.ts.
use grainlify_bounty_agent.Base.{
  ℕ, suc, ◌≤◌, ◌≡◌, refl, ap, ◌∙◌, sym, subst, inl, inr, true, false, Option, none, some, List, [],
  ◌∷◌, arith, ok, err, String, text_eq, text_eq_refl, includes, truthy, Bool-cases, if_elim,
  Option-cases, positive_safe, ltb, not, any, count_by-none, is_uuid_any_case, any-concat,
  any-update_where, any-update_where-false, any-update_where_self, any-first-none, IsBelow,
}
use grainlify_bounty_agent.Inference.Journal.{
  PaymentRow, reserved, RailKind, Journal, illegal_transition, Reservation, ReserveArgs, made,
  already_paid, over_ceiling, new_row, reserve, by_quote, has_quote, update, in_transition,
  set_sent, mark_sent,
}
use grainlify_bounty_agent.Inference.Signer.{
  SignerConfig, PayQuoteRequest, Clock, Begun, answer, build, PayResult, reserved_or_answered,
  with_amount, begin, built, usepod_pay_to_allowlist, solana_mainnet, is_expiring, reserve_args,
}
use grainlify_bounty_agent.Inference.Signer.Ceiling.{
  Reach, Reach-IsSafe, empty_journal, empty-IsSafe,
}
use grainlify_bounty_agent.Inference.Signer.Persists.{Persists, Reach-P}

abbrev pub HasQuote : String → Journal → Type 0
HasQuote q j = any (has_quote q) j.rows ≡ true

HasQuote-Persists : (q : String) → Persists (HasQuote q)
HasQuote-Persists q = record {
  inserts = λ j a h. ground (arith, any-concat (has_quote q) j.rows (new_row (suc j.seq) a));
  updates =
      λ j p f forward h. any-update_where (has_quote q) p f j.rows (λ r. rw (forward.quote r)) ∙ h;
  signs = λ j proofs h. h;
}

-- The reservation was broadcast, or given up.
abbrev pub IsPast : ℕ → Journal → Type 0
IsPast id j = (id ≤ j.seq) × (any (in_transition id reserved) j.rows ≡ false)

IsPast-Persists : (id : ℕ) → Persists (IsPast id)
IsPast-Persists id = record {
  inserts = λ j a h.
      ground (arith, any-concat (in_transition id reserved) j.rows (new_row (suc j.seq) a));
  updates = λ j p f forward h. (
    h.0,
    any-update_where-false (in_transition id reserved) p f j.rows
        (λ r e. ground (arith, forward.id r, forward.status r)) h.1,
  );
  signs = λ j proofs h. h;
}

module _ (cfg : SignerConfig) where
  -- A first part that ends with a reservation leaves a row for the quote.
  abbrev LeavesRow : String → Journal × Begun → Type 0
  LeavesRow q x = (id amount : ℕ) → x.1 ≡ build id amount → HasQuote q x.0

  answers : (q : String) (j : Journal) (r : PayResult) → LeavesRow q (j, answer r)
  answers q j r id amount e = absurd (cc)

  answered-LeavesRow :
      (q address : String) (amount : ℕ) (x : Journal × Reservation)
      → ((id : ℕ) → x.1 ≡ made id → HasQuote q x.0)
      → LeavesRow q (reserved_or_answered address amount x)
  answered-LeavesRow q address amount (j, made id) h = λ id' amount' e. h id refl
  answered-LeavesRow q address amount (j, already_paid r) h = answers q j _
  answered-LeavesRow q address amount (j, over_ceiling n) h = answers q j _

  reserve-HasQuote :
      (j : Journal) (a : ReserveArgs) (id : ℕ)
      → (reserve j a).1 ≡ made id
      → HasQuote a.quote_id (reserve j a).0
  unfolding reserve
  reserve-HasQuote j a id e = ground (
    arith,
    any-concat (has_quote a.quote_id) j.rows (new_row (suc j.seq) a),
    text_eq_refl a.quote_id,
  )

  begin-LeavesRow :
      (c : Clock) (address : String) (req : PayQuoteRequest) (j : Journal)
      → LeavesRow req.quote_id (begin cfg c address req j)
  unfolding begin
  begin-LeavesRow c address req j =
      if_elim P (not (is_uuid_any_case req.quote_id)) _ _ (λ a. stop _)
        λ _.
          if_elim P (not (text_eq req.network solana_mainnet)) _ _ (λ a. stop _)
            λ _.
              if_elim P (not (text_eq req.asset "USDC")) _ _ (λ a. stop _)
                λ _.
                  if_elim P (not (includes usepod_pay_to_allowlist req.pay_to)) _ _ (λ a. stop _)
                    λ _. amount_part (positive_safe req.amount_microunits)
    where
      P : Journal × Begun → Type 0
      P = LeavesRow req.quote_id

      stop : (r : PayResult) → P (j, answer r)
      stop = answers req.quote_id j

      amount_part : (o : Option ℕ) → P (with_amount cfg c address req j o)
      amount_part none = stop _
      amount_part (some amount) =
          if_elim P (ltb cfg.max_per_call_micro amount) _ _ (λ a. stop _)
            λ _.
              if_elim P (is_expiring c (truthy req.expires_at)) _ _ (λ a. stop _)
                λ _.
                  answered-LeavesRow req.quote_id address amount
                    (reserve j (reserve_args cfg req amount))
                    (reserve-HasQuote j (reserve_args cfg req amount))

  reserve-known :
      (j : Journal) (a : ReserveArgs)
      → HasQuote a.quote_id j
      → (row : PaymentRow) × (reserve j a ≡ (j, already_paid row))
  unfolding reserve
  reserve-known j a h = elim (Option-cases (by_quote j a.quote_id)) [
    | inl absent ↦ absurd (cc (h, any-first-none (has_quote a.quote_id) j.rows absent))
    | inr (row, found) ↦ (row, rw (found, reserve))
  ]

  -- With a row for its quote a request is answered at once, and the journal stays as it is.
  pub begin-answers :
      (c : Clock) (address : String) (req : PayQuoteRequest) (j : Journal)
      → HasQuote req.quote_id j
      → (r : PayResult) × (begin cfg c address req j ≡ (j, answer r))
  unfolding begin
  begin-answers c address req j h =
      if_elim P (not (is_uuid_any_case req.quote_id)) _ _ (λ a. stop _)
        λ _.
          if_elim P (not (text_eq req.network solana_mainnet)) _ _ (λ a. stop _)
            λ _.
              if_elim P (not (text_eq req.asset "USDC")) _ _ (λ a. stop _)
                λ _.
                  if_elim P (not (includes usepod_pay_to_allowlist req.pay_to)) _ _ (λ a. stop _)
                    λ _. amount_part (positive_safe req.amount_microunits)
    where
      P : Journal × Begun → Type 0
      P x = (r : PayResult) × (x ≡ (j, answer r))

      stop : (r : PayResult) → P (j, answer r)
      stop r = (r, refl)

      known :
          (amount : ℕ)
          → P (reserved_or_answered address amount (reserve j (reserve_args cfg req amount)))
      known amount =
          let (row, e) = reserve-known j (reserve_args cfg req amount) h in
          subst P (sym (ap (reserved_or_answered address amount) e)) (stop _)

      amount_part : (o : Option ℕ) → P (with_amount cfg c address req j o)
      amount_part none = stop _
      amount_part (some amount) =
          if_elim P (ltb cfg.max_per_call_micro amount) _ _ (λ a. stop _)
            λ _.
              if_elim P (is_expiring c (truthy req.expires_at)) _ _ (λ a. stop _) λ _. known amount

  -- Once a request for a quote has reserved, then after any further history every request for that
  -- quote is answered without a reservation and without a change of the journal.
  pub begin_once :
      (c c' : Clock) (address address' : String) (req req' : PayQuoteRequest) (j k : Journal)
      (id amount : ℕ)
      → (begin cfg c address req j).1 ≡ build id amount
      → Reach cfg (begin cfg c address req j).0 k
      → req'.quote_id ≡ req.quote_id
      → (r : PayResult) × (begin cfg c' address' req' k ≡ (k, answer r))
  begin_once c c' address address' req req' j k id amount e reach same =
      begin-answers c' address' req' k (
        rw same (
          Reach-P (HasQuote req.quote_id) (HasQuote-Persists req.quote_id) cfg reach
            (begin-LeavesRow c address req j id amount e)))

  IsBelow-in :
      (n id : ℕ) (xs : List PaymentRow)
      → IsBelow (λ (r : PaymentRow). r.id) n xs
      → any (in_transition id reserved) xs ≡ true
      → id ≤ n
  IsBelow-in n id [] b h = absurd (cc)
  IsBelow-in n id (x ∷ xs) b h = ground (arith, IsBelow-in n id xs b.1)

  built-IsPast :
      (id : ℕ) (sig : String) (j j' : Journal)
      → IsBelow (λ (r : PaymentRow). r.id) j.seq j.rows
      → built id sig j ≡ ok j'
      → IsPast id j'
  unfolding built mark_sent update
  built-IsPast id sig j j' b e = elim (Bool-cases (any (in_transition id reserved) j.rows)) [
    | inl old ↦ ground (
      arith,
      IsBelow-in j.seq id j.rows b,
      any-update_where_self (in_transition id reserved) (set_sent sig) j.rows (λ r. ground arith),
    )
    | inr gone ↦ ground (arith, count_by-none (in_transition id reserved) j.rows gone)
  ]

  built-refused :
      (id : ℕ) (sig : String) (j : Journal)
      → any (in_transition id reserved) j.rows ≡ false
      → built id sig j ≡ err illegal_transition
  unfolding built mark_sent update
  built-refused id sig j h = ground (arith, count_by-none (in_transition id reserved) j.rows h)

  -- In a history that began with an empty journal, a reservation that has been marked as sent, which
  -- is what a broadcast waits for, is never marked as sent again, whatever happens in between.
  pub built_once :
      (r : RailKind) (id : ℕ) (sig sig' : String) (j j' k : Journal)
      → Reach cfg (empty_journal r) j
      → built id sig j ≡ ok j'
      → Reach cfg j' k
      → built id sig' k ≡ err illegal_transition
  built_once r id sig sig' j j' k before e after =
      let v = Reach-IsSafe cfg before (empty-IsSafe cfg r) in
      built-refused id sig' k
        (Reach-P (IsPast id) (IsPast-Persists id) cfg after
          (built-IsPast id sig j j' v.keyed.below e)).1
