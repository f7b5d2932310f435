-- ===== src/Budget/Ledger/Within.antt =====
-- The budget of packages/budget/src/ledger.ts as an invariant of every history of calls.
use grainlify_bounty_agent.Base.{
  ℕ, ◌+◌, ◌≤◌, ◌≡◌, refl, ◌⊎◌, inl, inr, true, Option, some, [], String, arith, ok, sum_by-concat,
  IsKeyed, IsKeyed-concat, IsKeyed-update_where, with_id,
}
use grainlify_bounty_agent.Budget.Governor.{
  Phase, SpendRequest, BudgetConfig, Decision, allowed, refused, RefusalCode, decide, same_phase,
  hard_lifetime_ceiling_micro,
}
use grainlify_bounty_agent.Budget.Governor.Exact.{decide-allowed_iff, ceiling_of}
use grainlify_bounty_agent.Budget.Ledger.{
  SpendEntry, Settlement, SpendLedger, init, committed_micro, sum_totals, new_entry,
  record_decision, reserve, must_get, settle_entry, release_entry, settle, release, totals,
}
use grainlify_bounty_agent.Budget.Ledger.Totals.{
  committed_in, sum_totals-lifetime, sum_totals-by_phase,
}
use grainlify_bounty_agent.Budget.Ledger.Reserve.{
  close_entry-ok, Replaces, settle_totals, release_totals,
}

-- Distinct ids, and no total above its limit.
pub record IsWithin (l : SpendLedger) : Type 0 where
  pub keyed : IsKeyed (λ e. e.id) l.seq l.rows
  pub lifetime : (totals l).lifetime_micro ≤ ceiling_of l.cfg
  pub phases : (p : Phase) (a : ℕ) → l.cfg.allocations p ≡ some a → (totals l).by_phase p ≤ a

pub init-IsWithin : (cfg : BudgetConfig) → IsWithin (init cfg)
unfolding totals
init-IsWithin cfg = record {
  keyed = record { below = tt; apart = tt };
  lifetime = rw (sum_totals-lifetime []) (omega arith);
  phases = λ p a e. rw (sum_totals-by_phase p []) (omega arith);
}

Decision-cases :
    (d : Decision)
    → ((a : ℕ) × (b : ℕ) × (d ≡ allowed a b)) ⊎ ((code : RefusalCode) × (d ≡ refused code))
Decision-cases (allowed a b) = inl (a, b, refl)
Decision-cases (refused code) = inr (code, refl)

same_phase→eq : (p q : Phase) → same_phase p q ≡ true → p ≡ q
same_phase→eq p q h = ground arith

module _ (l : SpendLedger) (req : SpendRequest) (call_id : Option String) (now a b : ℕ)
    (v : IsWithin l) (e : decide l.cfg (sum_totals l.rows) req ≡ allowed a b) where
  abbrev grown : SpendLedger
  grown = (record_decision l req call_id now (allowed a b)).0

  grown-IsWithin : IsWithin grown
  unfolding totals
  grown-IsWithin =
      let (amount, allocation, w) = (decide-allowed_iff l.cfg (sum_totals l.rows) req a b).0 e in
      record {
        keyed = IsKeyed-concat (λ x. x.id) l.seq l.rows (new_entry l req call_id now) refl v.keyed;
        lifetime = ground (
          arith,
          w.is_amount,
          w.lifetime_after,
          w.under_ceiling,
          sum_totals-lifetime l.rows,
          sum_totals-lifetime grown.rows,
          sum_by-concat committed_micro l.rows (new_entry l req call_id now),
        );
        phases = λ p c k. ground (
          arith,
          k,
          v.phases p c,
          w.is_amount,
          w.is_allocated,
          w.phase_after,
          w.under_allocation,
          same_phase→eq req.phase p,
          sum_totals-by_phase p l.rows,
          sum_totals-by_phase p grown.rows,
          sum_by-concat (committed_in p) l.rows (new_entry l req call_id now),
        );
      }

pub reserve-IsWithin :
    (l : SpendLedger) (req : SpendRequest) (call_id : Option String) (now : ℕ)
    → IsWithin l
    → IsWithin (reserve l req call_id now).0
unfolding reserve
reserve-IsWithin l req call_id now v =
    elim (Decision-cases (decide l.cfg (sum_totals l.rows) req)) [
      | inl (a, b, e) ↦ rw (e, reserve) (grown-IsWithin l req call_id now a b v e)
      | inr (code, e) ↦ rw (e, reserve) v
    ]

-- What a call replaces a reservation by is at most the reservation.
Replaces-IsWithin :
    (l l' : SpendLedger) (id counted : ℕ)
    → IsWithin l
    → l'.cfg ≡ l.cfg
    → IsKeyed (λ e. e.id) l'.seq l'.rows
    → ((r : SpendEntry) → must_get l id ≡ ok r → counted ≤ r.reserved_micro)
    → Replaces l id counted l'
    → IsWithin l'
unfolding totals
Replaces-IsWithin l l' id counted v same keyed small (r, found, was, lifetime, phases) = record {
  keyed = keyed;
  lifetime = rw same (omega (arith, v.lifetime, small r found));
  phases = λ p a k. ground (arith, phases p, small r found, v.phases p a (rw same at k));
}

settle-IsWithin :
    (l l' : SpendLedger) (id : ℕ) (s : Settlement) (now : ℕ)
    → IsWithin l
    → settle l id s now ≡ ok l'
    → ((r : SpendEntry) → must_get l id ≡ ok r → s.amount_micro + s.fee_micro ≤ r.reserved_micro)
    → IsWithin l'
unfolding settle
settle-IsWithin l l' id s now v h small =
    let (keyed, same) =
      close_entry-ok (λ m. IsKeyed (λ e. e.id) m.seq m.rows × (m.cfg ≡ l.cfg)) l l' id
        (settle_entry s now)
        (λ r found was. (
          IsKeyed-update_where (λ e. e.id) l.seq (with_id (λ e. e.id) id) (settle_entry s now)
              l.rows (λ x. refl) v.keyed,
          refl,
        ))
        h in
    Replaces-IsWithin l l' id (s.amount_micro + s.fee_micro) v same keyed small
      (settle_totals l l' id s now v.keyed h)

release-IsWithin : (l l' : SpendLedger) (id : ℕ) → IsWithin l → release l id ≡ ok l' → IsWithin l'
unfolding release
release-IsWithin l l' id v h =
    let (keyed, same) =
      close_entry-ok (λ m. IsKeyed (λ e. e.id) m.seq m.rows × (m.cfg ≡ l.cfg)) l l' id release_entry
        (λ r found was. (
          IsKeyed-update_where (λ e. e.id) l.seq (with_id (λ e. e.id) id) release_entry l.rows
              (λ x. refl) v.keyed,
          refl,
        ))
        h in
    Replaces-IsWithin l l' id 0 v same keyed (λ r e. omega arith) (release_totals l l' id v.keyed h)

-- The calls that change a ledger. A settlement reports no more than was reserved: the reservation is
-- "payment amount plus the most the network fee could cost".
pub data Step : SpendLedger → SpendLedger → Type 0 where
  reserves :
      (l : SpendLedger) (req : SpendRequest) (call_id : Option String) (now : ℕ)
      → Step l (reserve l req call_id now).0
  settles :
      (l l' : SpendLedger) (id : ℕ) (s : Settlement) (now : ℕ)
      → settle l id s now ≡ ok l'
      → ((r : SpendEntry) → must_get l id ≡ ok r → s.amount_micro + s.fee_micro ≤ r.reserved_micro)
      → Step l l'
  releases : (l l' : SpendLedger) (id : ℕ) → release l id ≡ ok l' → Step l l'

pub data Reach (l : SpendLedger) : SpendLedger → Type 0 where
  here : Reach l l
  next : {m n : SpendLedger} → Reach l m → Step m n → Reach l n

pub Step-IsWithin : {m n : SpendLedger} → Step m n → IsWithin m → IsWithin n
Step-IsWithin (reserves l req call_id now) v = reserve-IsWithin l req call_id now v
Step-IsWithin (settles l l' id s now h small) v = settle-IsWithin l l' id s now v h small
Step-IsWithin (releases l l' id h) v = release-IsWithin l l' id v h

Reach-IsWithin : {l m : SpendLedger} → Reach l m → IsWithin l → IsWithin m
Reach-IsWithin here v = v
Reach-IsWithin (next r s) v = Step-IsWithin s (Reach-IsWithin r v)

-- In every order of reservations, releases, and settlements that stay within their reservation, a
-- ledger that began empty never commits more than the ceiling of its configuration, never more than
-- $5.00, and in no phase more than its allocation.
pub Reach-lifetime :
    (cfg : BudgetConfig) (l : SpendLedger)
    → Reach (init cfg) l
    → ((totals l).lifetime_micro ≤ l.cfg.lifetime_ceiling_micro)
      × ((totals l).lifetime_micro ≤ hard_lifetime_ceiling_micro)
      × ((p : Phase) (a : ℕ) → l.cfg.allocations p ≡ some a → (totals l).by_phase p ≤ a)
Reach-lifetime cfg l r =
    let v = Reach-IsWithin r (init-IsWithin cfg) in
    (omega (arith, v.lifetime), omega (arith, v.lifetime), v.phases)
