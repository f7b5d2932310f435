-- ===== src/Budget/Ledger/Reserve.antt =====
-- What `reserve`, `settle` and `release` of packages/budget/src/ledger.ts do to the totals.
use grainlify_bounty_agent.Base.{
  ℕ, ◌+◌, ◌≡◌, refl, subst, inl, inr, some, List, arith, if◌then◌else◌, ok, err, Option-cases,
  first, update_where, first-holds, first-update_where, IsKeyed, with_id, sum_by-update_id,
}
use grainlify_bounty_agent.Budget.Governor.{Phase, same_phase}
use grainlify_bounty_agent.Budget.Ledger.{
  SpendEntry, reserved, Settlement, SpendLedger, not_reserved, committed_micro, sum_totals,
  must_get, settle_entry, release_entry, close_entry, settle, release, totals,
}
use grainlify_bounty_agent.Budget.Ledger.Totals.{
  committed_in, sum_totals-lifetime, sum_totals-by_phase,
}

-- A property of the ledger that `settle` or `release` returns, from what it did: there was a
-- reserved entry with that id, and it has been updated.
pub close_entry-ok {ℓ} :
    (P : SpendLedger → Type ℓ) (l l' : SpendLedger) (id : ℕ) (f : SpendEntry → SpendEntry)
    → ((r : SpendEntry)
        → first (with_id (λ e. e.id) id) l.rows ≡ some r
        → r.status ≡ reserved
        → P (record l { rows = update_where (with_id (λ e. e.id) id) f l.rows }))
    → close_entry l id f (must_get l id) ≡ ok l'
    → P l'
unfolding must_get
close_entry-ok P l l' id f k h = elim (Option-cases (first (with_id (λ e. e.id) id) l.rows)) [
  | inl missing ↦ absurd (ground arith)
  | inr (r, found) ↦
      let was : r.status ≡ reserved = ground arith in subst P (ground arith) (k r found was)
]

abbrev entry_id : SpendEntry → ℕ
entry_id e = e.id

module _ (l : SpendLedger) (id : ℕ) (f : SpendEntry → SpendEntry)
    (v : IsKeyed (λ e. e.id) l.seq l.rows) (r : SpendEntry)
    (found : first (with_id (λ e. e.id) id) l.rows ≡ some r) where
  abbrev updated : List SpendEntry
  updated = update_where (with_id (λ e. e.id) id) f l.rows

  update-lifetime :
      (sum_totals updated).lifetime_micro + committed_micro r
      ≡ (sum_totals l.rows).lifetime_micro + committed_micro (f r)
  update-lifetime = omega (
    arith,
    sum_totals-lifetime l.rows,
    sum_totals-lifetime updated,
    sum_by-update_id entry_id committed_micro id f l.rows r v.apart found,
  )

  update-by_phase :
      (p : Phase)
      → (sum_totals updated).by_phase p + committed_in p r
        ≡ (sum_totals l.rows).by_phase p + committed_in p (f r)
  update-by_phase p = omega (
    arith,
    sum_totals-by_phase p l.rows,
    sum_totals-by_phase p updated,
    sum_by-update_id entry_id (committed_in p) id f l.rows r v.apart found,
  )

-- From `l` to `l'`, the reservation of `r` is replaced by `counted` in both kinds of total.
abbrev pub Replaces : SpendLedger → ℕ → ℕ → SpendLedger → Type 0
Replaces l id counted l' =
    (r : SpendEntry) × (must_get l id ≡ ok r)
    × (r.status ≡ reserved)
    × ((totals l').lifetime_micro + r.reserved_micro ≡ (totals l).lifetime_micro + counted)
    × ((p : Phase)
        → (totals l').by_phase p + (if same_phase r.phase p then r.reserved_micro else 0)
          ≡ (totals l).by_phase p + (if same_phase r.phase p then counted else 0))

-- Settling an entry, which must have been reserved, replaces what it had reserved by its amount and
-- fee, in the lifetime total and in the total of its phase, and changes no other phase.
pub settle_totals :
    (l l' : SpendLedger) (id : ℕ) (s : Settlement) (now : ℕ)
    → IsKeyed (λ e. e.id) l.seq l.rows
    → settle l id s now ≡ ok l'
    → Replaces l id (s.amount_micro + s.fee_micro) l'
unfolding settle totals must_get
settle_totals l l' id s now v =
    close_entry-ok (Replaces l id (s.amount_micro + s.fee_micro)) l l' id (settle_entry s now)
      λ r found was. (
        r,
        ground arith,
        was,
        ground (arith, update-lifetime l id (settle_entry s now) v r found),
        λ p. ground (arith, update-by_phase l id (settle_entry s now) v r found p),
      )

-- Releasing an entry, which must have been reserved, takes what it had reserved off the lifetime
-- total and off the total of its phase, and changes no other phase.
pub release_totals :
    (l l' : SpendLedger) (id : ℕ)
    → IsKeyed (λ e. e.id) l.seq l.rows
    → release l id ≡ ok l'
    → Replaces l id 0 l'
unfolding release totals must_get
release_totals l l' id v = close_entry-ok (Replaces l id 0) l l' id release_entry λ r found was. (
  r,
  ground arith,
  was,
  ground (arith, update-lifetime l id release_entry v r found),
  λ p. ground (arith, update-by_phase l id release_entry v r found p),
)

-- A settled entry can be neither settled again nor released: the money was counted once.
pub settle_once :
    (l l' : SpendLedger) (id : ℕ) (s again : Settlement) (now later : ℕ)
    → settle l id s now ≡ ok l'
    → (settle l' id again later ≡ err not_reserved) × (release l' id ≡ err not_reserved)
unfolding settle release must_get
settle_once l l' id s again now later =
    close_entry-ok
      (λ m. (settle m id again later ≡ err not_reserved) × (release m id ≡ err not_reserved)) l l'
      id (settle_entry s now)
      λ r found was. ground (
        arith,
        first-holds (with_id entry_id id) l.rows r found,
        first-update_where (with_id entry_id id) (with_id entry_id id) (settle_entry s now) l.rows r
            (λ x. refl) found,
      )
