-- ===== src/Grainhack/Journal/Move.antt =====
-- The transitions of services/signer/src/grainhack/journal.ts: the private transition, mark and resolve.
use grainlify_bounty_agent.Base.{
  ℕ, ◌==◌, Bool, true, false, not, ◌||◌, Option, none, some, [], ◌∷◌, ◌++◌, if◌then◌else◌, Result,
  ok, err, String, text_eq, Message, slice_to, first, update_where,
}
use grainlify_bounty_agent.Grainhack.Journal.{
  GrainhackJournalStatus, GrainhackJournalRow, GrainhackJournal, GrainhackError, by_payout_id,
  reserved, sent, confirmed, unknown, failed_unsent, illegal_transition, no_actor_or_reason, no_row,
}

-- COALESCE(new, old)
abbrev pub coalesce {ℓ} : {A : Type ℓ} → Option A → Option A → Option A
coalesce none old = old
coalesce (some x) old = some x

-- What a transition writes: the error, and for a resolution who, why and on what evidence.
pub record Fields : Type 0 where
  pub error : Option Message
  pub resolution : Option String

-- `f.error ? f.error.slice(0, 500) : null`
abbrev pub cut_error : Option Message → Option Message
cut_error none = none
cut_error (some []) = none
cut_error (some (c ∷ cs)) = some (slice_to 500 (c ∷ cs))

-- CASE WHEN resolving THEN new ELSE old END
abbrev pub when_resolving {ℓ} : {A : Type ℓ} → Option String → Option A → Option A → Option A
when_resolving none new old = old
when_resolving (some resolution) new old = new

abbrev pub set_status :
    GrainhackJournalStatus
    → String
    → Option String
    → Fields
    → GrainhackJournalRow
    → GrainhackJournalRow
set_status to actor reason f r = record r {
  status = to;
  error = coalesce (cut_error f.error) r.error;
  resolved_by = when_resolving f.resolution (some actor) r.resolved_by;
  resolved_reason = when_resolving f.resolution reason r.resolved_reason;
  resolution = coalesce f.resolution r.resolution;
}

abbrev pub has_id : ℕ → GrainhackJournalRow → Bool
has_id id r = r.id == id

-- The whole private method, one BEGIN IMMEDIATE transaction; `from` is the list of statuses as a test.
abbrev moved :
    GrainhackJournal
    → ℕ
    → GrainhackJournalStatus
    → (GrainhackJournalStatus → Bool)
    → String
    → Option String
    → Fields
    → Option GrainhackJournalRow
    → Result GrainhackError GrainhackJournal
moved j id to from actor reason f none = err illegal_transition
moved j id to from actor reason f (some cur) =
    if not (from cur.status)
    then err illegal_transition
    else ok (record j {
      rows = update_where (has_id id) (set_status to actor reason f) j.rows;
      transitions =
          j.transitions
          ++ record {
            payout_row = id;
            from_status = some cur.status;
            to_status = to;
            actor = actor;
            reason = reason;
          }
            ∷ [];
    })

unfoldable pub transition :
    GrainhackJournal
    → ℕ
    → GrainhackJournalStatus
    → (GrainhackJournalStatus → Bool)
    → String
    → Option String
    → Fields
    → Result GrainhackError GrainhackJournal
transition j id to from actor reason f =
    moved j id to from actor reason f (first (has_id id) j.rows)

-- AUTO: whether the payment path takes a row of the second status to the first.
abbrev pub auto : GrainhackJournalStatus → GrainhackJournalStatus → Bool
auto sent reserved = true
auto confirmed sent = true
auto unknown sent = true
auto _ _ = false

unfoldable pub mark :
    GrainhackJournal
    → ℕ
    → GrainhackJournalStatus
    → Option Message
    → Result GrainhackError GrainhackJournal
unfolding transition
mark j id status error =
    transition j id status (auto status) "grainhack-signer" none
      (record { error = error; resolution = none })

abbrev pub is_open : GrainhackJournalStatus → Bool
is_open reserved = true
is_open sent = true
is_open unknown = true
is_open confirmed = false
is_open failed_unsent = false

-- 'confirmed' | 'failed_unsent'
pub data Final : Type 0 where
  landed never_landed : Final

abbrev pub status_of : Final → GrainhackJournalStatus
status_of landed = confirmed
status_of never_landed = failed_unsent

abbrev resolve_row :
    GrainhackJournal
    → Final
    → String
    → String
    → String
    → Option GrainhackJournalRow
    → Result GrainhackError GrainhackJournal
resolve_row j to actor reason evidence none = err no_row
resolve_row j to actor reason evidence (some row) =
    transition j row.id (status_of to) is_open actor (some reason)
      (record { error = none; resolution = some evidence })

-- `trim` is the method of strings and `evidence` the JSON text of it.
unfoldable pub resolve :
    (String → String)
    → GrainhackJournal
    → String
    → Final
    → String
    → String
    → String
    → Result GrainhackError GrainhackJournal
unfolding transition by_payout_id
resolve trim j payout to actor reason evidence =
    if text_eq (trim actor) "" || text_eq (trim reason) ""
    then err no_actor_or_reason
    else resolve_row j to actor reason evidence (by_payout_id j payout)
