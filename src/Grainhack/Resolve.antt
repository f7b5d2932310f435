-- ===== src/Grainhack/Resolve.antt =====
-- services/signer/src/grainhack/resolve.ts: what a person's resolution does, from what the chain says.
-- The chain is a parameter, and the text that explains a decision is a constructor.
use grainlify_bounty_agent.Base.{
  ℕ, ◌<◌, ◌≡◌, refl, Bool, true, false, not, ◌||◌, Option, none, some, arith, ltb, if◌then◌else◌,
  Result, ok, err, String, text_eq,
}
use grainlify_bounty_agent.Grainhack.Journal.{
  GrainhackJournalStatus, GrainhackJournalRow, GrainhackJournal, GrainhackError, reserved, sent,
  confirmed, unknown, failed_unsent, no_actor_or_reason, no_row, by_payout_id,
}
use grainlify_bounty_agent.Grainhack.Journal.Move.{Final, landed, never_landed, resolve}

-- `error` is the JSON text of an error that is neither null nor undefined.
pub data ChainStatus : Type 0 where
  missing : ℕ → ChainStatus
  found : Option String → Option String → ℕ → ChainStatus

pub data Why : Type 0 where
  already_final only_seen landed_clean landed_with_error no_block_height blockhash_expired
        may_still_land :
      Why

pub record Decision : Type 0 where
  pub to : Option Final
  pub why : Why

abbrev is_commitment : Option String → Bool
is_commitment none = false
is_commitment (some c) = text_eq c "confirmed" || text_eq c "finalized"

abbrev wait : Why → Decision
wait why = record { to = none; why = why }

abbrev decide_landed : Option String → Decision
decide_landed none = record { to = some landed; why = landed_clean }
decide_landed (some e) = record { to = some never_landed; why = landed_with_error }

abbrev decide_missing : ℕ → Option ℕ → Decision
decide_missing height none = wait no_block_height
decide_missing height (some last) =
    if ltb last height
    then record { to = some never_landed; why = blockhash_expired }
    else wait may_still_land

abbrev decide_open : Option ℕ → ChainStatus → Decision
decide_open last (found e commitment slot) =
    if not (is_commitment commitment) then wait only_seen else decide_landed e
decide_open last (missing height) = decide_missing height last

unfoldable pub decide : GrainhackJournalStatus → Option ℕ → ChainStatus → Decision
decide confirmed last chain = wait already_final
decide failed_unsent last chain = wait already_final
decide reserved last chain = decide_open last chain
decide sent last chain = decide_open last chain
decide unknown last chain = decide_open last chain

-- The row after, or the decision to wait.
pub data Resolution : Type 0 where
  resolved : Option GrainhackJournalRow → Why → Resolution
  not_resolved : GrainhackJournalRow → Why → Resolution

abbrev after_resolve :
    String
    → Why
    → Result GrainhackError GrainhackJournal
    → Result GrainhackError (GrainhackJournal × Resolution)
after_resolve payout why (err e) = err e
after_resolve payout why (ok j) = ok (j, resolved (by_payout_id j payout) why)

abbrev carry_out :
    (String → String)
    → GrainhackJournal
    → GrainhackJournalRow
    → String
    → String
    → String
    → String
    → Why
    → Option Final
    → Result GrainhackError (GrainhackJournal × Resolution)
carry_out trim j row payout actor reason evidence why none = ok (j, not_resolved row why)
carry_out trim j row payout actor reason evidence why (some to) =
    after_resolve payout why (resolve trim j payout to actor reason evidence)

abbrev resolve_found :
    (String → String)
    → (ChainStatus → Why → String)
    → (String → ChainStatus)
    → GrainhackJournal
    → String
    → String
    → String
    → Option GrainhackJournalRow
    → Result GrainhackError (GrainhackJournal × Resolution)
resolve_found trim show chain j payout actor reason none = err no_row
resolve_found trim show chain j payout actor reason (some row) =
    let status = chain row.tx_signature in
    let d = decide row.status row.last_valid_block_height status in
    carry_out trim j row payout actor reason (show status d.why) d.why d.to

-- `show` is the JSON text of the evidence. The chain's answer is awaited between the read of the row
-- and the resolution; this is a run with nothing in between.
unfoldable pub resolve_payout :
    (String → String)
    → (ChainStatus → Why → String)
    → (String → ChainStatus)
    → GrainhackJournal
    → String
    → String
    → String
    → Result GrainhackError (GrainhackJournal × Resolution)
unfolding decide resolve by_payout_id
resolve_payout trim show chain j payout actor reason =
    if text_eq (trim actor) "" || text_eq (trim reason) ""
    then err no_actor_or_reason
    else resolve_found trim show chain j payout actor reason (by_payout_id j payout)

-- What the chain has to show before money is declared not to have moved.
abbrev pub NeverMoved : Option ℕ → ChainStatus → Type 0
NeverMoved last (found e commitment slot) =
    (is_commitment commitment ≡ true) × ((x : String) × (e ≡ some x))
NeverMoved last (missing height) = (h : ℕ) × (last ≡ some h) × (h < height)

decide_open_sound :
    (last : Option ℕ) (chain : ChainStatus)
    → (decide_open last chain).to ≡ some never_landed
    → NeverMoved last chain
decide_open_sound last (found none commitment slot) h = absurd (ground arith)
decide_open_sound last (found (some e) commitment slot) h = (ground arith, (e, refl))
decide_open_sound none (missing height) h = absurd (ground arith)
decide_open_sound (some l) (missing height) h = (l, refl, ground arith)

-- A payout is declared unsent only on proof from the chain: its transaction landed with an error, at
-- a commitment of at least confirmed, or it is not there and a finalized block is past the last one
-- in which it could have landed.
pub decide_never_landed :
    (status : GrainhackJournalStatus) (last : Option ℕ) (chain : ChainStatus)
    → (decide status last chain).to ≡ some never_landed
    → NeverMoved last chain
unfolding decide
decide_never_landed confirmed last chain h = absurd (ground arith)
decide_never_landed failed_unsent last chain h = absurd (ground arith)
decide_never_landed reserved last chain h = decide_open_sound last chain h
decide_never_landed sent last chain h = decide_open_sound last chain h
decide_never_landed unknown last chain h = decide_open_sound last chain h
