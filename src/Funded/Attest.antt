-- ===== src/Funded/Attest.antt =====
-- runDraw and attestAssign of apps/agent/src/funded-service.ts: the draw of a funded bounty.
use grainlify_bounty_agent.Base.{
  ℕ, Bool, true, false, not, ◌&&◌, Option, none, some, List, if◌then◌else◌, Result, ok, err, String,
  any,
}
use grainlify_bounty_agent.Draw.Run.{Floats, Candidate}
use grainlify_bounty_agent.DrawService.Tables.{is_posted}
use grainlify_bounty_agent.DrawService.Draw.{
  DrawOptions, DrawError, DrawOutcome, DrawRow, Db, is_in_pool, run_draw_for,
}
use grainlify_bounty_agent.Funded.Tables.{
  FundedTables, FundedEnv, FundedError, FundedRow, Attestor, assign_to, escrow_not_ready, not_open,
  already_assigned, self_assign_mode, attestor_not_configured, no_applicants, with_core, as_funder,
  wallet_of, is_draw, is_funded_escrow, set_escrow, ask,
}
use grainlify_bounty_agent.Funded.Escrow.{record_assigned}
use grainlify_bounty_agent.Funded.Assign.{is_held}

abbrev pub note_error : ℕ → String → FundedTables → FundedTables
note_error bounty why t = set_escrow bounty (λ x. record x { last_error = some why }) t

abbrev pub attested :
    FundedEnv
    → FundedRow
    → String
    → FundedTables
    → Result String String
    → FundedTables × Result String String
attested e b wallet t (ok signature) =
    (record_assigned e.base.now b.bounty.id wallet (some signature) t, ok signature)
attested e b wallet t (err why) = (note_error b.bounty.id why t, err why)

-- The attestor's assign. A failure leaves the assignment in place.
abbrev pub attest_assign :
    FundedEnv
    → FundedRow
    → String
    → Option Attestor
    → FundedTables
    → FundedTables × Result String String
attest_assign e b wallet none t = (t, err "attestor not configured")
attest_assign e b wallet (some attestor) t =
    attested e b wallet (ask (assign_to b.escrow.escrow_pubkey wallet) t)
      (attestor.assign b.escrow.escrow_pubkey wallet)

module _ (x : Floats) where
  -- The tables with those of the draws.
  pub record FundedDb : Type 0 where
    pub tables : FundedTables
    pub draws : List (DrawRow x)

  pub data DrawAnswer : Type 0 where
    refuse_draw : FundedError → DrawAnswer
    draw_failed : DrawError → DrawAnswer
    drawn : DrawOutcome x → Option (Result String String) → DrawAnswer

  abbrev pub options : FundedRow → String → Bool → DrawOptions
  options b login simulate = record {
    triggered_by = login;
    simulate = simulate;
    stale_hours = none;
    stale_at = some b.escrow.deadline_at;
    require_wallet = true;
  }

  abbrev pub with_draw : FundedDb → Db x → FundedDb
  with_draw db d = record { tables = with_core d.tables db.tables; draws = d.draws }

  abbrev pub with_attested :
      FundedDb → DrawOutcome x → FundedTables × Result String String → FundedDb × DrawAnswer
  with_attested db outcome (t, signed) = (record db { tables = t }, drawn outcome (some signed))

  abbrev pub attest_winner :
      FundedEnv → FundedRow → FundedDb → DrawOutcome x → Option String → FundedDb × DrawAnswer
  attest_winner e b db outcome none = (db, drawn outcome (some (err "winner has no linked wallet")))
  attest_winner e b db outcome (some wallet) =
      with_attested db outcome (attest_assign e b wallet e.attestor db.tables)

  abbrev pub after_draw :
      FundedEnv
      → FundedRow
      → FundedDb
      → DrawOutcome x
      → Option (Candidate x)
      → FundedDb × DrawAnswer
  after_draw e b db outcome none = (db, drawn outcome none)
  after_draw e b db outcome (some winner) =
      attest_winner e b db outcome (wallet_of winner.github_user_id db.tables)

  abbrev pub drew :
      FundedEnv
      → FundedRow
      → FundedDb
      → Db x × Result DrawError (DrawOutcome x)
      → FundedDb × DrawAnswer
  drew e b db (d, err why) = (with_draw db d, draw_failed why)
  drew e b db (d, ok outcome) = after_draw e b (with_draw db d) outcome outcome.winner

  abbrev pub lacks_attestor : Option Attestor → Bool
  lacks_attestor none = true
  lacks_attestor (some attestor) = false

  abbrev pub draw_row_of :
      FundedEnv
      → ℕ
      → ℕ
      → String
      → Bool
      → FundedDb
      → Result FundedError FundedRow
      → FundedDb × DrawAnswer
  draw_row_of e seed bounty login simulate db (err why) = (db, refuse_draw why)
  draw_row_of e seed bounty login simulate db (ok b) =
      if not (is_draw b.escrow.assignment_mode)
      then (db, refuse_draw self_assign_mode)
      else if not (is_posted b.bounty.status)
      then (db, refuse_draw not_open)
      else if is_held bounty db.tables
      then (db, refuse_draw already_assigned)
      else if not simulate && lacks_attestor e.attestor
      then (db, refuse_draw attestor_not_configured)
      else if not simulate && not (is_funded_escrow b.escrow.state)
      then (db, refuse_draw escrow_not_ready)
      else if not (
          any (is_in_pool e.base db.tables.core bounty b.bounty.exclude_login_next_draw true)
            db.tables.core.applications)
      then (db, refuse_draw no_applicants)
      else drew e b db (
          run_draw_for x e.base (options b login simulate) seed bounty
            (record { tables = db.tables.core; draws = db.draws }))

  unfoldable pub run_draw : FundedEnv → ℕ → ℕ → String → Bool → FundedDb → FundedDb × DrawAnswer
  unfolding run_draw_for
  run_draw e seed bounty login simulate db =
      draw_row_of e seed bounty login simulate db (as_funder e bounty login db.tables)
