-- ===== src/DrawService/Histories.antt =====
-- Histories of the tables of apps/agent/src/draw-service.ts. A draw's reads and its writes are two steps, with
-- any steps of other requests between them; a decision, a reopening and a sweep are one step each, though the
-- source awaits the database within them.
use grainlify_bounty_agent.Base.{ℕ, ◌≡◌, Bool, Option, [], All, IsApart, String, ok}
use grainlify_bounty_agent.Draw.Run.{Floats}
use grainlify_bounty_agent.DrawService.Tables.{Tables}
use grainlify_bounty_agent.DrawService.Apply.{Env}
use grainlify_bounty_agent.DrawService.Kept.{Kept, Kept-refl}
use grainlify_bounty_agent.DrawService.Decide.{
  unassign_by_decision, close_by_decision, tell_round_closed, set_assignment_deadline,
}
use grainlify_bounty_agent.DrawService.Decide.Keeps.{
  unassign_by_decision-Kept, close_by_decision-Kept, tell_round_closed-Kept,
  set_assignment_deadline-Kept,
}
use grainlify_bounty_agent.DrawService.Reopen.{
  Pull, reopen_after_unmerged_close, reopen_after_closed_pull_request,
}
use grainlify_bounty_agent.DrawService.Reopen.Keeps.{
  reopen_after_unmerged_close-Kept, reopen_after_closed_pull_request-Kept,
}
use grainlify_bounty_agent.DrawService.Draw.{DrawOptions, Plan, Db, draw_plan, write_draw}
use grainlify_bounty_agent.DrawService.Draw.Replay.{
  IsSound, Drawn, Replays, both_live, Kept-IsSound, write_draw-IsSound,
}
use grainlify_bounty_agent.DrawService.Sweep.{close_due_windows}
use grainlify_bounty_agent.DrawService.Sweep.Sound.{close_due_windows-IsSound}

module _ (x : Floats) where
  abbrev with_tables : Db x → Tables → Db x
  with_tables db t = record db { tables = t }

  -- `elsewhere` is what other requests and services do to the rows: an application, a posting, a setting, a
  -- merge. They make no assignment, move none, and revive none. The assignment of a funded bounty by its
  -- funder, without a draw, is no step here.
  pub data Step : Db x → Db x → Type 0 where
    elsewhere : (db : Db x) (t : Tables) → Kept db.tables t → Step db (with_tables db t)
    unassigns :
        (db : Db x) (now bounty : ℕ) (actor reason : String)
        → Step db (with_tables db (unassign_by_decision now bounty actor reason db.tables).0)
    closes :
        (db : Db x) (now bounty : ℕ) (actor reason : String)
        → Step db (with_tables db (close_by_decision now bounty actor reason db.tables).0)
    tells :
        (db : Db x) (assignment : ℕ) (actor reason : String)
        → Step db (with_tables db (tell_round_closed assignment actor reason db.tables).0)
    moves_deadline :
        (db : Db x) (now bounty : ℕ) (at : Option ℕ) (actor reason : String)
        → Step db (with_tables db (set_assignment_deadline now bounty at actor reason db.tables).0)
    reopens :
        (db : Db x) (actor : String) (hold : Bool) (bounty : ℕ)
        → Step db (with_tables db (reopen_after_unmerged_close actor hold bounty db.tables).0)
    repairs :
        (db : Db x) (get_pull : ℕ → Pull) (now : ℕ) (actor : String) (hold : Bool) (bounty : ℕ)
        → Step db (
            with_tables db
              (reopen_after_closed_pull_request get_pull now actor hold bounty db.tables).0)
    -- The plan was read from `before`, an earlier state of the tables or any other.
    writes :
        (db : Db x) (e : Env) (o : DrawOptions) (seed bounty : ℕ) (before : Tables) (p : Plan)
        → draw_plan e o bounty before ≡ ok p
        → Step db (write_draw x e o seed bounty p db).0
    sweeps : (db : Db x) (e : Env) (seed : ℕ → ℕ) → Step db (close_due_windows x e seed db).db

  pub data Reach (start : Db x) : Db x → Type 0 where
    here : Reach start start
    next : {db db' : Db x} → Reach start db → Step db db' → Reach start db'

  abbrev pub empty : Db x
  empty = record {
    tables = record {
      bounties = [];
      assignments = [];
      applications = [];
      submissions = [];
      wallets = [];
      settings = [];
      events = [];
      audit = [];
      deadline_changes = [];
      seq = 0;
    };
    draws = [];
  }

  Step-IsSound : {db db' : Db x} → Step db db' → IsSound x db → IsSound x db'
  Step-IsSound (elsewhere db t k) v = Kept-IsSound x db.draws db.tables t k v
  Step-IsSound (unassigns db now bounty actor reason) v =
      Kept-IsSound x db.draws db.tables _
        (unassign_by_decision-Kept db.tables now bounty actor reason) v
  Step-IsSound (closes db now bounty actor reason) v =
      Kept-IsSound x db.draws db.tables _ (close_by_decision-Kept db.tables now bounty actor reason)
        v
  Step-IsSound (tells db assignment actor reason) v =
      Kept-IsSound x db.draws db.tables _ (tell_round_closed-Kept db.tables assignment actor reason)
        v
  Step-IsSound (moves_deadline db now bounty at actor reason) v =
      Kept-IsSound x db.draws db.tables _
        (set_assignment_deadline-Kept db.tables now bounty at actor reason) v
  Step-IsSound (reopens db actor hold bounty) v =
      Kept-IsSound x db.draws db.tables _
        (reopen_after_unmerged_close-Kept db.tables actor hold bounty db.tables
          (Kept-refl db.tables))
        v
  Step-IsSound (repairs db get_pull now actor hold bounty) v =
      Kept-IsSound x db.draws db.tables _
        (reopen_after_closed_pull_request-Kept db.tables get_pull now actor hold bounty) v
  Step-IsSound (writes db e o seed bounty before p planned) v =
      write_draw-IsSound x e o seed bounty p db v
  Step-IsSound (sweeps db e seed) v = close_due_windows-IsSound x e seed db v

  Reach-from : {s db : Db x} → IsSound x s → Reach s db → IsSound x db
  Reach-from v here = v
  Reach-from v (next r s) = Step-IsSound s (Reach-from v r)

  -- In every history of draws, decisions, reopenings and sweeps from empty tables, with the reads of a draw
  -- any time before its writes: no two assignments of a bounty are live together; each assignment was made by
  -- a recorded draw of its bounty, no simulation, that names the holder as its winner; and the pool and
  -- winner of every recorded draw come out again of its seed and the settings recorded with it.
  pub Reach-assignments :
      (db : Db x)
      → Reach empty db
      → IsApart both_live db.tables.assignments
        × (All (Drawn x db.draws) db.tables.assignments × All (Replays x) db.draws)
  Reach-assignments db r =
      let v = Reach-from (record { below = tt; apart = tt; drawn = tt; replays = tt }) r in
      (v.apart, (v.drawn, v.replays))
