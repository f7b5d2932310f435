-- ===== src/DrawService/Sweep/Sound.antt =====
-- The window sweep of apps/agent/src/draw-service.ts and the draws it runs.
use grainlify_bounty_agent.Base.{
  ℕ, ◌==◌, true, not, ◌||◌, List, [], ◌∷◌, leb, if_elim, Result, ok, err, String, count_by,
}
use grainlify_bounty_agent.Draw.Run.{Floats}
use grainlify_bounty_agent.DrawService.Tables.{Tables, BountyRow, set_bounty}
use grainlify_bounty_agent.DrawService.Settings.{config, int_setting, bool_setting}
use grainlify_bounty_agent.DrawService.Apply.{Env}
use grainlify_bounty_agent.DrawService.Reopen.{select_where}
use grainlify_bounty_agent.DrawService.Kept.{Kept-refl}
use grainlify_bounty_agent.DrawService.Draw.{
  DrawOptions, Plan, DrawError, DrawOutcome, DrawRow, Db, draw_plan, write_planned, run_draw_for,
}
use grainlify_bounty_agent.DrawService.Draw.Replay.{IsSound, Kept-IsSound, write_draw-IsSound}
use grainlify_bounty_agent.DrawService.Sweep.{
  Released, SweepOutcome, SweepState, automatic, is_due, in_pool, note_draw, close_window,
  close_windows, start, sweep, release_stale_assignments, close_due_windows,
}
use grainlify_bounty_agent.DrawService.Sweep.Keeps.{release_stale_assignments-Kept}

module _ (x : Floats) where
  write_planned-IsSound :
      (e : Env) (o : DrawOptions) (seed bounty : ℕ) (db : Db x) (p : Result DrawError Plan)
      → IsSound x db
      → IsSound x (write_planned x e o seed bounty db p).0
  write_planned-IsSound e o seed bounty db (err refusal) v = v
  write_planned-IsSound e o seed bounty db (ok p) v = write_draw-IsSound x e o seed bounty p db v

  pub run_draw_for-IsSound :
      (e : Env) (o : DrawOptions) (seed bounty : ℕ) (db : Db x)
      → IsSound x db
      → IsSound x (run_draw_for x e o seed bounty db).0
  unfolding run_draw_for
  run_draw_for-IsSound e o seed bounty db v =
      write_planned-IsSound e o seed bounty db (draw_plan e o bounty db.tables) v

  set_bounty-IsSound :
      (id : ℕ) (f : BountyRow → BountyRow) (db : Db x)
      → IsSound x db
      → IsSound x (record db { tables = set_bounty id f db.tables })
  set_bounty-IsSound id f db v =
      Kept-IsSound x db.draws db.tables (set_bounty id f db.tables)
        (record { later = (Kept-refl db.tables).later; rows = (Kept-refl db.tables).rows }) v

  note_draw-IsSound :
      (e : Env) (id : ℕ) (s : SweepOutcome) (r : Db x × Result DrawError (DrawOutcome x))
      → IsSound x r.0
      → IsSound x (note_draw x e id s r).db
  note_draw-IsSound e id s (db, ok drawn) v = set_bounty-IsSound id _ db v
  note_draw-IsSound e id s (db, err refusal) v = v

  close_window-IsSound :
      (e : Env) (seed : ℕ → ℕ) (cfg : List (String × String)) (b : BountyRow) (s : SweepState x)
      → IsSound x s.db
      → IsSound x (close_window x e seed cfg b s).db
  close_window-IsSound e seed cfg b s v =
      if_elim P (count_by (in_pool b.id) s.db.tables.applications == 0) _ _
        (λ none_left.
          if_elim P
            (leb (int_setting e.parse_int cfg "max_window_extensions" 3) b.window_extensions
              || leb (int_setting e.parse_int cfg "empty_window_extension_hours" 6) 0)
            _ _ (λ over. v) (λ more. set_bounty-IsSound b.id _ s.db v))
        (λ some_left.
          note_draw-IsSound e b.id s.outcome _
            (run_draw_for-IsSound e automatic (seed b.id) b.id s.db v))
    where
      P : SweepState x → Type 0
      P y = IsSound x y.db

  close_windows-IsSound :
      (e : Env) (seed : ℕ → ℕ) (cfg : List (String × String)) (due : List BountyRow)
      (s : SweepState x)
      → IsSound x s.db
      → IsSound x (close_windows x e seed cfg due s).db
  unfolding close_windows
  close_windows-IsSound e seed cfg [] s v = v
  close_windows-IsSound e seed cfg (b ∷ due) s v =
      if_elim (λ (y : SweepState x). IsSound x y.db) s.stopped _ _ (λ stopped. v)
        (λ running.
          close_windows-IsSound e seed cfg due (close_window x e seed cfg b s)
            (close_window-IsSound e seed cfg b s v))

  sweep-IsSound :
      (e : Env) (seed : ℕ → ℕ) (cfg : List (String × String)) (draws : List (DrawRow x))
      (r : Tables × Released)
      → IsSound x (record { tables = r.0; draws = draws })
      → IsSound x (sweep x e seed cfg draws r).db
  sweep-IsSound e seed cfg draws (t, r) v =
      if_elim (λ (y : SweepState x). IsSound x y.db)
        (not (bool_setting cfg "auto_draw_enabled" true)) _ _ (λ off. v)
        (λ on.
          close_windows-IsSound e seed cfg (select_where (is_due t e.now) t.bounties)
            (start x r.released draws t) v)

  pub close_due_windows-IsSound :
      (e : Env) (seed : ℕ → ℕ) (db : Db x)
      → IsSound x db
      → IsSound x (close_due_windows x e seed db).db
  unfolding close_due_windows
  close_due_windows-IsSound e seed db v =
      sweep-IsSound e seed (config db.tables) db.draws (release_stale_assignments e db.tables) (
        Kept-IsSound x db.draws db.tables (release_stale_assignments e db.tables).0
          (release_stale_assignments-Kept db.tables e) v)
