-- ===== src/DrawService/Draw/Replay.antt =====
-- Who holds a bounty of apps/agent/src/draw-service.ts, and the recorded draws.
use grainlify_bounty_agent.Base.{
  ℕ, suc, ◌≤◌, ◌≡◌, refl, ◌==◌, ◌⊎◌, inl, inr, Bool, true, false, ◌&&◌, Option, none, some, List,
  [], ◌∷◌, ◌++◌, arith, if_elim, Bool-cases, Result, any, first, first-concat_none, update_if, All,
  All-mono, All-concat, All-update_where, IsApart, IsApart-concat, IsApart-update_frees, String,
  truthy,
}
use grainlify_bounty_agent.Draw.Run.{Floats, DrawApplicant, Candidate, DrawResult, run_draw}
use grainlify_bounty_agent.DrawService.Tables.{
  Tables, AssignmentRow, is_live, holds, draw_won, draw_lost,
}
use grainlify_bounty_agent.DrawService.Settings.{setting_of}
use grainlify_bounty_agent.DrawService.Apply.{Env}
use grainlify_bounty_agent.DrawService.Kept.{
  Kept, KeptRows, same, updated, IsKeeping, Kept-refl, enqueue_event-Kept,
}
use grainlify_bounty_agent.DrawService.Draw.{
  DrawOptions, Plan, DrawRow, Db, DrawError, unless_simulated, draw_row, assignment_row,
  after_assignment, announce_lost, clear_exclusion, assign_winner, write_draw,
}

-- Two assignments that are both live on one bounty.
abbrev pub both_live : AssignmentRow → AssignmentRow → Bool
both_live a b = is_live a.status && holds a.bounty_id b

first-concat_some {ℓ} :
    {A : Type ℓ} (p : A → Bool) (xs : List A) (y r : A)
    → first p xs ≡ some r
    → first p (xs ++ y ∷ []) ≡ some r
first-concat_some p [] y r e = cc
first-concat_some p (x ∷ xs) y r e = ground (arith, first-concat_some p xs y r)

frees-live :
    (p : AssignmentRow → Bool) (f : AssignmentRow → AssignmentRow)
    → IsKeeping p f
    → (a : AssignmentRow) → is_live (update_if p f a).status ≡ true
    → is_live a.status ≡ true
frees-live p f k a l = elim (Bool-cases (p a)) [
  | inl hit ↦ k.live a hit (ground arith)
  | inr miss ↦ ground arith
]

kept-bounty :
    (p : AssignmentRow → Bool) (f : AssignmentRow → AssignmentRow)
    → IsKeeping p f
    → (a : AssignmentRow) → (update_if p f a).bounty_id ≡ a.bounty_id
kept-bounty p f k a = elim (Bool-cases (p a)) [
  | inl hit ↦ rw hit (k.bounty a)
  | inr miss ↦ rw miss refl
]

frees-both_live :
    (p : AssignmentRow → Bool) (f : AssignmentRow → AssignmentRow)
    → IsKeeping p f
    → (a b : AssignmentRow) → both_live (update_if p f a) (update_if p f b) ≡ true
    → both_live a b ≡ true
frees-both_live p f k a b h =
    ground (arith, frees-live p f k a, frees-live p f k b, kept-bounty p f k a, kept-bounty p f k b)

module _ (x : Floats) where
  -- A draw whose pool and winner come out again of its seed and its settings, from some applicants; a
  -- simulation names no winner.
  pub record Replays (d : DrawRow x) : Type 0 where
    pub applicants : List DrawApplicant
    pub pool : d.pool ≡ (run_draw x applicants (setting_of d.config_snapshot) d.seed).pool
    pub winner :
        d.winner
        ≡ unless_simulated x d.is_simulation
            (run_draw x applicants (setting_of d.config_snapshot) d.seed).winner

  -- An assignment that a recorded draw of its bounty made: it names the holder as the winner.
  pub record Drawn (draws : List (DrawRow x)) (a : AssignmentRow) : Type 0 where
    pub draw : DrawRow x
    pub drawn_by : a.draw_id ≡ some draw.id
    pub recorded : first (λ (d : DrawRow x). d.id == draw.id) draws ≡ some draw
    pub real : draw.is_simulation ≡ false
    pub bounty : draw.bounty_id ≡ a.bounty_id
    pub candidate : Candidate x
    pub won : draw.winner ≡ some candidate
    pub holder : candidate.github_user_id ≡ a.github_user_id

  pub record IsSound (db : Db x) : Type 0 where
    pub below : All (λ (d : DrawRow x). d.id ≤ db.tables.seq) db.draws
    pub apart : IsApart both_live db.tables.assignments
    pub drawn : All (Drawn db.draws) db.tables.assignments
    pub replays : All Replays db.draws

  Drawn-kept :
      (draws : List (DrawRow x)) (p : AssignmentRow → Bool) (f : AssignmentRow → AssignmentRow)
      → IsKeeping p f
      → (a : AssignmentRow) → Drawn draws a
      → Drawn draws (f a)
  Drawn-kept draws p f k a d = record {
    draw = d.draw;
    drawn_by = rw (k.draw a) d.drawn_by;
    recorded = d.recorded;
    real = d.real;
    bounty = rw (k.bounty a) d.bounty;
    candidate = d.candidate;
    won = d.won;
    holder = rw (k.user a) d.holder;
  }

  -- Updates that keep the rows keep both invariants of the assignments.
  KeptRows-sound :
      (draws : List (DrawRow x)) (xs ys : List AssignmentRow)
      → KeptRows xs ys
      → IsApart both_live xs × All (Drawn draws) xs
      → IsApart both_live ys × All (Drawn draws) ys
  KeptRows-sound draws xs _ same h = h
  KeptRows-sound draws xs _ (updated {ys} p f k r) h =
      let (apart, drawn) = KeptRows-sound draws xs ys r h in
      (
        IsApart-update_frees both_live p f (frees-both_live p f k) ys apart,
        All-update_where (Drawn draws) p f ys (λ a hit d. Drawn-kept draws p f k a d) drawn,
      )

  -- Any change of the tables that keeps the assignments.
  pub Kept-IsSound :
      (draws : List (DrawRow x)) (t t' : Tables)
      → Kept t t'
      → IsSound (record { tables = t; draws = draws })
      → IsSound (record { tables = t'; draws = draws })
  Kept-IsSound draws t t' k v =
      let (apart, drawn) =
        KeptRows-sound draws t.assignments t'.assignments k.rows (v.apart, v.drawn) in
      record {
        below = All-mono _ _ draws (λ d h. omega (arith, h, k.later)) v.below;
        apart = apart;
        drawn = drawn;
        replays = v.replays;
      }

  first-new :
      (n : ℕ) (draws : List (DrawRow x))
      → All (λ (d : DrawRow x). d.id ≤ n) draws
      → first (λ (d : DrawRow x). d.id == suc n) draws ≡ none
  first-new n [] h = refl
  first-new n (d ∷ draws) h = ground (arith, first-new n draws h.1, h.0)

  add_draw-IsSound :
      (t : Tables) (draws : List (DrawRow x)) (d : DrawRow x)
      → d.id ≡ suc t.seq
      → Replays d
      → IsSound (record { tables = t; draws = draws })
      → IsSound (record { tables = record t { seq = suc t.seq }; draws = draws ++ d ∷ [] })
  add_draw-IsSound t draws d e r v = record {
    below =
        All-concat _ draws d (All-mono _ _ draws (λ b h. omega (arith, h)) v.below)
          (omega (arith, e));
    apart = v.apart;
    drawn =
        All-mono (Drawn draws) (Drawn (draws ++ d ∷ [])) t.assignments
          (λ a w. record {
            draw = w.draw;
            drawn_by = w.drawn_by;
            recorded = first-concat_some _ draws d w.draw w.recorded;
            real = w.real;
            bounty = w.bounty;
            candidate = w.candidate;
            won = w.won;
            holder = w.holder;
          })
          v.drawn;
    replays = All-concat Replays draws d v.replays r;
  }

  any-both_live :
      (a : AssignmentRow) (xs : List AssignmentRow)
      → any (holds a.bounty_id) xs ≡ false
      → any (λ b. both_live b a) xs ≡ false
  any-both_live a [] h = refl
  any-both_live a (b ∷ xs) h = ground (arith, any-both_live a xs)

  add_assignment-IsSound :
      (t : Tables) (draws : List (DrawRow x)) (a : AssignmentRow)
      → any (holds a.bounty_id) t.assignments ≡ false
      → Drawn draws a
      → IsSound (record { tables = t; draws = draws })
      → IsSound (record {
        tables = record t { assignments = t.assignments ++ a ∷ []; seq = suc t.seq };
        draws = draws;
      })
  add_assignment-IsSound t draws a free d v = record {
    below = All-mono _ _ draws (λ b h. omega (arith, h)) v.below;
    apart = IsApart-concat both_live t.assignments a (any-both_live a t.assignments free) v.apart;
    drawn = All-concat (Drawn draws) t.assignments a v.drawn d;
    replays = v.replays;
  }

  module _ (t : Tables) where
    clear_exclusion-Kept :
        (excluded : Option String) (bounty : ℕ) (u : Tables)
        → Kept t u
        → Kept t (clear_exclusion x excluded bounty u)
    clear_exclusion-Kept none bounty u k = k
    clear_exclusion-Kept (some login) bounty u k = record { later = k.later; rows = k.rows }

    announce_lost-Kept :
        (bounty draw winner : ℕ) (pool : List (Candidate x)) (u : Tables)
        → Kept t u
        → Kept t (announce_lost x bounty draw winner pool u)
    announce_lost-Kept bounty draw winner [] u k = k
    announce_lost-Kept bounty draw winner (c ∷ pool) u k =
        announce_lost-Kept bounty draw winner pool _ (
          if_elim (Kept t) (c.github_user_id == winner) u _ (λ won. k)
            (λ lost.
              enqueue_event-Kept t c.github_user_id (draw_lost bounty draw c.github_user_id) false u
                k))

    pub after_assignment-Kept :
        (bounty : ℕ) (p : Plan) (draw : ℕ) (pool : List (Candidate x)) (c : Candidate x)
        (u : Tables)
        → Kept t u
        → Kept t (after_assignment x bounty p draw pool c u)
    after_assignment-Kept bounty p draw pool c u k =
        let cleared = clear_exclusion-Kept (truthy p.excluded) bounty u k in
        announce_lost-Kept bounty draw c.github_user_id pool _ (
          enqueue_event-Kept t c.github_user_id (draw_won bounty draw) false _
            (record { later = cleared.later; rows = cleared.rows }))

  -- The draw's row is there; what is left is the assignment.
  assign_winner-IsSound :
      (e : Env) (o : DrawOptions) (bounty : ℕ) (p : Plan) (t : Tables) (draws : List (DrawRow x))
      (d : DrawRow x) (pool : List (Candidate x)) (winner : Option (Candidate x))
      → first (λ (r : DrawRow x). r.id == d.id) draws ≡ some d
      → d.bounty_id ≡ bounty
      → d.winner ≡ winner
      → (winner ≡ none) ⊎ (d.is_simulation ≡ false)
      → IsSound (record { tables = t; draws = draws })
      → IsSound
          (record { tables = (assign_winner x e o bounty p d.id pool winner t).0; draws = draws })
  assign_winner-IsSound e o bounty p t draws d pool none f b w s v = v
  assign_winner-IsSound e o bounty p t draws d pool (some c) f b w s v =
      if_elim
        (λ (y : Tables × Result DrawError (Option ℕ)).
          IsSound (record { tables = y.0; draws = draws }))
        (any (holds bounty) t.assignments) _ _ (λ taken. v)
        (λ free.
          let a : AssignmentRow = assignment_row x e o bounty p d.id (suc t.seq) c in
          let t1 : Tables = record t { assignments = t.assignments ++ a ∷ []; seq = suc t.seq } in
          Kept-IsSound draws t1 (after_assignment x bounty p d.id pool c t1)
            (after_assignment-Kept t1 bounty p d.id pool c t1 (Kept-refl t1))
            (add_assignment-IsSound t draws a free
              (record {
                draw = d;
                drawn_by = refl;
                recorded = f;
                real = elim s [ inl e ↦ absurd (cc) | inr r ↦ r ];
                bounty = b;
                candidate = c;
                won = w;
                holder = refl;
              })
              v))

  unless_simulated-none :
      (simulate : Bool) (winner : Option (Candidate x))
      → (unless_simulated x simulate winner ≡ none) ⊎ (simulate ≡ false)
  unless_simulated-none true winner = inl refl
  unless_simulated-none false winner = inr refl

  pub write_draw-IsSound :
      (e : Env) (o : DrawOptions) (seed bounty : ℕ) (p : Plan) (db : Db x)
      → IsSound db
      → IsSound (write_draw x e o seed bounty p db).0
  unfolding write_draw
  write_draw-IsSound e o seed bounty p db v =
      let r : DrawResult x = run_draw x p.applicants (setting_of p.config) seed in
      let d : DrawRow x = draw_row x o bounty p seed (suc db.tables.seq) r in
      assign_winner-IsSound e o bounty p (record db.tables { seq = suc db.tables.seq })
        (db.draws ++ d ∷ []) d r.pool (unless_simulated x o.simulate r.winner)
        (first-concat_none (λ (b : DrawRow x). b.id == d.id) db.draws d
          (first-new db.tables.seq db.draws v.below) (ground arith))
        refl refl (unless_simulated-none o.simulate r.winner)
        (add_draw-IsSound db.tables db.draws d refl
          (record { applicants = p.applicants; pool = refl; winner = refl }) v)
