-- ===== src/DrawService/Tables.antt =====
-- The tables that apps/agent/src/draw-service.ts reads and writes (db/migrations), in the order in which
-- the rows were made, and the outbox of apps/agent/src/events.ts. An id is the number of the row, where
-- the database makes a fresh UUID; created_at, updated_at and a row's amounts are left out.
use grainlify_bounty_agent.Base.{
  ℕ, ◌==◌, Bool, true, false, not, ◌&&◌, Option, List, [], ◌∷◌, ◌++◌, if◌then◌else◌, String,
  text_eq, any, first, update_where,
}
use grainlify_bounty_agent.Draw.Run.{Fit, DifficultyMatch}

pub data BountyStatus : Type 0 where
  funding proposed posted in_review payable paid cancelled expired : BountyStatus

pub record BountyRow : Type 0 where
  pub id : ℕ
  pub status : BountyStatus
  pub repo : String
  pub issue_number : ℕ
  pub funded_by : Option String
  pub funded_by_github_user_id : Option ℕ
  pub is_test : Bool
  pub applications_open_at : Option ℕ
  pub applications_close_at : Option ℕ
  pub window_extensions : ℕ
  pub waived : List String
  pub reserved_for_newcomers : Bool
  pub awaiting_redraw : Bool
  pub exclude_login_next_draw : Option String
  pub auto_draw_ran_at : Option ℕ

pub data AssignmentStatus : Type 0 where
  active pr_submitted completed released_stale released_voluntary released_pr_rejected :
      AssignmentStatus

pub record AssignmentRow : Type 0 where
  pub id : ℕ
  pub bounty_id : ℕ
  pub draw_id : Option ℕ
  pub github_user_id : ℕ
  pub github_login : String
  pub status : AssignmentStatus
  pub assigned_at : ℕ
  pub stale_at : ℕ
  pub qualifying_pr_number : Option ℕ
  pub released_at : Option ℕ
  pub release_reason : Option String
  pub released_by : Option String
  pub counts_as_abandon : Bool
  pub unassigned_on_chain_directly : Bool

pub data ApplicationStatus : Type 0 where
  applied rejected_gate won lost withdrawn : ApplicationStatus

-- Why an application is refused, and the row says so.
pub data GateFailure : Type 0 where
  holding_another_bounty no_linked_wallet account_age_unknown account_too_new org_member :
      GateFailure

pub record ApplicationRow : Type 0 where
  pub id : ℕ
  pub bounty_id : ℕ
  pub github_user_id : ℕ
  pub github_login : String
  pub status : ApplicationStatus
  pub gate_failure_reason : Option GateFailure
  pub application_text : Option String
  pub fit : Option Fit
  pub difficulty_match : Option DifficultyMatch

pub data PrState : Type 0 where
  open_pr closed_pr merged_pr : PrState

pub record SubmissionRow : Type 0 where
  pub bounty_id : ℕ
  pub pr_number : ℕ
  pub author_github_user_id : ℕ
  pub author_login : String
  pub state : PrState
  pub head_sha : String
  pub updated_at : ℕ

pub record WalletLink : Type 0 where
  pub github_user_id : ℕ
  pub address : String
  pub revoked : Bool

pub record StoredSetting : Type 0 where
  pub key : String
  pub value : String
  pub updated_at : ℕ
  pub updated_by : String

-- The dedupe keys: the constructor is the text before the first colon.
pub data DedupeKey : Type 0 where
  application_received draw_won deadline_changed : ℕ → ℕ → DedupeKey
  draw_lost : ℕ → ℕ → ℕ → DedupeKey
  assignment_expiring unassigned round_closed : ℕ → DedupeKey
  funded_assigned unassign_proposed unassign_refused : ℕ → DedupeKey

abbrev pub same_key : DedupeKey → DedupeKey → Bool
same_key (application_received a b) (application_received c d) = a == c && b == d
same_key (draw_won a b) (draw_won c d) = a == c && b == d
same_key (deadline_changed a b) (deadline_changed c d) = a == c && b == d
same_key (draw_lost a b e) (draw_lost c d f) = a == c && (b == d && e == f)
same_key (assignment_expiring a) (assignment_expiring c) = a == c
same_key (unassigned a) (unassigned c) = a == c
same_key (round_closed a) (round_closed c) = a == c
same_key (funded_assigned a) (funded_assigned c) = a == c
same_key (unassign_proposed a) (unassign_proposed c) = a == c
same_key (unassign_refused a) (unassign_refused c) = a == c
same_key _ _ = false

-- The payload repeats columns of the other tables and is left out; `closed` is the one flag of its own.
pub record EventRow : Type 0 where
  pub github_user_id : ℕ
  pub dedupe_key : DedupeKey
  pub closed : Bool

pub data AuditAction : Type 0 where
  bounty_reopened bounty_closed assignment_unassigned assignment_round_closed_notice : AuditAction
  assignment_deadline_changed assignment_pr_recorded assignment_funder_assigned : AuditAction
  bounty_funded bounty_escrow_closed_by_funder bounty_marked_test escrow_assigned_to_unknown :
      AuditAction
  unassign_proposal unassign_refusal unassign_acceptance unassign_silence unassign_withdrawal :
      AuditAction
  dispute_left_to_deadline dispute_conduct_note : AuditAction

pub record AuditRow : Type 0 where
  pub actor : String
  pub action : AuditAction
  pub subject : ℕ
  pub reason : Option String

pub record DeadlineChange : Type 0 where
  pub assignment_id : ℕ
  pub previous_at : ℕ
  pub new_at : ℕ
  pub reason : String
  pub changed_by : String

pub record Tables : Type 0 where
  pub bounties : List BountyRow
  pub assignments : List AssignmentRow
  pub applications : List ApplicationRow
  pub submissions : List SubmissionRow
  pub wallets : List WalletLink
  pub settings : List StoredSetting
  pub events : List EventRow
  pub audit : List AuditRow
  pub deadline_changes : List DeadlineChange
  pub seq : ℕ

-- INSERT … ON CONFLICT (dedupe_key) DO NOTHING, and whether a row was made.
unfoldable pub enqueue_event : ℕ → DedupeKey → Bool → Tables → Tables × Bool
enqueue_event user key closed t =
    if any (λ e. same_key e.dedupe_key key) t.events then (t, false) else (
      record t {
        events =
            t.events ++ record { github_user_id = user; dedupe_key = key; closed = closed } ∷ [];
      },
      true,
    )

abbrev pub log : String → AuditAction → ℕ → Option String → Tables → Tables
log actor action subject reason t = record t {
  audit =
      t.audit ++ record { actor = actor; action = action; subject = subject; reason = reason } ∷ [];
}

abbrev pub is_posted : BountyStatus → Bool
is_posted posted = true
is_posted _ = false

abbrev pub is_in_review : BountyStatus → Bool
is_in_review in_review = true
is_in_review _ = false

-- status IN ('active','pr_submitted')
abbrev pub is_live : AssignmentStatus → Bool
is_live active = true
is_live pr_submitted = true
is_live completed = false
is_live released_stale = false
is_live released_voluntary = false
is_live released_pr_rejected = false

abbrev pub is_active : AssignmentStatus → Bool
is_active active = true
is_active _ = false

abbrev pub is_pr_submitted : AssignmentStatus → Bool
is_pr_submitted pr_submitted = true
is_pr_submitted _ = false

-- status IN ('applied','lost')
abbrev pub is_drawable : ApplicationStatus → Bool
is_drawable applied = true
is_drawable lost = true
is_drawable rejected_gate = false
is_drawable won = false
is_drawable withdrawn = false

abbrev pub is_won : ApplicationStatus → Bool
is_won won = true
is_won _ = false

abbrev pub is_rejected : ApplicationStatus → Bool
is_rejected rejected_gate = true
is_rejected _ = false

abbrev pub is_open_pr : PrState → Bool
is_open_pr open_pr = true
is_open_pr _ = false

abbrev pub bounty_of : ℕ → Tables → Option BountyRow
bounty_of id t = first (λ (b : BountyRow). b.id == id) t.bounties

abbrev pub holds : ℕ → AssignmentRow → Bool
holds bounty a = a.bounty_id == bounty && is_live a.status

abbrev pub holder_of : ℕ → Tables → Option AssignmentRow
holder_of bounty t = first (holds bounty) t.assignments

abbrev pub set_bounty : ℕ → (BountyRow → BountyRow) → Tables → Tables
set_bounty id f t = record t {
  bounties = update_where (λ (b : BountyRow). b.id == id) f t.bounties;
}

abbrev pub set_assignment : ℕ → (AssignmentRow → AssignmentRow) → Tables → Tables
set_assignment id f t = record t {
  assignments = update_where (λ (a : AssignmentRow). a.id == id) f t.assignments;
}

-- The winner of a draw is back in the pool: 'lost' rather than 'won'.
abbrev pub back_to_pool : ℕ → String → Tables → Tables
back_to_pool bounty login t = record t {
  applications =
      update_where
        (λ (a : ApplicationRow).
          a.bounty_id == bounty && (text_eq a.github_login login && is_won a.status))
        (λ a. record a { status = lost }) t.applications;
}

abbrev pub has_wallet : Tables → ℕ → Bool
has_wallet t user = any (λ (w : WalletLink). w.github_user_id == user && not w.revoked) t.wallets
