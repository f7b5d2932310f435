-- ===== src/DrawService/Apply/Gates.antt =====
-- What `apply` of apps/agent/src/draw-service.ts answers.
use grainlify_bounty_agent.Base.{
  ℕ, suc, ◌+◌, ◌*◌, ◌≤◌, ◌<◌, ◌≡◌, ◌⊎◌, Bool, true, false, not, ◌&&◌, none, some, List, [], ◌∷◌,
  arith, if_elim, String, text_eq, includes, truthy, any, any-concat, update_if, update_where,
}
use grainlify_bounty_agent.DrawService.Tables.{
  Tables, BountyRow, ApplicationRow, ApplicationStatus, GateFailure, applied, same_key,
  enqueue_event, application_received, is_posted, is_rejected, holds, has_wallet,
}
use grainlify_bounty_agent.DrawService.Settings.{int_setting, bool_setting}
use grainlify_bounty_agent.DrawService.Apply.{
  Env, ApplyInput, ApplyOutcome, accepted, refused, no_such_bounty, not_open, applications_closed,
  own_bounty, assigned, already_applied, hour, insiders, is_application, new_application, upsert,
  refuse, set_refused, set_applied, with_fit, assess_row, insert_application, or_no_access,
  waives_org_members, holdings, is_after,
}

abbrev pub is_applied : ApplicationStatus → Bool
is_applied applied = true
is_applied _ = false

any-update_where {ℓ} :
    {A : Type ℓ} (p q r : A → Bool) (f : A → A) (xs : List A)
    → ((x : A) → q x ≡ true → r (update_if p f x) ≡ true)
    → any q xs ≡ true
    → any r (update_where p f xs) ≡ true
any-update_where p q r f [] k h = cc
any-update_where p q r f (x ∷ xs) k h = ground (arith, k x, any-update_where p q r f xs k)

module _ (i : ApplyInput) where
  -- After the upsert the table has a row of this person on this bounty, with the columns that were set.
  any-upsert :
      (q : ApplicationRow → Bool) (f : ApplicationRow → ApplicationRow) (t : Tables)
      → ((a : ApplicationRow) → is_application i a ≡ true → q (f a) ≡ true)
      → any q (upsert i f t).applications ≡ true
  any-upsert q f t k =
      if_elim (λ (u : Tables). any q u.applications ≡ true) (any (is_application i) t.applications)
        _ _
        (λ old.
          any-update_where (is_application i) (is_application i) q f t.applications
            (λ a h. ground (arith, h, k a)) old)
        (λ new. ground (
          arith,
          any-concat q t.applications (f (new_application (suc t.seq) i)),
          k (new_application (suc t.seq) i) (ground arith),
        ))

  with_fit-status :
      (e : Env) (a : ApplicationRow)
      → is_application i a && is_applied a.status ≡ true
      → is_application i (with_fit (e.assess a) a) && is_applied (with_fit (e.assess a) a).status
        ≡ true
  with_fit-status e a h = with_cases (e.assess a)
    where
      with_cases :
          (o : _) → is_application i (with_fit o a) && is_applied (with_fit o a).status ≡ true
      with_cases none = h
      with_cases (some (fit, difficulty)) = h

-- What stands in the row of this person on this bounty.
abbrev pub stands : ApplyInput → (ApplicationStatus → Bool) → Tables → Bool
stands i p t = any (λ (a : ApplicationRow). is_application i a && p a.status) t.applications

module _ (e : Env) (i : ApplyInput) (cfg : List (String × String)) (b : BountyRow)
    (t : Tables) where
  -- Every condition of an application.
  pub record IsAdmitted : Type 0 where
    pub on_offer : is_posted b.status ≡ true
    pub ahead : is_after e.now b.applications_close_at ≡ true
    pub other_funder :
        (truthy b.funded_by ≡ none)
        ⊎ ((funder : String) × (truthy b.funded_by ≡ some funder)
            × (text_eq (e.lower funder) (e.lower i.github_login) ≡ false)
            × (any (holds i.bounty_id) t.assignments ≡ false))
    pub first_time : stands i (λ s. not (is_rejected s)) t ≡ false
    pub room :
        holdings t i.github_user_id
        < int_setting e.parse_int cfg "max_active_assignments_per_person" 1
    pub wallet :
        (bool_setting cfg "require_linked_wallet_to_apply" true ≡ false)
        ⊎ (has_wallet t i.github_user_id ≡ true)
    pub age :
        (int_setting e.parse_int cfg "min_account_age_days" 30 ≡ 0)
        ⊎ ((created : ℕ) × (e.user_created_at b.repo i.github_login ≡ some created)
            × (created + int_setting e.parse_int cfg "min_account_age_days" 30 * (24 * hour)
                ≤ e.now))
    pub outsider :
        (bool_setting cfg "block_org_members" true ≡ false)
        ⊎ (waives_org_members b ≡ true)
        ⊎ (includes insiders (or_no_access (e.permission b.repo i.github_login)) ≡ false)

  -- An answer from the bounty's row `b`: only where a condition fails is it anything but `accepted`.
  abbrev pub IsAnswer : Tables × ApplyOutcome → Type 0
  IsAnswer (u, accepted id) = IsAdmitted × (stands i is_applied u ≡ true)
  IsAnswer (u, refused reason) = (stands i is_rejected u ≡ true) × ¬ IsAdmitted
  IsAnswer (u, no_such_bounty) = (u ≡ t) × ¬ IsAdmitted
  IsAnswer (u, not_open) = (u ≡ t) × ¬ IsAdmitted
  IsAnswer (u, applications_closed) = (u ≡ t) × ¬ IsAdmitted
  IsAnswer (u, own_bounty) = (u ≡ t) × ¬ IsAdmitted
  IsAnswer (u, assigned) = (u ≡ t) × ¬ IsAdmitted
  IsAnswer (u, already_applied) = (u ≡ t) × ¬ IsAdmitted

  pub refuse-IsAnswer : (reason : GateFailure) → ¬ IsAdmitted → IsAnswer (refuse i reason t)
  refuse-IsAnswer reason fails = (
    any-upsert i (λ (a : ApplicationRow). is_application i a && is_rejected a.status)
        (set_refused reason) t (λ a h. ground (arith, h)),
    fails,
  )

  pub insert_application-IsAnswer : IsAdmitted → IsAnswer (insert_application e i t)
  unfolding enqueue_event
  insert_application-IsAnswer v =
      let q = (λ (a : ApplicationRow). is_application i a && is_applied a.status) in
      let set = set_applied (truthy (some (e.cut_text i.application_text))) in
      let assessed : stands i is_applied (assess_row e i (upsert i set t)) ≡ true =
        any-update_where (is_application i) q q (λ a. with_fit (e.assess a) a)
          (upsert i set t).applications
          (λ a h.
            if_elim (λ r. q r ≡ true) (is_application i a) (with_fit (e.assess a) a) a
              (λ hit. with_fit-status i e a h) (λ miss. h))
          (any-upsert i q set t (λ a h. ground (arith, h))) in
      (
        v,
        if_elim (λ (y : Tables × Bool). stands i is_applied y.0 ≡ true)
            (any (λ r. same_key r.dedupe_key (application_received i.bounty_id i.github_user_id))
              (assess_row e i (upsert i set t)).events)
            _ _ (λ old. assessed) (λ new. assessed),
      )
