-- ===== src/Health/Announced.antt =====
-- The events of a provider follow its health.
use mathlib.Core.Path.{subst}
use virtiz_ai.Common.{
  ℕ, String, ◌≡◌, ◌⊎◌, inl, inr, true, Option, none, some, List, [], ◌∷◌, arith, if_ind,
  match_some_ind, opt_is, eq_iff, eq_refl, ap, ◌∙◌, sym,
}
use virtiz_ai.Alerts
use virtiz_ai.Alerts.{Event, Report, latest, state_of, concerns}
use virtiz_ai.Health.{
  Provider, ProviderHealth, text_of, observe, report_of, probed, check_provider, Checked,
  same_status,
}

-- The latest event of the provider, if it has one, carries its present status; the row is that of `id`
-- and enabled.
abbrev pub IsAnnounced : String → Option Provider → List Event → Type 0
IsAnnounced id none events = Unit
IsAnnounced id (some row) events =
    (row.id ≡ id)
    × (row.enabled ≡ true)
    × ((latest events "provider" id ≡ none)
        ⊎ (state_of (latest events "provider" id) ≡ some (text_of row.health_status)))

opt_is-some : (o : Option String) (k : String) → opt_is o k ≡ true → o ≡ some k
opt_is-some none k h = cc
opt_is-some (some j) k h = ap some ((eq_iff j k).0 h)

-- after a report the latest state of its component is the reported one, recorded anew or not
state_of-transition :
    (r : Report) (events : List Event)
    → state_of (latest (Alerts.transition r events).0 r.component_type r.component_id)
      ≡ some r.new_state
unfolding Alerts.transition
state_of-transition r events =
    let previous = state_of (latest events r.component_type r.component_id) in
    if_ind
      (λ (s : List Event × Option Event).
        state_of (latest s.0 r.component_type r.component_id) ≡ some r.new_state)
      (opt_is previous r.new_state) _ _ (λ same. opt_is-some previous r.new_state same)
      (λ _. rw (eq_refl r.component_type, eq_refl r.component_id))

module _ (event_id : String) (now : ℕ) (result : ProviderHealth) (row : Provider) where
  id-observe : (observe result now row).id ≡ row.id
  unfolding observe
  id-observe = ground arith

  enabled-observe : (observe result now row).enabled ≡ row.enabled
  unfolding observe
  enabled-observe = ground arith

  -- the latest state after a change was reported
  reported :
      (events : List Event)
      → state_of (
          latest
            (Alerts.transition (report_of event_id now (observe result now row) result) events).0
            "provider"
            row.id)
        ≡ some (text_of (observe result now row).health_status)
  reported events =
      subst
        (λ k.
          state_of (
            latest
              (Alerts.transition (report_of event_id now (observe result now row) result) events).0
              "provider" k)
          ≡ some (text_of (observe result now row).health_status))
        id-observe
        (state_of-transition (report_of event_id now (observe result now row) result) events)

  -- the latest event, as it was or as it is after a change
  still_announced :
      (events : List Event)
      → (latest events "provider" row.id ≡ none)
        ⊎ (state_of (latest events "provider" row.id) ≡ some (text_of row.health_status))
      → let es = (probed event_id now result row events).events in
        (latest es "provider" row.id ≡ none)
        ⊎ (state_of (latest es "provider" row.id)
            ≡ some (text_of (observe result now row).health_status))
  unfolding probed
  still_announced events h =
      if_ind
        (λ (es : List Event).
          (latest es "provider" row.id ≡ none)
          ⊎ (state_of (latest es "provider" row.id)
              ≡ some (text_of (observe result now row).health_status)))
        (same_status (observe result now row).health_status row.health_status) _ _
        (λ same. unchanged events h ((eq_iff _ _).0 same)) (λ _. inr (reported events))
    where
      unchanged :
          (es : List Event)
          → (latest es "provider" row.id ≡ none)
            ⊎ (state_of (latest es "provider" row.id) ≡ some (text_of row.health_status))
          → text_of (observe result now row).health_status ≡ text_of row.health_status
          → (latest es "provider" row.id ≡ none)
            ⊎ (state_of (latest es "provider" row.id)
                ≡ some (text_of (observe result now row).health_status))
      unchanged es (inl e) q = inl e
      unchanged es (inr e) q = inr (e ∙ ap some (sym q))

  probed-IsAnnounced :
      (id : String) (events : List Event)
      → IsAnnounced id (some row) events
      → IsAnnounced id
          (probed event_id now result row events).row
          (probed event_id now result row events).events
  unfolding probed
  probed-IsAnnounced id events h = (
    id-observe ∙ h.0,
    enabled-observe ∙ h.1,
    subst
        (λ k.
          let es = (probed event_id now result row events).events in
          (latest es "provider" k ≡ none)
          ⊎ (state_of (latest es "provider" k)
              ≡ some (text_of (observe result now row).health_status)))
        h.0
        (still_announced events (
          subst
            (λ k.
              (latest events "provider" k ≡ none)
              ⊎ (state_of (latest events "provider" k) ≡ some (text_of row.health_status)))
            (sym h.0) h.2)),
  )

-- one call of `check_provider`: the fresh identifier of an event, the time, and the adapter's answer
pub record Call : Type 0 where
  pub event_id : String
  pub now : ℕ
  pub answer : Option ProviderHealth

pub check_all : String → List Call → Option Provider → List Event → Option Provider × List Event
check_all id [] row events = (row, events)
check_all id (c ∷ cs) row events =
    let after = check_provider id c.event_id c.now c.answer row events in
    check_all id cs after.row after.events

check-IsAnnounced :
    (id : String) (c : Call) (row : Option Provider) (events : List Event)
    → IsAnnounced id row events
    → IsAnnounced id
        (check_provider id c.event_id c.now c.answer row events).row
        (check_provider id c.event_id c.now c.answer row events).events
unfolding check_provider
check-IsAnnounced id c none events h = tt
check-IsAnnounced id c (some row) events h =
    let P : Checked → Type 0 = λ k. IsAnnounced id k.row k.events in
    if_ind P row.enabled _ _
      (λ _.
        match_some_ind P c.answer _ _ h
          (λ result _. probed-IsAnnounced c.event_id c.now result row id events h))
      (λ off. absurd (cc (h.1, off)))

-- If the health in the row of an enabled provider and in its latest event, if there is one, agree at the start, then
-- through any sequence of calls of `check_provider`, whatever its adapter answers and whether it is
-- registered or not, the latest event of the provider, if there is one, carries the health that the row has.
pub check_all-IsAnnounced :
    (id : String) (cs : List Call) (row : Option Provider) (events : List Event)
    → IsAnnounced id row events
    → IsAnnounced id (check_all id cs row events).0 (check_all id cs row events).1
unfolding check_all
check_all-IsAnnounced id [] row events h = h
check_all-IsAnnounced id (c ∷ cs) row events h =
    let after = check_provider id c.event_id c.now c.answer row events in
    check_all-IsAnnounced id cs after.row after.events (check-IsAnnounced id c row events h)
