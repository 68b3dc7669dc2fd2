-- ===== src/Services/Runs/Evaluations.antt =====
-- Evaluating the rules raises nothing: no assertion of theirs fails, whatever the events.
use dfir_investigation_workb.Services.Session.{Session}
use dfir_investigation_workb.Prelude.{List, [], length, ok, refl, ℕ, ◌++◌, ◌≡◌}
use dfir_investigation_workb.Correlation.Events.{TimelineEvent}
use dfir_investigation_workb.Correlation.Rules.{evtx_prefetch, lnk_evtx, ntfs_evtx, registry_evtx}
use dfir_investigation_workb.Correlation.Timed.{
  evaluate_evtx_prefetch-ok, evaluate_lnk_evtx-ok, evaluate_ntfs_evtx-ok,
}
use dfir_investigation_workb.Services.Runs.{
  Evaluated, Outside, evaluate_rules, evaluated, run_found, run_on, sort_candidates,
}

module _ (o : Outside) (case_id window : ℕ) where
  -- the sorted candidates and the warnings of the four rules
  unfoldable pub found_in : List TimelineEvent → Evaluated
  found_in events = (
    sort_candidates (
        (evtx_prefetch o.casefold events window).candidates
        ++ ((lnk_evtx o.casefold events window).candidates
            ++ ((ntfs_evtx o.casefold events window).candidates
                ++ ((registry_evtx events window).candidates ++ [])))),
    (evtx_prefetch o.casefold events window).warnings
        ++ ((lnk_evtx o.casefold events window).warnings
            ++ ((ntfs_evtx o.casefold events window).warnings
                ++ ((registry_evtx events window).warnings ++ []))),
  )

  pub evaluated-ok :
      (events : List TimelineEvent) → evaluated o case_id window events ≡ ok (found_in events)
  unfolding evaluated evaluate_rules found_in
  evaluated-ok events =
      rw
        (
          evaluate_evtx_prefetch-ok o.casefold events window,
          evaluate_lnk_evtx-ok o.casefold events window,
          evaluate_ntfs_evtx-ok o.casefold events window,
        )
        refl

  pub run_on-found_in :
      (events : List TimelineEvent) (s : Session)
      → run_on o case_id window events s
        ≡ run_found o case_id window (length events) (found_in events) s
  unfolding run_on
  run_on-found_in events s = rw (evaluated-ok events) refl
