-- ===== src/Services/Investigation.antt =====
-- The requests that change what backend/app/api/routes/correlation.py serves: runs of the correlation,
-- and updates of findings.
pub mod Kept
mod Tests
use dfir_investigation_workb.Services.Session.{Session, rolled_back}
use dfir_investigation_workb.Prelude.{Datetime, List, [], ℕ, ◌∷◌}
use dfir_investigation_workb.Services.Runs.{Outside, run}
use dfir_investigation_workb.Services.Findings.{FindingUpdate, update_finding}

pub data CorrelationRequest : Type 0 where
  -- what the run takes from outside, and the case; the route uses the default window
  run_correlation : Outside → ℕ → CorrelationRequest
  patch_finding : Datetime → ℕ → FindingUpdate → CorrelationRequest

-- `DEFAULT_TEMPORAL_WINDOW_SECONDS`
abbrev pub default_temporal_window_seconds : ℕ
default_temporal_window_seconds = 300

-- The session in which a request is handled.
unfoldable pub handle_correlation : CorrelationRequest → Session → Session
handle_correlation (run_correlation o i) s = (run o i default_temporal_window_seconds s).1
handle_correlation (patch_finding now i p) s = (update_finding now i p s).1

-- Each request has a session of its own, which sees what is stored, and closes without a commit.
unfoldable pub serve_correlation : Session → List CorrelationRequest → Session
serve_correlation s [] = s
serve_correlation s (r ∷ rest) =
    serve_correlation (rolled_back (handle_correlation r (rolled_back s))) rest
