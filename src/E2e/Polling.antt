-- ===== src/E2e/Polling.antt =====
-- `poll_healthy` and `poll_job_running`: both ask again every two seconds until what they wait for
-- is there or the time is over.
pub mod Ends
pub mod Means
pub mod Ready
use delayed_order_sms_flink.Base.{
  ℕ, zero, suc, ◌+◌, Bool, true, false, ◌&&◌, not, Option, none, some, List, [], ◌∷◌, ◌++◌, Text,
  codes, text_eq, ltb, if◌then◌else◌, ℤ, pos, int_eq, Result, ok, err, attribute_error,
}
use delayed_order_sms_flink.Json.{Json, null, bool, int, float, str, arr, obj, get_or}
use delayed_order_sms_flink.E2e.Host.{
  Completed, Host, seconds, Effect, returns, lift, reads, ◌>>=◌, ◌>>◌, subprocess_run, sleep,
  urlopen,
}
use delayed_order_sms_flink.E2e.Lines.{filled_lines}

-- `v.get(key, default)`, which only a `dict` has
unfoldable pub get_in : {F : Type 0} → Text → Json F → Json F → Result (Json F)
get_in key default (obj fs) = ok (get_or key default fs)
get_in key default _ = err attribute_error

-- `v == text` and `v in texts`
unfoldable pub is_text : {F : Type 0} → Text → Json F → Bool
is_text t (str s) = text_eq s t
is_text t _ = false

-- One container of `docker compose ps`: its state and its health
unfoldable pub is_ok : {F : Type 0} → Json F → Result Bool
is_ok container = elim (get_in (codes "State") (str []) container) [
  | err e ↦ err e
  | ok state ↦ elim (get_in (codes "Health") (str []) container) [
    | err e ↦ err e
    | ok health ↦ ok (
        is_text (codes "running") state
        && (if is_text (codes "healthy") health then true else is_text [] health))
  ]
]

module _ ⦃H : Host⦄ where
  -- The loop over the lines: a line that is no JSON is passed over.
  unfoldable pub all_ok : List Text → Result Bool
  all_ok [] = ok true
  all_ok (line ∷ lines) = elim (H.loads line) [
    | none ↦ all_ok lines
    | some container ↦ elim (is_ok container) [
      | err e ↦ err e
      | ok this ↦ elim (all_ok lines) [ err e ↦ err e | ok rest ↦ ok (this && rest) ]
    ]
  ]

  abbrev pub compose_ps : List Text
  compose_ps = codes "docker" ∷ codes "compose" ∷ codes "ps" ∷ codes "--format" ∷ codes "json" ∷ []

  -- Whether the output tells that all services are ready.
  unfoldable pub reports_ready : Completed → Result Bool
  reports_ready result =
      if not (int_eq result.returncode (pos 0))
      then ok false
      else elim (filled_lines result.stdout) [ [] ↦ ok false | l ∷ lines ↦ all_ok (l ∷ lines) ]

  -- One round of `poll_healthy`
  unfoldable pub see_healthy : Effect Bool
  see_healthy = do result ← subprocess_run compose_ps none; lift (reports_ready result)

  abbrev pub job_url : Text → Text
  job_url job_id = codes "http://localhost:8081/jobs/" ++ job_id

  -- Whether the reply tells that the job runs. `URLError` and `JSONDecodeError` are caught.
  unfoldable pub reports_running : Option Text → Result Bool
  reports_running none = ok false
  reports_running (some body) = elim (H.loads body) [
    | none ↦ ok false
    | some job ↦ elim (get_in (codes "state") (str []) job) [
      | err e ↦ err e
      | ok state ↦ ok (is_text (codes "RUNNING") state)
    ]
  ]

  -- One round of `poll_job_running`
  unfoldable pub see_running : Text → Effect Bool
  see_running job_id = do reply ← urlopen (job_url job_id); lift (reports_running reply)

  -- The loop, at what one round sees. Nothing is returned where the fuel is used up.
  unfoldable pub poll : Effect Bool → ℕ → ℕ → Effect (Option Bool)
  poll see zero deadline = returns none
  poll see (suc fuel) deadline = do
    now ← reads H.monotonic
    if ltb now deadline
        then (do
          ready ← see
          if ready then returns (some true) else (sleep 2 >> poll see fuel deadline))
        else returns (some false)

  -- `deadline = time.monotonic() + timeout` and the loop. A round takes two seconds or more.
  unfoldable pub poll_for : Effect Bool → ℕ → Effect (Option Bool)
  poll_for see timeout = do
    start ← reads H.monotonic
    poll see (suc timeout) (start + seconds timeout)

  unfoldable pub poll_healthy : ℕ → Effect (Option Bool)
  poll_healthy = poll_for see_healthy

  unfoldable pub poll_job_running : Text → ℕ → Effect (Option Bool)
  poll_job_running job_id = poll_for (see_running job_id)
