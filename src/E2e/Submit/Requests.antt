-- ===== src/E2e/Submit/Requests.antt =====
-- What `submit_flink_job` has asked when it returns the id of a job.
use delayed_order_sms_flink.Base.{◌≡◌, none, some, List, [], ◌∷◌, Text, ok, codes}
use delayed_order_sms_flink.Json.{Json, str}
use delayed_order_sms_flink.E2e.Host.{Payload, jar_file, document, Call, ran, posted, Host}
use delayed_order_sms_flink.E2e.Polling.{get_in}
use delayed_order_sms_flink.E2e.Submit.{
  Post, upload_url, jar_path, upload_by_curl, upload, jar_id_of, run_url, run_payload,
  start_by_curl, start,
}

module _ ⦃H : Host⦄ where
  abbrev pub request_by : Post → Text → Payload → List Text → Call
  request_by (some post) url payload curl = posted url payload
  request_by none url payload curl = ran curl none

  -- By `requests` where it can be imported, and by curl otherwise
  abbrev pub request : Text → Payload → List Text → Call
  request = request_by H.post

  abbrev pub upload_request : Text → Call
  upload_request jar_name =
      request upload_url (jar_file jar_name (jar_path jar_name)) (upload_by_curl jar_name)

  abbrev pub start_request : Json H.Float → Call
  start_request jar_id = request (run_url jar_id) (document run_payload) (start_by_curl jar_id)

  -- What has been asked from a world on, and what was replied, for this result: the jar that is
  -- started is the one that the reply to the upload names, and the id is in the reply to the start.
  abbrev pub Asked : Text → H.World → Json H.Float → List Call → Type 0
  Asked jar_name w id calls =
      (resp jar_id run_resp : Json H.Float) × ((upload jar_name w).result ≡ ok (some resp))
      × (jar_id_of jar_name resp ≡ ok jar_id)
      × ((start jar_id (upload jar_name w).world).result ≡ ok (some run_resp))
      × (get_in (codes "jobid") (str []) run_resp ≡ ok id)
      × (calls ≡ upload_request jar_name ∷ start_request jar_id ∷ [])
