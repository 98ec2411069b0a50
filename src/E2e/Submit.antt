-- ===== src/E2e/Submit.antt =====
-- `submit_flink_job`: the job's file is uploaded, and the job is started, by `requests` or by curl.
pub mod Requests
use delayed_order_sms_flink.Base.{
  Bool, true, false, ◌&&◌, not, Option, none, some, List, [], ◌∷◌, ◌++◌, Text, codes, text_eq,
  length, if◌then◌else◌, ◌==◌, ℕ, zero, suc, ◌+◌, ℤ, pos, int_eq, Result, ok, err, value_error,
  type_error, attribute_error, replace,
}
use delayed_order_sms_flink.Number.{strip}
use delayed_order_sms_flink.Json.{
  Json, Items, Fields, null, bool, int, float, str, arr, obj, nil, cons, end, field, get, get_or,
  is_true,
}
use delayed_order_sms_flink.E2e.Host.{
  Completed, Response, Payload, jar_file, document, Host, Effect, returns, reads, lift, ◌>>=◌,
  subprocess_run, requests_post,
}
use delayed_order_sms_flink.E2e.Polling.{get_in}
use delayed_order_sms_flink.E2e.Build.{find_jar_name, target_directory}
use delayed_order_sms_flink.E2e.Counting.{int_value, same_value}

module _ ⦃H : Host⦄ where
  unfoldable pub field_count : Fields H.Float → ℕ
  field_count end = 0
  field_count (field k v fs) = field_count fs + 1

  abbrev is_key : Text → Fields H.Float → Bool
  is_key k fs = elim (get k fs) [ none ↦ false | some v ↦ true ]

  -- `v == w`
  unfoldable mutual
    pub json_eq : Json H.Float → Json H.Float → Bool
    json_eq null null = true
    json_eq (str s) (str t) = text_eq s t
    json_eq (arr xs) (arr ys) = items_eq xs ys
    json_eq (obj fs) (obj gs) = field_count fs == field_count gs && fields_in fs gs
    json_eq (float x) v = H.float_eq x v
    json_eq v (float x) = H.float_eq x v
    json_eq v w = same_value (int_value v) (int_value w)

    pub items_eq : Items H.Float → Items H.Float → Bool
    items_eq nil nil = true
    items_eq (cons x xs) (cons y ys) = json_eq x y && items_eq xs ys
    items_eq _ _ = false

    -- Each entry is one of the other object, too.
    pub fields_in : Fields H.Float → Fields H.Float → Bool
    fields_in end gs = true
    fields_in (field k v fs) gs = is_key k gs && json_eq v (get_or k null gs) && fields_in fs gs

  -- What a reply carries: `json.loads` and `json` raise where it is no JSON.
  unfoldable pub parsed : Text → Result (Option (Json H.Float))
  parsed text = elim (H.loads text) [ none ↦ err value_error | some v ↦ ok (some v) ]

  -- Whether curl's output of an upload can be read: curl curl_succeeded, and there is one.
  abbrev uploaded : Completed → Bool
  uploaded result = int_eq result.returncode (pos 0) && not (length (strip result.stdout) == 0)

  abbrev curl_succeeded : Completed → Bool
  curl_succeeded result = int_eq result.returncode (pos 0)

  abbrev by_requests : Response → Result (Option (Json H.Float))
  by_requests reply = if int_eq reply.status_code (pos 200) then parsed reply.text else ok none

  -- `requests.post`, where `requests` can be imported
  abbrev pub Post : Type 0
  Post = Option (Text → Payload → H.World → Result Response × H.World)

  -- A request, by `requests` or by this curl command
  unfoldable pub ask_by :
      Post → (Completed → Bool) → Text → Payload → List Text → Effect (Option (Json H.Float))
  ask_by (some post) accepted url payload curl = do
    reply ← requests_post post url payload
    lift (by_requests reply)
  ask_by none accepted url payload curl = do
    result ← subprocess_run curl none
    lift (if accepted result then parsed result.stdout else ok none)

  abbrev pub ask : (Completed → Bool) → Text → Payload → List Text → Effect (Option (Json H.Float))
  ask = ask_by H.post

  abbrev pub upload_url : Text
  upload_url = codes "http://localhost:8081/jars/upload"

  abbrev pub jar_path : Text → Text
  jar_path jar_name = H.join target_directory jar_name

  abbrev pub upload_by_curl : Text → List Text
  upload_by_curl jar_name =
      codes "curl"
      ∷ codes "-s"
      ∷ codes "-X"
      ∷ codes "POST"
      ∷ codes "-H"
      ∷ codes "Expect:"
      ∷ codes "-F"
      ∷ (codes "jarfile=@" ++ jar_path jar_name)
      ∷ upload_url
      ∷ []

  unfoldable pub upload : Text → Effect (Option (Json H.Float))
  upload jar_name =
      ask uploaded upload_url (jar_file jar_name (jar_path jar_name)) (upload_by_curl jar_name)

  -- The loop over `files`, behind the first with the name
  unfoldable pub id_among : Json H.Float → Items H.Float → Result (Json H.Float)
  id_among name nil = ok null
  id_among name (cons part parts) = elim (get_in (codes "name") null part) [
    | err e ↦ err e
    | ok this ↦ if json_eq this name then get_in (codes "id") null part else id_among name parts
  ]

  -- The keys of an object and the characters of a text are iterated too, and have no `get`.
  unfoldable pub id_in_files : Json H.Float → Json H.Float → Result (Json H.Float)
  id_in_files name (arr parts) = id_among name parts
  id_in_files name (obj end) = ok null
  id_in_files name (obj (field _ _ _)) = err attribute_error
  id_in_files name (str []) = ok null
  id_in_files name (str (_ ∷ _)) = err attribute_error
  id_in_files name _ = err type_error

  -- `resp.get("filename", "").replace("/", "_")`
  unfoldable pub direct_id : Json H.Float → Result (Json H.Float)
  direct_id (str name) = ok (str (replace (codes "/") (codes "_") name))
  direct_id _ = err attribute_error

  abbrev or_text : Json H.Float → Text → Json H.Float
  or_text v t = if is_true H.float_is_true v then v else str t

  -- The id of the jar in the reply to the upload
  unfoldable pub jar_id_of : Text → Json H.Float → Result (Json H.Float)
  jar_id_of jar_name resp = elim (get_in (codes "filename") (str []) resp) [
    | err e ↦ err e
    | ok filename ↦ elim (get_in (codes "files") (arr nil) resp) [
      | err e ↦ err e
      | ok files ↦ elim (id_in_files (or_text filename jar_name) files) [
        | err e ↦ err e
        | ok jar_id ↦ if is_true H.float_is_true jar_id then ok jar_id else direct_id filename
      ]
    ]
  ]

  -- In an f-string
  unfoldable pub shown : Json H.Float → Text
  shown (str s) = s
  shown v = H.to_text v

  abbrev pub run_url : Json H.Float → Text
  run_url jar_id = codes "http://localhost:8081/jars/" ++ shown jar_id ++ codes "/run"

  -- `json.dumps(run_payload)`
  abbrev pub run_payload : Text
  run_payload =
      codes "{\"entryClass\": \"com.company.delayedordersms.DelayedOrderSmsJob\", "
      ++ codes "\"programArgs\": \"--kafka.bootstrap.servers kafka:29092 --orders.topic Orders "
      ++ codes "--sms.commands.topic sms-commands --consumer.group.id delayed-order-sms-flink "
      ++ codes "--checkpoint.storage.path file:///opt/flink/checkpoints --parallelism 1\"}"

  abbrev pub start_by_curl : Json H.Float → List Text
  start_by_curl jar_id =
      codes "curl"
      ∷ codes "-s"
      ∷ codes "-X"
      ∷ codes "POST"
      ∷ codes "-H"
      ∷ codes "Content-Type: application/json"
      ∷ codes "-d"
      ∷ run_payload
      ∷ run_url jar_id
      ∷ []

  unfoldable pub start : Json H.Float → Effect (Option (Json H.Float))
  start jar_id = ask curl_succeeded (run_url jar_id) (document run_payload) (start_by_curl jar_id)

  unfoldable pub job_id_of : Option (Json H.Float) → Result (Option (Json H.Float))
  job_id_of none = ok none
  job_id_of (some run_resp) = elim (get_in (codes "jobid") (str []) run_resp) [
    | err e ↦ err e
    | ok id ↦ ok (some id)
  ]

  unfoldable pub start_uploaded : Text → Option (Json H.Float) → Effect (Option (Json H.Float))
  start_uploaded jar_name none = returns none
  start_uploaded jar_name (some resp) = do
    jar_id ← lift (jar_id_of jar_name resp)
    started ← start jar_id
    lift (job_id_of started)

  unfoldable pub submit_file : Option Text → Effect (Option (Json H.Float))
  submit_file none = returns none
  submit_file (some jar_name) = do resp ← upload jar_name; start_uploaded jar_name resp

  -- The id of the job, or nothing where a step failed
  unfoldable pub submit_flink_job : Effect (Option (Json H.Float))
  submit_flink_job = do found ← reads find_jar_name; jar_name ← lift found; submit_file jar_name
