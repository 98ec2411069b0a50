-- ===== src/E2e/Host.antt =====
-- What run_e2e.py asks of the machine it runs on, as a parameter: processes, the clock, files and
-- the services' HTTP interfaces. The modules `json`, `subprocess`, `time`, `os`, `shutil`,
-- `urllib` and `requests` stand behind it.
use delayed_order_sms_flink.Base.{
  ◌≡◌, Result-cases, inl, inr, refl, ℕ, ◌+◌, ◌*◌, ◌≤◌, Bool, Option, List, [], ◌∷◌, ◌++◌, Text, ℤ,
  Result, ok, err,
}
use delayed_order_sms_flink.Json.{Json}

-- `subprocess.CompletedProcess`
pub record Completed : Type 0 where
  pub returncode : ℤ
  pub stdout : Text
  pub stderr : Text

-- A reply of `requests`
pub record Response : Type 0 where
  pub status_code : ℤ
  pub text : Text

abbrev pub Variables : Type 0
Variables = List (Text × Text)

-- What a request carries: a file, by its name and its path, or a JSON document as text
pub data Payload : Type 0 where
  jar_file : Text → Text → Payload
  document : Text → Payload

-- What is asked, in the order of asking.
pub data Call : Type 0 where
  -- `subprocess.run`, with `env` where it is given
  ran : List Text → Option Variables → Call
  -- `time.sleep`, in seconds
  slept : ℕ → Call
  -- `urllib.request.urlopen`
  opened : Text → Call
  -- `requests.post`
  posted : Text → Payload → Call

-- A time is a number of nanoseconds, and a second has so many.
abbrev pub seconds : ℕ → ℕ
seconds n = n * 1000000000

pub record Host : Type 1 where
  pub World : Type 0
  pub Float : Type 0
  -- `bool(x)`, and `x == v` as a `set` sees it
  pub float_is_true : Float → Bool
  pub float_eq : Float → Json Float → Bool
  -- Nothing where `json.loads` raises `JSONDecodeError`
  pub loads : Text → Option (Json Float)
  pub monotonic : World → ℕ
  pub sleep : ℕ → World → World
  -- A command that cannot be started raises.
  pub run : List Text → Option Variables → World → Result Completed × World
  -- Nothing where `urlopen` raises `URLError`
  pub urlopen : Text → World → Result (Option Text) × World
  -- `str(v)` of what is no text
  pub to_text : Json Float → Text
  -- Nothing where `requests` cannot be imported
  pub post : Option (Text → Payload → World → Result Response × World)
  -- `PROJECT_ROOT`, `os.path.join` and `os.pathsep`
  pub project_root : Text
  pub join : Text → Text → Text
  pub path_separator : Text
  pub which : Text → World → Option Text
  pub environ : World → Variables
  pub is_file : Text → World → Bool
  pub is_dir : Text → World → Bool
  pub list_dir : Text → World → Result (List Text)
  -- The clock does not go back, and `time.sleep` waits as long as it is told.
  pub monotonic-sleep : (n : ℕ) (w : World) → monotonic w + seconds n ≤ monotonic (sleep n w)
  pub monotonic-run :
      (cmd : List Text) (env : Option Variables) (w : World)
      → monotonic w ≤ monotonic (run cmd env w).1
  pub monotonic-urlopen : (url : Text) (w : World) → monotonic w ≤ monotonic (urlopen url w).1

-- What a piece of the code asked, what it returns or raises, and the world behind it.
pub record Done (W A : Type 0) : Type 0 where
  pub calls : List Call
  pub result : Result A
  pub world : W

module _ ⦃H : Host⦄ where
  abbrev pub Effect : Type 0 → Type 0
  Effect A = H.World → Done H.World A

  abbrev pub returns : {A : Type 0} → A → Effect A
  returns a w = record { calls = []; result = ok a; world = w }

  abbrev pub lift : {A : Type 0} → Result A → Effect A
  lift r w = record { calls = []; result = r; world = w }

  abbrev pub reads : {A : Type 0} → (H.World → A) → Effect A
  reads f w = record { calls = []; result = ok (f w); world = w }

  abbrev continue : {A B : Type 0} → Result A → (A → Effect B) → Effect B
  continue (ok a) f w = f a w
  continue (err e) f w = record { calls = []; result = err e; world = w }

  infixl 5 ◌>>=◌ ◌>>◌
  unfoldable pub ◌>>=◌ : {A B : Type 0} → Effect A → (A → Effect B) → Effect B
  (m >>= f) w =
      let first = m w in
      let rest = continue first.result f first.world in
      record { calls = first.calls ++ rest.calls; result = rest.result; world = rest.world }

  abbrev pub ◌>>◌ : {A B : Type 0} → Effect A → Effect B → Effect B
  m >> k = m >>= λ _. k

  -- A sequence that returns has a first step that returns.
  module _ {A B : Type 0} (m : Effect A) (f : A → Effect B) (w : H.World) {b : B} where
    pub >>=-eq-ok :
        ((m >>= f) w).result ≡ ok b
        → (a : A) × ((m w).result ≡ ok a)
          × ((f a (m w).world).result ≡ ok b)
          × (((m >>= f) w).calls ≡ (m w).calls ++ (f a (m w).world).calls)
    unfolding ◌>>=◌
    >>=-eq-ok h = elim (Result-cases (m w).result) [
      | inl (a, e) ↦ (a, e, rw e at h, rw e refl)
      | inr (x, e) ↦ absurd (let e' : err x ≡ ok b = rw e at h in cc)
    ]

  abbrev pub subprocess_run : List Text → Option Variables → Effect Completed
  subprocess_run cmd env w =
      let (r, w') = H.run cmd env w in record { calls = ran cmd env ∷ []; result = r; world = w' }

  abbrev pub sleep : ℕ → Effect (Unit {0})
  sleep n w = record { calls = slept n ∷ []; result = ok tt; world = H.sleep n w }

  abbrev pub urlopen : Text → Effect (Option Text)
  urlopen url w =
      let (r, w') = H.urlopen url w in record { calls = opened url ∷ []; result = r; world = w' }

  abbrev pub requests_post :
      (Text → Payload → H.World → Result Response × H.World) → Text → Payload → Effect Response
  requests_post post url payload w =
      let (r, w') = post url payload w in
      record { calls = posted url payload ∷ []; result = r; world = w' }
