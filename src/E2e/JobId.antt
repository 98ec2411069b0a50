-- ===== src/E2e/JobId.antt =====
-- The loop of `main` that finds the id of the job in what `flink run` prints.
pub mod Guard
use delayed_order_sms_flink.Base.{
  ℕ, Bool, true, false, ◌&&◌, Option, none, some, List, [], ◌∷◌, ◌++◌, Text, codes, length, leb,
  ◌==◌, if◌then◌else◌,
}
use delayed_order_sms_flink.Number.{strip}
use delayed_order_sms_flink.E2e.Lines.{splitlines, split}

-- `token.rstrip(".")`
unfoldable pub rstrip_dots : Text → Text
rstrip_dots [] = []
rstrip_dots (c ∷ s) = elim (rstrip_dots s) [
  | [] ↦ if c == b'.' then [] else c ∷ []
  | d ∷ rest ↦ c ∷ d ∷ rest
]

-- `c in "0123456789abcdef"`
abbrev is_hex : ℕ → Bool
is_hex c = if leb b'0' c && leb c b'9' then true else leb b'a' c && leb c b'f'

unfoldable pub all_hex : Text → Bool
all_hex [] = true
all_hex (c ∷ s) = is_hex c && all_hex s

unfoldable pub is_job_id : Text → Bool
is_job_id token = (length token == 32) && all_hex token

-- The loop over the tokens of a line
unfoldable pub first_job_id : List Text → Option Text
first_job_id [] = none
first_job_id (token ∷ tokens) =
    let rest = first_job_id tokens in
    if is_job_id (rstrip_dots token) then some (rstrip_dots token) else rest

-- One line
unfoldable pub job_id_in : Text → Option Text
job_id_in line = if leb 32 (length (strip line)) then first_job_id (split (strip line)) else none

unfoldable pub or_else : Option Text → Option Text → Option Text
or_else none rest = rest
or_else (some id) rest = some id

-- The loop over the lines
unfoldable pub job_id_among : List Text → Option Text
job_id_among [] = none
job_id_among (line ∷ lines) = or_else (job_id_in line) (job_id_among lines)

-- The id in what the command prints on the two channels
unfoldable pub parse_job_id : Text → Text → Option Text
parse_job_id stdout stderr = job_id_among (splitlines (strip stdout) ++ splitlines (strip stderr))
