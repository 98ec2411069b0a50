-- ===== src/E2e/JobId/Guard.antt =====
-- The test of the length of a line loses no id.
use delayed_order_sms_flink.Base.{
  ℕ, suc, ◌≤◌, ◌<◌, ◌≡◌, refl, sym, false, none, List, [], ◌∷◌, ◌++◌, Text, length, All, All-map,
  leb, arith, Bool-cases, inl, inr,
}
use delayed_order_sms_flink.Number.{strip, is_space}
use delayed_order_sms_flink.E2e.Lines.{splitlines, split, tokens_of, onto_tokens}
use delayed_order_sms_flink.E2e.JobId.{
  rstrip_dots, is_job_id, or_else, first_job_id, job_id_in, job_id_among, parse_job_id,
}

lt-leb : (a b : ℕ) → leb a b ≡ false → b < a
lt-leb a b h = ground arith

abbrev AtMost : ℕ → List Text → Type 0
AtMost n = All (λ t. length t ≤ n)

AtMost-onto_tokens :
    (n : ℕ) (token : Text) (tokens : List Text)
    → length token ≤ n
    → AtMost n tokens
    → AtMost n (onto_tokens token tokens)
AtMost-onto_tokens n [] tokens h hs = hs
AtMost-onto_tokens n (c ∷ token) tokens h hs = (h, hs)

AtMost-suc : (n : ℕ) (tokens : List Text) → AtMost n tokens → AtMost (suc n) tokens
AtMost-suc n tokens h = All-map _ _ (λ t k. omega arith) tokens h

tokens_of-length :
    (s : Text) → (length (tokens_of s).0 ≤ length s) × AtMost (length s) (tokens_of s).1
unfolding tokens_of
tokens_of-length [] = (omega arith, tt)
tokens_of-length (c ∷ s) =
    let (h, hs) = tokens_of-length s in
    let others = AtMost-suc (length s) (tokens_of s).1 hs in
    elim (Bool-cases (is_space c)) [
      | inl e ↦ rw e (omega arith, AtMost-onto_tokens _ (tokens_of s).0 _ (omega arith) others)
      | inr e ↦ rw e (omega arith, others)
    ]

-- No token is longer than the text.
AtMost-split : (s : Text) → AtMost (length s) (split s)
unfolding split
AtMost-split s =
    let (h, hs) = tokens_of-length s in AtMost-onto_tokens _ (tokens_of s).0 (tokens_of s).1 h hs

rstrip_dots-length : (t : Text) → length (rstrip_dots t) ≤ length t
unfolding rstrip_dots
rstrip_dots-length [] = omega arith
rstrip_dots-length (c ∷ t) = ground (arith, rstrip_dots-length t)

is_job_id-short : (t : Text) → length t < 32 → is_job_id (rstrip_dots t) ≡ false
unfolding is_job_id
is_job_id-short t h = ground (arith, rstrip_dots-length t)

first_job_id-short :
    (n : ℕ) (tokens : List Text) → n < 32 → AtMost n tokens → first_job_id tokens ≡ none
unfolding first_job_id
first_job_id-short n [] short h = refl
first_job_id-short n (t ∷ tokens) short (ht, h) =
    rw (is_job_id-short t (omega arith)) (first_job_id-short n tokens short h)

job_id_in-split : (line : Text) → job_id_in line ≡ first_job_id (split (strip line))
unfolding job_id_in
job_id_in-split line = elim (Bool-cases (leb 32 (length (strip line)))) [
  | inl e ↦ rw e refl
  | inr e ↦
      rw e (
        sym (first_job_id-short (length (strip line)) _ (lt-leb _ _ e) (AtMost-split (strip line))))
]

-- The tokens of all the lines
abbrev pub all_tokens : List Text → List Text
all_tokens [] = []
all_tokens (line ∷ lines) = split (strip line) ++ all_tokens lines

first_job_id-append :
    (xs ys : List Text) → first_job_id (xs ++ ys) ≡ or_else (first_job_id xs) (first_job_id ys)
unfolding first_job_id or_else
first_job_id-append [] ys = refl
first_job_id-append (x ∷ xs) ys = ground (arith, first_job_id-append xs ys)

job_id_among-all_tokens : (lines : List Text) → job_id_among lines ≡ first_job_id (all_tokens lines)
unfolding job_id_among first_job_id
job_id_among-all_tokens [] = refl
job_id_among-all_tokens (line ∷ lines) =
    rw (job_id_in-split line, job_id_among-all_tokens lines)
      (sym (first_job_id-append (split (strip line)) (all_tokens lines)))

-- Two nested loops with their breaks and the test of the length find the first of all tokens of both
-- outputs that is a job id, without its dots, and nothing exactly where there is none: short lines
-- have no such token.
pub parse_job_id-all_tokens :
    (stdout stderr : Text)
    → parse_job_id stdout stderr
      ≡ first_job_id (all_tokens (splitlines (strip stdout) ++ splitlines (strip stderr)))
unfolding parse_job_id
parse_job_id-all_tokens stdout stderr = job_id_among-all_tokens _
