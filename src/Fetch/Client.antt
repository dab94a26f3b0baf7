-- ===== src/Fetch/Client.antt =====
-- pypi_client.py: `PyPIClient.fetch_metadata`, the reading of a status, and `Retry-After`. The HTTP
-- library, `float` and `parsedate_to_datetime` are parameters. A time is a number of microseconds.
pub mod Checked
use Prim.Native.Nat.{◌-◌}
use reroll_sync.Base.{
  ℕ, zero, suc, ◌+◌, ◌*◌, ◌≤◌, ◌<◌, ◌≡◌, ◌≢◌, ◌↔◌, ◌∙◌, refl, sym, ap, Bool, true, false, not, ◌&&◌,
  ◌||◌, List, [], ◌∷◌, ◌++◌, arith, length, max, min, sum_by, sum_by-append, length-append, Option,
  none, some, append_assoc, append-nil, ◌⊎◌, inl, inr, get_elem?, All, All-append, Option-cases,
  List-cases, Bool-cases, if◌then◌else◌, ltb, leb, ◌==◌, String, text_eq, take,
}
use reroll_sync.Db.{Timestamp}
use reroll_sync.Archive.Format.{Bytes}

pub data PypiError : Type 0 where
  transient_error : String → PypiError
  rate_limited : Option ℕ → PypiError
  not_found : String → PypiError
  protocol_error : String → PypiError
  hash_mismatch : String → String → PypiError

-- How a call ends: `crashed` is an exception that is not a `PyPIError`.
pub data Reply (A : Type 0) : Type 0 where
  replied : A → Reply A
  raised : PypiError → Reply A
  crashed : Reply A

-- A response as it is streamed: `broken` is the `HTTPError` after the chunks that came, and
-- `lower_text` has the code points of `response.text.lower()`.
pub record Response : Type 0 where
  pub status : ℕ
  pub retry_after : Option String
  pub lower_text : List ℕ
  pub chunks : List Bytes
  pub broken : Option String

-- What `float` makes of a text: a number with its sign.
pub data Delta : Type 0 where
  ahead behind : ℕ → Delta

-- The libraries. `no_response` is an `HTTPError` of the request, `none` of `host` an `InvalidURL`.
pub record Http : Type 0 where
  pub host : String → Option String
  pub get : String → ℕ → Response ⊎ String
  pub sha256 : Bytes → String
  pub to_float : String → Option Delta
  pub to_date : String → Option Timestamp
  pub message : ℕ → String

-- `_MAX_METADATA_BYTES`
abbrev pub max_metadata_bytes : ℕ
max_metadata_bytes = 32 * 1024 * 1024

-- `"rate limit"`
abbrev pub rate_limit_text : List ℕ
rate_limit_text = b'r' ∷ b'a' ∷ b't' ∷ b'e' ∷ b' ' ∷ b'l' ∷ b'i' ∷ b'm' ∷ b'i' ∷ b't' ∷ []

abbrev pub starts_with : List ℕ → List ℕ → Bool
starts_with [] ys = true
starts_with (x ∷ xs) [] = false
starts_with (x ∷ xs) (y ∷ ys) = x == y && starts_with xs ys

-- Python's `in` on texts
unfoldable pub contains_text : List ℕ → List ℕ → Bool
contains_text xs [] = starts_with xs []
contains_text xs (y ∷ ys) = starts_with xs (y ∷ ys) || contains_text xs ys

-- `_is_rate_limited_body`
abbrev pub is_rate_limited_body : Response → Bool
is_rate_limited_body r = contains_text rate_limit_text r.lower_text

abbrev pub fits : ℕ → ℕ → ℕ → Bool
fits low high status = leb low status && ltb status high

module _ (http : Http) where
  abbrev date_delay : Timestamp → Option Timestamp → Option ℕ
  date_delay now none = none
  date_delay now (some t) = some (t - now)

  abbrev delay : String → Timestamp → Option Delta → Option ℕ
  delay value now (some (ahead n)) = some n
  delay value now (some (behind n)) = some 0
  delay value now none = date_delay now (http.to_date value)

  -- `_parse_retry_after`
  unfoldable pub parse_retry_after : Option String → Timestamp → Option ℕ
  parse_retry_after none now = none
  parse_retry_after (some value) now =
      if text_eq value "" then none else delay value now (http.to_float value)

  -- `_check_status`: `none` is its return
  unfoldable pub check_status : Response → Timestamp → Option PypiError
  unfolding parse_retry_after contains_text
  check_status r now =
      let limited = rate_limited (parse_retry_after r.retry_after now) in
      let text = http.message r.status in
      if r.status == 304 || fits 200 300 r.status
      then none
      else (if r.status == 404 || r.status == 410
          then some (not_found text)
          else (if r.status == 429 || (r.status == 403 && is_rate_limited_body r)
              then some limited
              else (if fits 500 600 r.status
                  then some (transient_error text)
                  else some (protocol_error text))))

  abbrev ended : Option String → Bytes → Reply Bytes
  ended none content = replied content
  ended (some e) content = raised (transient_error e)

  -- the loop over `iter_bytes`
  unfoldable pub collect : List Bytes → Option String → ℕ → Bytes → Reply Bytes
  collect [] broken status content = ended broken content
  collect (chunk ∷ chunks) broken status content =
      let more = content ++ chunk in
      let rest = collect chunks broken status more in
      if ltb max_metadata_bytes (length more)
      then raised (protocol_error (http.message status))
      else rest

  abbrev received : Option PypiError → Response → Reply Bytes
  received (some e) r = raised e
  received none r = collect r.chunks r.broken r.status []

  abbrev streamed : Timestamp → Response ⊎ String → Reply Bytes
  streamed now (inl r) = received (check_status r now) r
  streamed now (inr e) = raised (transient_error e)

  -- the check of the hash at the end
  abbrev verified : Option String → Reply Bytes → Reply Bytes
  verified expected (raised e) = raised e
  verified expected crashed = crashed
  verified none (replied bytes) = replied bytes
  verified (some expected) (replied bytes) =
      if text_eq (http.sha256 bytes) expected
      then replied bytes
      else raised (hash_mismatch expected (http.sha256 bytes))

  -- the call after the host is known: `acquired` is the answer of `limiter.acquire`, where `none`
  -- is its `KeyError` for a host that it does not know, and `attempt` tells one request from another
  abbrev throttled :
      Option Bool → Option String → String → ℕ → Timestamp → Option String → Reply Bytes
  throttled acquired none url attempt now expected = raised (protocol_error url)
  throttled none (some h) url attempt now expected = crashed
  throttled (some false) (some h) url attempt now expected = raised (rate_limited none)
  throttled (some true) (some h) url attempt now expected =
      verified expected (streamed now (http.get url attempt))

  -- `fetch_metadata`
  unfoldable pub fetch_metadata : Option Bool → String → ℕ → Timestamp → Option String → Reply Bytes
  unfolding check_status collect
  fetch_metadata acquired url attempt now expected =
      throttled acquired (http.host url) url attempt now expected
