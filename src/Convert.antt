-- ===== src/Convert.antt =====
-- src/reroll_sync/convert.py: the policy of `convert`. The reroll library (`parse_metadata`,
-- `get_wheel_records`, with its name mappers) and the utf-8-sig codec are parameters, and so are
-- the texts under which the dispatcher stores records and resolutions. Exceptions are sorted by the
-- first handler of `convert` that they match; one that matches none propagates.
pub mod Policy
mod Tests
use Prim.Native.String.{◌++◌ as join}
use reroll_sync.Base.{
  ℕ, zero, suc, ◌+◌, ◌*◌, ◌≤◌, ◌<◌, ◌≡◌, ◌≢◌, ◌↔◌, ◌∙◌, refl, sym, ap, Bool, true, false, not, ◌&&◌,
  ◌||◌, List, [], ◌∷◌, ◌++◌, arith, length, max, min, sum_by, sum_by-append, length-append, Option,
  none, some, append_assoc, append-nil, ◌⊎◌, inl, inr, get_elem?, All, All-append, Option-cases,
  List-cases, Bool-cases, if◌then◌else◌, ltb, leb, ◌==◌, String, text_eq,
}
use reroll_sync.Dispatcher.Outcome.{
  ConvertOk, ConvertOutcome, convert_ok, convert_skip, convert_retry, Skip, Retry,
}

-- How a call of the library ends. An error comes with the name of its type and its text.
pub data Attempt (A : Type 0) : Type 0 where
  returned : A → Attempt A
  runtime_error : String → Attempt A
  -- a member of `PRERELEASE_RETRY_ERRORS`
  prerelease_error : String → String → Attempt A
  reroll_error : String → String → Attempt A
  unhandled : Attempt A

-- What the decoder of the metadata gives: a text, or the text of its `UnicodeDecodeError`.
pub data Decoded : Type 0 where
  decoded : String → Decoded
  invalid : String → Decoded

abbrev retried : String → String → Option ConvertOutcome
retried reason details = some (convert_retry (record { reason = reason; details = details }))

abbrev pub rejected : String → String → String → String → Option ConvertOutcome
rejected version reason name details = some (
    convert_skip (record {
      reason = reason;
      subcategory = name;
      details = details;
      permanent = false;
      reroll_version = some version;
    }))

-- the skip of a file that is not utf-8
abbrev undecodable : String → Option ConvertOutcome
undecodable details = some (
    convert_skip (record {
      reason = "invalid_metadata_encoding";
      subcategory = "UnicodeDecodeError";
      details = details;
      permanent = true;
      reroll_version = none;
    }))

-- The reroll library, as far as `convert` calls it with the mappers of its worker, the codec, and
-- how records and resolutions are stored: `message` is the text on names that disagree.
pub record Reroll (Bytes Metadata Record : Type 0) : Type 0 where
  pub decode : Bytes → Decoded
  pub parse : String → Attempt Metadata
  pub get_wheel_records : Metadata → String → Bool → Attempt (List Record)
  pub name_of : Record → String
  pub message : List Record → String
  pub records_text : List Record → String
  pub resolutions_text : List Record → String

module _ {Bytes Metadata Record : Type 0} (lib : Reroll Bytes Metadata Record) where
  -- all records have the name: `conda_names` has one element
  unfoldable pub agree : String → List Record → Bool
  agree name [] = true
  agree name (r ∷ rs) = text_eq (lib.name_of r) name && agree name rs

  -- `_outcome_from_records`
  unfoldable pub outcome_from_records : List Record → Bool → Option ConvertOutcome
  outcome_from_records [] requires_prerelease =
      retried "no_records_returned" "get_wheel_records returned no records"
  outcome_from_records (r ∷ rs) requires_prerelease =
      if agree (lib.name_of r) rs
      then some (
          convert_ok (record {
            records = lib.records_text (r ∷ rs);
            resolutions = lib.resolutions_text (r ∷ rs);
            conda_name = lib.name_of r;
            requires_prerelease = requires_prerelease;
          }))
      else retried "conda_name_disagreement" (lib.message (r ∷ rs))

  abbrev both_errors : String → String → String → String
  both_errors first name details =
      join first
        (join " (retry with allow_pre=True failed with " (join name (join ": " (join details ")"))))

  -- the attempt with `allow_pre=True`, after the first one raised `first_name` with `first`
  unfoldable pub second_attempt :
      String → String → String → Attempt (List Record) → Option ConvertOutcome
  second_attempt version first_name first (returned rs) = outcome_from_records rs true
  second_attempt version first_name first (runtime_error d) = retried "conversion_runtime_error" d
  second_attempt version first_name first (prerelease_error name d) =
      rejected version "reroll_conversion_failed" first_name (both_errors first name d)
  second_attempt version first_name first (reroll_error name d) =
      rejected version "reroll_conversion_failed" first_name (both_errors first name d)
  second_attempt version first_name first unhandled = none

  -- the attempt with `allow_pre=False`, and what follows it
  unfoldable pub first_attempt :
      String → Attempt (List Record) → Attempt (List Record) → Option ConvertOutcome
  first_attempt version (returned rs) second = outcome_from_records rs false
  first_attempt version (runtime_error d) second = retried "conversion_runtime_error" d
  first_attempt version (prerelease_error name d) second = second_attempt version name d second
  first_attempt version (reroll_error name d) second =
      rejected version "reroll_conversion_failed" name d
  first_attempt version unhandled second = none

  unfoldable pub after_parse : String → String → Attempt Metadata → Option ConvertOutcome
  unfolding first_attempt
  after_parse version filename (returned metadata) =
      first_attempt version (lib.get_wheel_records metadata filename false)
        (lib.get_wheel_records metadata filename true)
  after_parse version filename (runtime_error d) = retried "parse_runtime_error" d
  after_parse version filename (prerelease_error name d) =
      rejected version "invalid_metadata" name d
  after_parse version filename (reroll_error name d) = rejected version "invalid_metadata" name d
  after_parse version filename unhandled = none

  abbrev pub after_decode : String → String → Decoded → Option ConvertOutcome
  after_decode version filename (decoded text) = after_parse version filename (lib.parse text)
  after_decode version filename (invalid details) = undecodable details

  -- `convert`; `none` stands for an exception that propagates
  unfoldable pub convert : String → String → Bytes → Option ConvertOutcome
  convert version filename metadata_bytes =
      after_decode version filename (lib.decode metadata_bytes)
