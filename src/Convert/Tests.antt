-- ===== src/Convert/Tests.antt =====
-- A library whose strict attempt fails on prereleases; a file that does not parse is named "bad".
use reroll_sync.Base.{◌≡◌, refl, true, false, List, [], ◌∷◌, if◌then◌else◌, String, text_eq}
use reroll_sync.Dispatcher.Outcome.{ConvertOk}
use reroll_sync.Convert.{
  returned, prerelease_error, reroll_error, decoded, Reroll, convert, after_parse, first_attempt,
  second_attempt, outcome_from_records, agree,
}
use reroll_sync.Convert.Policy.{IsFrom, IsAttempt, convert-IsFrom}

abbrev lib : Reroll String String String
lib = record {
  decode = λ b. decoded b;
  parse = λ t. if text_eq t "bad" then reroll_error "InvalidMetadata" "no" else returned t;
  get_wheel_records = λ m f pre.
      if pre then returned ("demo" ∷ "demo" ∷ []) else prerelease_error "Unsupported" "a1";
  name_of = λ r. r;
  message = λ rs. "names";
  records_text = λ rs. "records";
  resolutions_text = λ rs. "resolutions";
}

abbrev outcome : ConvertOk
outcome = record {
  records = "records";
  resolutions = "resolutions";
  conda_name = "demo";
  requires_prerelease = true;
}

convert-IsFrom_example :
    (text : String) × (decoded "good" ≡ decoded text)
    × ((m : String) × (lib.parse text ≡ returned m)
        × ((rs : List String) × IsFrom lib outcome rs
            × IsAttempt lib true
                (lib.get_wheel_records m "demo.whl" false)
                (lib.get_wheel_records m "demo.whl" true)
                rs))
unfolding convert after_parse first_attempt second_attempt outcome_from_records agree
convert-IsFrom_example = convert-IsFrom lib "1.0" "demo.whl" "good" outcome refl
