-- ===== src/Convert/Policy.antt =====
-- The outcome of a conversion and the attempts of the library.
use reroll_sync.Base.{
  ◌<◌, ◌≡◌, subst, ◌≢◌, refl, ap, Bool, true, false, List, [], ◌∷◌, arith, length, Option, none,
  some, ◌⊎◌, inl, inr, All, Bool-cases, String, text_eq_iff,
}
use reroll_sync.Dispatcher.Outcome.{ConvertOk, ConvertOutcome, convert_ok, convert_skip, Skip}
use reroll_sync.Convert.{
  Attempt, returned, runtime_error, prerelease_error, reroll_error, unhandled, Decoded, decoded,
  invalid, Reroll, agree, outcome_from_records, second_attempt, first_attempt, after_parse,
  after_decode, convert,
}

module _ {Bytes Metadata Record : Type 0} (lib : Reroll Bytes Metadata Record) where
  -- The skip is permanent and names no version, or it is not and names the version.
  abbrev pub IsVersioned : String → Skip → Type 0
  IsVersioned version s =
      ((s.permanent ≡ true) × (s.reroll_version ≡ none))
      ⊎ ((s.permanent ≡ false) × (s.reroll_version ≡ some version))

  records_skip :
      (rs : List Record) (pre : Bool) (s : Skip)
      → outcome_from_records lib rs pre ≢ some (convert_skip s)
  unfolding outcome_from_records
  records_skip [] pre s e = ground arith
  records_skip (r ∷ rs) pre s e = ground arith

  first_skip :
      (version : String) (a b : Attempt (List Record)) (s : Skip)
      → first_attempt lib version a b ≡ some (convert_skip s)
      → IsVersioned version s
  unfolding first_attempt second_attempt
  first_skip version (returned rs) b s e = absurd (records_skip rs false s e)
  first_skip version (runtime_error d) b s e = ground arith
  first_skip version (prerelease_error n d) (returned rs) s e = absurd (records_skip rs true s e)
  first_skip version (prerelease_error n d) (runtime_error d') s e = ground arith
  first_skip version (prerelease_error n d) (prerelease_error n' d') s e = ground arith
  first_skip version (prerelease_error n d) (reroll_error n' d') s e = ground arith
  first_skip version (prerelease_error n d) unhandled s e = ground arith
  first_skip version (reroll_error n d) b s e = ground arith
  first_skip version unhandled b s e = ground arith

  parse_skip :
      (version filename : String) (a : Attempt Metadata) (s : Skip)
      → after_parse lib version filename a ≡ some (convert_skip s)
      → IsVersioned version s
  unfolding after_parse
  parse_skip version filename (returned m) s e =
      first_skip version (lib.get_wheel_records m filename false)
        (lib.get_wheel_records m filename true) s e
  parse_skip version filename (runtime_error d) s e = ground arith
  parse_skip version filename (prerelease_error n d) s e = ground arith
  parse_skip version filename (reroll_error n d) s e = ground arith
  parse_skip version filename unhandled s e = ground arith

  decode_skip :
      (version filename : String) (d : Decoded) (s : Skip)
      → after_decode lib version filename d ≡ some (convert_skip s)
      → IsVersioned version s
  decode_skip version filename (decoded text) s e = parse_skip version filename (lib.parse text) s e
  decode_skip version filename (invalid d) s e = ground arith

  -- A skip that the conversion reports names the reroll version exactly if it is not permanent, and
  -- then it is the version at hand.
  pub convert-IsVersioned :
      (version filename : String) (metadata_bytes : Bytes) (s : Skip)
      → convert lib version filename metadata_bytes ≡ some (convert_skip s)
      → IsVersioned version s
  unfolding convert
  convert-IsVersioned version filename metadata_bytes s e =
      decode_skip version filename (lib.decode metadata_bytes) s e

  agree-All :
      (name : String) (rs : List Record)
      → agree lib name rs ≡ true
      → All (λ r. lib.name_of r ≡ name) rs
  unfolding agree
  agree-All name [] h = tt
  agree-All name (r ∷ rs) h =
      ((text_eq_iff (lib.name_of r) name).0 (ground arith), agree-All name rs (ground arith))

  -- The records come from the library, there are some, and each has the conda name.
  abbrev pub IsFrom : ConvertOk → List Record → Type 0
  IsFrom o rs =
      (0 < length rs)
      × (o.records ≡ lib.records_text rs)
      × All (λ r. lib.name_of r ≡ o.conda_name) rs

  abbrev ok_of : ConvertOk → Option ConvertOutcome → ConvertOk
  ok_of o (some (convert_ok o')) = o'
  ok_of o _ = o

  records_ok :
      (rs : List Record) (pre : Bool) (o : ConvertOk)
      → outcome_from_records lib rs pre ≡ some (convert_ok o)
      → IsFrom o rs × (o.requires_prerelease ≡ pre)
  unfolding outcome_from_records
  records_ok [] pre o e = ground arith
  records_ok (r ∷ rs) pre o e = elim (Bool-cases (agree lib (lib.name_of r) rs)) [
    | inl same ↦
        let made : ConvertOk = record {
          records = lib.records_text (r ∷ rs);
          resolutions = lib.resolutions_text (r ∷ rs);
          conda_name = lib.name_of r;
          requires_prerelease = pre;
        } in
        let both : some (convert_ok made) ≡ some (convert_ok o) = ground (arith, e, same) in
        subst (λ o'. IsFrom o' (r ∷ rs) × (o'.requires_prerelease ≡ pre)) (ap (ok_of o) both)
          ((omega arith, refl, (refl, agree-All (lib.name_of r) rs same)), refl)
    | inr other ↦ absurd (ground (arith, e, other))
  ]

  -- the attempt that gave the records: the strict one, or the second, after the strict one raised an
  -- error of the kind that is retried
  abbrev pub IsAttempt : Bool → Attempt (List Record) → Attempt (List Record) → List Record → Type 0
  IsAttempt true a b rs =
      ((n : String) × (d : String) × (a ≡ prerelease_error n d)) × (b ≡ returned rs)
  IsAttempt false a b rs = a ≡ returned rs

  first_ok :
      (version : String) (a b : Attempt (List Record)) (o : ConvertOk)
      → first_attempt lib version a b ≡ some (convert_ok o)
      → (rs : List Record) × IsFrom o rs × IsAttempt o.requires_prerelease a b rs
  unfolding first_attempt second_attempt
  first_ok version (returned rs) b o e =
      let (from, pre) = records_ok rs false o e in (rs, from, rw pre refl)
  first_ok version (runtime_error d) b o e = ground arith
  first_ok version (prerelease_error n d) (returned rs) o e =
      let (from, pre) = records_ok rs true o e in (rs, from, rw pre ((n, d, refl), refl))
  first_ok version (prerelease_error n d) (runtime_error d') o e = ground arith
  first_ok version (prerelease_error n d) (prerelease_error n' d') o e = ground arith
  first_ok version (prerelease_error n d) (reroll_error n' d') o e = ground arith
  first_ok version (prerelease_error n d) unhandled o e = ground arith
  first_ok version (reroll_error n d) b o e = ground arith
  first_ok version unhandled b o e = ground arith

  parse_ok :
      (version filename : String) (a : Attempt Metadata) (o : ConvertOk)
      → after_parse lib version filename a ≡ some (convert_ok o)
      → (m : Metadata) × (a ≡ returned m)
        × ((rs : List Record) × IsFrom o rs
            × IsAttempt o.requires_prerelease
                (lib.get_wheel_records m filename false)
                (lib.get_wheel_records m filename true)
                rs)
  unfolding after_parse
  parse_ok version filename (returned m) o e = (
    m,
    refl,
    first_ok version (lib.get_wheel_records m filename false)
        (lib.get_wheel_records m filename true) o e,
  )
  parse_ok version filename (runtime_error d) o e = ground arith
  parse_ok version filename (prerelease_error n d) o e = ground arith
  parse_ok version filename (reroll_error n d) o e = ground arith
  parse_ok version filename unhandled o e = ground arith

  decode_ok :
      (version filename : String) (d : Decoded) (o : ConvertOk)
      → after_decode lib version filename d ≡ some (convert_ok o)
      → (text : String) × (d ≡ decoded text)
        × ((m : Metadata) × (lib.parse text ≡ returned m)
            × ((rs : List Record) × IsFrom o rs
                × IsAttempt o.requires_prerelease
                    (lib.get_wheel_records m filename false)
                    (lib.get_wheel_records m filename true)
                    rs))
  decode_ok version filename (decoded text) o e =
      (text, refl, parse_ok version filename (lib.parse text) o e)
  decode_ok version filename (invalid d) o e = ground arith

  -- A conversion that succeeds decoded and parsed the metadata, and its outcome holds records that
  -- the library returned: at least one, all under the conda name of the outcome. The flag for
  -- prereleases is set exactly where they come from the attempt that allows prereleases, and that
  -- attempt was made only after the strict one raised an error of the kind that is retried.
  pub convert-IsFrom :
      (version filename : String) (metadata_bytes : Bytes) (o : ConvertOk)
      → convert lib version filename metadata_bytes ≡ some (convert_ok o)
      → (text : String) × (lib.decode metadata_bytes ≡ decoded text)
        × ((m : Metadata) × (lib.parse text ≡ returned m)
            × ((rs : List Record) × IsFrom o rs
                × IsAttempt o.requires_prerelease
                    (lib.get_wheel_records m filename false)
                    (lib.get_wheel_records m filename true)
                    rs))
  unfolding convert
  convert-IsFrom version filename metadata_bytes o e =
      decode_ok version filename (lib.decode metadata_bytes) o e
