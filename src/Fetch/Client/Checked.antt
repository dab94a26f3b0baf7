-- ===== src/Fetch/Client/Checked.antt =====
-- Bytes that `fetch_metadata` returns.
use reroll_sync.Base.{
  ℕ, ◌≤◌, ◌≡◌, refl, ap, Bool, true, false, ◌||◌, List, [], ◌∷◌, ◌++◌, arith, length, Option, none,
  some, ◌⊎◌, inl, inr, Bool-cases, ◌==◌, String, text_eq, text_eq_iff,
}
use reroll_sync.Db.{Timestamp}
use reroll_sync.Archive.Format.{Bytes}
use reroll_sync.Fetch.Client.{
  Http, PypiError, Reply, replied, raised, crashed, Response, collect, received, streamed, verified,
  throttled, fetch_metadata, check_status, max_metadata_bytes, fits,
}

module _ (http : Http) where
  collect_bounded :
      (chunks : List Bytes) (broken : Option String) (status : ℕ) (content bytes : Bytes)
      → length content ≤ max_metadata_bytes
      → collect http chunks broken status content ≡ replied bytes
      → (length bytes ≤ max_metadata_bytes) × (broken ≡ none)
  unfolding collect
  collect_bounded [] none status content bytes h e = ground arith
  collect_bounded [] (some x) status content bytes h e = absurd (cc)
  collect_bounded (chunk ∷ chunks) broken status content bytes h e =
      ground (arith, collect_bounded chunks broken status (content ++ chunk) bytes)

  -- the digest of what was checked
  abbrev pub MatchesHash : Option String → Bytes → Type 0
  MatchesHash none bytes = Unit {0}
  MatchesHash (some expected) bytes = http.sha256 bytes ≡ expected

  verified-MatchesHash :
      (expected : Option String) (r : Reply Bytes) (bytes : Bytes)
      → verified http expected r ≡ replied bytes
      → (r ≡ replied bytes) × MatchesHash expected bytes
  verified-MatchesHash expected (raised x) bytes e = absurd (cc)
  verified-MatchesHash expected crashed bytes e = absurd (cc)
  verified-MatchesHash none (replied b) bytes e = (e, tt)
  verified-MatchesHash (some h) (replied b) bytes e =
      elim (Bool-cases (text_eq (http.sha256 b) h)) [
        | inl same ↦
            let eq : http.sha256 b ≡ h = (text_eq_iff (http.sha256 b) h).0 same in
            let b_is : b ≡ bytes = ground arith in (ap replied b_is, rw (← b_is) eq)
        | inr other ↦ absurd (ground arith)
      ]

  throttled_parts :
      (acquired : Option Bool) (h : Option String) (url : String) (attempt : ℕ) (now : Timestamp)
      (expected : Option String) (bytes : Bytes)
      → throttled http acquired h url attempt now expected ≡ replied bytes
      → (acquired ≡ some true)
        × (verified http expected (streamed http now (http.get url attempt)) ≡ replied bytes)
  throttled_parts acquired none url attempt now expected bytes e = absurd (cc)
  throttled_parts none (some h) url attempt now expected bytes e = absurd (cc)
  throttled_parts (some false) (some h) url attempt now expected bytes e = absurd (cc)
  throttled_parts (some true) (some h) url attempt now expected bytes e = (refl, e)

  received_parts :
      (o : Option PypiError) (r : Response) (bytes : Bytes)
      → received http o r ≡ replied bytes
      → (o ≡ none) × (collect http r.chunks r.broken r.status [] ≡ replied bytes)
  received_parts none r bytes e = (refl, e)
  received_parts (some x) r bytes e = absurd (cc)

  streamed_parts :
      (now : Timestamp) (x : Response ⊎ String) (bytes : Bytes)
      → streamed http now x ≡ replied bytes
      → (r : Response) × (x ≡ inl r)
        × (check_status http r now ≡ none)
        × (collect http r.chunks r.broken r.status [] ≡ replied bytes)
  streamed_parts now (inl r) bytes e =
      let (ok_status, collected) = received_parts (check_status http r now) r bytes e in
      (r, refl, ok_status, collected)
  streamed_parts now (inr x) bytes e = absurd (cc)

  check_status-none :
      (r : Response) (now : Timestamp)
      → check_status http r now ≡ none
      → (r.status == 304 || fits 200 300 r.status) ≡ true
  unfolding check_status
  check_status-none r now e = ground arith

  -- Bytes come from a request that the limiter let through, to which a response came with a status
  -- from 200 to 299 or 304; the response did not break off, the bytes are at most 32 MiB, and they
  -- have the hash that was expected, where one was.
  pub fetch_metadata-MatchesHash :
      (acquired : Option Bool) (url : String) (attempt : ℕ) (now : Timestamp)
      (expected : Option String) (bytes : Bytes)
      → fetch_metadata http acquired url attempt now expected ≡ replied bytes
      → (acquired ≡ some true)
        × ((r : Response) × (http.get url attempt ≡ inl r)
            × ((r.status == 304 || fits 200 300 r.status) ≡ true)
            × (r.broken ≡ none))
        × (length bytes ≤ max_metadata_bytes)
        × MatchesHash expected bytes
  unfolding fetch_metadata
  fetch_metadata-MatchesHash acquired url attempt now expected bytes e =
      let (got_token, checked) =
        throttled_parts acquired (http.host url) url attempt now expected bytes e in
      let (came, matches) =
        verified-MatchesHash expected (streamed http now (http.get url attempt)) bytes checked in
      let (r, response, status, collected) = streamed_parts now (http.get url attempt) bytes came in
      let (small, whole) =
        collect_bounded r.chunks r.broken r.status [] bytes (omega arith) collected in
      (got_token, (r, response, check_status-none r now status, whole), small, matches)
