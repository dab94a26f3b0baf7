-- ===== src/Fetch/One/Honest.antt =====
-- What `fetch_one` hands on, and where `dispatch_fetch_item` sends it.
use Prim.Native.String.{◌++◌ as str_append}
use reroll_sync.Base.{
  ℕ, ◌≡◌, ◌≢◌, refl, Bool, not, ◌&&◌, arith, Option, none, some, String, text_eq_iff, is_none,
  if_rule,
}
use reroll_sync.Db.{Conn, Timestamp}
use reroll_sync.Archive.Format.{Bytes}
use reroll_sync.Dispatcher.Apply.{Dispatcher}
use reroll_sync.Fetch.Client.{
  Http, Reply, replied, raised, crashed, fetch_metadata, transient_error, rate_limited, not_found,
  protocol_error, hash_mismatch,
}
use reroll_sync.Fetch.Client.Checked.{MatchesHash, fetch_metadata-MatchesHash}
use reroll_sync.Fetch.One.{
  FetchItem, FetchOutcome, fetch_ok, fetch_skip, fetch_retry, fetch_rate_limited, Bridge, Messages,
  Stored, no_row, locked, found, Bridged, miss, failing, hit, bridge_lookup, answered, bridged_or,
  fetch_one, unsupported, routed, dispatch_fetch_item, unpacked, matching,
}

module _ (http : Http) where
  -- Bytes handed on have the digest that is recorded, and the published one where there is one.
  abbrev pub IsHonest : Option String → Option FetchOutcome → Type 0
  IsHonest expected (some (fetch_ok bytes sha256)) =
      (http.sha256 bytes ≡ sha256) × MatchesHash http expected bytes
  IsHonest expected _ = Unit {0}

  matching-MatchesHash :
      (expected : String) (z : Option Bytes) (bytes : Bytes)
      → matching http.sha256 expected z ≡ hit bytes
      → http.sha256 bytes ≡ expected
  matching-MatchesHash expected none bytes e = absurd (cc)
  matching-MatchesHash expected (some z) bytes e =
      ground (arith, text_eq_iff (http.sha256 z) expected)

  bridge_lookup-MatchesHash :
      (bridge : Bridge) (expected : Option String) (bytes : Bytes)
      → bridge_lookup http.sha256 bridge expected ≡ hit bytes
      → MatchesHash http expected bytes
  unfolding bridge_lookup
  bridge_lookup-MatchesHash bridge none bytes e = tt
  bridge_lookup-MatchesHash bridge (some expected) bytes e = from_stored (bridge.stored expected) e
    where
      from_stored :
          (o : Stored)
          → unpacked http.sha256 bridge expected o ≡ hit bytes
          → http.sha256 bytes ≡ expected
      from_stored no_row e = absurd (cc)
      from_stored locked e = absurd (cc)
      from_stored (found z) e = matching-MatchesHash expected (bridge.decompress z) bytes e

  module _ (bridge : Bridge) (messages : Messages) (expected : Option String) where
    answered-IsHonest :
        (url : String) (r : Reply Bytes)
        → ((bytes : Bytes) → r ≡ replied bytes → MatchesHash http expected bytes)
        → IsHonest expected (answered http bridge messages url r)
    answered-IsHonest url (replied bytes) h = (refl, h bytes refl)
    answered-IsHonest url crashed h = tt
    answered-IsHonest url (raised (not_found text)) h = tt
    answered-IsHonest url (raised (hash_mismatch a b)) h = tt
    answered-IsHonest url (raised (transient_error text)) h = tt
    answered-IsHonest url (raised (protocol_error text)) h = tt
    answered-IsHonest url (raised (rate_limited n)) h = tt

    bridged_or-IsHonest :
        (o : Bridged) (other : Option FetchOutcome)
        → ((bytes : Bytes) → o ≡ hit bytes → MatchesHash http expected bytes)
        → IsHonest expected other
        → IsHonest expected (bridged_or http bridge messages o other)
    bridged_or-IsHonest miss other h k = k
    bridged_or-IsHonest failing other h k = tt
    bridged_or-IsHonest (hit bytes) other h k = (refl, h bytes refl)

  -- Bytes that `fetch_one` hands on, from the old corpus or from the network, have the digest that
  -- it reports, and where the index publishes a hash for the wheel, that is the digest.
  pub fetch_one-IsHonest :
      (bridge : Bridge) (messages : Messages) (acquired : Option Bool) (attempt : ℕ)
      (now : Timestamp) (wheel : FetchItem)
      → IsHonest wheel.metadata_sha256 (fetch_one http bridge messages acquired attempt now wheel)
  unfolding fetch_one
  fetch_one-IsHonest bridge messages acquired attempt now wheel =
      let expected = wheel.metadata_sha256 in
      let url = str_append wheel.url ".metadata" in
      if_rule (IsHonest expected) (is_none expected && not wheel.has_metadata) (λ e. tt)
        (λ e.
          bridged_or-IsHonest bridge messages expected (bridge_lookup http.sha256 bridge expected) _
            (bridge_lookup-MatchesHash bridge expected)
            (answered-IsHonest bridge messages expected url
              (fetch_metadata http acquired url attempt now expected)
              (λ bytes f.
                (fetch_metadata-MatchesHash http acquired url attempt now expected bytes f).3)))

module _ {L : Type 0} (penalize : String → ℕ → L → Option L) where
  -- Every outcome of a fetch has its way: `adapt_fetch_outcome` is not asked for what it does not
  -- support.
  pub dispatch_fetch_item-supported :
      (http : Http) (bridge : Bridge) (messages : Messages) (acquired : Option Bool) (attempt : ℕ)
      (item : FetchItem) (now finished_at : Timestamp) (jitter : ℕ) (s : Dispatcher L × Conn)
      → dispatch_fetch_item penalize http bridge messages acquired attempt item now finished_at
          jitter s
        ≢ unsupported
  unfolding dispatch_fetch_item
  dispatch_fetch_item-supported http bridge messages acquired attempt item now finished_at jitter s
        e =
      always (fetch_one http bridge messages acquired attempt now item) e
    where
      always :
          (o : Option FetchOutcome) → routed penalize item o now finished_at jitter s ≢ unsupported
      always none e = cc
      always (some (fetch_ok bytes sha256)) e = cc
      always (some (fetch_skip x)) e = cc
      always (some (fetch_retry x)) e = cc
      always (some (fetch_rate_limited c n)) e = cc
