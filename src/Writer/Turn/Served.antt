-- ===== src/Writer/Turn/Served.antt =====
-- What becomes of the operations that a writer accepts, whatever the order of submissions, turns of
-- its thread and stops.
use mathlib.Core.List.{map-append}
use reroll_sync.Base.{
  ℕ, suc, ◌≡◌, ◌∙◌, refl, sym, ap, Bool, true, false, not, ◌&&◌, ◌||◌, List, [], ◌∷◌, ◌++◌, arith,
  length, Option, none, some, append_assoc, append-nil, if_rule, leb, map,
}
use reroll_sync.Db.{Db, Timestamp, Result, DbError}
use reroll_sync.Writer.{Writer, commit_batch}
use reroll_sync.Writer.Batch.{length-apply_batch, commit_batch-fatal}
use reroll_sync.Writer.Loop.{Op, Settings, Loop, Turn, Submitted, accepted, start, submit, stop}
use reroll_sync.Writer.Turn.{
  is_empty, take_op, taken, should_flush, resolve, discarded, applies, flushed, flush, check_wal,
  check_vacuum, finish, turn, wal_due, vacuum_due,
}

-- What the threads do to a writer.
pub data Event (A : Type 0) : Type 0 where
  submitting : Op A → Event A
  stopping : Bool → Event A
  turning : Turn → Event A

module _ {A : Type 0} where
  abbrev pub noted : Op A → Submitted × Loop A → List (Op A) → Loop A × List (Op A)
  noted op (accepted, l) ops = (l, ops ++ op ∷ [])
  noted op (_, l) ops = (l, ops)

  -- one event, with the operations that were accepted so far
  abbrev pub happen : Event A → Loop A × List (Op A) → Loop A × List (Op A)
  happen (submitting op) (l, ops) = noted op (submit op l) ops
  happen (stopping drain) (l, ops) = (stop drain l, ops)
  happen (turning t) (l, ops) = (turn t l, ops)

  unfoldable pub run : List (Event A) → Loop A × List (Op A) → Loop A × List (Op A)
  run [] s = s
  run (e ∷ es) s = run es (happen e s)

  abbrev pub op_ids : List (Op A) → List ℕ
  op_ids = map (λ (op : Op A). op.id)

  abbrev pub keys : List (ℕ × Result A) → List ℕ
  keys = map (λ (p : ℕ × Result A). p.0)

  -- The outcomes, the batch and the queue are the accepted operations in their order, and a thread
  -- that has ended left none of them without an outcome.
  pub record IsServed (l : Loop A) (ops : List (Op A)) : Type 0 where
    pub ordered : keys l.resolved ++ (op_ids l.batch ++ op_ids l.queue) ≡ op_ids ops
    pub ended : (l.running || (is_empty l.batch && is_empty l.queue && l.stopped)) ≡ true
    pub requested : (not l.stop_requested || l.stopped) ≡ true

  keys-resolve :
      (ops : List (Op A)) (rs : List (Result A))
      → length rs ≡ length ops
      → keys (resolve ops rs) ≡ op_ids ops
  keys-resolve [] rs h = refl
  keys-resolve (op ∷ ops) [] h = absurd (omega arith)
  keys-resolve (op ∷ ops) (r ∷ rs) h = ap (λ ks. op.id ∷ ks) (keys-resolve ops rs (omega arith))

  keys-discarded : (ops : List (Op A)) → keys (discarded ops) ≡ op_ids ops
  keys-discarded [] = refl
  keys-discarded (op ∷ ops) = ap (λ ks. op.id ∷ ks) (keys-discarded ops)

  pub length-applies : (ops : List (Op A)) → length (applies ops) ≡ length ops
  length-applies [] = refl
  length-applies (op ∷ ops) = ap suc (length-applies ops)

  length-commit_batch :
      (e : Option DbError) (ops : List (Op A)) (w : Writer)
      → length (commit_batch e (applies ops) w).0 ≡ length ops
  unfolding commit_batch
  length-commit_batch none ops w = length-apply_batch (applies ops) w ∙ length-applies ops
  length-commit_batch (some e) ops w = (commit_batch-fatal e (applies ops) w).1 ∙ length-applies ops

  pub start-IsServed : (s : Settings) (db : Db) (now : Timestamp) → IsServed (start s db now) []
  unfolding start
  start-IsServed s db now = record { ordered = refl; ended = refl; requested = refl }

  submit-IsServed :
      (op : Op A) (l : Loop A) (ops : List (Op A))
      → IsServed l ops
      → IsServed (noted op (submit op l) ops).0 (noted op (submit op l) ops).1
  unfolding submit
  submit-IsServed op l ops v =
      if_rule (λ (r : Submitted × Loop A). IsServed (noted op r ops).0 (noted op r ops).1) l.stopped
        (λ e. v)
        (λ e.
          if_rule (λ (r : Submitted × Loop A). IsServed (noted op r ops).0 (noted op r ops).1)
            (leb l.settings.queue_maxsize (length l.queue)) (λ f. v)
            (λ f. record {
              ordered =
                  simp (map-append, ← append_assoc)
                    (ap (λ ids. ids ++ op.id ∷ []) (simp append_assoc v.ordered));
              ended = ground arith;
              requested = v.requested;
            }))

  stop-IsServed :
      (drain : Bool) (l : Loop A) (ops : List (Op A)) → IsServed l ops → IsServed (stop drain l) ops
  unfolding stop
  stop-IsServed drain l ops v =
      if_rule (λ m. IsServed m ops) l.stopped (λ e. v)
        (λ e. record { ordered = v.ordered; ended = ground arith; requested = refl })

  taken-IsServed :
      (now : Timestamp) (q : List (Op A)) (l : Loop A) (ops : List (Op A))
      → l.queue ≡ q
      → l.running ≡ true
      → IsServed l ops
      → IsServed (taken now q l) ops
  taken-IsServed now [] l ops e r v = v
  taken-IsServed now (op ∷ q) l ops e r v = record {
    ordered = rw⁻¹ v.ordered (simp (map-append, append_assoc, e));
    ended = ground arith;
    requested = v.requested;
  }

  flushed-IsServed :
      (r : List (Result A) × Bool × Writer) (l : Loop A) (ops : List (Op A))
      → length r.0 ≡ length l.batch
      → IsServed l ops
      → IsServed (flushed r l) ops
  flushed-IsServed (rs, false, w) l ops n v = record {
    ordered = rw⁻¹ v.ordered (simp (map-append, append_assoc, keys-resolve l.batch rs n));
    ended = ground arith;
    requested = v.requested;
  }
  flushed-IsServed (rs, true, w) l ops n v = record {
    ordered =
        rw⁻¹ v.ordered
          (simp (map-append, append-nil, keys-resolve l.batch rs n, keys-discarded l.queue));
    ended = refl;
    requested = refl;
  }

  flush-IsServed :
      (t : Turn) (l : Loop A) (ops : List (Op A)) → IsServed l ops → IsServed (flush t l) ops
  unfolding flush
  flush-IsServed t l ops v =
      if_rule (λ m. IsServed m ops) (should_flush t.at_test l)
        (λ e.
          flushed-IsServed (commit_batch t.commit_error (applies l.batch) l.writer) l ops
            (length-commit_batch t.commit_error l.batch l.writer) v)
        (λ e. v)

  check_wal-IsServed :
      (t : Turn) (l : Loop A) (ops : List (Op A)) → IsServed l ops → IsServed (check_wal t l) ops
  unfolding check_wal
  check_wal-IsServed t l ops v =
      if_rule (λ m. IsServed m ops) (wal_due t l)
        (λ e. record { ordered = v.ordered; ended = v.ended; requested = v.requested }) (λ e. v)

  check_vacuum-IsServed :
      (t : Turn) (l : Loop A) (ops : List (Op A)) → IsServed l ops → IsServed (check_vacuum t l) ops
  unfolding check_vacuum
  check_vacuum-IsServed t l ops v =
      if_rule (λ m. IsServed m ops) (vacuum_due t l)
        (λ e. record { ordered = v.ordered; ended = v.ended; requested = v.requested }) (λ e. v)

  finish-IsServed :
      (t : Turn) (l : Loop A) (ops : List (Op A)) → IsServed l ops → IsServed (finish t l) ops
  unfolding finish
  finish-IsServed t l ops v =
      if_rule (λ m. IsServed m ops) (not l.stop_requested) (λ e. v)
        (λ e.
          if_rule (λ m. IsServed m ops) l.drain_on_stop
            (λ d.
              if_rule (λ m. IsServed m ops) (is_empty l.queue && is_empty l.batch)
                (λ f. record { ordered = v.ordered; ended = ground arith; requested = v.requested })
                (λ f. v))
            (λ d. record {
              ordered =
                  rw⁻¹ v.ordered
                    (simp (map-append, append-nil, keys-discarded (l.batch ++ l.queue)));
              ended = ground arith;
              requested = v.requested;
            }))

  turn-IsServed :
      (t : Turn) (l : Loop A) (ops : List (Op A)) → IsServed l ops → IsServed (turn t l) ops
  unfolding turn take_op
  turn-IsServed t l ops v =
      if_rule (λ m. IsServed m ops) l.running
        (λ e.
          let m = flush t (taken t.at_get l.queue l) in
          let v1 = flush-IsServed t _ ops (taken-IsServed t.at_get l.queue l ops refl e v) in
          if_rule (λ m. IsServed m ops) m.running
            (λ f.
              finish-IsServed t _ ops
                (check_vacuum-IsServed t _ ops (check_wal-IsServed t _ ops v1)))
            (λ f. v1))
        (λ e. v)

  pub run-IsServed :
      (es : List (Event A)) (l : Loop A) (ops : List (Op A))
      → IsServed l ops
      → IsServed (run es (l, ops)).0 (run es (l, ops)).1
  unfolding run
  run-IsServed [] l ops v = v
  run-IsServed (submitting op ∷ es) l ops v =
      run-IsServed es (noted op (submit op l) ops).0 (noted op (submit op l) ops).1
        (submit-IsServed op l ops v)
  run-IsServed (stopping drain ∷ es) l ops v =
      run-IsServed es (stop drain l) ops (stop-IsServed drain l ops v)
  run-IsServed (turning t ∷ es) l ops v = run-IsServed es (turn t l) ops (turn-IsServed t l ops v)

pub emptied :
    {A : Type 0} (b q : List (Op A)) (s : Bool)
    → (is_empty b && is_empty q && s) ≡ true
    → (b ≡ []) × (q ≡ []) × (s ≡ true)
emptied [] [] s e = (refl, refl, e)
emptied (x ∷ b) q s e = absurd (cc)
emptied [] (x ∷ q) s e = absurd (cc)

ended_resolves :
    {A : Type 0} (l : Loop A) (ops : List (Op A))
    → IsServed l ops
    → l.running ≡ false
    → (keys l.resolved ≡ op_ids ops) × (l.stopped ≡ true)
ended_resolves l ops v e =
    let (b, q, s) = emptied l.batch l.queue l.stopped (rw e at v.ended) in
    (sym (append-nil (keys l.resolved)) ∙ rw (b, q) at v.ordered, s)

-- Whatever happens to a writer from its start on, once its thread has ended, by a stop with or
-- without draining or by a batch that failed fatally: the writer takes no more, and its outcomes are
-- those of exactly the operations that `submit` accepted, one for each and in the order of acceptance.
pub run-resolves :
    {A : Type 0} (settings : Settings) (db : Db) (now : Timestamp) (es : List (Event A))
    → (run es (start settings db now, [])).0.running ≡ false
    → (keys (run es (start settings db now, [])).0.resolved
        ≡ op_ids (run es (start settings db now, [])).1)
      × ((run es (start settings db now, [])).0.stopped ≡ true)
run-resolves settings db now es e =
    let s = run es (start settings db now, []) in
    ended_resolves s.0 s.1
      (run-IsServed es (start settings db now) [] (start-IsServed settings db now)) e
