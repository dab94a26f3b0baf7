-- ===== src/Writer/Turn/Serial.antt =====
-- The writer against its specification: the operations one after the other, in no batches.
use mathlib.Core.List.{map-append}
use reroll_sync.Base.{
  ◌≡◌, ◌∙◌, refl, ap, true, false, not, ◌&&◌, List, [], ◌∷◌, ◌++◌, arith, length, none,
  append_assoc, append-nil, All, leb, if_rule,
}
use reroll_sync.Db.{Db, Timestamp, Result}
use reroll_sync.Writer.{Writer, commit_batch, apply_batch}
use reroll_sync.Writer.Batch.{length-apply_batch, apply_batch-append}
use reroll_sync.Writer.Loop.{Op, Settings, Loop, Turn, Submitted, opened, start, submit, stop}
use reroll_sync.Writer.Turn.{
  is_empty, take_op, taken, should_flush, resolve, applies, flush, check_wal, check_vacuum, finish,
  turn, wal_due, vacuum_due,
}
use reroll_sync.Writer.Turn.Served.{
  Event, submitting, stopping, turning, noted, run, emptied, run-IsServed, start-IsServed,
  length-applies,
}

module _ {A : Type 0} where
  -- no COMMIT fails and no stop discards
  abbrev pub IsCalm : Event A → Type 0
  IsCalm (submitting op) = Unit {0}
  IsCalm (stopping drain) = drain ≡ true
  IsCalm (turning t) = t.commit_error ≡ none

  -- Those that are done ran one after the other, and the others wait.
  record IsSerial (w : Writer) (l : Loop A) (ops : List (Op A)) : Type 0 where
    done : List (Op A)
    waiting : ops ≡ done ++ (l.batch ++ l.queue)
    outcomes : l.resolved ≡ resolve done (apply_batch (applies done) w).0
    state : l.writer ≡ (apply_batch (applies done) w).1
    draining : l.drain_on_stop ≡ true

  resolve-append :
      (xs ys : List (Op A)) (rs ss : List (Result A))
      → length rs ≡ length xs
      → resolve (xs ++ ys) (rs ++ ss) ≡ resolve xs rs ++ resolve ys ss
  resolve-append [] ys [] ss h = refl
  resolve-append [] ys (r ∷ rs) ss h = absurd (omega arith)
  resolve-append (x ∷ xs) ys [] ss h = absurd (omega arith)
  resolve-append (x ∷ xs) ys (r ∷ rs) ss h =
      ap (λ ps. (x.id, r) ∷ ps) (resolve-append xs ys rs ss (omega arith))

  module _ (w : Writer) where
    submit-IsSerial :
        (op : Op A) (l : Loop A) (ops : List (Op A))
        → IsSerial w l ops
        → IsSerial w (noted op (submit op l) ops).0 (noted op (submit op l) ops).1
    unfolding submit
    submit-IsSerial op l ops v =
        if_rule (λ (r : Submitted × Loop A). IsSerial w (noted op r ops).0 (noted op r ops).1)
          l.stopped (λ e. v)
          (λ e.
            if_rule (λ (r : Submitted × Loop A). IsSerial w (noted op r ops).0 (noted op r ops).1)
              (leb l.settings.queue_maxsize (length l.queue)) (λ f. v)
              (λ f. record {
                done = v.done;
                waiting = ap (λ xs. xs ++ op ∷ []) v.waiting ∙ simp append_assoc;
                outcomes = v.outcomes;
                state = v.state;
                draining = v.draining;
              }))

    stop-IsSerial :
        (l : Loop A) (ops : List (Op A)) → IsSerial w l ops → IsSerial w (stop true l) ops
    unfolding stop
    stop-IsSerial l ops v =
        if_rule (λ m. IsSerial w m ops) l.stopped (λ e. v)
          (λ e. record {
            done = v.done;
            waiting = v.waiting;
            outcomes = v.outcomes;
            state = v.state;
            draining = refl;
          })

    taken-IsSerial :
        (now : Timestamp) (q : List (Op A)) (l : Loop A) (ops : List (Op A))
        → l.queue ≡ q
        → IsSerial w l ops
        → IsSerial w (taken now q l) ops
    taken-IsSerial now [] l ops e v = v
    taken-IsSerial now (op ∷ q) l ops e v = record {
      done = v.done;
      waiting = v.waiting ∙ simp (append_assoc, e);
      outcomes = v.outcomes;
      state = v.state;
      draining = v.draining;
    }

    apply_batch-applies :
        (xs ys : List (Op A))
        → apply_batch (applies (xs ++ ys)) w ≡ (
          (apply_batch (applies xs) w).0
              ++ (apply_batch (applies ys) (apply_batch (applies xs) w).1).0,
          (apply_batch (applies ys) (apply_batch (applies xs) w).1).1,
        )
    apply_batch-applies xs ys =
        rw (map-append (λ (op : Op A). op.apply) xs ys)
          (apply_batch-append (applies xs) (applies ys) w)

    flush-IsSerial :
        (t : Turn) (l : Loop A) (ops : List (Op A))
        → t.commit_error ≡ none
        → IsSerial w l ops
        → IsSerial w (flush t l) ops
    unfolding flush commit_batch
    flush-IsSerial t l ops calm v =
        if_rule (λ m. IsSerial w m ops) (should_flush t.at_test l)
          (λ e. rw calm (record {
            done = v.done ++ l.batch;
            waiting = v.waiting ∙ simp append_assoc;
            outcomes = rw (
              apply_batch-applies v.done l.batch,
              resolve-append v.done l.batch (apply_batch (applies v.done) w).0
                  (apply_batch (applies l.batch) (apply_batch (applies v.done) w).1).0
                  (length-apply_batch (applies v.done) w ∙ length-applies v.done),
              ← v.outcomes,
              ← v.state,
            );
            state = rw (apply_batch-applies v.done l.batch, ← v.state);
            draining = v.draining;
          }))
          (λ e. v)

    check-IsSerial :
        (t : Turn) (l : Loop A) (ops : List (Op A))
        → IsSerial w l ops
        → IsSerial w (check_vacuum t (check_wal t l)) ops
    unfolding check_wal check_vacuum
    check-IsSerial t l ops v =
        let v' : IsSerial w (check_wal t l) ops =
          if_rule (λ m. IsSerial w m ops) (wal_due t l)
            (λ e. record {
              done = v.done;
              waiting = v.waiting;
              outcomes = v.outcomes;
              state = v.state;
              draining = v.draining;
            })
            (λ e. v) in
        if_rule (λ m. IsSerial w m ops) (vacuum_due t (check_wal t l))
          (λ e. record {
            done = v'.done;
            waiting = v'.waiting;
            outcomes = v'.outcomes;
            state = v'.state;
            draining = v'.draining;
          })
          (λ e. v')

    finish-IsSerial :
        (t : Turn) (l : Loop A) (ops : List (Op A)) → IsSerial w l ops → IsSerial w (finish t l) ops
    unfolding finish
    finish-IsSerial t l ops v =
        if_rule (λ m. IsSerial w m ops) (not l.stop_requested) (λ e. v)
          (λ e.
            if_rule (λ m. IsSerial w m ops) l.drain_on_stop
              (λ d.
                if_rule (λ m. IsSerial w m ops) (is_empty l.queue && is_empty l.batch)
                  (λ f. record {
                    done = v.done;
                    waiting = v.waiting;
                    outcomes = v.outcomes;
                    state = v.state;
                    draining = v.draining;
                  })
                  (λ f. v))
              (λ d. absurd (let no_discard = v.draining in cc)))

    turn-IsSerial :
        (t : Turn) (l : Loop A) (ops : List (Op A))
        → t.commit_error ≡ none
        → IsSerial w l ops
        → IsSerial w (turn t l) ops
    unfolding turn take_op
    turn-IsSerial t l ops calm v =
        if_rule (λ m. IsSerial w m ops) l.running
          (λ e.
            let m = flush t (taken t.at_get l.queue l) in
            let v1 = flush-IsSerial t _ ops calm (taken-IsSerial t.at_get l.queue l ops refl v) in
            if_rule (λ k. IsSerial w k ops) m.running
              (λ f. finish-IsSerial t _ ops (check-IsSerial t m ops v1)) (λ f. v1))
          (λ e. v)

    run-IsSerial :
        (es : List (Event A)) (l : Loop A) (ops : List (Op A))
        → All IsCalm es
        → IsSerial w l ops
        → IsSerial w (run es (l, ops)).0 (run es (l, ops)).1
    unfolding run
    run-IsSerial [] l ops h v = v
    run-IsSerial (submitting op ∷ es) l ops h v =
        run-IsSerial es (noted op (submit op l) ops).0 (noted op (submit op l) ops).1 h.1
          (submit-IsSerial op l ops v)
    run-IsSerial (stopping drain ∷ es) l ops h v =
        run-IsSerial es (stop drain l) ops h.1 (rw h.0 (stop-IsSerial l ops v))
    run-IsSerial (turning t ∷ es) l ops h v =
        run-IsSerial es (turn t l) ops h.1 (turn-IsSerial t l ops h.0 v)

  start-IsSerial :
      (s : Settings) (db : Db) (now : Timestamp) → IsSerial (opened db) (start s db now) []
  unfolding start apply_batch
  start-IsSerial s db now = record {
    done = [];
    waiting = refl;
    outcomes = refl;
    state = refl;
    draining = refl;
  }

-- A writer to which nothing unusual happens, no COMMIT fails and a stop drains, and whose thread
-- has ended: for every size and deadline of its batches, the outcomes and the tables are those of
-- the accepted operations applied one after the other, in the order of acceptance, to the tables at
-- the start.
pub run-refines :
    {A : Type 0} (settings : Settings) (db : Db) (now : Timestamp) (es : List (Event A))
    → All IsCalm es
    → (run es (start settings db now, [])).0.running ≡ false
    → ((run es (start settings db now, [])).0.resolved
        ≡ resolve
            (run es (start settings db now, [])).1
            (apply_batch (applies (run es (start settings db now, [])).1) (opened db)).0)
      × ((run es (start settings db now, [])).0.writer
          ≡ (apply_batch (applies (run es (start settings db now, [])).1) (opened db)).1)
run-refines {A} settings db now es calm e =
    let l0 : Loop A = start settings db now in
    let (l, ops) = run es (l0, []) in
    let v = run-IsSerial (opened db) es l0 [] calm (start-IsSerial settings db now) in
    let served = run-IsServed es l0 [] (start-IsServed settings db now) in
    let (b, q, _) = emptied l.batch l.queue l.stopped (rw e at served.ended) in
    let all : ops ≡ v.done = v.waiting ∙ rw (b, q) (append-nil v.done) in
    (rw all v.outcomes, rw all v.state)
