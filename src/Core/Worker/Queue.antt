-- ===== src/Core/Worker/Queue.antt =====
-- The sender's side of the queue, and the jobs that it lets through to the loop.
use omnimodem.Base.{
  ℕ, suc, zero, length-take, ◌+◌, ◌-◌, ◌≤◌, ◌≡◌, refl, sym, ap, ◌∙◌, true, List, [], ◌∷◌, ◌++◌,
  Option, none, some, arith, append_assoc, append-nil, length, length-append, take, drop,
}
use omnimodem.Core.Worker.{Dsp, TxJob, TxWorker, tx_queue_depth, enqueue}

module _ (dsp : Dsp) where
  abbrev returned :
      Option (TxJob dsp) → List (TxJob dsp) × TxWorker dsp → List (TxJob dsp) × TxWorker dsp
  returned none (back, w) = (back, w)
  returned (some job) (back, w) = (job ∷ back, w)

  -- Jobs that are sent one after another: those that come back, and the queue.
  unfoldable pub enqueue_all : List (TxJob dsp) → TxWorker dsp → List (TxJob dsp) × TxWorker dsp
  enqueue_all [] w = ([], w)
  enqueue_all (job ∷ jobs) w = let r = enqueue dsp job w in returned r.0 (enqueue_all jobs r.1)

  enqueue-full :
      (job : TxJob dsp) (w : TxWorker dsp)
      → length w.queue ≡ tx_queue_depth
      → enqueue dsp job w ≡ (some job, w)
  unfolding enqueue
  enqueue-full job w full = ground arith

  enqueue-room :
      (room : ℕ) (job : TxJob dsp) (w : TxWorker dsp)
      → w.receiving ≡ true
      → length w.queue + suc room ≡ tx_queue_depth
      → enqueue dsp job w ≡ (none, record w { queue = w.queue ++ (job ∷ []) })
  unfolding enqueue
  enqueue-room room job w on fits = ground arith

  next :
      (job : TxJob dsp) (jobs : List (TxJob dsp)) (w w1 : TxWorker dsp) (back : Option (TxJob dsp))
      → enqueue dsp job w ≡ (back, w1)
      → enqueue_all (job ∷ jobs) w ≡ returned back (enqueue_all jobs w1)
  unfolding enqueue_all
  next job jobs w w1 back e = ap (λ r. returned r.0 (enqueue_all jobs r.1)) e

  all_back :
      (jobs : List (TxJob dsp)) (w : TxWorker dsp)
      → length w.queue ≡ tx_queue_depth
      → enqueue_all jobs w ≡ (jobs, w)
  unfolding enqueue_all
  all_back [] w full = refl
  all_back (job ∷ jobs) w full =
      next job jobs w w (some job) (enqueue-full job w full)
      ∙ ap (returned (some job)) (all_back jobs w full)

  split_at :
      (room : ℕ) (jobs : List (TxJob dsp)) (w : TxWorker dsp)
      → w.receiving ≡ true
      → length w.queue + room ≡ tx_queue_depth
      → enqueue_all jobs w ≡ (drop room jobs, record w { queue = w.queue ++ take room jobs })
  unfolding enqueue_all
  split_at zero jobs w on fits =
      all_back jobs w (omega (arith, fits))
      ∙ ap (λ q. (jobs, record w { queue = q })) (sym (append-nil w.queue))
  split_at (suc room) [] w on fits =
      ap (λ q. ([], record w { queue = q })) (sym (append-nil w.queue))
  split_at (suc room) (job ∷ jobs) w on fits =
      let w1 : TxWorker dsp = record w { queue = w.queue ++ (job ∷ []) } in
      next job jobs w w1 none (enqueue-room room job w on fits)
      ∙ ap (returned none)
          (split_at room jobs w1 on (omega (arith, fits, length-append w.queue (job ∷ []))))
      ∙ ap (λ q. (drop room jobs, record w { queue = q }))
          (append_assoc w.queue (job ∷ []) (take room jobs))

  -- Of jobs that are sent to a worker that is receiving, before it takes one, those that still
  -- find room among the 32 places of its queue are queued in order behind the others, and the
  -- rest come back in order; the queue does not grow beyond its places.
  pub enqueue_all-take :
      (jobs : List (TxJob dsp)) (w : TxWorker dsp)
      → w.receiving ≡ true
      → length w.queue ≤ tx_queue_depth
      → let room = tx_queue_depth - length w.queue in
        ((enqueue_all jobs w).0 ≡ drop room jobs)
        × ((enqueue_all jobs w).1.queue ≡ w.queue ++ take room jobs)
        × (length (enqueue_all jobs w).1.queue ≤ tx_queue_depth)
  enqueue_all-take jobs w on few =
      let room : ℕ = tx_queue_depth - length w.queue in
      let split = split_at room jobs w on (omega (arith, few)) in
      (
        ap (λ r. r.0) split,
        ap (λ r. r.1.queue) split,
        omega (
          arith,
          few,
          ap (λ r. length r.1.queue) split,
          length-append w.queue (take room jobs),
          length-take room jobs,
        ),
      )
