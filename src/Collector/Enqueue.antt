-- ===== src/Collector/Enqueue.antt =====
-- The output queue of flowd/flowd.c: the buffer's size, and what becomes of the bytes of a flow.
use network_monitoring_emula.Common.{
  ℕ, zero, suc, ◌+◌, ◌*◌, ◌≤◌, ◌<◌, ◌≡◌, refl, ◌⊎◌, inl, inr, Bool, true, false, List, ◌++◌, ltb,
  length, take, arith, Bool-cases, sym, ◌∙◌, ap, length-append, length-take-of_le, take_all, ltb→lt,
  ne→==,
}
use mathlib.Core.List.{append_assoc}
use network_monitoring_emula.Collector.Output.{
  OutputQueue, fits, grow, initial_qlen, max_qlen, done, full, output_flow_enqueue, Logged, put,
  put_flow,
}

-- So many doublings of the size give the maximum.
abbrev pub Doubles : ℕ → ℕ → Type 0
Doubles zero alloc = alloc ≡ max_qlen
Doubles (suc k) alloc = Doubles k (alloc * 2)

Doubles-le : (k alloc : ℕ) → Doubles k alloc → alloc ≤ max_qlen
Doubles-le zero alloc d = omega arith
Doubles-le (suc k) alloc d = omega (arith, Doubles-le k (alloc * 2) d)

abbrev pub IsSize : ℕ → Type 0
IsSize alloc = (k : ℕ) × (k ≤ 5) × Doubles k alloc

-- The buffer is not there yet, or its size is one of those; it holds what is waiting.
pub record IsQueue (q : OutputQueue) : Type 0 where
  pub sized :
      ((q.allocated ≡ false) × (q.alloc ≡ 0) × (q.offset ≡ 0))
      ⊎ ((q.allocated ≡ true) × IsSize q.alloc)
  pub holds : q.offset ≤ q.alloc
  pub stored : q.offset ≤ length q.bytes

-- Where `realloc` succeeds, the loop ends with a size that fits what is needed.
grow_fits :
    (grows : ℕ → Bool) (fuel k need alloc : ℕ)
    → ((n : ℕ) → grows n ≡ true)
    → need ≤ max_qlen
    → k < fuel
    → k ≤ 5
    → Doubles k alloc
    → (size : ℕ) × (grow grows fuel need alloc ≡ fits size) × IsSize size × (need ≤ size)
unfolding grow
grow_fits grows zero k need alloc ok small enough few d = absurd (omega arith)
grow_fits grows (suc fuel) zero need alloc ok small enough few d =
    (alloc, ground arith, (0, few, d), ground arith)
grow_fits grows (suc fuel) (suc k) need alloc ok small enough few d =
    elim (Bool-cases (ltb alloc need)) [
      | inl short ↦
          let (size, e, sized, fit) =
            grow_fits grows fuel k need (alloc * 2) ok small (omega arith) (omega arith) d in
          let le : alloc * 2 ≤ max_qlen = Doubles-le k (alloc * 2) d in
          (size, ground (arith, ok (alloc * 2)), sized, fit)
      | inr long ↦ (alloc, ground arith, (suc k, few, d), ground arith)
    ]

-- The queue that a flow's bytes are copied to: what it held, then the bytes.
abbrev pub Holds : OutputQueue → List ℕ → Type 0
Holds q bytes = IsQueue q × (take q.offset q.bytes ≡ bytes)

abbrev copied : OutputQueue → List ℕ → ℕ → OutputQueue
copied q f size = record {
  allocated = true;
  alloc = size;
  offset = q.offset + length f;
  bytes = take q.offset q.bytes ++ f;
}

copied-Holds :
    (q : OutputQueue) (f : List ℕ) (size : ℕ)
    → IsQueue q
    → IsSize size
    → q.offset + length f ≤ size
    → Holds (copied q f size) (take q.offset q.bytes ++ f)
copied-Holds q f size valid sized fit = (
  record { sized = inr (refl, sized); holds = fit; stored = omega (arith, len) },
  take_all (q.offset + length f) (take q.offset q.bytes ++ f) (sym len),
)
  where
    len : length (take q.offset q.bytes ++ f) ≡ q.offset + length f
    len = omega (
      arith,
      length-append (take q.offset q.bytes) f,
      length-take-of_le q.offset q.bytes valid.stored,
    )

module _ (grows : ℕ → Bool) (ok : (n : ℕ) → grows n ≡ true) where
  -- Bytes that fit the maximum are queued behind those that wait already.
  pub enqueue_fits :
      (q : OutputQueue) (f : List ℕ)
      → IsQueue q
      → q.offset + length f ≤ max_qlen
      → (after : OutputQueue) × (output_flow_enqueue grows q f ≡ done after)
        × Holds after (take q.offset q.bytes ++ f)
  unfolding output_flow_enqueue
  enqueue_fits q f valid small = elim valid.sized [
    | inl (new, empty, start) ↦
        let (size, e, sized, fit) =
          grow_fits grows 6 5 (q.offset + length f) initial_qlen ok small (omega arith)
            (omega arith) refl in
        (copied q f size, ground (arith, e, new), copied-Holds q f size valid sized fit)
    | inr (old, (k, few, d)) ↦
        let (size, e, sized, fit) =
          grow_fits grows 6 k (q.offset + length f) q.alloc ok small (omega arith) few d in
        (copied q f size, ground (arith, e, old), copied-Holds q f size valid sized fit)
  ]

  -- Bytes that do not fit are refused, and the queue is as before.
  pub enqueue_full :
      (q : OutputQueue) (f : List ℕ)
      → max_qlen < q.offset + length f
      → output_flow_enqueue grows q f ≡ full q
  unfolding output_flow_enqueue
  enqueue_full q f big = ground arith

  -- Where `realloc` succeeds, a flow of at most the maximum is never refused, and its bytes come
  -- right behind those that the log and the queue hold: none are lost, repeated or out of order.
  pub put_flow_lem :
      (s : Logged) (f : List ℕ)
      → IsQueue s.queue
      → length f ≤ max_qlen
      → (after : Logged) × (put_flow grows s f ≡ put after)
        × IsQueue after.queue
        × (after.log ++ take after.queue.offset after.queue.bytes
            ≡ (s.log ++ take s.queue.offset s.queue.bytes) ++ f)
  unfolding put_flow
  put_flow_lem s f valid small = elim (Bool-cases (ltb max_qlen (s.queue.offset + length f))) [
    | inl big ↦
        let flushed : OutputQueue = record s.queue { offset = 0 } in
        let (q, e, (table, bytes)) =
          enqueue_fits flushed f
            (record { sized = flushed_size valid.sized; holds = omega arith; stored = omega arith })
            (omega arith) in
        (
          record { log = s.log ++ take s.queue.offset s.queue.bytes; queue = q },
          rw (enqueue_full s.queue f (ltb→lt max_qlen (s.queue.offset + length f) big), put_flow)
              (rw (ne→== s.queue.offset 0 (λ zero_offset. ground arith)) (rw e refl)),
          table,
          ap (λ b. (s.log ++ take s.queue.offset s.queue.bytes) ++ b) bytes,
        )
    | inr fit ↦
        let (q, e, (table, bytes)) = enqueue_fits s.queue f valid (ground arith) in
        (
          record { log = s.log; queue = q },
          rw (e, put_flow) refl,
          table,
          ap (λ b. s.log ++ b) bytes
              ∙ sym (append_assoc s.log (take s.queue.offset s.queue.bytes) f),
        )
  ]
    where
      flushed_size :
          ((s.queue.allocated ≡ false) × (s.queue.alloc ≡ 0) × (s.queue.offset ≡ 0))
            ⊎ ((s.queue.allocated ≡ true) × IsSize s.queue.alloc)
          → ((s.queue.allocated ≡ false) × (s.queue.alloc ≡ 0) × ◌≡◌ {A = ℕ} 0 0)
            ⊎ ((s.queue.allocated ≡ true) × IsSize s.queue.alloc)
      flushed_size (inl (new, empty, start)) = inl (new, empty, refl)
      flushed_size (inr old) = inr old
