-- ===== src/Collector/Output.antt =====
-- flowd/flowd.c: the queue of serialised flows that wait for the log.
--
-- `bytes` is what the buffer holds from its start on; what lies behind the last write to it is
-- never read. `grows n` tells whether `realloc` to n bytes succeeds; where `malloc` or a write to
-- the log fails, flowd exits. Logging is left out.
use network_monitoring_emula.Common.{
  ℕ, zero, suc, ◌+◌, ◌*◌, Bool, true, List, ◌++◌, ltb, ◌==◌, if◌then◌else◌, length, take,
}

abbrev pub initial_qlen : ℕ
initial_qlen = 1024 * 16

abbrev pub max_qlen : ℕ
max_qlen = 1024 * 512

pub record OutputQueue : Type 0 where
  -- `output_queue != NULL`
  pub allocated : Bool
  pub alloc : ℕ
  pub offset : ℕ
  pub bytes : List ℕ

-- The end of the loop that enlarges the buffer, with the size that the buffer has then.
pub data Growth : Type 0 where
  fits : ℕ → Growth
  stopped : ℕ → Growth
  out_of_fuel : Growth

-- `while (output_queue_offset + len > output_queue_alloc)`
unfoldable pub grow : (ℕ → Bool) → ℕ → ℕ → ℕ → Growth
grow grows zero need alloc = out_of_fuel
grow grows (suc fuel) need alloc =
    let again = grow grows fuel need (alloc * 2) in
    if ltb alloc need
    then (if ltb max_qlen (alloc * 2)
        then stopped alloc
        else if grows (alloc * 2)
        then again
        else stopped alloc)
    else fits alloc

-- The buffer is doubled five times at most, and the sixth test ends the loop.
abbrev pub rounds : ℕ
rounds = 6

-- 0 is `done`, -1 is `full`, with the queue as it is then.
pub data Enqueued : Type 0 where
  done : OutputQueue → Enqueued
  full : OutputQueue → Enqueued
  unfinished : Enqueued

copy_in : List ℕ → OutputQueue → Growth → Enqueued
copy_in f q (fits alloc) =
    done
      (record q { alloc = alloc; offset = q.offset + length f; bytes = take q.offset q.bytes ++ f })
copy_in f q (stopped alloc) = full (record q { alloc = alloc })
copy_in f q out_of_fuel = unfinished

allocate : OutputQueue → OutputQueue
allocate q = if q.allocated then q else record q { allocated = true; alloc = initial_qlen }

unfoldable pub output_flow_enqueue : (ℕ → Bool) → OutputQueue → List ℕ → Enqueued
unfolding copy_in allocate
output_flow_enqueue grows q f =
    if ltb max_qlen (q.offset + length f)
    then full q
    else copy_in f (allocate q) (grow grows rounds (q.offset + length f) (allocate q).alloc)

-- The log, with what `store_put_buf` has written to it, and the queue.
pub record Logged : Type 0 where
  pub log : List ℕ
  pub queue : OutputQueue

-- For an open log.
unfoldable pub output_flow_flush : Logged → Logged
output_flow_flush s = if s.queue.offset == 0 then s else record {
  log = s.log ++ take s.queue.offset s.queue.bytes;
  queue = record s.queue { offset = 0 };
}

-- The part of `process_flow` that hands a serialised flow on to an open log. `exits` is `logerrx`.
pub data Put : Type 0 where
  put : Logged → Put
  exits : Put

put_result : List ℕ → Enqueued → Put
put_result log (done q) = put (record { log = log; queue = q })
put_result log (full q) = exits
put_result log unfinished = exits

retry : (ℕ → Bool) → List ℕ → Logged → Put
unfolding put_result
retry grows f s = put_result s.log (output_flow_enqueue grows s.queue f)

put_or_flush : (ℕ → Bool) → List ℕ → List ℕ → Enqueued → Put
unfolding retry output_flow_flush
put_or_flush grows f log (done q) = put (record { log = log; queue = q })
put_or_flush grows f log (full q) =
    retry grows f (output_flow_flush (record { log = log; queue = q }))
put_or_flush grows f log unfinished = exits

unfoldable pub put_flow : (ℕ → Bool) → Logged → List ℕ → Put
unfolding put_or_flush
put_flow grows s f = put_or_flush grows f s.log (output_flow_enqueue grows s.queue f)
