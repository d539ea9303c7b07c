-- ===== src/Tests/Input.antt =====
-- Sends to the log socket and a queue of packets, and the theorems on the collector at them.
use network_monitoring_emula.Common.{
  ℕ, zero, suc, ◌+◌, ◌≤◌, ◌<◌, ◌≡◌, refl, Bool, true, some, List, ◌&&◌, ltb, ltb→lt, Bool-cases,
  inl, inr, subst, [], ◌∷◌, ◌++◌, replicate, arith,
}
use network_monitoring_emula.Collector.Logsock.{
  Send, sent, no_buffers, failed, IsRun, IsTracking, IsTimed, after_sends, track_send, is_reopened,
  reopen_delay, reopen_error_count, successes, fails, after_sends-IsTracking, is_reopened_lem,
}
use network_monitoring_emula.Collector.Fixed.{FlowPacket}
use network_monitoring_emula.Collector.Input.{
  IsEmptied, process_input_queue, process_input_queue-IsEmptied,
}
use network_monitoring_emula.Addr.Socket.{in4}
use network_monitoring_emula.Collector.Receive.{Allocation, Datagram, receive_packet}
use network_monitoring_emula.Collector.Monitor.{IsByte}
use network_monitoring_emula.Common.Tailq.{AllOf}
use network_monitoring_emula.Collector.Received.{IsReceived, receive_packet-IsReceived}
use network_monitoring_emula.Tests.Peers.{clock, exporter, exporter-IsAddress, listed, one_peer}
use network_monitoring_emula.Tests.Collector.{received, one_peer-IsCollector}

-- A failure at 50 that is made up for, then two from 100 on, with a success and a full buffer.
abbrev sends : List Send
sends = failed 103 ∷ no_buffers ∷ sent ∷ failed 102 ∷ failed 100 ∷ sent ∷ failed 50 ∷ []

sends_example : IsTracking sends (after_sends sends)
sends_example =
    after_sends-IsTracking sends
      (
        omega arith,
        omega arith,
        (omega arith, omega arith, (omega arith, omega arith, (omega arith, omega arith, tt))),
      )
      (omega arith)

two_errors : after_sends sends ≡ record { first_error = 100; num_errors = 2 }
unfolding after_sends track_send
two_errors = refl

-- Errors without a success, at the time 1.
abbrev errors : List Send
errors = replicate 129 (failed 1)

replicate-IsTimed : (n : ℕ) → IsTimed (replicate n (failed 1))
replicate-IsTimed zero = tt
replicate-IsTimed (suc n) = (omega arith, omega arith, replicate-IsTimed n)

reopened_example :
    (t : ℕ) × (n : ℕ) × (run : IsRun errors t n) × (t + reopen_delay < 100)
    × (reopen_error_count + successes run.later ≤ fails run.later)
unfolding is_reopened after_sends track_send
reopened_example = is_reopened_lem errors 100 (replicate-IsTimed 129) (omega arith) refl

-- A packet of no known version.
abbrev unknown : FlowPacket
unknown = record { recv_time = clock; flow_source = exporter; packet = 0 ∷ 2 ∷ 0 ∷ 1 ∷ [] }

input_example :
    IsEmptied listed
      (λ n. 0)
      (λ n. clock)
      (unknown ∷ received ∷ [])
      one_peer
      (process_input_queue listed (λ n. 0) (λ n. clock) (unknown ∷ received ∷ []) one_peer)
input_example =
    process_input_queue-IsEmptied listed (λ n. 0) (λ n. clock) (unknown ∷ received ∷ []) one_peer
      one_peer-IsCollector (exporter-IsAddress, (exporter-IsAddress, tt))

-- A header of v.5 with the address 10.0.0.9 of a monitor, and no flows.
abbrev datagram : Datagram
datagram = record {
  from = in4 9995 0xc0a80101;
  fromlen = 16;
  buf = 0 ∷ 5 ∷ replicate 22 0 ++ 10 ∷ 0 ∷ 0 ∷ 9 ∷ [];
  recv_time = clock;
}

abbrev are_bytes : List ℕ → Bool
are_bytes [] = true
are_bytes (x ∷ xs) = ltb x 256 && are_bytes xs

are_bytes-AllOf : (bs : List ℕ) → are_bytes bs ≡ true → AllOf IsByte bs
are_bytes-AllOf [] h = tt
are_bytes-AllOf (x ∷ xs) h = elim (Bool-cases (ltb x 256)) [
  | inl fits ↦
      (ltb→lt x 256 fits, are_bytes-AllOf xs (subst (λ b. (b && are_bytes xs) ≡ true) fits h))
  | inr big ↦ absurd (ground (arith, h))
]

abbrev all_there : Allocation → Bool
all_there a = true

receive_example :
    IsReceived listed 16 28 all_there []
      (some datagram)
      (received ∷ [])
      (receive_packet listed 16 28 all_there [] clock (some datagram) one_peer (received ∷ []))
receive_example =
    receive_packet-IsReceived listed 16 28 all_there [] clock (some datagram) one_peer
      (received ∷ []) (omega arith, are_bytes-AllOf datagram.buf refl) one_peer-IsCollector
      (exporter-IsAddress, tt)
