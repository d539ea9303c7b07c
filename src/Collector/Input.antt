-- ===== src/Collector/Input.antt =====
-- flowd/flowd.c: the queue of packets that were received, and how `process_input_queue` empties it.
use network_monitoring_emula.Common.{
  ℕ, zero, suc, length, ◌<◌, ◌≡◌, refl, arith, Option, none, some, List, [], ◌∷◌, ◌++◌,
}
use network_monitoring_emula.Common.Tailq.{AllOf}
use network_monitoring_emula.Store.{FlowComplete}
use network_monitoring_emula.Peer.Tree.{SplayTree, IsAddress}
use network_monitoring_emula.Peer.Table.{Peers, Timeval}
use network_monitoring_emula.Collector.Nf9
use network_monitoring_emula.Collector.Fixed.{FlowPacket, PacketEnd, handled, stuck, process_packet}
use network_monitoring_emula.Collector.Ordered.{IsCollector}
use network_monitoring_emula.Collector.Dispatch.{IsDelivery, IsOutcome, process_packet-IsOutcome}

unfoldable pub flow_packet_enqueue : FlowPacket → List FlowPacket → List FlowPacket
flow_packet_enqueue fp queue = queue ++ (fp ∷ [])

-- The first packet of the queue, and the queue without it.
unfoldable pub flow_packet_dequeue : List FlowPacket → Option (FlowPacket × List FlowPacket)
flow_packet_dequeue [] = none
flow_packet_dequeue (fp ∷ queue) = some (fp, queue)

module _ (splay : SplayTree) where
  -- The queue is empty, and these flows went to `process_flow`; or the handler of a packet does not
  -- return, with the flows of the packets before.
  pub data InputEnd : Type 0 where
    drained : Peers splay → List FlowComplete → InputEnd
    halted : Nf9.Nf9End → List FlowComplete → InputEnd
    out_of_fuel : InputEnd

  abbrev pub before : List FlowComplete → InputEnd → InputEnd
  before fs (drained peers gs) = drained peers (fs ++ gs)
  before fs (halted e gs) = halted e (fs ++ gs)
  before fs out_of_fuel = out_of_fuel

  -- What follows on a packet, with `again` as the rest of the loop.
  unfoldable pub then_on : (Peers splay → InputEnd) → PacketEnd splay → InputEnd
  then_on again (handled peers fs) = before fs (again peers)
  then_on again (stuck e) = halted e []

  -- The times and what the stack holds are those at the packet before which so many are left.
  module _ (stray_usec : ℕ → ℕ) (now : ℕ → Timeval) where
    unfoldable pub input_loop : ℕ → List FlowPacket → Peers splay → InputEnd
    unfolding then_on
    input_loop zero queue peers = out_of_fuel
    input_loop (suc fuel) queue peers =
        let again = λ (q : List FlowPacket) (p : Peers splay). input_loop fuel q p in
        elim (flow_packet_dequeue queue) [
          | none ↦ drained peers []
          | some (fp, rest) ↦
              then_on (again rest)
                (process_packet splay (stray_usec (length rest)) (now (length rest)) peers fp)
        ]

    -- One round for each packet, and one that finds the queue empty.
    unfoldable pub process_input_queue : List FlowPacket → Peers splay → InputEnd
    unfolding input_loop
    process_input_queue queue peers = input_loop (suc (length queue)) queue peers

  module _ (stray_usec : ℕ → ℕ) (now : ℕ → Timeval) where
    -- The packets of a queue handled one after the other, until some are left: what each hands on,
    -- and the peers that the next one finds.
    pub data Runs
        : List FlowPacket
          → Peers splay
          → List FlowPacket
          → Peers splay
          → List FlowComplete
          → Type 0 where
      here : (queue : List FlowPacket) (peers : Peers splay) → Runs queue peers queue peers []
      next :
          (fp : FlowPacket) (queue left : List FlowPacket) (peers peers' after : Peers splay)
          (fs gs : List FlowComplete)
          → process_packet splay (stray_usec (length queue)) (now (length queue)) peers fp
            ≡ handled peers' fs
          → IsDelivery (stray_usec (length queue)) fp fs
          → Runs queue peers' left after gs
          → Runs (fp ∷ queue) peers left after (fs ++ gs)

    -- A queue that is emptied has had its packets handled in order, and leaves the peers in order.
    -- One that is not has come in this way to a packet whose handler does not return.
    abbrev pub IsEmptied : List FlowPacket → Peers splay → InputEnd → Type 0
    IsEmptied queue start (drained after fs) =
        Runs queue start [] after fs × IsCollector splay after
    IsEmptied queue start (halted e fs) =
        (fp : FlowPacket) × (later : List FlowPacket) × (peers : Peers splay) × Runs queue start
          (fp ∷ later) peers fs
        × IsCollector splay peers
        × (process_packet splay (stray_usec (length later)) (now (length later)) peers fp ≡ stuck e)
        × IsOutcome splay (stray_usec (length later)) peers fp (stuck e)
    IsEmptied queue start out_of_fuel = ⊥

    before-IsEmptied :
        (queue : List FlowPacket) (fp : FlowPacket) (peers peers' : Peers splay)
        (fs : List FlowComplete) (e : InputEnd)
        → process_packet splay (stray_usec (length queue)) (now (length queue)) peers fp
          ≡ handled peers' fs
        → IsDelivery (stray_usec (length queue)) fp fs
        → IsEmptied queue peers' e
        → IsEmptied (fp ∷ queue) peers (before fs e)
    before-IsEmptied queue fp peers peers' fs (drained after gs) step d (runs, c) =
        (next fp queue [] peers peers' after fs gs step d runs, c)
    before-IsEmptied queue fp peers peers' fs (halted e gs) step d
          (bad, later, at, runs, c, stops, h) =
        (bad, later, at, next fp queue (bad ∷ later) peers peers' at fs gs step d runs, c, stops, h)
    before-IsEmptied queue fp peers peers' fs out_of_fuel step d h = absurd h

    then_on-IsEmptied :
        (again : Peers splay → InputEnd) (queue : List FlowPacket) (fp : FlowPacket)
        (peers : Peers splay) (e : PacketEnd splay)
        → process_packet splay (stray_usec (length queue)) (now (length queue)) peers fp ≡ e
        → IsCollector splay peers
        → ((p : Peers splay) → IsCollector splay p → IsEmptied queue p (again p))
        → IsOutcome splay (stray_usec (length queue)) peers fp e
        → IsEmptied (fp ∷ queue) peers (then_on again e)
    unfolding then_on
    then_on-IsEmptied again queue fp peers (handled peers' fs) step c go (c', d) =
        before-IsEmptied queue fp peers peers' fs (again peers') step d (go peers' c')
    then_on-IsEmptied again queue fp peers (stuck e) step c go h =
        (fp, queue, peers, here (fp ∷ queue) peers, c, step, h)

    input_loop-IsEmptied :
        (fuel : ℕ) (queue : List FlowPacket) (peers : Peers splay)
        → length queue < fuel
        → IsCollector splay peers
        → AllOf (λ (fp : FlowPacket). IsAddress fp.flow_source) queue
        → IsEmptied queue peers (input_loop stray_usec now fuel queue peers)
    unfolding input_loop flow_packet_dequeue
    input_loop-IsEmptied zero queue peers enough c valid = absurd (omega arith)
    input_loop-IsEmptied (suc fuel) [] peers enough c valid = (here [] peers, c)
    input_loop-IsEmptied (suc fuel) (fp ∷ rest) peers enough c (va, valid) =
        then_on-IsEmptied (input_loop stray_usec now fuel rest) rest fp peers _ refl c
          (λ p h. input_loop-IsEmptied fuel rest p (omega arith) h valid)
          (process_packet-IsOutcome splay (stray_usec (length rest)) (now (length rest)) peers fp c
            va)

    -- Where the table of peers and their templates are in order, and the packets waiting are from
    -- valid addresses, the packets are handled one after the other, each with what the one before
    -- left, and their flows are handed on in that order: none for a packet, those of a v.9 packet,
    -- or those of a fixed layout that fit it. The queue is emptied and leaves the table and the
    -- templates in order, unless it comes to a v.9 packet of a known peer whose handler reads behind
    -- it, divides by zero, or comes to a flowset that stalls it.
    pub process_input_queue-IsEmptied :
        (queue : List FlowPacket) (peers : Peers splay)
        → IsCollector splay peers
        → AllOf (λ (fp : FlowPacket). IsAddress fp.flow_source) queue
        → IsEmptied queue peers (process_input_queue stray_usec now queue peers)
    unfolding process_input_queue
    process_input_queue-IsEmptied queue peers =
        input_loop-IsEmptied (suc (length queue)) queue peers (omega arith)
