-- ===== src/Collector/Receive.antt =====
-- flowd/flowd.c: the receipt of a packet, with the address of the monitor that the emulator puts
-- into the header.
--
-- A call of `recvfrom` that fails gives no datagram; one that is interrupted is taken again. The
-- sizes of the system's socket addresses are parameters, as in Addr/Socket. What `calloc` and
-- `malloc` give is an input, by the place of the call.
use network_monitoring_emula.Common.{
  ℕ, ◌+◌, Bool, Option, none, some, List, ltb, ◌==◌, if◌then◌else◌, length,
}
use network_monitoring_emula.Addr.{Xaddr}
use network_monitoring_emula.Addr.Socket.{SockAddr, in4, addr_sa_to_xaddr}
use network_monitoring_emula.Store.Bytes.{number}
use network_monitoring_emula.Peer.Tree.{SplayTree}
use network_monitoring_emula.Peer.Table.{
  AllowedDevice, Peers, Timeval, find_peer, write_peer, new_peer, refused, added, fault, NewPeer,
}
use network_monitoring_emula.Collector.Fixed.{FlowPacket, add_invalid}
use network_monitoring_emula.Collector.Input.{flow_packet_enqueue}

-- What the header says of the source: the address of a monitor, none, a version that is not taken,
-- or a member that lies behind the packet.
pub data Emulator : Type 0 where
  monitor : ℕ → Emulator
  unset : Emulator
  unsupported : Emulator
  behind : Emulator

unfoldable pub monitor_at : ℕ → List ℕ → Emulator
monitor_at offset packet =
    let address = number offset 4 packet in
    if ltb (length packet) (offset + 4)
    then behind
    else if ltb 0 address
    then monitor address
    else unset

unfoldable pub emulator_of : List ℕ → Emulator
unfolding monitor_at
emulator_of packet =
    let version = number 0 2 packet in
    if ltb (length packet) 2
    then behind
    else if version == 1
    then monitor_at 16 packet
    else if version == 5
    then monitor_at 24 packet
    else unsupported

-- The allocations of `receive_packet`, in their order.
pub data Allocation : Type 0 where
  metadata copy_metadata copy_packet packet_bytes : Allocation

-- What `recvfrom` and `gettimeofday` give.
pub record Datagram : Type 0 where
  pub from : SockAddr
  pub fromlen : ℕ
  pub buf : List ℕ
  pub recv_time : Timeval

module _ (splay : SplayTree) (size4 size6 : ℕ) (allocates : Allocation → Bool)
    (devices : List AllowedDevice) where
  -- The value of the call, with the peers and the queue; `return;`, of no value; a read behind the
  -- packet; a null pointer.
  pub data ReceiveEnd : Type 0 where
    returned : ℕ → Peers splay → List FlowPacket → ReceiveEnd
    no_value : Peers splay → List FlowPacket → ReceiveEnd
    over_read : ReceiveEnd
    null_pointer : ReceiveEnd

  unfoldable pub keep_packet : Datagram → Xaddr → Peers splay → List FlowPacket → ReceiveEnd
  unfolding flow_packet_enqueue
  keep_packet d source peers queue =
      if ltb (length d.buf) 4
      then returned 1 (write_peer splay source (add_invalid splay) peers) queue
      else if allocates packet_bytes
      then returned 1 peers (
          flow_packet_enqueue
            (record { recv_time = d.recv_time; flow_source = source; packet = d.buf }) queue)
      else returned 0 peers queue

  unfoldable pub from_new_peer :
      Datagram → Xaddr → Peers splay → List FlowPacket → NewPeer splay → ReceiveEnd
  unfolding keep_packet
  from_new_peer d source peers queue refused = returned 1 peers queue
  from_new_peer d source peers queue fault = null_pointer
  from_new_peer d source peers queue (added after) = keep_packet d source after queue

  -- `now` is the time that `new_peer` reads.
  unfoldable pub from_source :
      Timeval → Datagram → Option Xaddr → Peers splay → List FlowPacket → ReceiveEnd
  unfolding keep_packet from_new_peer
  from_source now d none peers queue = returned 1 peers queue
  from_source now d (some source) peers queue = elim (find_peer splay peers source) [
    | some peer ↦ keep_packet d source peers queue
    | none ↦ from_new_peer d source peers queue (new_peer splay peers devices source now)
  ]

  unfoldable pub by_emulator :
      Timeval → Datagram → Peers splay → List FlowPacket → Emulator → ReceiveEnd
  unfolding from_source
  by_emulator now d peers queue (monitor address) =
      from_source now d (addr_sa_to_xaddr size4 size6 (in4 0 address) d.fromlen) peers queue
  by_emulator now d peers queue unset =
      from_source now d (addr_sa_to_xaddr size4 size6 d.from d.fromlen) peers queue
  by_emulator now d peers queue unsupported = no_value peers queue
  by_emulator now d peers queue behind = over_read

  unfoldable pub receive_packet :
      Timeval → Option Datagram → Peers splay → List FlowPacket → ReceiveEnd
  unfolding by_emulator
  receive_packet now received peers queue =
      if allocates metadata
      then elim received [
        | none ↦ returned 0 peers queue
        | some d ↦
            if allocates copy_metadata
            then (if allocates copy_packet
                then by_emulator now d peers queue (emulator_of d.buf)
                else returned 0 peers queue)
            else returned 0 peers queue
      ]
      else returned 0 peers queue
