-- ===== src/Peer/Table.antt =====
-- flowd/peer.c: the table of peers, a splay tree for lookups by address and a queue in order of use,
-- and the devices that are allowed to be one.
--
-- The tree and the queue hold the same elements. An element is identified by its address, so an
-- access through a pointer to a peer is one to the element of the queue with that address.
use network_monitoring_emula.Common.{
  ℕ, ◌+◌, ◌%◌, ◌^◌, Bool, true, false, Option, none, some, List, [], ◌∷◌, ltb, if◌then◌else◌,
}
use network_monitoring_emula.Common.Int.{is_zero}
use network_monitoring_emula.Common.Tailq.{
  find_first, remove_first, update_first, last, drop_last, to_head,
}
use network_monitoring_emula.Addr.{Xaddr, addr_netmatch}
use network_monitoring_emula.Peer.{Nf9State, Limits, inc32, dec32}
use network_monitoring_emula.Peer.Tree.{SplayTree, same_addr}

pub record AllowedDevice : Type 0 where
  pub addr : Xaddr
  pub masklen : ℕ

pub record Timeval : Type 0 where
  pub tv_sec : ℕ
  pub tv_usec : ℕ

pub record PeerState : Type 0 where
  pub from : Xaddr
  pub npackets : ℕ
  pub nflows : ℕ
  pub ninvalid : ℕ
  pub no_template : ℕ
  pub firstseen : Timeval
  pub lastvalid : Timeval
  pub last_version : ℕ
  pub nf9_state : Nf9State

-- The queue has an entry that covers the address, or there are no entries.
pub covered : List AllowedDevice → Xaddr → Bool
covered [] addr = false
covered (ad ∷ devices) addr =
    if is_zero (addr_netmatch addr ad.addr ad.masklen) then true else covered devices addr

unfoldable pub is_allowed : List AllowedDevice → Xaddr → Bool
unfolding covered
is_allowed [] addr = true
is_allowed (ad ∷ devices) addr = covered (ad ∷ devices) addr

abbrev pub is_peer : Xaddr → PeerState → Bool
is_peer addr peer = same_addr peer.from addr

abbrev pub fresh_peer : Xaddr → Timeval → PeerState
fresh_peer addr now =
    let never : Timeval = record { tv_sec = 0; tv_usec = 0 } in
    record {
      from = addr;
      npackets = 0;
      nflows = 0;
      ninvalid = 0;
      no_template = 0;
      firstseen = now;
      lastvalid = never;
      last_version = 0;
      nf9_state = record { nf9 = []; nf9_num_sources = 0 };
    }

-- `u_int64_t` counters.
unfoldable pub add64 : ℕ → ℕ → ℕ
add64 a b = (a + b) % 2 ^ 64

unfoldable pub note_valid : ℕ → ℕ → Timeval → PeerState → PeerState
unfolding add64
note_valid nflows version now peer = record peer {
  lastvalid = now;
  nflows = add64 peer.nflows nflows;
  npackets = add64 peer.npackets 1;
  last_version = version;
}

module _ (splay : SplayTree) where
  pub record Peers : Type 0 where
    pub peer_tree : splay.Tree
    pub peer_list : List PeerState
    pub limits : Limits
    pub num_peers : ℕ
    pub num_forced : ℕ

  -- What `new_peer` does: it gives NULL, it goes through a null pointer, or it gives the peer that
  -- now stands at the head of the queue.
  pub data NewPeer : Type 0 where
    refused : NewPeer
    fault : NewPeer
    added : Peers → NewPeer

  -- The peer's templates are freed with it.
  unfoldable pub delete_peer : (List PeerState → List PeerState) → PeerState → Peers → Peers
  delete_peer unlink peer peers = record peers {
    peer_list = unlink peers.peer_list;
    peer_tree = splay.remove peer.from peers.peer_tree;
    num_peers = dec32 peers.num_peers;
  }

  add_peer : Xaddr → Timeval → Peers → NewPeer
  add_peer addr now peers = added (record peers {
    peer_list = fresh_peer addr now ∷ peers.peer_list;
    peer_tree = splay.insert addr peers.peer_tree;
  })

  evict_peer : Xaddr → Timeval → Peers → NewPeer
  unfolding delete_peer add_peer
  evict_peer addr now peers = elim (last peers.peer_list) [
    | none ↦ fault
    | some oldest ↦ add_peer addr now (delete_peer drop_last oldest peers)
  ]

  unfoldable pub new_peer : Peers → List AllowedDevice → Xaddr → Timeval → NewPeer
  unfolding evict_peer add_peer is_allowed inc32
  new_peer peers devices addr now =
      let counted = record peers { num_peers = inc32 peers.num_peers } in
      if is_allowed devices addr
      then (if ltb peers.limits.max_peers counted.num_peers
          then evict_peer addr now (record counted { num_forced = inc32 peers.num_forced })
          else add_peer addr now counted)
      else refused

  -- The loop over the queue, with the next element read before the deletion.
  unfoldable pub scrub_from : List AllowedDevice → List PeerState → Peers → Peers
  scrub_from devices [] peers = peers
  scrub_from devices (peer ∷ rest) peers = scrub_from devices rest (
      if is_allowed devices peer.from
      then peers
      else delete_peer (remove_first (is_peer peer.from)) peer peers)

  unfoldable pub scrub_peers : List AllowedDevice → Peers → Peers
  unfolding scrub_from is_allowed delete_peer
  scrub_peers [] peers = peers
  scrub_peers (ad ∷ devices) peers = scrub_from (ad ∷ devices) peers.peer_list peers

  -- A write through the pointer to a peer.
  abbrev pub write_peer : Xaddr → (PeerState → PeerState) → Peers → Peers
  write_peer addr write peers = record peers {
    peer_list = update_first (is_peer addr) write peers.peer_list;
  }

  unfoldable pub update_peer : Peers → Xaddr → ℕ → ℕ → Timeval → Peers
  unfolding note_valid
  update_peer peers addr nflows version now =
      write_peer addr (note_valid nflows version now)
        (record peers { peer_list = to_head (is_peer addr) peers.peer_list })

  unfoldable pub find_peer : Peers → Xaddr → Option PeerState
  find_peer peers addr = elim (splay.find addr peers.peer_tree) [
    | none ↦ none
    | some from ↦ find_first (is_peer from) peers.peer_list
  ]
