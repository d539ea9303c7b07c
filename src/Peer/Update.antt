-- ===== src/Peer/Update.antt =====
-- `update_peer` of flowd/peer.c: the peer that has sent a valid packet, and the queue.
use network_monitoring_emula.Common.{
  ℕ, ◌+◌, ◌%◌, ◌^◌, ◌≡◌, ◌≢◌, refl, some, ◌∷◌, true, sym, ◌∙◌, ne→==, ==-self,
}
use network_monitoring_emula.Common.Tailq.{
  remove_first, find_first, find_first-agree, find_first-test, has_key, to_head,
}
use network_monitoring_emula.Addr.{Xaddr}
use network_monitoring_emula.Addr.Value.{key}
use network_monitoring_emula.Peer.Tree.{SplayTree, IsAddress}
use network_monitoring_emula.Peer.Table.{
  PeerState, Peers, Timeval, is_peer, update_peer, find_peer, note_valid, add64,
}
use network_monitoring_emula.Peer.Agree.{IsTable, IsPeer, peer_key, find_peer_lem, is_peer-key}
use network_monitoring_emula.Peer.Scrub.{update_peer-found}

-- The peer after a valid packet: two counters of 64 bits, the time and the version have changed.
pub record IsNoted (nflows version : ℕ) (now : Timeval) (p q : PeerState) : Type 0 where
  pub from_kept : q.from ≡ p.from
  pub packets : q.npackets ≡ (p.npackets + 1) % 2 ^ 64
  pub flows : q.nflows ≡ (p.nflows + nflows) % 2 ^ 64
  pub invalid_kept : q.ninvalid ≡ p.ninvalid
  pub templates_kept : q.no_template ≡ p.no_template
  pub first_kept : q.firstseen ≡ p.firstseen
  pub valid_now : q.lastvalid ≡ now
  pub versioned : q.last_version ≡ version
  pub nf9_kept : q.nf9_state ≡ p.nf9_state

note_valid-IsNoted :
    (nflows version : ℕ) (now : Timeval) (p : PeerState)
    → IsNoted nflows version now p (note_valid nflows version now p)
unfolding note_valid add64
note_valid-IsNoted nflows version now p = record {
  from_kept = refl;
  packets = refl;
  flows = refl;
  invalid_kept = refl;
  templates_kept = refl;
  first_kept = refl;
  valid_now = refl;
  versioned = refl;
  nf9_kept = refl;
}

module _ (splay : SplayTree) (peers : Peers splay) (addr : Xaddr) (nflows version : ℕ)
    (now : Timeval) (p : PeerState) where
  update_peer-queue :
      IsTable splay peers
      → IsAddress addr
      → find_peer splay peers addr ≡ some p
      → (update_peer splay peers addr nflows version now).peer_list
        ≡ note_valid nflows version now p ∷ remove_first (is_peer addr) peers.peer_list
  unfolding update_peer
  update_peer-queue valid va found =
      let first : find_first (is_peer addr) peers.peer_list ≡ some p =
        find_first-agree IsPeer (is_peer addr) (has_key peer_key (key addr)) (is_peer-key addr va)
          peers.peer_list valid.addresses
        ∙ sym (find_peer_lem splay peers addr valid va)
        ∙ found in
      let it : is_peer addr p ≡ true = find_first-test (is_peer addr) peers.peer_list p first in
      rw (first, to_head) (rw it refl)

  -- On a table that has a valid address, `update_peer` for it leaves a table. The peer, in which the
  -- packet and its flows have been added to the counters of 64 bits and the time and the version
  -- noted, and nothing else has changed, stands at the head of the queue, with the others behind it
  -- in their order; its address is looked up to it, and every other valid address as before.
  pub update_peer-IsTable :
      IsTable splay peers
      → IsAddress addr
      → find_peer splay peers addr ≡ some p
      → IsTable splay (update_peer splay peers addr nflows version now)
        × ((q : PeerState) × IsNoted nflows version now p q
            × ((update_peer splay peers addr nflows version now).peer_list
                ≡ q ∷ remove_first (is_peer addr) peers.peer_list)
            × (find_peer splay (update_peer splay peers addr nflows version now) addr ≡ some q))
        × ((a : Xaddr)
            → IsAddress a
            → key addr ≢ key a
            → find_peer splay (update_peer splay peers addr nflows version now) a
              ≡ find_peer splay peers a)
  update_peer-IsTable valid va found =
      let (table, finds) = update_peer-found splay peers addr nflows version now valid va in
      (
        table,
        (
          note_valid nflows version now p,
          note_valid-IsNoted nflows version now p,
          update_peer-queue valid va found,
          finds addr va ∙ rw (==-self (key addr)) (rw found refl),
        ),
        λ a vb other. finds a vb ∙ rw (ne→== (key addr) (key a) other) refl,
      )
