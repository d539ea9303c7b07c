-- ===== src/Collector/Ordered.antt =====
-- The table of peers of flowd/flowd.c with the templates of each peer in order, and what keeps it so.
use network_monitoring_emula.Common.{ℕ, ◌^◌, ◌<◌, ◌≡◌, refl}
use network_monitoring_emula.Common.Tailq.{AllOf, to_head, AllOf-to_head, AllOf-update_first}
use network_monitoring_emula.Addr.{Xaddr}
use network_monitoring_emula.Peer.Counts.{IsLimits}
use network_monitoring_emula.Peer.Tree.{SplayTree, IsAddress}
use network_monitoring_emula.Peer.Table.{
  PeerState, Peers, Timeval, write_peer, update_peer, is_peer, note_valid,
}
use network_monitoring_emula.Peer.Agree.{IsTable}
use network_monitoring_emula.Peer.Scrub.{write_peer-IsTable, update_peer-found}
use network_monitoring_emula.Collector.Checked.{IsKnown}
use network_monitoring_emula.Collector.Nf9
use network_monitoring_emula.Collector.Fixed.{put_progress}

module _ (splay : SplayTree) where
  -- A table whose peers' templates are in order, under the limits of the table.
  pub record IsCollector (peers : Peers splay) : Type 0 where
    pub limited : IsLimits peers.limits
    pub small : peers.limits.max_template_len < 2 ^ 31
    pub table : IsTable splay peers
    pub known : AllOf (λ (p : PeerState). IsKnown peers.limits p.nf9_state) peers.peer_list

  pub write_peer-IsCollector :
      (peers : Peers splay) (source : Xaddr) (write : PeerState → PeerState)
      → IsCollector peers
      → IsAddress source
      → ((p : PeerState) → (write p).from ≡ p.from)
      → ((p : PeerState)
          → IsKnown peers.limits p.nf9_state
          → IsKnown peers.limits (write p).nf9_state)
      → IsCollector (write_peer splay source write peers)
  write_peer-IsCollector peers source write c va kept keeps = record {
    limited = c.limited;
    small = c.small;
    table = (write_peer-IsTable splay write kept peers source c.table va).0;
    known =
        AllOf-update_first (λ (p : PeerState). IsKnown peers.limits p.nf9_state) (is_peer source)
          write peers.peer_list keeps c.known;
  }

  pub update_peer-IsCollector :
      (peers : Peers splay) (source : Xaddr) (nflows version : ℕ) (now : Timeval)
      → IsCollector peers
      → IsAddress source
      → IsCollector (update_peer splay peers source nflows version now)
  unfolding update_peer
  update_peer-IsCollector peers source nflows version now c va = record {
    limited = c.limited;
    small = c.small;
    table = (update_peer-found splay peers source nflows version now c.table va).0;
    known =
        AllOf-update_first (λ (p : PeerState). IsKnown peers.limits p.nf9_state) (is_peer source)
          (note_valid nflows version now) (to_head (is_peer source) peers.peer_list) (λ p h. h)
          (AllOf-to_head (λ (p : PeerState). IsKnown peers.limits p.nf9_state) (is_peer source)
            peers.peer_list c.known);
  }

  pub put_progress-IsCollector :
      (peers : Peers splay) (source : Xaddr) (s : Nf9.Progress)
      → IsCollector peers
      → IsAddress source
      → IsKnown peers.limits s.peer
      → IsCollector (write_peer splay source (put_progress splay s) peers)
  put_progress-IsCollector peers source s c va h =
      write_peer-IsCollector peers source (put_progress splay s) c va (λ p. refl) (λ p _. h)
