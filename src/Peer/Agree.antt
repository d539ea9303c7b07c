-- ===== src/Peer/Agree.antt =====
-- The table of peers: the tree and the queue agree, the count and the limit hold, and what a lookup
-- gives after each operation.
use network_monitoring_emula.Common.{
  ℕ, ◌-◌, ◌^◌, ◌≤◌, ◌<◌, ◌≡◌, refl, Option, none, some, length, Option-cases, inl, inr, ◌∙◌, ==→eq,
}
use network_monitoring_emula.Common.Tailq.{
  find_first, has_key, find_first-test, AllOf, AreDistinct, find_first-agree, AllOf-find_first,
}
use network_monitoring_emula.Addr.{Xaddr}
use network_monitoring_emula.Addr.Value.{key}
use network_monitoring_emula.Peer.Tree.{SplayTree, same_addr-key, IsAddress}
use network_monitoring_emula.Peer.Table.{PeerState, Peers, is_peer, find_peer}

abbrev pub peer_key : PeerState → ℕ
peer_key p = key p.from

abbrev pub IsPeer : PeerState → Type 0
IsPeer p = IsAddress p.from

abbrev pub from_of : Option PeerState → Option Xaddr
from_of none = none
from_of (some p) = some p.from

pub is_peer-key :
    (addr : Xaddr)
    → IsAddress addr
    → (p : PeerState) → IsPeer p
    → is_peer addr p ≡ has_key peer_key (key addr) p
is_peer-key addr va p vp = same_addr-key p.from addr vp va

module _ (splay : SplayTree) where
  -- The count is that of the queue and within the limit, every address is valid and stands there
  -- once, and the tree holds the addresses of the queue.
  pub record IsTable (peers : Peers splay) : Type 0 where
    pub some_peers : 0 < peers.limits.max_peers
    pub peers_fit : peers.limits.max_peers < 2 ^ 32 - 1
    pub counted : peers.num_peers ≡ length peers.peer_list
    pub within : peers.num_peers ≤ peers.limits.max_peers
    pub addresses : AllOf IsPeer peers.peer_list
    pub distinct : AreDistinct peer_key peers.peer_list
    pub agrees :
        (a : Xaddr)
        → IsAddress a
        → splay.find a peers.peer_tree
          ≡ from_of (find_first (has_key peer_key (key a)) peers.peer_list)

  pub find_peer_lem :
      (peers : Peers splay) (a : Xaddr)
      → IsTable peers
      → IsAddress a
      → find_peer splay peers a ≡ find_first (has_key peer_key (key a)) peers.peer_list
  unfolding find_peer
  find_peer_lem peers a valid va =
      rw (valid.agrees a va, find_peer)
        (elim (Option-cases (find_first (has_key peer_key (key a)) peers.peer_list)) [
          | inl missing ↦ rw missing refl
          | inr (p, found) ↦
              let vp : IsPeer p =
                AllOf-find_first IsPeer (has_key peer_key (key a)) peers.peer_list p valid.addresses
                  found in
              let same : key p.from ≡ key a =
                ==→eq (key p.from) (key a)
                  (find_first-test (has_key peer_key (key a)) peers.peer_list p found) in
              rw found (
                find_first-agree IsPeer (is_peer p.from) (has_key peer_key (key p.from))
                  (is_peer-key p.from vp) peers.peer_list valid.addresses
                ∙ rw same found)
        ])
