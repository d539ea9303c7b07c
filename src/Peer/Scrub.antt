-- ===== src/Peer/Scrub.antt =====
-- `update_peer` and `scrub_peers` of flowd/peer.c: the tables that they leave.
use network_monitoring_emula.Common.{
  ℕ, suc, ◌≡◌, refl, Option, none, some, List, [], ◌∷◌, ◌++◌, length, arith, Bool-cases, true,
  false, Bool, if◌then◌else◌, ◌==◌, inl, inr, sym, ◌∙◌, ==→eq, ==_comm, ap, subst,
}
use network_monitoring_emula.Common.Tailq.{
  find_first, remove_first, update_first, to_head, has_key, find_key-to_head, find_key-update_first,
  map_found, AllOf, AreDistinct, remove_first-agree, update_first-agree, AllOf-to_head,
  AllOf-update_first, AreDistinct-to_head, AreDistinct-update_first, AllOf-remove_first,
  AreDistinct-remove_first, AllOf-find_first, find_first-remove_self, find_first-remove_first,
  length-remove_first, to_head-agree, find_key-middle, length-to_head, length-update_first,
}
use mathlib.Core.List.{append_assoc}
use network_monitoring_emula.Addr.{Xaddr}
use network_monitoring_emula.Addr.Value.{key}
use network_monitoring_emula.Peer.{dec32}
use network_monitoring_emula.Peer.Tree.{SplayTree, same_addr-key, IsAddress}
use network_monitoring_emula.Peer.Table.{
  PeerState, Peers, AllowedDevice, Timeval, is_peer, is_allowed, delete_peer, scrub_peers,
  update_peer, find_peer, scrub_from, write_peer, note_valid,
}
use network_monitoring_emula.Peer.Agree.{
  IsTable, IsPeer, peer_key, from_of, find_peer_lem, is_peer-key,
}

module _ (splay : SplayTree) where
  -- Another queue of the same length with the same addresses.
  relist-IsTable :
      (peers : Peers splay) (ps : List PeerState)
      → IsTable splay peers
      → length ps ≡ length peers.peer_list
      → AllOf IsPeer ps
      → AreDistinct peer_key ps
      → ((k : ℕ)
          → from_of (find_first (has_key peer_key k) ps)
            ≡ from_of (find_first (has_key peer_key k) peers.peer_list))
      → IsTable splay (record peers { peer_list = ps })
  relist-IsTable peers ps valid same_length all d same = record {
    some_peers = valid.some_peers;
    peers_fit = valid.peers_fit;
    counted = valid.counted ∙ sym same_length;
    within = valid.within;
    addresses = all;
    distinct = d;
    agrees = λ a va. valid.agrees a va ∙ sym (same (key a));
  }

  module _ (write : PeerState → PeerState) (kept : (p : PeerState) → (write p).from ≡ p.from) where
    from_of-write :
        (b : Bool) (o : Option PeerState)
        → from_of (if b then map_found peer_key write o else o) ≡ from_of o
    from_of-write true none = refl
    from_of-write true (some p) = ap some (kept p)
    from_of-write false o = refl

    write_list :
        (peers : Peers splay) (addr : Xaddr)
        → AllOf IsPeer peers.peer_list
        → IsAddress addr
        → update_first (is_peer addr) write peers.peer_list
          ≡ update_first (has_key peer_key (key addr)) write peers.peer_list
    write_list peers addr all va =
        update_first-agree IsPeer (is_peer addr) (has_key peer_key (key addr)) (is_peer-key addr va)
          write peers.peer_list all

    -- A write to a peer that keeps its address keeps the table, and shows in that peer's lookup only.
    pub write_peer-IsTable :
        (peers : Peers splay) (addr : Xaddr)
        → IsTable splay peers
        → IsAddress addr
        → IsTable splay (write_peer splay addr write peers)
          × ((a : Xaddr)
              → IsAddress a
              → find_peer splay (write_peer splay addr write peers) a ≡ (
                  if key addr == key a
                  then map_found peer_key write (find_peer splay peers a)
                  else find_peer splay peers a))
    write_peer-IsTable peers addr valid va = (
      table,
      λ a vb.
          find_peer_lem splay (write_peer splay addr write peers) a table vb
          ∙ written (key a)
          ∙ ap (λ o. if key addr == key a then map_found peer_key write o else o)
              (sym (find_peer_lem splay peers a valid vb)),
    )
      where
        list_lem :
            update_first (is_peer addr) write peers.peer_list
            ≡ update_first (has_key peer_key (key addr)) write peers.peer_list
        list_lem = write_list peers addr valid.addresses va

        written :
            (k : ℕ)
            → find_first (has_key peer_key k) (update_first (is_peer addr) write peers.peer_list)
              ≡ (if key addr == k
                  then map_found peer_key write (find_first (has_key peer_key k) peers.peer_list)
                  else find_first (has_key peer_key k) peers.peer_list)
        written k =
            ap (find_first (has_key peer_key k)) list_lem
            ∙ find_key-update_first peer_key k (key addr) write peers.peer_list
                (λ p. ap key (kept p))

        table : IsTable splay (write_peer splay addr write peers)
        table =
            relist-IsTable peers (update_first (is_peer addr) write peers.peer_list) valid
              (length-update_first (is_peer addr) write peers.peer_list)
              (AllOf-update_first IsPeer (is_peer addr) write peers.peer_list
                (λ p. subst IsAddress (sym (kept p))) valid.addresses)
              (AreDistinct-update_first peer_key (is_peer addr) write peers.peer_list
                (λ p. ap key (kept p)) valid.distinct)
              (λ k.
                ap from_of (written k)
                ∙ from_of-write (key addr == k) (find_first (has_key peer_key k) peers.peer_list))

  to_head-IsTable :
      (peers : Peers splay) (addr : Xaddr)
      → IsTable splay peers
      → IsAddress addr
      → IsTable splay (record peers { peer_list = to_head (is_peer addr) peers.peer_list })
        × ((a : Xaddr)
            → IsAddress a
            → find_peer splay
                (record peers { peer_list = to_head (is_peer addr) peers.peer_list })
                a
              ≡ find_peer splay peers a)
  to_head-IsTable peers addr valid va = (
    table,
    λ a vb.
        find_peer_lem splay (record peers { peer_list = to_head (is_peer addr) peers.peer_list }) a
          table vb
        ∙ moved (key a)
        ∙ sym (find_peer_lem splay peers a valid vb),
  )
    where
      list_lem :
          to_head (is_peer addr) peers.peer_list
          ≡ to_head (has_key peer_key (key addr)) peers.peer_list
      list_lem =
          to_head-agree IsPeer (is_peer addr) (has_key peer_key (key addr)) (is_peer-key addr va)
            peers.peer_list valid.addresses

      moved :
          (k : ℕ)
          → find_first (has_key peer_key k) (to_head (is_peer addr) peers.peer_list)
            ≡ find_first (has_key peer_key k) peers.peer_list
      moved k =
          ap (find_first (has_key peer_key k)) list_lem
          ∙ find_key-to_head peer_key k (key addr) peers.peer_list

      table : IsTable splay (record peers { peer_list = to_head (is_peer addr) peers.peer_list })
      table =
          relist-IsTable peers (to_head (is_peer addr) peers.peer_list) valid
            (length-to_head (is_peer addr) peers.peer_list)
            (AllOf-to_head IsPeer (is_peer addr) peers.peer_list valid.addresses)
            (subst (AreDistinct peer_key) (sym list_lem)
              (AreDistinct-to_head peer_key (key addr) peers.peer_list valid.distinct))
            (λ k. ap from_of (moved k))

  -- What every lookup gives after `update_peer`.
  pub update_peer-found :
      (peers : Peers splay) (addr : Xaddr) (nflows version : ℕ) (now : Timeval)
      → IsTable splay peers
      → IsAddress addr
      → IsTable splay (update_peer splay peers addr nflows version now)
        × ((a : Xaddr)
            → IsAddress a
            → find_peer splay (update_peer splay peers addr nflows version now) a ≡ (
                if key addr == key a
                then map_found peer_key (note_valid nflows version now) (find_peer splay peers a)
                else find_peer splay peers a))
  unfolding update_peer
  update_peer-found peers addr nflows version now valid va =
      let (moved, same) = to_head-IsTable peers addr valid va in
      let (table, found) =
        write_peer-IsTable (note_valid nflows version now) (λ p. refl)
          (record peers { peer_list = to_head (is_peer addr) peers.peer_list }) addr moved va in
      (
        table,
        λ a vb.
            found a vb
            ∙ ap
                (λ o.
                  if key addr == key a
                  then map_found peer_key (note_valid nflows version now) o
                  else o)
                (same a vb),
      )

  remove_peer :
      (ps : List PeerState) (p : PeerState)
      → AllOf IsPeer ps
      → find_first (has_key peer_key (key p.from)) ps ≡ some p
      → remove_first (is_peer p.from) ps ≡ remove_first (has_key peer_key (key p.from)) ps
  remove_peer ps p all found =
      remove_first-agree IsPeer (is_peer p.from) (has_key peer_key (key p.from))
        (is_peer-key p.from
          (AllOf-find_first IsPeer (has_key peer_key (key p.from)) ps p all found))
        ps all

  -- `delete_peer` of an element of the queue.
  delete_peer-IsTable :
      (peers : Peers splay) (p : PeerState)
      → IsTable splay peers
      → find_first (has_key peer_key (key p.from)) peers.peer_list ≡ some p
      → IsTable splay (delete_peer splay (remove_first (is_peer p.from)) p peers)
  unfolding delete_peer dec32
  delete_peer-IsTable peers p valid found = record {
    some_peers = valid.some_peers;
    peers_fit = valid.peers_fit;
    counted = omega (arith, left);
    within = omega (arith, left);
    addresses = AllOf-remove_first IsPeer (is_peer p.from) peers.peer_list valid.addresses;
    distinct = AreDistinct-remove_first peer_key (is_peer p.from) peers.peer_list valid.distinct;
    agrees = λ a va.
        splay.find_remove p.from a peers.peer_tree vp va
        ∙ rw (same_addr-key a p.from va vp) (elim (Bool-cases (key a == key p.from)) [
          | inl same ↦ rw same (
              rw (==→eq (key a) (key p.from) same) (
                ap from_of (
                  sym (
                    ap (find_first (has_key peer_key (key p.from))) list_lem
                    ∙ find_first-remove_self peer_key (key p.from) peers.peer_list
                        valid.distinct))))
          | inr apart ↦ rw apart (
              valid.agrees a va
              ∙ ap from_of (
                  sym (
                    ap (find_first (has_key peer_key (key a))) list_lem
                    ∙ find_first-remove_first (has_key peer_key (key p.from))
                        (has_key peer_key (key a)) peers.peer_list p found
                        (==_comm (peer_key p) (key a) ∙ apart))))
        ]);
  }
    where
      vp : IsPeer p
      vp =
          AllOf-find_first IsPeer (has_key peer_key (key p.from)) peers.peer_list p valid.addresses
            found

      list_lem :
          remove_first (is_peer p.from) peers.peer_list
          ≡ remove_first (has_key peer_key (key p.from)) peers.peer_list
      list_lem = remove_peer peers.peer_list p valid.addresses found

      left : suc (length (remove_first (is_peer p.from) peers.peer_list)) ≡ length peers.peer_list
      left =
          ap (λ ps. suc (length ps)) list_lem
          ∙ length-remove_first (has_key peer_key (key p.from)) peers.peer_list p found

  -- The peers that the configuration still allows, in the order of the queue.
  abbrev pub allowed_peers : List AllowedDevice → List PeerState → List PeerState
  allowed_peers devices [] = []
  allowed_peers devices (p ∷ ps) =
      let rest = allowed_peers devices ps in if is_allowed devices p.from then p ∷ rest else rest

  module _ (devices : List AllowedDevice) where
    -- Where the loop stands: `kept` has been seen, `rest` has not.
    scrub_from-IsTable :
        (kept rest : List PeerState) (peers : Peers splay)
        → IsTable splay peers
        → peers.peer_list ≡ kept ++ rest
        → IsTable splay (scrub_from splay devices rest peers)
          × ((scrub_from splay devices rest peers).peer_list ≡ kept ++ allowed_peers devices rest)
    unfolding scrub_from delete_peer
    scrub_from-IsTable kept [] peers valid e = (valid, e)
    scrub_from-IsTable kept (p ∷ rest) peers valid e =
        elim (Bool-cases (is_allowed devices p.from)) [
          | inl yes_allowed ↦ subst Left (sym yes_allowed) (
              let (table, list) =
                scrub_from-IsTable (kept ++ p ∷ []) rest peers valid
                  (e ∙ sym (append_assoc kept (p ∷ []) rest)) in
              (table, list ∙ append_assoc kept (p ∷ []) (allowed_peers devices rest)))
          | inr gone ↦
              let (found, removed) =
                find_key-middle peer_key kept p rest
                  (subst (AreDistinct peer_key) e valid.distinct) in
              subst Left (sym gone) (
                scrub_from-IsTable kept rest
                  (delete_peer splay (remove_first (is_peer p.from)) p peers)
                  (delete_peer-IsTable peers p valid (rw e found))
                  (remove_peer peers.peer_list p valid.addresses (rw e found)
                    ∙ ap (remove_first (has_key peer_key (key p.from))) e
                    ∙ removed))
        ]
      where
        Left : Bool → Type 0
        Left b =
            let after : Peers splay =
              scrub_from splay devices rest
                (if b then peers else delete_peer splay (remove_first (is_peer p.from)) p peers) in
            let left = allowed_peers devices rest in
            IsTable splay after × (after.peer_list ≡ kept ++ (if b then p ∷ left else left))

  all_allowed : (ps : List PeerState) → allowed_peers [] ps ≡ ps
  unfolding is_allowed
  all_allowed [] = refl
  all_allowed (p ∷ ps) = ap (◌∷◌ p) (all_allowed ps)

  -- `scrub_peers` on a table leaves a table of exactly the peers that are still allowed, in the same
  -- order.
  pub scrub_peers-IsTable :
      (devices : List AllowedDevice) (peers : Peers splay)
      → IsTable splay peers
      → IsTable splay (scrub_peers splay devices peers)
        × ((scrub_peers splay devices peers).peer_list ≡ allowed_peers devices peers.peer_list)
  unfolding scrub_peers
  scrub_peers-IsTable [] peers valid = (valid, sym (all_allowed peers.peer_list))
  scrub_peers-IsTable (ad ∷ devices) peers valid =
      scrub_from-IsTable (ad ∷ devices) [] peers.peer_list peers valid refl
