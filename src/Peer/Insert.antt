-- ===== src/Peer/Insert.antt =====
-- `new_peer` of flowd/peer.c: the table that it leaves, and the lookups in it.
use network_monitoring_emula.Common.{
  ℕ, suc, ◌-◌, ◌^◌, ◌<◌, ◌≡◌, refl, none, some, List, [], ◌∷◌, length, arith, ltb, Bool-cases,
  Option-cases, true, false, Bool, ◌==◌, inl, inr, sym, ◌∙◌, ==-self, ==→eq, ◌≢◌, ◌⊎◌, ==_comm,
  ne→==, ap, subst,
}
use network_monitoring_emula.Common.Tailq.{
  find_first, last, drop_last, has_key, AllOf, AreDistinct, AllOf-drop_last, AreDistinct-drop_last,
  find_none-drop_last, length-drop_last, last-cons, find_first-drop_last, find_key-drop_last,
}
use network_monitoring_emula.Addr.{Xaddr}
use network_monitoring_emula.Addr.Value.{key}
use network_monitoring_emula.Peer.{Limits, inc32, dec32}
use network_monitoring_emula.Peer.Tree.{SplayTree, same_addr-key, IsAddress}
use network_monitoring_emula.Peer.Table.{
  PeerState, Peers, added, refused, AllowedDevice, Timeval, is_allowed, fresh_peer, delete_peer,
  new_peer, find_peer,
}
use network_monitoring_emula.Common.{if_true, if_false}
use network_monitoring_emula.Peer.Agree.{IsTable, IsPeer, peer_key, from_of, find_peer_lem}

module _ (splay : SplayTree) where
  -- The tree without the address of the last element agrees with the queue without it.
  agrees_evicted :
      (tree : splay.Tree) (ps : List PeerState) (oldest : PeerState)
      → AllOf IsPeer ps
      → AreDistinct peer_key ps
      → last ps ≡ some oldest
      → IsPeer oldest
      → ((a : Xaddr)
          → IsAddress a
          → splay.find a tree ≡ from_of (find_first (has_key peer_key (key a)) ps))
      → (a : Xaddr) → IsAddress a
      → splay.find a (splay.remove oldest.from tree)
        ≡ from_of (find_first (has_key peer_key (key a)) (drop_last ps))
  agrees_evicted tree ps oldest all d e vo agrees a va =
      splay.find_remove oldest.from a tree vo va
      ∙ rw (same_addr-key a oldest.from va vo) (elim (Bool-cases (key a == key oldest.from)) [
        | inl same ↦ rw same (
            rw (==→eq (key a) (key oldest.from) same)
              (rw (find_key-drop_last peer_key ps oldest e d) refl))
        | inr apart ↦ rw apart (
            agrees a va
            ∙ ap from_of (
                sym (
                  find_first-drop_last (has_key peer_key (key a)) ps oldest e
                    (==_comm (peer_key oldest) (key a) ∙ apart))))
      ])

  -- A new address agrees once it is in both.
  agrees_added :
      (tree : splay.Tree) (ps : List PeerState) (addr : Xaddr) (now : Timeval)
      → IsAddress addr
      → find_first (has_key peer_key (key addr)) ps ≡ none
      → ((a : Xaddr)
          → IsAddress a
          → splay.find a tree ≡ from_of (find_first (has_key peer_key (key a)) ps))
      → (a : Xaddr) → IsAddress a
      → splay.find a (splay.insert addr tree)
        ≡ from_of (find_first (has_key peer_key (key a)) (fresh_peer addr now ∷ ps))
  agrees_added tree ps addr now vaddr missing agrees a va =
      splay.find_insert addr a tree vaddr va (agrees addr vaddr ∙ ap from_of missing)
      ∙ rw (same_addr-key a addr va vaddr) (
          rw (==_comm (key a) (key addr)) (elim (Bool-cases (key addr == key a)) [
            | inl same ↦ rw same refl
            | inr apart ↦ rw apart (agrees a va)
          ]))

  abbrev pushed : splay.Tree → List PeerState → Limits → ℕ → Xaddr → Timeval → Peers splay
  pushed tree ps limits forced addr now = record {
    peer_tree = splay.insert addr tree;
    peer_list = fresh_peer addr now ∷ ps;
    limits = limits;
    num_peers = suc (length ps);
    num_forced = forced;
  }

  module _ (addr : Xaddr) (now : Timeval) (vaddr : IsAddress addr) where
    pushed-IsTable :
        (tree : splay.Tree) (ps : List PeerState) (limits : Limits) (forced : ℕ)
        → 0 < limits.max_peers
        → limits.max_peers < 2 ^ 32 - 1
        → length ps < limits.max_peers
        → AllOf IsPeer ps
        → AreDistinct peer_key ps
        → find_first (has_key peer_key (key addr)) ps ≡ none
        → ((a : Xaddr)
            → IsAddress a
            → splay.find a tree ≡ from_of (find_first (has_key peer_key (key a)) ps))
        → IsTable splay (pushed tree ps limits forced addr now)
    pushed-IsTable tree ps limits forced some_peers fit room_left all d missing agrees = record {
      some_peers = some_peers;
      peers_fit = fit;
      counted = refl;
      within = omega arith;
      addresses = (vaddr, all);
      distinct = (missing, d);
      agrees = agrees_added tree ps addr now vaddr missing agrees;
    }

    -- What the table is after a new peer: the peer at the head, and the last one gone where the
    -- table was full.
    pub data IsAdded (peers after : Peers splay) : Type 0 where
      free :
          length peers.peer_list < peers.limits.max_peers
          → after ≡ pushed peers.peer_tree peers.peer_list peers.limits peers.num_forced addr now
          → IsAdded peers after
      evicted :
          (oldest : PeerState)
          → length peers.peer_list ≡ peers.limits.max_peers
          → last peers.peer_list ≡ some oldest
          → after
            ≡ pushed
                (splay.remove oldest.from peers.peer_tree)
                (drop_last peers.peer_list)
                peers.limits
                (inc32 peers.num_forced)
                addr
                now
          → IsAdded peers after

    drop_last-length :
        (ps : List PeerState) (oldest : PeerState)
        → last ps ≡ some oldest
        → suc (length (drop_last ps)) ≡ length ps
    drop_last-length [] oldest e = cc
    drop_last-length (p ∷ ps) oldest e = ap suc (length-drop_last p ps)

    empty_of_last : (ps : List PeerState) → last ps ≡ none → length ps ≡ 0
    empty_of_last [] e = refl
    empty_of_last (p ∷ ps) e = let (q, f) = last-cons p ps in cc

    AllOf-last :
        (ps : List PeerState) (oldest : PeerState)
        → AllOf IsPeer ps
        → last ps ≡ some oldest
        → IsPeer oldest
    AllOf-last [] oldest all e = cc
    AllOf-last (p ∷ []) oldest all e = let same : p ≡ oldest = cc (e) in subst IsPeer same all.0
    AllOf-last (p ∷ q ∷ qs) oldest all e = AllOf-last (q ∷ qs) oldest all.1 e

    -- An authorised address is added to the table, never through a null pointer.
    pub new_peer-IsAdded :
        (peers : Peers splay) (devices : List AllowedDevice)
        → IsTable splay peers
        → is_allowed devices addr ≡ true
        → (after : Peers splay) × (new_peer splay peers devices addr now ≡ added after)
          × IsAdded peers after
    unfolding new_peer inc32 dec32 delete_peer
    new_peer-IsAdded peers devices valid allowed =
        elim (Bool-cases (ltb peers.num_peers peers.limits.max_peers)) [
          | inl some_room ↦ (
            pushed peers.peer_tree peers.peer_list peers.limits peers.num_forced addr now,
            ground (arith, allowed, some_room),
            free (ground arith) refl,
          )
          | inr full ↦ elim (Option-cases (last peers.peer_list)) [
            | inl missing ↦ absurd (ground (arith, empty_of_last peers.peer_list missing))
            | inr (oldest, e) ↦ (
              pushed (splay.remove oldest.from peers.peer_tree) (drop_last peers.peer_list)
                  peers.limits (inc32 peers.num_forced) addr now,
              ground (arith, allowed, e, drop_last-length peers.peer_list oldest e),
              evicted oldest (ground arith) e refl,
            )
          ]
        ]

    pub IsAdded-IsTable :
        (peers after : Peers splay)
        → IsTable splay peers
        → find_peer splay peers addr ≡ none
        → IsAdded peers after
        → IsTable splay after
    IsAdded-IsTable peers after valid missing (free some_room e) = subst (IsTable splay) (sym e) (
        pushed-IsTable peers.peer_tree peers.peer_list peers.limits peers.num_forced
          valid.some_peers valid.peers_fit some_room valid.addresses valid.distinct
          (sym (find_peer_lem splay peers addr valid vaddr) ∙ missing) valid.agrees)
    IsAdded-IsTable peers after valid missing (evicted oldest full l e) =
        subst (IsTable splay) (sym e) (
          pushed-IsTable (splay.remove oldest.from peers.peer_tree) (drop_last peers.peer_list)
            peers.limits (inc32 peers.num_forced) valid.some_peers valid.peers_fit
            (omega (arith, drop_last-length peers.peer_list oldest l))
            (AllOf-drop_last IsPeer peers.peer_list valid.addresses)
            (AreDistinct-drop_last peer_key peers.peer_list valid.distinct)
            (find_none-drop_last (has_key peer_key (key addr)) peers.peer_list
              (sym (find_peer_lem splay peers addr valid vaddr) ∙ missing))
            (agrees_evicted peers.peer_tree peers.peer_list oldest valid.addresses valid.distinct l
              (AllOf-last peers.peer_list oldest valid.addresses l) valid.agrees))

    added_rest :
        (peers after : Peers splay)
        → IsAdded peers after
        → (rest : List PeerState) × (after.peer_list ≡ fresh_peer addr now ∷ rest)
          × ((test : PeerState → Bool)
              → ((oldest : PeerState)
                  → last peers.peer_list ≡ some oldest
                  → peers.limits.max_peers ≡ length peers.peer_list
                  → test oldest ≡ false)
              → find_first test rest ≡ find_first test peers.peer_list)
    added_rest peers after (free some_room e) =
        (peers.peer_list, ap (λ (t : Peers splay). t.peer_list) e, λ test other. refl)
    added_rest peers after (evicted oldest full l e) = (
      drop_last peers.peer_list,
      ap (λ (t : Peers splay). t.peer_list) e,
      λ test other. find_first-drop_last test peers.peer_list oldest l (other oldest l (sym full)),
    )

    -- A new peer is found under its address, and every other address but that of the evicted peer
    -- is looked up as before.
    pub find_peer-added :
        (peers after : Peers splay)
        → IsTable splay peers
        → find_peer splay peers addr ≡ none
        → IsAdded peers after
        → (find_peer splay after addr ≡ some (fresh_peer addr now))
          × ((a : Xaddr)
              → IsAddress a
              → key a ≢ key addr
              → ((oldest : PeerState)
                  → last peers.peer_list ≡ some oldest
                  → peers.limits.max_peers ≡ length peers.peer_list
                  → key oldest.from ≢ key a)
              → find_peer splay after a ≡ find_peer splay peers a)
    find_peer-added peers after valid missing done =
        let (rest, e, kept) = added_rest peers after done in
        let table : IsTable splay after = IsAdded-IsTable peers after valid missing done in
        let found_in : (a : Xaddr)
            → IsAddress a
            → find_peer splay after a
              ≡ find_first (has_key peer_key (key a)) (fresh_peer addr now ∷ rest) =
          λ a va.
            find_peer_lem splay after a table va ∙ ap (find_first (has_key peer_key (key a))) e in
        (
          found_in addr vaddr ∙ if_true _ _ _ (==-self (key addr)),
          λ a va apart stays.
              found_in a va
              ∙ if_false _ _ _ (ne→== (key addr) (key a) (λ same. apart (sym same)))
              ∙ kept (has_key peer_key (key a))
                  (λ oldest l full. ne→== (key oldest.from) (key a) (stays oldest l full))
              ∙ sym (find_peer_lem splay peers a valid va),
        )

    -- On a table that does not have a valid address yet, a new peer is refused if the address is not
    -- allowed. Otherwise it is added without going through a null pointer, the table stays one, the peer is found
    -- under its address, and every other address is looked up as before, but that of the peer that
    -- was used least recently where the table was full.
    pub new_peer-IsTable :
        (peers : Peers splay) (devices : List AllowedDevice)
        → IsTable splay peers
        → find_peer splay peers addr ≡ none
        → ((is_allowed devices addr ≡ false) × (new_peer splay peers devices addr now ≡ refused))
          ⊎ ((is_allowed devices addr ≡ true)
              × ((after : Peers splay) × (new_peer splay peers devices addr now ≡ added after)
                  × IsTable splay after
                  × (find_peer splay after addr ≡ some (fresh_peer addr now))
                  × ((a : Xaddr)
                      → IsAddress a
                      → key a ≢ key addr
                      → ((oldest : PeerState)
                          → last peers.peer_list ≡ some oldest
                          → peers.limits.max_peers ≡ length peers.peer_list
                          → key oldest.from ≢ key a)
                      → find_peer splay after a ≡ find_peer splay peers a)))
    unfolding new_peer
    new_peer-IsTable peers devices valid missing = elim (Bool-cases (is_allowed devices addr)) [
      | inr barred ↦ inl (barred, rw (barred, new_peer) refl)
      | inl allowed ↦
          let (after, e, done) = new_peer-IsAdded peers devices valid allowed in
          let (found, others) = find_peer-added peers after valid missing done in
          inr (allowed, (after, e, IsAdded-IsTable peers after valid missing done, found, others))
    ]
