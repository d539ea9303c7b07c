-- ===== src/Tests/Peers.antt =====
-- A collector with one peer, and the theorems on peers and templates at it.
use network_monitoring_emula.Common.{
  ℕ, ◌≡◌, ◌≢◌, refl, true, false, Option, none, some, List, [], ◌∷◌, ◌==◌, if◌then◌else◌, arith,
  ◌⊎◌, inl, inr, length, Bool-cases, ==_comm,
}
use network_monitoring_emula.Common.Tailq.{last, remove_first}
use network_monitoring_emula.Addr.{Xaddr, inet, zero_quad}
use network_monitoring_emula.Addr.Value.{key}
use network_monitoring_emula.Peer.{
  Template, Source, Nf9State, Limits, find_template, new_template, template_update, fresh_template,
  lookup_source,
}
use network_monitoring_emula.Peer.Tree.{SplayTree, same_addr, same_addr-key, IsAddress}
use network_monitoring_emula.Peer.Table.{
  Peers, PeerState, Timeval, AllowedDevice, find_peer, is_peer, new_peer, scrub_peers, update_peer,
  fresh_peer, refused, added, is_allowed,
}
use network_monitoring_emula.Peer.Counts.{
  IsLimits, IsTracked, new_template-IsTracked, template_update-IsTracked,
}
use network_monitoring_emula.Peer.Lookup.{
  find_template-new_template, find_template-new_other, find_template-update,
}
use network_monitoring_emula.Peer.Agree.{IsTable}
use network_monitoring_emula.Peer.Insert.{new_peer-IsTable}
use network_monitoring_emula.Peer.Scrub.{scrub_peers-IsTable, allowed_peers}
use network_monitoring_emula.Peer.Update.{IsNoted, update_peer-IsTable}

-- The limits that flowd starts with.
abbrev pub default_limits : Limits
default_limits = record {
  max_peers = 128;
  max_templates = 8;
  max_sources = 64;
  max_template_len = 1024;
}

pub default-IsLimits : IsLimits default_limits
default-IsLimits = record {
  some_templates = omega arith;
  templates_fit = omega arith;
  some_sources = omega arith;
  sources_fit = omega arith;
}

abbrev pub no_templates : Nf9State
no_templates = record { nf9 = []; nf9_num_sources = 0 }

pub no_templates-IsTracked : IsTracked default_limits no_templates
no_templates-IsTracked = record {
  counted = refl;
  within = omega arith;
  distinct = tt;
  sources = tt;
}

new_template_example :
    (after : Nf9State) × (new_template no_templates default_limits 7 256 ≡ some after)
    × IsTracked default_limits after
unfolding find_template
new_template_example =
    new_template-IsTracked default_limits default-IsLimits no_templates 7 256 no_templates-IsTracked
      refl

-- A peer with the template 256 of the source 7.
abbrev one_template : Nf9State
one_template = record {
  nf9 = record { source_id = 7; num_templates = 1; templates = fresh_template 256 ∷ [] } ∷ [];
  nf9_num_sources = 1;
}

first_made : new_template no_templates default_limits 7 256 ≡ some one_template
unfolding new_template
first_made = refl

one_template-IsTracked : IsTracked default_limits one_template
one_template-IsTracked = record {
  counted = refl;
  within = omega arith;
  distinct = (refl, tt);
  sources = (record { counted = refl; within = omega arith; distinct = (refl, tt) }, tt);
}

find_new_example : find_template one_template 7 256 ≡ some (fresh_template 256)
find_new_example =
    find_template-new_template default_limits default-IsLimits no_templates 7 256
      no_templates-IsTracked one_template first_made

abbrev two_templates : Nf9State
two_templates = record {
  nf9 =
      record { source_id = 9; num_templates = 1; templates = fresh_template 300 ∷ [] }
      ∷ record { source_id = 7; num_templates = 1; templates = fresh_template 256 ∷ [] }
      ∷ [];
  nf9_num_sources = 2;
}

second_made : new_template one_template default_limits 9 300 ≡ some two_templates
unfolding new_template
second_made = refl

new_other_example :
    ((j k : ℕ)
      → j ≢ 9
      → ((s : Source) → last one_template.nf9 ≡ some s → s.source_id ≢ j)
      → find_template two_templates j k ≡ find_template one_template j k)
    × ((k : ℕ) (source : Source)
        → lookup_source one_template 9 ≡ some source
        → k ≢ 300
        → ((t : Template) → last source.templates ≡ some t → t.template_id ≢ k)
        → find_template two_templates 9 k ≡ find_template one_template 9 k)
new_other_example =
    find_template-new_other default_limits default-IsLimits one_template 9 300
      one_template-IsTracked two_templates second_made

update_example :
    find_template (template_update two_templates 7 256) 9 300 ≡ find_template two_templates 9 300
update_example = find_template-update two_templates 7 256 9 300

update-IsTracked_example : IsTracked default_limits (template_update one_template 7 256)
update-IsTracked_example =
    template_update-IsTracked default_limits one_template 7 256 one_template-IsTracked

-- The tree of peers as a list of addresses under their numbers.
unfoldable pub lookup : ℕ → List (ℕ × Xaddr) → Option Xaddr
lookup k [] = none
lookup k ((j, a) ∷ t) = if k == j then some a else lookup k t

pub without : ℕ → List (ℕ × Xaddr) → List (ℕ × Xaddr)
without k [] = []
without k ((j, a) ∷ t) = if j == k then without k t else (j, a) ∷ without k t

lookup-without :
    (k j : ℕ) (t : List (ℕ × Xaddr))
    → lookup j (without k t) ≡ (if j == k then none else lookup j t)
unfolding lookup without
lookup-without k j [] = ground arith
lookup-without k j ((i, a) ∷ t) = ground (arith, lookup-without k j t)

pub listed_insert :
    (a b : Xaddr) (t : List (ℕ × Xaddr))
    → IsAddress a
    → IsAddress b
    → lookup (key b) t ≡ lookup (key b) t
    → lookup (key b) ((key a, a) ∷ t) ≡ (if same_addr b a then some a else lookup (key b) t)
unfolding lookup
listed_insert a b t va vb _ = rw (same_addr-key b a vb va) refl

pub listed_remove :
    (a b : Xaddr) (t : List (ℕ × Xaddr))
    → IsAddress a
    → IsAddress b
    → lookup (key b) (without (key a) t) ≡ (if same_addr b a then none else lookup (key b) t)
listed_remove a b t va vb = rw (same_addr-key b a vb va) (lookup-without (key a) (key b) t)

pub no_address : (a : Xaddr) → lookup (key a) [] ≡ none
unfolding lookup
no_address a = refl

abbrev pub listed : SplayTree
listed = record {
  Tree = List (ℕ × Xaddr);
  empty = [];
  find = λ a t. lookup (key a) t;
  insert = λ a t. (key a, a) ∷ t;
  remove = λ a t. without (key a) t;
  find_empty = no_address;
  find_insert = λ a b t va vb _. listed_insert a b t va vb refl;
  find_remove = listed_remove;
}

abbrev pub exporter : Xaddr
exporter = record { af = inet; addr32 = record zero_quad { w0 = 0x0a000001 }; scope_id = 0 }

abbrev pub clock : Timeval
clock = record { tv_sec = 1000; tv_usec = 5 }

abbrev pub no_peers : Peers listed
no_peers = record {
  peer_tree = [];
  peer_list = [];
  limits = default_limits;
  num_peers = 0;
  num_forced = 0;
}

pub no_peers-IsTable : IsTable listed no_peers
unfolding lookup
no_peers-IsTable = record {
  some_peers = omega arith;
  peers_fit = omega arith;
  counted = refl;
  within = omega arith;
  addresses = tt;
  distinct = tt;
  agrees = λ a va. refl;
}

-- The table with that exporter as its one peer.
abbrev pub one_peer : Peers listed
one_peer = record no_peers {
  peer_tree = (key exporter, exporter) ∷ [];
  peer_list = fresh_peer exporter clock ∷ [];
  num_peers = 1;
}

pub exporter-IsAddress : IsAddress exporter
exporter-IsAddress = (tt, (omega arith, omega arith, omega arith, omega arith, omega arith))

pub one_peer-IsTable : IsTable listed one_peer
unfolding lookup
one_peer-IsTable = record {
  some_peers = omega arith;
  peers_fit = omega arith;
  counted = refl;
  within = omega arith;
  addresses = (exporter-IsAddress, tt);
  distinct = (refl, tt);
  agrees = λ a va. elim (Bool-cases (key a == key exporter)) [
    | inl same ↦ rw (==_comm (key exporter) (key a)) (rw same refl)
    | inr other ↦ rw (==_comm (key exporter) (key a)) (rw other refl)
  ];
}

new_peer_example :
    ((is_allowed [] exporter ≡ false) × (new_peer listed no_peers [] exporter clock ≡ refused))
    ⊎ ((is_allowed [] exporter ≡ true)
        × ((after : Peers listed) × (new_peer listed no_peers [] exporter clock ≡ added after)
            × IsTable listed after
            × (find_peer listed after exporter ≡ some (fresh_peer exporter clock))
            × ((a : Xaddr)
                → IsAddress a
                → key a ≢ key exporter
                → ((oldest : PeerState)
                    → last no_peers.peer_list ≡ some oldest
                    → no_peers.limits.max_peers ≡ length no_peers.peer_list
                    → key oldest.from ≢ key a)
                → find_peer listed after a ≡ find_peer listed no_peers a)))
unfolding find_peer lookup same_addr network_monitoring_emula.Addr.addr_cmp
new_peer_example =
    new_peer-IsTable listed exporter clock exporter-IsAddress no_peers [] no_peers-IsTable refl

update_peer_example :
    IsTable listed (update_peer listed one_peer exporter 3 5 clock)
    × ((q : PeerState) × IsNoted 3 5 clock (fresh_peer exporter clock) q
        × ((update_peer listed one_peer exporter 3 5 clock).peer_list
            ≡ q ∷ remove_first (is_peer exporter) one_peer.peer_list)
        × (find_peer listed (update_peer listed one_peer exporter 3 5 clock) exporter ≡ some q))
    × ((a : Xaddr)
        → IsAddress a
        → key exporter ≢ key a
        → find_peer listed (update_peer listed one_peer exporter 3 5 clock) a
          ≡ find_peer listed one_peer a)
unfolding find_peer lookup same_addr network_monitoring_emula.Addr.addr_cmp
update_peer_example =
    update_peer-IsTable listed one_peer exporter 3 5 clock (fresh_peer exporter clock)
      one_peer-IsTable exporter-IsAddress refl

abbrev device : AllowedDevice
device = record { addr = exporter; masklen = 32 }

scrub_example :
    IsTable listed (scrub_peers listed (device ∷ []) one_peer)
    × ((scrub_peers listed (device ∷ []) one_peer).peer_list
        ≡ allowed_peers listed (device ∷ []) one_peer.peer_list)
scrub_example = scrub_peers-IsTable listed (device ∷ []) one_peer one_peer-IsTable
