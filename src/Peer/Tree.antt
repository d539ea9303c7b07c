-- ===== src/Peer/Tree.antt =====
-- The splay tree of peers (sys-tree.h) as flowd/peer.c uses it. The generated functions are a
-- parameter: they keep elements in the order that `addr_cmp` gives, and an element is identified by
-- its address. The laws are the documented ones of SPLAY_FIND, of SPLAY_INSERT of an element that
-- is not there yet and of SPLAY_REMOVE, for the addresses on which `addr_cmp` is an order.
use network_monitoring_emula.Common.{Bool, ◌≡◌, Option, none, some, if◌then◌else◌}
use network_monitoring_emula.Common.Int.{is_zero}
use network_monitoring_emula.Addr.{Xaddr, addr_cmp}
use network_monitoring_emula.Addr.Value.{IsInternet, IsXaddr, key}
use network_monitoring_emula.Common.{ℕ, zero, suc, ◌==◌, arith}
use network_monitoring_emula.Common.Int.{ℤ, pos, negsuc}
use network_monitoring_emula.Addr.Compare.{addr_cmp-Compares, Compares}

-- `peer_compare` gives 0.
unfoldable pub same_addr : Xaddr → Xaddr → Bool
same_addr a b = is_zero (addr_cmp a b)

abbrev pub IsAddress : Xaddr → Type 0
IsAddress a = IsInternet a.af × IsXaddr a

Compares-is_zero : (z : ℤ) (m n : ℕ) → Compares z m n → is_zero z ≡ (m == n)
Compares-is_zero (pos zero) m n c = ground arith
Compares-is_zero (pos (suc d)) m n c = ground arith
Compares-is_zero (negsuc d) m n c = ground arith

pub same_addr-key : (a b : Xaddr) → IsAddress a → IsAddress b → same_addr a b ≡ (key a == key b)
unfolding same_addr
same_addr-key a b va vb =
    Compares-is_zero (addr_cmp a b) (key a) (key b) (addr_cmp-Compares a b va.0 vb.0 va.1 vb.1)

pub record SplayTree : Type 1 where
  pub Tree : Type 0
  pub empty : Tree
  pub find : Xaddr → Tree → Option Xaddr
  pub insert : Xaddr → Tree → Tree
  pub remove : Xaddr → Tree → Tree
  pub find_empty : (a : Xaddr) → find a empty ≡ none
  pub find_insert :
      (a b : Xaddr) (t : Tree)
      → IsAddress a
      → IsAddress b
      → find a t ≡ none
      → find b (insert a t) ≡ (if same_addr b a then some a else find b t)
  pub find_remove :
      (a b : Xaddr) (t : Tree)
      → IsAddress a
      → IsAddress b
      → find b (remove a t) ≡ (if same_addr b a then none else find b t)
