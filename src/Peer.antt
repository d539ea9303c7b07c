-- ===== src/Peer.antt =====
-- flowd/peer.c and flowd/peer.h: the NetFlow v.9 templates that a peer has sent, under the sources
-- it sent them for, with limits on both and the least recently used one evicted.
--
-- A TAILQ is a list from its head on. A pointer into a queue is always the result of a lookup by
-- the element's id, of TAILQ_FIRST or of TAILQ_LAST; an access through it is one to the element
-- that this lookup gives. `none` is the access through TAILQ_LAST of an empty queue, a null
-- pointer. `calloc` succeeds: flowd exits where it does not.
pub mod Counts
pub mod Lookup
pub mod Tree
pub mod Table
pub mod Agree
pub mod Insert
pub mod Scrub
pub mod Update
use network_monitoring_emula.Common.{
  ℕ, zero, suc, ◌+◌, ◌-◌, ◌%◌, ◌^◌, Bool, true, false, Option, none, some, List, [], ◌∷◌, ltb, ◌==◌,
  if◌then◌else◌,
}
use network_monitoring_emula.Common.Tailq.{
  find_first, remove_first, update_first, last, drop_last, to_head, has_key,
}

-- `u_int` counters.
unfoldable pub inc32 : ℕ → ℕ
inc32 n = (n + 1) % 2 ^ 32

unfoldable pub dec32 : ℕ → ℕ
dec32 n = (n + 2 ^ 32 - 1) % 2 ^ 32

pub record Nf9Record : Type 0 where
  pub type : ℕ
  pub len : ℕ

pub record Template : Type 0 where
  pub template_id : ℕ
  pub num_records : ℕ
  pub total_len : ℕ
  pub records : Option (List Nf9Record)

pub record Source : Type 0 where
  pub source_id : ℕ
  pub num_templates : ℕ
  pub templates : List Template

-- The NetFlow v.9 part of `struct peer_state`.
pub record Nf9State : Type 0 where
  pub nf9 : List Source
  pub nf9_num_sources : ℕ

-- The limits of `struct peers`.
pub record Limits : Type 0 where
  pub max_peers : ℕ
  pub max_templates : ℕ
  pub max_sources : ℕ
  pub max_template_len : ℕ

abbrev pub is_source : ℕ → Source → Bool
is_source = has_key (λ (s : Source). s.source_id)

abbrev pub is_template : ℕ → Template → Bool
is_template = has_key (λ (t : Template). t.template_id)

-- `unlink` is TAILQ_REMOVE of the element that is deleted.
unfoldable pub template_delete : (List Template → List Template) → Source → Source
template_delete unlink source = record source {
  templates = unlink source.templates;
  num_templates = dec32 source.num_templates;
}

-- The loop that deletes the templates runs as often as there are some: the source is freed with
-- them, and nothing of it is left.
unfoldable pub source_delete : (List Source → List Source) → Nf9State → Nf9State
source_delete unlink peer = record peer {
  nf9 = unlink peer.nf9;
  nf9_num_sources = dec32 peer.nf9_num_sources;
}

abbrev pub drop_first : List Source → List Source
drop_first [] = []
drop_first (s ∷ rest) = rest

delete_all : List Source → Nf9State → Nf9State
delete_all [] peer = peer
delete_all (s ∷ rest) peer = delete_all rest (source_delete drop_first peer)

-- `while ((nf9src = TAILQ_FIRST(&peer->nf9)) != NULL)`
unfoldable pub nf9_delete : Nf9State → Nf9State
unfolding delete_all
nf9_delete peer = delete_all peer.nf9 peer

unfoldable pub lookup_source : Nf9State → ℕ → Option Source
lookup_source peer source_id = find_first (is_source source_id) peer.nf9

unfoldable pub lookup_template : Source → ℕ → Option Template
lookup_template source template_id = find_first (is_template template_id) source.templates

unfoldable pub find_template : Nf9State → ℕ → ℕ → Option Template
unfolding lookup_source lookup_template
find_template peer source_id template_id = elim (lookup_source peer source_id) [
  | none ↦ none
  | some source ↦ lookup_template source template_id
]

-- Moving an element that is the head already changes nothing.
templates_to_head : ℕ → Source → Source
templates_to_head template_id source = record source {
  templates = to_head (is_template template_id) source.templates;
}

unfoldable pub template_update : Nf9State → ℕ → ℕ → Nf9State
unfolding find_template templates_to_head
template_update peer source_id template_id = elim (find_template peer source_id template_id) [
  | none ↦ peer
  | some _ ↦ record peer {
    nf9 =
        update_first (is_source source_id) (templates_to_head template_id)
          (to_head (is_source source_id) peer.nf9);
  }
]

abbrev pub fresh_source : ℕ → Source
fresh_source source_id = record { source_id = source_id; num_templates = 0; templates = [] }

add_source : ℕ → Nf9State → Nf9State
add_source source_id peer = record peer { nf9 = fresh_source source_id ∷ peer.nf9 }

evict_source : Nf9State → Option Nf9State
unfolding source_delete
evict_source peer = elim (last peer.nf9) [
  | none ↦ none
  | some _ ↦ some (source_delete drop_last peer)
]

unfoldable pub new_source : Nf9State → Limits → ℕ → Option Nf9State
unfolding add_source evict_source inc32
new_source peer limits source_id =
    let counted = record peer { nf9_num_sources = inc32 peer.nf9_num_sources } in
    elim (if ltb limits.max_sources counted.nf9_num_sources
      then evict_source counted
      else some counted) [ none ↦ none | some roomy ↦ some (add_source source_id roomy) ]

-- The template that `calloc` gives.
abbrev pub fresh_template : ℕ → Template
fresh_template template_id = record {
  template_id = template_id;
  num_records = 0;
  total_len = 0;
  records = none;
}

evict_template : Source → Option Source
unfolding template_delete
evict_template source = elim (last source.templates) [
  | none ↦ none
  | some _ ↦ some (template_delete drop_last source)
]

-- The part of `peer_nf9_new_template` that works on the source.
unfoldable pub add_template : Source → Limits → ℕ → Option Source
unfolding evict_template inc32
add_template source limits template_id =
    let counted = record source { num_templates = inc32 source.num_templates } in
    elim (if ltb limits.max_templates counted.num_templates
      then evict_template counted
      else some counted) [
        | none ↦ none
        | some roomy ↦
            some (record roomy { templates = fresh_template template_id ∷ roomy.templates })
      ]

-- The source that the lookup gives, or a new one, is in the list.
source_for : Nf9State → Limits → ℕ → Option Nf9State
unfolding lookup_source new_source
source_for peer limits source_id = elim (lookup_source peer source_id) [
  | none ↦ new_source peer limits source_id
  | some _ ↦ some peer
]

-- The source that is in the list is changed in place and then moved to the head.
put_template : Limits → ℕ → ℕ → Nf9State → Option Nf9State
unfolding lookup_source add_template
put_template limits source_id template_id ready = elim (lookup_source ready source_id) [
  | none ↦ none
  | some source ↦ elim (add_template source limits template_id) [
    | none ↦ none
    | some grown ↦
        some (record ready { nf9 = grown ∷ remove_first (is_source source_id) ready.nf9 })
  ]
]

unfoldable pub new_template : Nf9State → Limits → ℕ → ℕ → Option Nf9State
unfolding source_for put_template
new_template peer limits source_id template_id = elim (source_for peer limits source_id) [
  | none ↦ none
  | some ready ↦ put_template limits source_id template_id ready
]

-- Writes through the pointer to the template that a lookup gave.
unfoldable pub write_template : Nf9State → ℕ → ℕ → (Template → Template) → Nf9State
write_template peer source_id template_id write = record peer {
  nf9 =
      update_first (is_source source_id)
        (λ (s : Source). record s {
          templates = update_first (is_template template_id) write s.templates;
        })
        peer.nf9;
}
