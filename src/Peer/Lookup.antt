-- ===== src/Peer/Lookup.antt =====
-- What `peer_nf9_find_template` gives after each operation of flowd/peer.c on the templates.
use network_monitoring_emula.Common.{
  ℕ, ◌≡◌, refl, Option, none, some, arith, Option-cases, true, false, Bool, if◌then◌else◌, ◌==◌,
  inl, inr, sym, ◌∙◌, ==-self, ◌≢◌, ◌&&◌, ne→==, ap, subst,
}
use network_monitoring_emula.Common.Tailq.{
  find_first, update_first, last, to_head, find_first-room, find_first-remove_first,
  find_key-to_head, find_key-update_first, map_found,
}
use network_monitoring_emula.Peer.{
  Template, Source, Nf9State, Limits, is_source, is_template, fresh_template, lookup_source,
  find_template, template_update, new_template, lookup_template, templates_to_head, write_template,
}
use network_monitoring_emula.Peer.Counts.{
  IsLimits, IsTracked, new_template_lem, grown_peer, lookup_source-source_id,
}

abbrev source_key : Source → ℕ
source_key s = s.source_id

abbrev pub template_key : Template → ℕ
template_key t = t.template_id

module _ (limits : Limits) (ok : IsLimits limits) (peer : Nf9State) (source_id template_id : ℕ)
    (valid : IsTracked limits peer) (after : Nf9State)
    (made : new_template peer limits source_id template_id ≡ some after) where
  abbrev Grown : Option Source → Nf9State
  Grown = grown_peer limits ok source_id template_id peer

  after_lem : Grown (lookup_source peer source_id) ≡ after
  after_lem = cc (made, new_template_lem limits ok peer source_id template_id valid)

  grown_find :
      (found : Option Source)
      → lookup_source peer source_id ≡ found
      → find_template (Grown found) source_id template_id ≡ some (fresh_template template_id)
  unfolding find_template lookup_source lookup_template
  grown_find none h = ground (arith, ==-self template_id, ==-self source_id)
  grown_find (some source) h = ground (
    arith,
    ==-self template_id,
    ==-self source_id,
    lookup_source-source_id limits ok peer source_id source h,
  )

  -- Where the peer's counts, limits and ids are in order, a new template is found under its source
  -- and its id, with no records yet.
  pub find_template-new_template :
      find_template after source_id template_id ≡ some (fresh_template template_id)
  find_template-new_template =
      subst (λ a. find_template a source_id template_id ≡ some (fresh_template template_id))
        after_lem (grown_find (lookup_source peer source_id) refl)

  grown_other :
      (j k : ℕ) (found : Option Source)
      → lookup_source peer source_id ≡ found
      → j ≢ source_id
      → ((s : Source) → last peer.nf9 ≡ some s → is_source j s ≡ false)
      → find_template (Grown found) j k ≡ find_template peer j k
  unfolding find_template lookup_source lookup_template
  grown_other j k none h apart stays =
      ground
        (arith, ne→== source_id j, find_first-room (is_source j) limits.max_sources peer.nf9 stays)
  grown_other j k (some source) h apart stays = ground (
    arith,
    lookup_source-source_id limits ok peer source_id source h,
    ne→== source_id j,
    find_first-remove_first (is_source source_id) (is_source j) peer.nf9 source,
  )

  grown_same :
      (k : ℕ) (source : Source)
      → lookup_source peer source_id ≡ some source
      → k ≢ template_id
      → ((t : Template) → last source.templates ≡ some t → is_template k t ≡ false)
      → find_template (Grown (some source)) source_id k ≡ find_template peer source_id k
  unfolding find_template lookup_source lookup_template
  grown_same k source h apart stays = ground (
    arith,
    lookup_source-source_id limits ok peer source_id source h,
    ==-self source_id,
    ne→== template_id k,
    find_first-room (is_template k) limits.max_templates source.templates stays,
  )

  -- Where the peer's counts, limits and ids are in order, a new template changes the lookup of no
  -- template of another source, unless that is the last source in the list, and of no other
  -- template of its own source, unless that is the last one there.
  pub find_template-new_other :
      ((j k : ℕ)
        → j ≢ source_id
        → ((s : Source) → last peer.nf9 ≡ some s → s.source_id ≢ j)
        → find_template after j k ≡ find_template peer j k)
      × ((k : ℕ) (source : Source)
          → lookup_source peer source_id ≡ some source
          → k ≢ template_id
          → ((t : Template) → last source.templates ≡ some t → t.template_id ≢ k)
          → find_template after source_id k ≡ find_template peer source_id k)
  find_template-new_other = (
    λ j k apart stays.
        subst (λ a. find_template a j k ≡ find_template peer j k) after_lem
          (grown_other j k (lookup_source peer source_id) refl apart
            (λ s e. ne→== s.source_id j (stays s e))),
    λ k source h apart stays.
        subst (λ a. find_template a source_id k ≡ find_template peer source_id k)
          (ap Grown (sym h) ∙ after_lem)
          (grown_same k source h apart (λ t e. ne→== t.template_id k (stays t e))),
  )

abbrev template_in : ℕ → Option Source → Option Template
template_in k none = none
template_in k (some s) = find_first (is_template k) s.templates

find_template_in :
    (peer : Nf9State) (j k : ℕ)
    → find_template peer j k ≡ template_in k (find_first (is_source j) peer.nf9)
unfolding find_template lookup_source lookup_template
find_template_in peer j k = ground arith

template_in-to_head :
    (template_id k : ℕ) (b : Bool) (o : Option Source)
    → template_in k (if b then map_found source_key (templates_to_head template_id) o else o)
      ≡ template_in k o
unfolding templates_to_head
template_in-to_head template_id k true none = refl
template_in-to_head template_id k true (some s) =
    find_key-to_head template_key k template_id s.templates
template_in-to_head template_id k false o = refl

-- `peer_nf9_template_update`, for any source and template, changes no lookup.
pub find_template-update :
    (peer : Nf9State) (source_id template_id j k : ℕ)
    → find_template (template_update peer source_id template_id) j k ≡ find_template peer j k
unfolding template_update templates_to_head
find_template-update peer source_id template_id j k =
    elim (Option-cases (find_template peer source_id template_id)) [
      | inl missing ↦ rw (missing, template_update) refl
      | inr (t, found) ↦
          rw (found, template_update)
            (find_template_in
                (record peer {
                  nf9 =
                      update_first (is_source source_id) (templates_to_head template_id)
                        (to_head (is_source source_id) peer.nf9);
                })
                j k
              ∙ ap (template_in k) (
                  find_key-update_first source_key j source_id (templates_to_head template_id)
                    (to_head (is_source source_id) peer.nf9) (λ s. refl)
                  ∙ ap
                      (λ o.
                        if source_id == j
                        then map_found source_key (templates_to_head template_id) o
                        else o)
                      (find_key-to_head source_key j source_id peer.nf9))
              ∙ template_in-to_head template_id k (source_id == j) _
              ∙ sym (find_template_in peer j k))
    ]

-- A write through the pointer to a template that keeps its id shows in its lookup, and in no other.
pub find_template-write :
    (peer : Nf9State) (source_id template_id : ℕ) (write : Template → Template)
    → ((t : Template) → (write t).template_id ≡ t.template_id)
    → (j k : ℕ)
    → find_template (write_template peer source_id template_id write) j k ≡ (
        if (source_id == j) && (template_id == k)
        then map_found template_key write (find_template peer j k)
        else find_template peer j k)
unfolding write_template
find_template-write peer source_id template_id write kept j k =
    find_template_in _ j k
    ∙ ap (template_in k) (find_key-update_first source_key j source_id change peer.nf9 (λ s. refl))
    ∙ in_source (source_id == j) (find_first (is_source j) peer.nf9)
    ∙ ap (λ o. if (source_id == j) && (template_id == k) then map_found template_key write o else o)
        (sym (find_template_in peer j k))
  where
    change : Source → Source
    change s = record s { templates = update_first (is_template template_id) write s.templates }

    in_source :
        (b : Bool) (o : Option Source)
        → template_in k (if b then map_found source_key change o else o) ≡ (
            if b && (template_id == k)
            then map_found template_key write (template_in k o)
            else template_in k o)
    in_source true none = ground arith
    in_source true (some s) =
        find_key-update_first template_key k template_id write s.templates kept
    in_source false o = refl
