-- ===== src/Peer/Counts.antt =====
-- The counts of sources and templates, and the limits on them.
use network_monitoring_emula.Common.{
  ℕ, suc, ◌-◌, ◌^◌, ◌≤◌, ◌<◌, ◌≡◌, refl, Option, none, some, List, [], ◌∷◌, length, arith,
  Option-cases, inl, inr, sym, ◌∙◌, ==→eq,
}
use network_monitoring_emula.Common.Tailq.{
  find_first, remove_first, update_first, to_head, AreDistinct, AllOf, AllOf-drop_last,
  AllOf-find_first, AllOf-to_head, AllOf-update_first, AreDistinct-drop_last, AreDistinct-to_head,
  AreDistinct-update_first, length-to_head, length-update_first, length-drop_last, last-cons,
  find_none-drop_last, find_first-remove_self, length-remove_first, AreDistinct-remove_first,
  AllOf-remove_first, room, room_inv, find_first-test, length-room,
}
use network_monitoring_emula.Peer.{
  Template, Source, Nf9State, Limits, is_source, is_template, inc32, dec32, fresh_source,
  fresh_template, lookup_source, find_template, template_update, write_template, new_template,
  add_template, evict_template, evict_source, add_source, new_source, source_for, put_template,
  templates_to_head, template_delete, source_delete, lookup_template,
}

-- A limit leaves room for one element, and a count that passes it does not wrap around.
pub record IsLimits (limits : Limits) : Type 0 where
  pub some_templates : 0 < limits.max_templates
  pub templates_fit : limits.max_templates < 2 ^ 32 - 1
  pub some_sources : 0 < limits.max_sources
  pub sources_fit : limits.max_sources < 2 ^ 32 - 1

module _ (limits : Limits) where
  -- The count is that of the list, the limit holds, and no id stands there twice.
  pub record IsSource (source : Source) : Type 0 where
    pub counted : source.num_templates ≡ length source.templates
    pub within : source.num_templates ≤ limits.max_templates
    pub distinct : AreDistinct (λ (t : Template). t.template_id) source.templates

  pub record IsTracked (peer : Nf9State) : Type 0 where
    pub counted : peer.nf9_num_sources ≡ length peer.nf9
    pub within : peer.nf9_num_sources ≤ limits.max_sources
    pub distinct : AreDistinct (λ (s : Source). s.source_id) peer.nf9
    pub sources : AllOf IsSource peer.nf9

  module _ (ok : IsLimits limits) where
    -- A new template: at the head, before the others or, where the limit is reached, before those
    -- that are left when the last is gone.
    abbrev pub grown_source : ℕ → Source → Source
    grown_source template_id source =
        let roomy = room limits.max_templates source.templates in
        record source {
          num_templates = suc (length roomy);
          templates = fresh_template template_id ∷ roomy;
        }

    add_to :
        (source_id num template_id : ℕ) (ts : List Template)
        → num ≡ length ts
        → num ≤ limits.max_templates
        → add_template
            (record { source_id = source_id; num_templates = num; templates = ts })
            limits
            template_id
          ≡ some (
              grown_source template_id
                (record { source_id = source_id; num_templates = num; templates = ts }))
    unfolding add_template evict_template template_delete inc32 dec32
    add_to source_id num template_id [] counted within = ground arith
    add_to source_id num template_id (t ∷ ts) counted within =
        ground (arith, last-cons t ts, length-drop_last t ts)

    add_template_lem :
        (source : Source) (template_id : ℕ)
        → IsSource source
        → add_template source limits template_id ≡ some (grown_source template_id source)
    add_template_lem source template_id valid =
        add_to source.source_id source.num_templates template_id source.templates valid.counted
          valid.within

    grown_source-IsSource :
        (source : Source) (template_id : ℕ)
        → IsSource source
        → lookup_template source template_id ≡ none
        → IsSource (grown_source template_id source)
    unfolding lookup_template
    grown_source-IsSource source template_id valid missing = record {
      counted = refl;
      within = length-room limits.max_templates source.templates ok.some_templates (omega arith);
      distinct = (
        room_inv (λ ts. find_first (is_template template_id) ts ≡ none) limits.max_templates
            source.templates missing
            (find_none-drop_last (is_template template_id) source.templates missing),
        room_inv (AreDistinct (λ (t : Template). t.template_id)) limits.max_templates
            source.templates valid.distinct
            (AreDistinct-drop_last (λ (t : Template). t.template_id) source.templates
              valid.distinct),
      );
    }

    abbrev pub grown_peer : ℕ → ℕ → Nf9State → Option Source → Nf9State
    grown_peer source_id template_id peer (some source) = record peer {
      nf9 = grown_source template_id source ∷ remove_first (is_source source_id) peer.nf9;
    }
    grown_peer source_id template_id peer none =
        let roomy = room limits.max_sources peer.nf9 in
        record {
          nf9 = grown_source template_id (fresh_source source_id) ∷ roomy;
          nf9_num_sources = suc (length roomy);
        }

    abbrev added_source : ℕ → Nf9State → Nf9State
    added_source source_id peer =
        let roomy = room limits.max_sources peer.nf9 in
        record { nf9 = fresh_source source_id ∷ roomy; nf9_num_sources = suc (length roomy) }

    add_source_to :
        (source_id num : ℕ) (ss : List Source)
        → num ≡ length ss
        → num ≤ limits.max_sources
        → new_source (record { nf9 = ss; nf9_num_sources = num }) limits source_id
          ≡ some (added_source source_id (record { nf9 = ss; nf9_num_sources = num }))
    unfolding new_source evict_source source_delete add_source inc32 dec32
    add_source_to source_id num [] counted within = ground arith
    add_source_to source_id num (s ∷ ss) counted within =
        ground (arith, last-cons s ss, length-drop_last s ss)

    new_source_lem :
        (source_id : ℕ) (peer : Nf9State)
        → IsTracked peer
        → new_source peer limits source_id ≡ some (added_source source_id peer)
    new_source_lem source_id peer valid =
        add_source_to source_id peer.nf9_num_sources peer.nf9 valid.counted valid.within

    fresh_source-IsSource : (source_id : ℕ) → IsSource (fresh_source source_id)
    fresh_source-IsSource source_id = record { counted = refl; within = omega arith; distinct = tt }

    -- A new template is never a fault: it stands at the head of its source, and the source at the
    -- head of the peer's.
    pub new_template_lem :
        (peer : Nf9State) (source_id template_id : ℕ)
        → IsTracked peer
        → new_template peer limits source_id template_id
          ≡ some (grown_peer source_id template_id peer (lookup_source peer source_id))
    unfolding new_template source_for put_template lookup_source
    new_template_lem peer source_id template_id valid =
        elim (Option-cases (find_first (is_source source_id) peer.nf9)) [
          | inl missing ↦ ground (
            arith,
            missing,
            new_source_lem source_id peer valid,
            add_template_lem (fresh_source source_id) template_id (fresh_source-IsSource source_id),
          )
          | inr (source, found) ↦ ground (
            arith,
            found,
            add_template_lem source template_id (
                AllOf-find_first IsSource (is_source source_id) peer.nf9 source valid.sources
                  found),
          )
        ]

    -- The source that a lookup gives has the id that was asked for.
    pub lookup_source-source_id :
        (peer : Nf9State) (source_id : ℕ) (source : Source)
        → find_first (is_source source_id) peer.nf9 ≡ some source
        → source.source_id ≡ source_id
    lookup_source-source_id peer source_id source found =
        ==→eq source.source_id source_id
          (find_first-test (is_source source_id) peer.nf9 source found)

    -- Where the limits leave room for one and do not wrap, the counts of sources and templates are
    -- those of the lists and within the limits, and no id is there twice, a new template for a
    -- source and an id that have none succeeds, and leaves all this so.
    pub new_template-IsTracked :
        (peer : Nf9State) (source_id template_id : ℕ)
        → IsTracked peer
        → find_template peer source_id template_id ≡ none
        → (after : Nf9State) × (new_template peer limits source_id template_id ≡ some after)
          × IsTracked after
    unfolding find_template lookup_source lookup_template
    new_template-IsTracked peer source_id template_id valid missing = (
      grown_peer source_id template_id peer (lookup_source peer source_id),
      new_template_lem peer source_id template_id valid,
      elim (Option-cases (find_first (is_source source_id) peer.nf9)) [
        | inl absent ↦ rw absent (record {
          counted = refl;
          within = length-room limits.max_sources peer.nf9 ok.some_sources (omega arith);
          distinct = (
            room_inv (λ ss. find_first (is_source source_id) ss ≡ none) limits.max_sources peer.nf9
                absent (find_none-drop_last (is_source source_id) peer.nf9 absent),
            room_inv (AreDistinct (λ (s : Source). s.source_id)) limits.max_sources peer.nf9
                valid.distinct
                (AreDistinct-drop_last (λ (s : Source). s.source_id) peer.nf9 valid.distinct),
          );
          sources = (
            grown_source-IsSource (fresh_source source_id) template_id
                (fresh_source-IsSource source_id) lookup_template-fresh,
            room_inv (AllOf IsSource) limits.max_sources peer.nf9 valid.sources
                (AllOf-drop_last IsSource peer.nf9 valid.sources),
          );
        })
        | inr (source, found) ↦ rw found (record {
          counted =
              valid.counted ∙ sym (length-remove_first (is_source source_id) peer.nf9 source found);
          within = valid.within;
          distinct = (
            rw (lookup_source-source_id peer source_id source found) (
                find_first-remove_self (λ (s : Source). s.source_id) source_id peer.nf9
                  valid.distinct),
            AreDistinct-remove_first (λ (s : Source). s.source_id) (is_source source_id) peer.nf9
                valid.distinct,
          );
          sources = (
            grown_source-IsSource source template_id
                (AllOf-find_first IsSource (is_source source_id) peer.nf9 source valid.sources
                  found)
                (rw (found, find_template) at missing),
            AllOf-remove_first IsSource (is_source source_id) peer.nf9 valid.sources,
          );
        })
      ],
    )
      where
        lookup_template-fresh : lookup_template (fresh_source source_id) template_id ≡ none
        lookup_template-fresh = refl

  -- The move of a template and its source to the heads of their lists keeps the counts of sources
  -- and templates those of the lists, within the limits, and the ids distinct.
  pub template_update-IsTracked :
      (peer : Nf9State) (source_id template_id : ℕ)
      → IsTracked peer
      → IsTracked (template_update peer source_id template_id)
  unfolding template_update
  template_update-IsTracked peer source_id template_id valid =
      elim (Option-cases (find_template peer source_id template_id)) [
        | inl missing ↦ rw (missing, template_update) valid
        | inr (t, found) ↦
            rw (found, template_update)
              (record {
                counted =
                    valid.counted
                    ∙ sym (
                        length-update_first (is_source source_id) (templates_to_head template_id)
                          moved
                        ∙ length-to_head (is_source source_id) peer.nf9);
                within = valid.within;
                distinct =
                    AreDistinct-update_first (λ (s : Source). s.source_id) (is_source source_id)
                      (templates_to_head template_id) moved (λ s. refl)
                      (AreDistinct-to_head (λ (s : Source). s.source_id) source_id peer.nf9
                        valid.distinct);
                sources =
                    AllOf-update_first IsSource (is_source source_id)
                      (templates_to_head template_id) moved kept
                      (AllOf-to_head IsSource (is_source source_id) peer.nf9 valid.sources);
              })
      ]
    where
      moved : List Source
      moved = to_head (is_source source_id) peer.nf9

      kept : (s : Source) → IsSource s → IsSource (templates_to_head template_id s)
      kept s v = record {
        counted = v.counted ∙ sym (length-to_head (is_template template_id) s.templates);
        within = v.within;
        distinct =
            AreDistinct-to_head (λ (t : Template). t.template_id) template_id s.templates
              v.distinct;
      }

  pub write_template-IsTracked :
      (peer : Nf9State) (source_id template_id : ℕ) (write : Template → Template)
      → ((t : Template) → (write t).template_id ≡ t.template_id)
      → IsTracked peer
      → IsTracked (write_template peer source_id template_id write)
  unfolding write_template
  write_template-IsTracked peer source_id template_id write kept valid = record {
    counted = valid.counted ∙ sym (length-update_first (is_source source_id) change peer.nf9);
    within = valid.within;
    distinct =
        AreDistinct-update_first (λ (s : Source). s.source_id) (is_source source_id) change peer.nf9
          (λ s. refl) valid.distinct;
    sources =
        AllOf-update_first IsSource (is_source source_id) change peer.nf9 changed valid.sources;
  }
    where
      change : Source → Source
      change s = record s { templates = update_first (is_template template_id) write s.templates }

      changed : (s : Source) → IsSource s → IsSource (change s)
      changed s v = record {
        counted = v.counted ∙ sym (length-update_first (is_template template_id) write s.templates);
        within = v.within;
        distinct =
            AreDistinct-update_first (λ (t : Template). t.template_id) (is_template template_id)
              write s.templates kept v.distinct;
      }
