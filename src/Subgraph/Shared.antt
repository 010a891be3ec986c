-- ===== src/Subgraph/Shared.antt =====
-- A node that two subgraphs share: what dropping one of the two handles does to it.
use reactive_graph_experimen.Base.{
  ℕ, zero, suc, ◌-◌, ◌<◌, ◌≡◌, ◌≢◌, refl, ap, true, false, ◌∙◌, if◌then◌else◌, Option, none, inl,
  inr, leb, Bool-cases, eq_cases, some, [], ◌∷◌, arith, lookup, lookup-insert, lookup-remove,
  eq_refl, length, ◌==◌,
}
use reactive_graph_experimen.NodeRef.{NodeId, id_eq, id_beq_iff}
use reactive_graph_experimen.Graph.{NodeEntry}
use reactive_graph_experimen.Engine.{
  Engine, drop_node, set_ref_count, deactivate_node, deactivate, enough, remove_all,
}
use reactive_graph_experimen.Engine.Removal.{
  entries-drop_node, entries-set_ref_count, deactivate_last, deactivate_node_counted,
  length-pos_of_lookup,
}

-- A source that was registered more than once, and a node that was registered once and reads the source
-- alone.
pub record IsShared (e : Engine) (source reader : NodeId) : Type 0 where
  pub source_entry : NodeEntry
  pub reader_entry : NodeEntry
  pub other : source ≢ reader
  pub source_found : lookup source e.graph.entries ≡ some source_entry
  pub source_shared : 1 < source_entry.ref_count
  pub source_deps : source_entry.deps ≡ []
  pub reader_found : lookup reader e.graph.entries ≡ some reader_entry
  pub reader_once : reader_entry.ref_count ≡ 1
  pub reader_deps : reader_entry.deps ≡ source ∷ []

module _ (e : Engine) (source reader : NodeId) (shared : IsShared e source reader) where
  open shared use {
    source_entry, reader_entry, other, source_found, source_shared, source_deps, reader_found,
    reader_once, reader_deps,
  }

  abbrev dropped : Engine
  dropped = drop_node e reader reader_entry.kind

  -- After the reader went, the source counts one.
  abbrev counted : Engine
  counted = set_ref_count dropped source source_entry (source_entry.ref_count - 1)

  source_in_dropped : lookup source dropped.graph.entries ≡ some source_entry
  source_in_dropped =
      rw (entries-drop_node e reader reader_entry.kind)
        (ground (arith, lookup-remove reader source e.graph.entries, id_beq_iff reader source))

  deactivate_reader : deactivate e reader ≡ counted
  deactivate_reader =
      deactivate_last e reader reader_entry reader_found (omega arith)
      ∙ rw reader_deps (
          by_fuel (length e.graph.entries)
            (length-pos_of_lookup e.graph.entries reader reader_found))
    where
      by_fuel : (n : ℕ) → 0 < n → deactivate_node n dropped source ≡ counted
      by_fuel zero h = absurd (omega arith)
      by_fuel (suc n) h =
          deactivate_node_counted dropped source source_entry source_in_dropped n (omega arith)

  lookup-counted :
      (x : NodeId)
      → lookup x counted.graph.entries ≡ (
          if source == x
          then some (record source_entry { ref_count = source_entry.ref_count - 1 })
          else if reader == x
          then none
          else lookup x e.graph.entries)
  lookup-counted x =
      rw
        (
          entries-set_ref_count dropped source source_entry (source_entry.ref_count - 1),
          lookup-insert,
          entries-drop_node e reader reader_entry.kind,
          lookup-remove,
        )
        refl

  abbrev counted_entry : NodeEntry
  counted_entry = record source_entry { ref_count = source_entry.ref_count - 1 }

  source_in_counted : lookup source counted.graph.entries ≡ some counted_entry
  source_in_counted = ground (arith, lookup-counted source, eq_refl source)

  -- The entry of the source when both of its counts were taken.
  abbrev pub counted_twice : Option NodeEntry
  counted_twice =
      if leb source_entry.ref_count 2
      then none
      else some (record source_entry { ref_count = source_entry.ref_count - 2 })

  deactivate-source_last :
      leb source_entry.ref_count 2 ≡ true
      → deactivate counted source ≡ drop_node counted source source_entry.kind
  deactivate-source_last last =
      deactivate_last counted source counted_entry source_in_counted (ground (arith, last))
      ∙ rw source_deps refl

  deactivate-source_more :
      leb source_entry.ref_count 2 ≡ false
      → deactivate counted source
        ≡ set_ref_count counted source counted_entry (counted_entry.ref_count - 1)
  unfolding deactivate enough
  deactivate-source_more more =
      deactivate_node_counted counted source counted_entry source_in_counted
        (length counted.graph.entries) (ground (arith, more))

  lookup-deactivate-source :
      (x : NodeId)
      → lookup x (deactivate counted source).graph.entries
        ≡ (if source == x then counted_twice else lookup x counted.graph.entries)
  lookup-deactivate-source x = elim (Bool-cases (leb source_entry.ref_count 2)) [
    | inl last ↦
        rw
          (
            deactivate-source_last last,
            entries-drop_node counted source source_entry.kind,
            lookup-remove,
            last,
          )
          refl
    | inr more ↦
        rw
          (
            deactivate-source_more more,
            entries-set_ref_count counted source counted_entry (counted_entry.ref_count - 1),
            lookup-insert,
            more,
          )
          (ap
            (λ n.
              if source == x
              then some (record source_entry { ref_count = n })
              else lookup x counted.graph.entries)
            (omega arith))
  ]

  -- Dropping the handle of one subgraph, with the nodes `source` and `reader`, takes the reader away, and
  -- takes two of the registrations of the source: one with the reader, which it counts down as its
  -- dependency, and one as a node of the subgraph. A source that was registered twice is taken away
  -- with them. All other entries stay, those that still read the source among them.
  pub lookup-remove_all_shared :
      (x : NodeId)
      → lookup x (remove_all e (source ∷ reader ∷ [])).graph.entries ≡ (
          if source == x
          then counted_twice
          else if reader == x
          then none
          else lookup x e.graph.entries)
  unfolding remove_all
  lookup-remove_all_shared x =
      rw (deactivate_reader, lookup-deactivate-source x, lookup-counted x)
        (ground (arith, eq_cases source x))
