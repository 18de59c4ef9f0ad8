-- ===== src/Graph/EdgeStore.antt =====
-- stack-graphs/src/graph.rs, `OutgoingEdge` and the operations of `StackGraph` on its edges and on the
-- debug information of edges.
pub mod Search
pub mod Sorted
pub mod Degrees
use stack_graphs_muffet.Prelude.{
  ℕ, zero, suc, ◌==◌, ltb, if◌then◌else◌, Bool, List, [], ◌∷◌, map, Option, none, some, ℤ, set,
  get_elem?,
}
use mathlib.Core.Option
use stack_graphs_muffet.Arena.{Handle}
use stack_graphs_muffet.Arena.Supplemental
use stack_graphs_muffet.Arena.Supplemental.{SupplementalArena}
use stack_graphs_muffet.Graph.Edges
use stack_graphs_muffet.Graph.Edges.{Edge, Degree, add_degree}

pub record OutgoingEdge : Type 0 where
  pub sink : Handle
  pub precedence : ℤ

-- The result of a binary search: where the key is, or where it would be.
pub data Position : Type 0 where
  found : (i : ℕ) → Position
  missing : (i : ℕ) → Position

one_further : Position → Position
one_further (found i) = found (suc i)
one_further (missing i) = missing (suc i)

-- `binary_search_by_key`, by what it gives on a slice with increasing keys.
unfoldable pub search {ℓ} : {A : Type ℓ} → (A → ℕ) → List A → ℕ → Position
unfolding one_further
search key [] k = missing 0
search key (x ∷ xs) k =
    let rest = one_further (search key xs k) in
    if key x == k then found 0 else if ltb (key x) k then rest else missing 0

-- `Vec::insert`, at an index in range.
unfoldable pub insert {ℓ} : {A : Type ℓ} → List A → ℕ → A → List A
insert xs zero x = x ∷ xs
insert [] (suc i) x = x ∷ []
insert (y ∷ ys) (suc i) x = y ∷ insert ys i x

-- The fields of `StackGraph` that hold the edges.
pub record EdgeStore : Type 0 where
  pub outgoing_edges : SupplementalArena (List OutgoingEdge)
  pub incoming_edges : SupplementalArena Degree

abbrev pub edges_of : SupplementalArena (List OutgoingEdge) → Handle → List OutgoingEdge
edges_of outgoing source = elim (Supplemental.get outgoing source) [ none ↦ [] | some es ↦ es ]

abbrev pub degree_of : SupplementalArena Degree → Handle → Degree
degree_of incoming sink = elim (Supplemental.get incoming sink) [ none ↦ Degree.zero | some d ↦ d ]

abbrev pub put_edges :
    SupplementalArena (List OutgoingEdge)
    → Handle
    → List OutgoingEdge
    → SupplementalArena (List OutgoingEdge)
put_edges outgoing source edges = Supplemental.put_or_default [] outgoing source edges

abbrev pub sink_of : OutgoingEdge → Handle
sink_of o = o.sink

-- An index through `[source]` creates the entry of the source.
unfoldable pub add_edge : EdgeStore → Handle → Handle → ℤ → EdgeStore
unfolding search insert add_degree Supplemental.get Supplemental.put_or_default
add_edge g source sink precedence =
    let edges = edges_of g.outgoing_edges source in
    elim (search sink_of edges sink) [
      | found i ↦ record g { outgoing_edges = put_edges g.outgoing_edges source edges }
      | missing i ↦ record {
        outgoing_edges =
            put_edges g.outgoing_edges source
              (insert edges i (record { sink = sink; precedence = precedence }));
        incoming_edges =
            Supplemental.put_or_default Degree.zero g.incoming_edges sink
              (add_degree (degree_of g.incoming_edges sink) Degree.one);
      }
    ]

with_precedence : Option OutgoingEdge → ℤ → List OutgoingEdge → ℕ → List OutgoingEdge
with_precedence none precedence edges i = edges
with_precedence (some o) precedence edges i = set edges i (record o { precedence = precedence })

unfoldable pub set_edge_precedence : EdgeStore → Handle → Handle → ℤ → EdgeStore
unfolding search with_precedence Supplemental.get Supplemental.put_or_default
set_edge_precedence g source sink precedence =
    let edges = edges_of g.outgoing_edges source in
    record g {
      outgoing_edges = put_edges g.outgoing_edges source (elim (search sink_of edges sink) [
        | found i ↦ with_precedence (get_elem? edges i) precedence edges i
        | missing i ↦ edges
      ]);
    }

unfoldable pub outgoing_edges : EdgeStore → Handle → List Edge
unfolding Supplemental.get
outgoing_edges g source =
    map (λ (o : OutgoingEdge). record { source = source; sink = o.sink; precedence = o.precedence })
      (edges_of g.outgoing_edges source)

unfoldable pub incoming_edge_degree : EdgeStore → Handle → Degree
unfolding Supplemental.get
incoming_edge_degree g sink = degree_of g.incoming_edges sink

pub record DebugEntry : Type 0 where
  pub key : Handle
  pub value : Handle

abbrev pub DebugInfo : Type 0
DebugInfo = List DebugEntry

abbrev pub EdgeDebugInfo : Type 0
EdgeDebugInfo = SupplementalArena (List (Handle × DebugInfo))

abbrev infos_of : EdgeDebugInfo → Handle → List (Handle × DebugInfo)
infos_of infos source = elim (Supplemental.get infos source) [ none ↦ [] | some es ↦ es ]

abbrev info_key : Handle × DebugInfo → Handle
info_key e = e.0

unfoldable pub edge_debug_info : EdgeDebugInfo → Handle → Handle → Option DebugInfo
unfolding search Supplemental.get
edge_debug_info infos source sink = elim (search info_key (infos_of infos source) sink) [
  | found i ↦ Option.map (λ (e : Handle × DebugInfo). e.1) (get_elem? (infos_of infos source) i)
  | missing i ↦ none
]

-- `edge_debug_info_mut`, with the new value written through the reference.
unfoldable pub edge_debug_info_mut :
    EdgeDebugInfo → Handle → Handle → (DebugInfo → DebugInfo) → EdgeDebugInfo
unfolding search insert Supplemental.get Supplemental.put_or_default
edge_debug_info_mut infos source sink change =
    let es = infos_of infos source in
    Supplemental.put_or_default [] infos source (elim (search info_key es sink) [
      | found i ↦ elim (get_elem? es i) [ none ↦ es | some e ↦ set es i (e.0, change e.1) ]
      | missing i ↦ insert es i (sink, change [])
    ])
