-- ===== src/Graph/Strings/Names/Tables.antt =====
-- A table of names (stack-graphs/src/graph.rs) has one handle for each string.
use stack_graphs_muffet.Prelude.{
  ◌≡◌, refl, ap, sym, ◌∙◌, subst, Bool-cases, inl, inr, if◌then◌else◌, List, [], ◌∷◌, none, some,
  arith,
}
use native.Mathlib.Decide.{ℕ_discrete}
use stack_graphs_muffet.Prelude.Same.{same, same_refl, same_sound}
use stack_graphs_muffet.Arena
use stack_graphs_muffet.Arena.{Arena, Handle}
use stack_graphs_muffet.Arena.Laws.{HasRoom, get-add_self, get-add_old, get-add_ne}
use stack_graphs_muffet.Graph.Strings
use stack_graphs_muffet.Graph.Strings.{Bytes, InternedStringArena, InternedStringContent, as_str}
use stack_graphs_muffet.Graph.Strings.Laws.{IsValid, Keeps, add-as_str, add-Keeps}
use stack_graphs_muffet.Graph.Strings.Names.{Table, reads_as, lookup, insert_new}

-- Each key of the hash map can be read.
pub data IsReadable (a : InternedStringArena) : List (InternedStringContent × Handle) → Type 0 where
  no_keys : IsReadable a []
  one_key :
      (c : InternedStringContent) (h : Handle) (rest : List (InternedStringContent × Handle))
      (w : Bytes)
      → as_str a c ≡ some w
      → IsReadable a rest
      → IsReadable a ((c, h) ∷ rest)

-- The hash map has the handle of each item under its content, and nothing else.
pub record IsTable (a : InternedStringArena) (t : Table) : Type 0 where
  pub readable : IsReadable a t.handles
  pub known :
      (h : Handle) (c : InternedStringContent)
      → Arena.get t.items h ≡ some c
      → (w : Bytes) × (as_str a c ≡ some w) × (lookup a t.handles w ≡ some h)
  pub sound :
      (w : Bytes) (h : Handle)
      → lookup a t.handles w ≡ some h
      → (c : InternedStringContent) × (Arena.get t.items h ≡ some c) × (as_str a c ≡ some w)

lookup-cons :
    (a : InternedStringArena) (c : InternedStringContent) (h : Handle)
    (rest : List (InternedStringContent × Handle)) (name w : Bytes)
    → as_str a c ≡ some w
    → lookup a ((c, h) ∷ rest) name ≡ (if same w name then some h else lookup a rest name)
unfolding lookup
lookup-cons a c h rest name w e = ap (λ z. if reads_as z name then some h else lookup a rest name) e

IsReadable-Keeps :
    (a b : InternedStringArena) (handles : List (InternedStringContent × Handle))
    → Keeps a b
    → IsReadable a handles
    → IsReadable b handles
IsReadable-Keeps a b [] k no_keys = no_keys
IsReadable-Keeps a b ((c, h) ∷ rest) k (one_key _ _ _ w e r) =
    one_key c h rest w (k.kept c w e) (IsReadable-Keeps a b rest k r)

lookup-Keeps :
    (a b : InternedStringArena) (handles : List (InternedStringContent × Handle)) (name : Bytes)
    → Keeps a b
    → IsReadable a handles
    → lookup b handles name ≡ lookup a handles name
lookup-Keeps a b [] name k no_keys = unfold lookup in refl
lookup-Keeps a b ((c, h) ∷ rest) name k (one_key _ _ _ w e r) =
    let later = lookup-Keeps a b rest name k r in
    ground
      (arith, lookup-cons a c h rest name w e, lookup-cons b c h rest name w (k.kept c w e), later)

-- A table stays one when strings are added elsewhere.
pub IsTable-Keeps : (a b : InternedStringArena) (t : Table) → Keeps a b → IsTable a t → IsTable b t
IsTable-Keeps a b t k i = record {
  readable = IsReadable-Keeps a b t.handles k i.readable;
  known = λ h c e.
      let here = i.known h c e in
      (here.0, k.kept c here.0 here.1, lookup-Keeps a b t.handles here.0 k i.readable ∙ here.2);
  sound = λ w h e.
      let here = i.sound w h (sym (lookup-Keeps a b t.handles w k i.readable) ∙ e) in
      (here.0, here.1, k.kept here.0 w here.2);
}

-- The tables after a new name.
pub insert_new-IsTable :
    (a : InternedStringArena) (t : Table) (name : Bytes)
    → IsValid a
    → IsTable a t
    → HasRoom 1 t.items
    → lookup a t.handles name ≡ none
    → IsTable (insert_new a t name).0.0 (insert_new a t name).0.1
unfolding insert_new
insert_new-IsTable a t name v i room missing = record {
  readable = one_key c h t.handles name fresh old.readable;
  known = λ k d e. elim (ℕ_discrete k h) [
    | yes same_handle ↦
        let one : d ≡ c = ground (
          arith,
          e,
          same_handle,
          get-add_self t.items c room,
          ap (Arena.get (Arena.add t.items c).0) same_handle,
        ) in
        (
          name,
          ap (as_str b) one ∙ fresh,
          lookup-cons b c h t.handles name name fresh ∙ ground (arith, same_refl name, same_handle),
        )
    | no other ↦
        let was : Arena.get t.items k ≡ some d = sym (get-add_ne t.items c k room other) ∙ e in
        let here = old.known k d was in (here.0, here.1, known_old here.0 k here.2)
  ];
  sound = λ w k e. elim (Bool-cases (same name w)) [
    | inl eq ↦
        let handle : k ≡ h = ground (arith, e, eq, lookup-cons b c h t.handles w name fresh) in
        (
          c,
          subst (λ z. Arena.get (Arena.add t.items c).0 z ≡ some c) (sym handle)
              (get-add_self t.items c room),
          fresh ∙ ap some (same_sound name w eq),
        )
    | inr ne ↦
        let was : lookup b t.handles w ≡ some k =
          ground (arith, e, ne, lookup-cons b c h t.handles w name fresh) in
        let here = old.sound w k was in (here.0, get-add_old t.items c here.0 k here.1, here.2)
  ];
}
  where
    b : InternedStringArena
    b = (Strings.add a name).0

    c : InternedStringContent
    c = (Strings.add a name).1

    h : Handle
    h = (Arena.add t.items c).1

    fresh : as_str b c ≡ some name
    fresh = add-as_str a name v

    old : IsTable b t
    old = IsTable-Keeps a b t (add-Keeps a name v) i

    known_old :
        (w : Bytes) (k : Handle)
        → lookup b t.handles w ≡ some k
        → lookup b ((c, h) ∷ t.handles) w ≡ some k
    known_old w k e = elim (Bool-cases (same name w)) [
      | inl eq ↦
          let none_there : lookup b t.handles name ≡ none =
            lookup-Keeps a b t.handles name (add-Keeps a name v) i.readable ∙ missing in
          let there : lookup b t.handles name ≡ some k =
            subst (λ z. lookup b t.handles z ≡ some k) (sym (same_sound name w eq)) e in
          absurd (ground (arith, none_there, there))
      | inr ne ↦ ground (arith, e, ne, lookup-cons b c h t.handles w name fresh)
    ]
