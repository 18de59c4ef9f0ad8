-- ===== src/Stitching/LocalNodes/Progress.antt =====
-- The rounds of `find_local_nodes` (stack-graphs/src/stitching.rs) and the marks that are left to set.
use stack_graphs_muffet.Prelude.{
  ℕ, ◌+◌, ◌≤◌, ◌<◌, ◌≡◌, refl, ap, sym, ◌∙◌, subst, ◌&&◌, ◌||◌, not, ◌⊎◌, inl, inr, Bool,
  Bool-cases, true, false, if◌then◌else◌, List, [], ◌∷◌, length, arith,
}
use stack_graphs_muffet.Arena.{Handle}
use stack_graphs_muffet.Arena.HandleSet
use stack_graphs_muffet.Arena.HandleSet.{HandleSet, contains}
use stack_graphs_muffet.Arena.HandleSet.Laws.{contains-add}
use stack_graphs_muffet.Partial.Path.{PartialPath}
use stack_graphs_muffet.Stitching.LocalNodes.{Marks, check_forwards, check_backwards, check_paths}
use stack_graphs_muffet.Stitching.LocalNodes.Sound.{Among, here, there, Within, Within-tail}

-- Whether the path is closed under the marks.
unfoldable pub settled : Marks → PartialPath → Bool
unfolding contains
settled m p =
    (not (contains m.starts p.start_node) || contains m.starts p.end_node)
    && (not (contains m.ends p.end_node) || contains m.ends p.start_node)

check_path : Marks → PartialPath → Marks
unfolding check_forwards check_backwards
check_path m p = check_backwards (check_forwards m p) p

-- A path that changes nothing is settled.
check_path-keep :
    (m : Marks) (p : PartialPath)
    → (check_path m p).keep_checking ≡ false
    → (settled m p ≡ true) × (check_path m p ≡ m) × (m.keep_checking ≡ false)
unfolding check_path check_forwards check_backwards settled
check_path-keep m p e =
    elim (Bool-cases (contains m.starts p.start_node && not (contains m.starts p.end_node))) [
      | inl change ↦
          elim (Bool-cases (not (contains m.ends p.start_node) && contains m.ends p.end_node)) [
            | inl back ↦ absurd (ground (arith, e, change, back))
            | inr still ↦ absurd (ground (arith, e, change, still))
          ]
      | inr same ↦
          elim (Bool-cases (not (contains m.ends p.start_node) && contains m.ends p.end_node)) [
            | inl change ↦ absurd (ground (arith, e, same, change))
            | inr same' ↦ (
              ground (arith, same, same'),
              ground (arith, same, same'),
              ground (arith, e, same, same'),
            )
          ]
    ]

pub check_paths-keep :
    (m : Marks) (ps : List PartialPath)
    → (check_paths m ps).keep_checking ≡ false
    → (check_paths m ps ≡ m)
      × (m.keep_checking ≡ false)
      × ((p : PartialPath) → Among p ps → settled m p ≡ true)
unfolding check_paths check_path
check_paths-keep m [] e = (refl, e, none_there)
  where
    none_there : (p : PartialPath) → Among p [] → settled m p ≡ true
    none_there p at = elim at [ ]
check_paths-keep m (q ∷ ps) e =
    let later = check_paths-keep (check_path m q) ps e in
    let now = check_path-keep m q later.1 in
    (
      later.0 ∙ now.1,
      now.2,
      all now.0 (λ p at. subst (λ z. settled z p ≡ true) now.1 (later.2 p at)),
    )
  where
    all :
        settled m q ≡ true
        → ((p : PartialPath) → Among p ps → settled m p ≡ true)
        → (p : PartialPath) → Among p (q ∷ ps)
        → settled m p ≡ true
    all first rest p (here _) = first
    all first rest p (there _ _ at) = rest p at

-- The marks that a path can still set.
unfoldable pub open_marks : Marks → PartialPath → ℕ
open_marks m p =
    (if contains m.starts p.end_node then 0 else 1)
    + (if contains m.ends p.start_node then 0 else 1)

unfoldable pub open_total : Marks → List PartialPath → ℕ
unfolding open_marks
open_total m [] = 0
open_total m (p ∷ ps) = open_marks m p + open_total m ps

pub open_total-bound : (m : Marks) (ps : List PartialPath) → open_total m ps ≤ length ps + length ps
unfolding open_total open_marks
open_total-bound m [] = omega arith
open_total-bound m (p ∷ ps) =
    let rest = open_total-bound m ps in
    let one : open_marks m p ≤ 2 =
      bound (contains m.starts p.end_node) (contains m.ends p.start_node) in
    omega (arith, rest, one)
  where
    bound : (a b : Bool) → (if a then 0 else 1) + (if b then 0 else 1) ≤ 2
    bound true true = omega arith
    bound true false = omega arith
    bound false true = omega arith
    bound false false = omega arith

record Grows (m m' : Marks) : Type 0 where
  starts : (n : Handle) → contains m.starts n ≡ true → contains m'.starts n ≡ true
  ends : (n : Handle) → contains m.ends n ≡ true → contains m'.ends n ≡ true

Grows-open : (m m' : Marks) (p : PartialPath) → Grows m m' → open_marks m' p ≤ open_marks m p
unfolding open_marks
Grows-open m m' p g =
    let a =
      less (contains m.starts p.end_node) (contains m'.starts p.end_node) (g.starts p.end_node) in
    let b =
      less (contains m.ends p.start_node) (contains m'.ends p.start_node) (g.ends p.start_node) in
    omega (arith, a, b)
  where
    less : (a b : Bool) → (a ≡ true → b ≡ true) → (if b then 0 else 1) ≤ (if a then 0 else 1)
    less true b f = ground (arith, f refl)
    less false true f = omega arith
    less false false f = omega arith

Grows-total :
    (m m' : Marks) (ps : List PartialPath) → Grows m m' → open_total m' ps ≤ open_total m ps
unfolding open_total
Grows-total m m' [] g = omega arith
Grows-total m m' (p ∷ ps) g = omega (arith, Grows-open m m' p g, Grows-total m m' ps g)

-- A path that has one mark less makes the total smaller.
Grows-strict :
    (m m' : Marks) (p : PartialPath) (ps : List PartialPath)
    → Among p ps
    → Grows m m'
    → open_marks m' p < open_marks m p
    → open_total m' ps < open_total m ps
unfolding open_total
Grows-strict m m' p [] at g h = elim at [ ]
Grows-strict m m' p (q ∷ ps) (here _) g h = omega (arith, h, Grows-total m m' ps g)
Grows-strict m m' p (q ∷ ps) (there _ _ at) g h =
    omega (arith, Grows-strict m m' p ps at g h, Grows-open m m' q g)

-- A check leaves the marks, or leaves fewer to set.
unfoldable pub Progress : Marks → Marks → List PartialPath → Type 0
Progress m m' ps = (m' ≡ m) ⊎ (open_total m' ps < open_total m ps)

forwards-Progress :
    (m : Marks) (p : PartialPath) (ps : List PartialPath)
    → Among p ps
    → Progress m (check_forwards m p) ps
unfolding Progress
forwards-Progress m p ps at =
    elim (Bool-cases (contains m.starts p.start_node && not (contains m.starts p.end_node))) [
      | inr same ↦ inl (unfold check_forwards in ground (arith, same))
      | inl change ↦
          let m' : Marks = record m {
            keep_checking = true;
            starts = HandleSet.add m.starts p.end_node;
            local_nodes = HandleSet.remove m.local_nodes p.end_node;
          } in
          let step : check_forwards m p ≡ m' = unfold check_forwards in ground (arith, change) in
          let grows : Grows m m' = record {
            starts = λ n e. ground (arith, e, contains-add m.starts p.end_node n);
            ends = λ n e. e;
          } in
          let less : open_marks m' p < open_marks m p =
            unfold open_marks in
            fewer (ground (arith, change))
              (ground (arith, contains-add m.starts p.end_node p.end_node)) in
          inr (
            subst (λ z. open_total z ps < open_total m ps) (sym step)
              (Grows-strict m m' p ps at grows less))
    ]
  where
    fewer :
        contains m.starts p.end_node ≡ false
        → contains (HandleSet.add m.starts p.end_node) p.end_node ≡ true
        → (if contains (HandleSet.add m.starts p.end_node) p.end_node then 0 else 1)
            + (if contains m.ends p.start_node then 0 else 1)
          < (if contains m.starts p.end_node then 0 else 1)
            + (if contains m.ends p.start_node then 0 else 1)
    fewer a b = ground (arith, a, b)

backwards-Progress :
    (m : Marks) (p : PartialPath) (ps : List PartialPath)
    → Among p ps
    → Progress m (check_backwards m p) ps
unfolding Progress
backwards-Progress m p ps at =
    elim (Bool-cases (not (contains m.ends p.start_node) && contains m.ends p.end_node)) [
      | inr same ↦ inl (unfold check_backwards in ground (arith, same))
      | inl change ↦
          let m' : Marks = record m {
            keep_checking = true;
            ends = HandleSet.add m.ends p.start_node;
            local_nodes = HandleSet.remove m.local_nodes p.start_node;
          } in
          let step : check_backwards m p ≡ m' = unfold check_backwards in ground (arith, change) in
          let grows : Grows m m' = record {
            starts = λ n e. e;
            ends = λ n e. ground (arith, e, contains-add m.ends p.start_node n);
          } in
          let less : open_marks m' p < open_marks m p =
            unfold open_marks in
            fewer (ground (arith, change))
              (ground (arith, contains-add m.ends p.start_node p.start_node)) in
          inr (
            subst (λ z. open_total z ps < open_total m ps) (sym step)
              (Grows-strict m m' p ps at grows less))
    ]
  where
    fewer :
        contains m.ends p.start_node ≡ false
        → contains (HandleSet.add m.ends p.start_node) p.start_node ≡ true
        → (if contains m.starts p.end_node then 0 else 1)
            + (if contains (HandleSet.add m.ends p.start_node) p.start_node then 0 else 1)
          < (if contains m.starts p.end_node then 0 else 1)
            + (if contains m.ends p.start_node then 0 else 1)
    fewer a b = ground (arith, a, b)

Progress-trans :
    (m m' m'' : Marks) (ps : List PartialPath)
    → Progress m m' ps
    → Progress m' m'' ps
    → Progress m m'' ps
unfolding Progress
Progress-trans m m' m'' ps (inl e) (inl f) = inl (f ∙ e)
Progress-trans m m' m'' ps (inl e) (inr f) = inr (omega (arith, f, ap (λ z. open_total z ps) e))
Progress-trans m m' m'' ps (inr e) (inl f) = inr (omega (arith, e, ap (λ z. open_total z ps) f))
Progress-trans m m' m'' ps (inr e) (inr f) = inr (omega (arith, e, f))

pub check_paths-Progress :
    (m : Marks) (qs ps : List PartialPath) → Within qs ps → Progress m (check_paths m qs) ps
unfolding check_paths
check_paths-Progress m [] ps w = unfold Progress in inl refl
check_paths-Progress m (q ∷ qs) ps w =
    let forth = check_forwards m q in
    let both = check_backwards forth q in
    let one = forwards-Progress m q ps (w q (here qs)) in
    let two = backwards-Progress forth q ps (w q (here qs)) in
    let rest = check_paths-Progress both qs ps (Within-tail q qs ps w) in
    Progress-trans m forth (check_paths both qs) ps one
      (Progress-trans forth both (check_paths both qs) ps two rest)
