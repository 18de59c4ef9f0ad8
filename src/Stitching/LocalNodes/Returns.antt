-- ===== src/Stitching/LocalNodes/Returns.antt =====
-- The loop of `find_local_nodes` (stack-graphs/src/stitching.rs) ends, and what it has then.
use stack_graphs_muffet.Prelude.{
  ℕ, zero, suc, ◌+◌, ◌<◌, ◌≡◌, ◌↔◌, refl, ap, sym, ◌∙◌, subst, inl, inr, Bool-cases, true, false,
  List, [], ◌∷◌, length, some, arith,
}
use stack_graphs_muffet.Arena.{Handle}
use stack_graphs_muffet.Arena.HandleSet.{contains}
use stack_graphs_muffet.Partial.Path.{PartialPath}
use stack_graphs_muffet.Stitching.{Database}
use stack_graphs_muffet.Stitching.LocalNodes.{
  Marks, check_paths, check_loop, initial_marks, find_local_nodes, node_is_local,
}
use stack_graphs_muffet.Stitching.LocalNodes.Sound.{
  Among, FromRoot, ToRoot, is_endpoint, IsSound, check_paths-IsSound, initial_marks-IsSound,
  IsClosed, FromRoot-contains, ToRoot-contains,
}
use stack_graphs_muffet.Stitching.LocalNodes.Progress.{
  Progress, check_paths-Progress, check_paths-keep, open_marks, open_total, open_total-bound,
  settled,
}

abbrev fresh_round : Marks → Marks
fresh_round m = record m { keep_checking = false }

open_total-fresh :
    (m : Marks) (ps : List PartialPath) → open_total (fresh_round m) ps ≡ open_total m ps
unfolding open_total open_marks
open_total-fresh m [] = refl
open_total-fresh m (p ∷ ps) = ground (arith, open_total-fresh m ps)

fresh_round-IsSound :
    (ps : List PartialPath) (m : Marks) → IsSound ps m → IsSound ps (fresh_round m)
fresh_round-IsSound ps m i = record {
  local = i.local;
  from = i.from;
  to = i.to;
  start_root = i.start_root;
  start_jump_to = i.start_jump_to;
  end_root = i.end_root;
  end_jump_to = i.end_jump_to;
}

settled-IsClosed :
    (ps : List PartialPath) (m : Marks)
    → ((p : PartialPath) → Among p ps → settled m p ≡ true)
    → IsClosed ps m
settled-IsClosed ps m all = record {
  forwards = λ p at e. unfold settled in ground (arith, e, all p at);
  backwards = λ p at e. unfold settled in ground (arith, e, all p at);
}

check_loop_lem :
    (fuel : ℕ) (m : Marks) (ps : List PartialPath)
    → IsSound ps m
    → open_total m ps < fuel
    → (m' : Marks) × (check_loop fuel m ps ≡ some m') × IsSound ps m' × IsClosed ps m'
unfolding Progress
check_loop_lem zero m ps i h = absurd (omega arith)
check_loop_lem (suc fuel) m ps i h =
    let checked = check_paths (fresh_round m) ps in
    let sound =
      check_paths-IsSound ps (fresh_round m) ps (λ p at. at) (fresh_round-IsSound ps m i) in
    elim (Bool-cases checked.keep_checking) [
      | inl again ↦
          let less : open_total (check_paths (fresh_round m) ps) ps < open_total m ps =
            fewer again (check_paths-Progress (fresh_round m) ps ps (λ p at. at)) in
          let rest = check_loop_lem fuel checked ps sound (omega (arith, h, less)) in
          let step : check_loop (suc fuel) m ps ≡ check_loop fuel checked ps =
            unfold check_loop in ground (arith, again) in
          (rest.0, step ∙ rest.1, rest.2, rest.3)
      | inr done ↦
          let kept = check_paths-keep (fresh_round m) ps done in
          let closed = settled-IsClosed ps (fresh_round m) kept.2 in
          (
            checked,
            unfold check_loop in ground (arith, done),
            sound,
            subst (IsClosed ps) (sym kept.0) closed,
          )
    ]
  where
    fewer :
        (check_paths (fresh_round m) ps).keep_checking ≡ true
        → Progress (fresh_round m) (check_paths (fresh_round m) ps) ps
        → open_total (check_paths (fresh_round m) ps) ps < open_total m ps
    fewer again (inl e) = absurd (ground (arith, again, ap (λ (z : Marks). z.keep_checking) e))
    fewer again (inr less) = omega (arith, less, open_total-fresh m ps)

-- `find_local_nodes` ends, and the local nodes are then the start and end nodes of paths that no sequence
-- of paths leads to from the root or the jump-to node, and from which none leads to these nodes.
pub find_local_nodes-local :
    (db : Database) (n : Handle)
    → (db' : Database) × (find_local_nodes db ≡ some db')
      × ((node_is_local db' n ≡ true) ↔ (
          (is_endpoint n db.partial_paths.items ≡ true)
          × (¬ FromRoot db.partial_paths.items n)
          × (¬ ToRoot db.partial_paths.items n)))
unfolding find_local_nodes node_is_local
find_local_nodes-local db n =
    let paths = db.partial_paths.items in
    let start = initial_marks db.local_nodes paths in
    let run =
      check_loop_lem (suc (length paths + length paths)) start paths
        (initial_marks-IsSound db.local_nodes paths)
        (omega (arith, open_total-bound start paths)) in
    let at = run.2.local n in
    (
      record db { local_nodes = run.0.local_nodes },
      ground (arith, run.1),
      (
        λ e. (
          ground (arith, e, at),
          λ from. absurd (ground (arith, e, at, FromRoot-contains paths run.0 n run.2 run.3 from)),
          λ to. absurd (ground (arith, e, at, ToRoot-contains paths run.0 n run.2 run.3 to)),
        ),
        λ (endpoint, no_from, no_to). elim (Bool-cases (contains run.0.starts n)) [
          | inl yes_from ↦ absurd (no_from (run.2.from n yes_from))
          | inr not_from ↦ elim (Bool-cases (contains run.0.ends n)) [
            | inl yes_to ↦ absurd (no_to (run.2.to n yes_to))
            | inr not_to ↦ ground (arith, at, endpoint, not_from, not_to)
          ]
        ],
      ),
    )
