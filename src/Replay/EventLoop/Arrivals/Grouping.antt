-- ===== src/Replay/EventLoop/Arrivals/Grouping.antt =====
-- Each request is replayed by its instance.
use infer_twin.Base.Dict.Laws.{
  lookup-insert, keys-insert_old, insert_new, keys-append, Distinct-snoc,
}
use infer_twin.Base.Dict.{contains, keys, lookup, insert, Distinct}
use infer_twin.Base.Order.Laws.{sorted-Perm}
use infer_twin.Base.Order.{sorted}
use infer_twin.Base.{
  String, List, [], ◌∷◌, ◌++◌, append-nil, append_assoc, ◌≡◌, refl, sym, ap, ◌∙◌, Bool-cases, inl,
  inr, str_eq, eq_iff, if◌then◌else◌,
}
use infer_twin.Replay.EventLoop.Arrivals.{or_empty, add_to_group, group, group_by_instance}
use infer_twin.Request.Arrival.{arrives_before}
use infer_twin.Request.Simulation.{SimulationRequest}
use mathlib.Core.List.{Perm}

-- the requests of one instance, in order
abbrev pub of_instance : String → List SimulationRequest → List SimulationRequest
of_instance uuid [] = []
of_instance uuid (r ∷ requests) =
    if str_eq r.instance_uuid uuid then r ∷ of_instance uuid requests else of_instance uuid requests

-- The requests, in the order of their replay, and the groups.
pub record Grouped (requests : List SimulationRequest)
    (groups : List (String × List SimulationRequest)) : Type 0 where
  pub same_requests : Perm (sorted arrives_before requests) requests
  pub one_group_each : Distinct (keys groups)
  pub of_each :
      (uuid : String)
      → or_empty (lookup uuid groups) ≡ of_instance uuid (sorted arrives_before requests)

add_to_group-lookup :
    (uuid : String) (r : SimulationRequest) (groups : List (String × List SimulationRequest))
    → or_empty (lookup uuid (add_to_group r groups))
      ≡ or_empty (lookup uuid groups) ++ of_instance uuid (r ∷ [])
unfolding add_to_group
add_to_group-lookup uuid r groups =
    let e =
      lookup-insert r.instance_uuid uuid (or_empty (lookup r.instance_uuid groups) ++ r ∷ [])
        groups in
    elim (Bool-cases (str_eq r.instance_uuid uuid)) [
      | inl same ↦ let p = (eq_iff r.instance_uuid uuid).0 same in rw (e, same, p) refl
      | inr other ↦ rw (e, other) (sym (append-nil (or_empty (lookup uuid groups))))
    ]

of_instance-cons :
    (uuid : String) (r : SimulationRequest) (requests : List SimulationRequest)
    → of_instance uuid (r ∷ []) ++ of_instance uuid requests ≡ of_instance uuid (r ∷ requests)
of_instance-cons uuid r requests = elim (Bool-cases (str_eq r.instance_uuid uuid)) [
  | inl same ↦ rw same refl
  | inr other ↦ rw other refl
]

group-lookup :
    (uuid : String) (requests : List SimulationRequest)
    (groups : List (String × List SimulationRequest))
    → or_empty (lookup uuid (group requests groups))
      ≡ or_empty (lookup uuid groups) ++ of_instance uuid requests
unfolding group
group-lookup uuid [] groups = sym (append-nil (or_empty (lookup uuid groups)))
group-lookup uuid (r ∷ requests) groups =
    group-lookup uuid requests (add_to_group r groups)
    ∙ ap (λ xs. xs ++ of_instance uuid requests) (add_to_group-lookup uuid r groups)
    ∙ append_assoc (or_empty (lookup uuid groups)) (of_instance uuid (r ∷ []))
        (of_instance uuid requests)
    ∙ ap (λ xs. or_empty (lookup uuid groups) ++ xs) (of_instance-cons uuid r requests)

Distinct-insert {ℓ} :
    {V : Type ℓ} (k : String) (v : V) (d : List (String × V))
    → Distinct (keys d)
    → Distinct (keys (insert k v d))
Distinct-insert k v d h = elim (Bool-cases (contains k (keys d))) [
  | inl old ↦ rw (keys-insert_old k v d old) h
  | inr new ↦
      let e : keys (insert k v d) ≡ keys d ++ k ∷ [] =
        ap keys (insert_new k v d new) ∙ keys-append d ((k, v) ∷ []) in
      rw e (Distinct-snoc k (keys d) new h)
]

group-Distinct :
    (requests : List SimulationRequest) (groups : List (String × List SimulationRequest))
    → Distinct (keys groups)
    → Distinct (keys (group requests groups))
unfolding group add_to_group
group-Distinct [] groups h = h
group-Distinct (r ∷ requests) groups h =
    group-Distinct requests (add_to_group r groups) (Distinct-insert r.instance_uuid _ groups h)

-- The requests are sorted, which loses none and adds none, and put into one group per instance: the group
-- of an instance holds exactly its requests, in the sorted order, and an instance without requests
-- has none.
pub group_by_instance-Grouped :
    (requests : List SimulationRequest) → Grouped requests (group_by_instance requests)
unfolding group_by_instance lookup
group_by_instance-Grouped requests = record {
  same_requests = sorted-Perm arrives_before requests;
  one_group_each = group-Distinct (sorted arrives_before requests) [] tt;
  of_each = λ uuid. group-lookup uuid (sorted arrives_before requests) [];
}
