-- ===== src/Heal/Keys.antt =====
-- The key of an incident tells incidents apart.
use zyris_docker.Prelude.{
  ℕ, ◌≡◌, ◌≢◌, refl, if◌then◌else◌, subst, Bool, true, false, not, ◌==◌, ◌++◌, List, [], ◌∷◌, map,
  filterb, all, All, Any, All-append, arith, Result, ok, err, Bool-cases, inl, inr,
}
use zyris_docker.Prelude.Text.{Text}
use zyris_docker.K8s.{PodInfo, NodeInfo}
use zyris_docker.Heal.Defs.{
  Incident, Probes, Watched, process_incident, container_incident, pod_incident, cluster_incident,
  node_incident, pod_down, pod_incidents, node_incidents, sample, key,
}

abbrev no_colon : Text → Bool
no_colon t = all (λ c. not (c == b':')) t

colon_apart : (c : ℕ) → no_colon (c ∷ []) ≡ true → c ≢ b':'
colon_apart c h e = ground arith

split_at_colon :
    (a b x y : Text)
    → no_colon a ≡ true
    → no_colon b ≡ true
    → a ++ (b':' ∷ x) ≡ b ++ (b':' ∷ y)
    → (a ≡ b) × (x ≡ y)
split_at_colon [] [] x y ha hb e = (refl, cc)
split_at_colon [] (d ∷ b) x y ha hb e = ground arith
split_at_colon (c ∷ a) [] x y ha hb e = ground arith
split_at_colon (c ∷ a) (d ∷ b) x y ha hb e =
    let rest = split_at_colon a b x y (ground arith) (ground arith) (cc) in
    (ground (arith, rest.0), rest.1)

All-map-filter {ℓ κ} :
    {A : Type ℓ} {B : Type κ} (P : B → Type 0) (f : A → B) (p : A → Bool)
    → ((a : A) → P (f a))
    → (xs : List A) → All P (map f (filterb p xs))
All-map-filter P f p h [] = tt
All-map-filter P f p h (x ∷ xs) = elim (Bool-cases (p x)) [
  | inl e ↦ rw e (h x, All-map-filter P f p h xs)
  | inr e ↦ rw e (All-map-filter P f p h xs)
]

All-Any :
    (P : Incident → Type 0) (i : Incident) (xs : List Incident)
    → All P xs
    → Any (λ x. x ≡ i) xs
    → P i
All-Any P i [] h m = absurd m
All-Any P i (x ∷ xs) (h, hs) (inl e) = subst P e h
All-Any P i (x ∷ xs) (h, hs) (inr m) = All-Any P i xs hs m

abbrev Plain : Incident → Type 0
Plain i = no_colon i.kind ≡ true

pods-Plain : (pods : Result Text (List PodInfo)) → All Plain (pod_incidents pods)
unfolding pod_incident cluster_incident
pods-Plain (ok pods) = All-map-filter Plain pod_incident pod_down (λ pod. refl) pods
pods-Plain (err e) = (refl, tt)

nodes-Plain : (nodes : Result Text (List NodeInfo)) → All Plain (node_incidents nodes)
unfolding node_incident
nodes-Plain (ok nodes) =
    All-map-filter Plain node_incident (λ node. not node.ready) (λ node. refl) nodes
nodes-Plain (err e) = tt

cluster-Plain :
    (watched : Bool) (probes : Probes)
    → All Plain (
        if watched
        then pod_incidents probes.cluster_pods ++ node_incidents probes.cluster_nodes
        else [])
cluster-Plain false probes = tt
cluster-Plain true probes =
    All-append Plain _ _ (pods-Plain probes.cluster_pods) (nodes-Plain probes.cluster_nodes)

sample-Plain : (watched : Watched) (probes : Probes) → All Plain (sample watched probes)
unfolding sample process_incident container_incident
sample-Plain watched probes =
    All-append Plain _ _
      (All-map-filter Plain process_incident _ (λ name. refl) watched.watch_processes)
      (All-append Plain _ _
        (All-map-filter Plain container_incident _ (λ name. refl) watched.watch_containers)
        (cluster-Plain watched.watch_k8s probes))

-- Two incidents that the watcher samples, at one tick or at different ticks and whatever was
-- probed at them, and that have the same key are of the same kind and have the same name. So no
-- incident is taken for another one that was reported.
pub sample-key :
    (watched : Watched) (before now : Probes) (i j : Incident)
    → Any (λ x. x ≡ i) (sample watched before)
    → Any (λ x. x ≡ j) (sample watched now)
    → key i ≡ key j
    → (i.kind ≡ j.kind) × (i.name ≡ j.name)
unfolding key
sample-key watched before now i j hi hj e =
    split_at_colon i.kind j.kind i.name j.name
      (All-Any Plain i (sample watched before) (sample-Plain watched before) hi)
      (All-Any Plain j (sample watched now) (sample-Plain watched now) hj) e
