-- ===== src/Monitor/Errors.antt =====
-- Which methods of `monitor` fail, and with what.
use zyris_docker.Prelude.{ℕ, ◌≡◌, ◌⊎◌, Option, List, [], ◌∷◌, ◌++◌, Result, err}
use zyris_docker.Prelude.Text.{Text, codes}
use zyris_docker.Json.{Value}
use zyris_docker.System.{F32}
use zyris_docker.Docker.{run_docker, info_arguments}
use zyris_docker.K8s.{run_kubectl}
use zyris_docker.Monitor.{World, Call, list_docker, list_pods, list_nodes, get_container}

abbrev pub list_arguments : List Text
list_arguments =
    codes "ps" ∷ codes "-a" ∷ codes "--no-trunc" ∷ codes "--format" ∷ codes "{{json .}}" ∷ []

abbrev pub pods_arguments : List Text
pods_arguments = codes "get" ∷ codes "pods" ∷ codes "-A" ∷ codes "-o" ∷ codes "json" ∷ []

abbrev pub nodes_arguments : List Text
nodes_arguments = codes "get" ∷ codes "nodes" ∷ codes "-o" ∷ codes "json" ∷ []

module _ (f32 : F32) (whole_secs : Text → Option ℕ) (decode : List ℕ → Text)
    (from_str : Text → Option Value) (from_slice : List ℕ → Result Text Value) where
  -- Why a call may fail with a message.
  abbrev pub Fails : World → Call → Text → Type 0
  Fails w list_docker e = run_docker decode w.docker list_arguments ≡ err e
  Fails w (get_container selector) e =
      (run_docker decode w.docker (info_arguments from_str (run_docker decode w.docker) selector)
        ≡ err e)
      ⊎ (e ≡ codes "no container " ++ selector)
  Fails w list_pods e = run_kubectl decode from_slice w.kubectl pods_arguments ≡ err e
  Fails w list_nodes e = run_kubectl decode from_slice w.kubectl nodes_arguments ≡ err e
  Fails w _ e = ⊥
