-- ===== src/Tensorflow/Distributed/Hosts.antt =====
-- The hosts that a pod is told of: the flags, and the hosts of services just created.
use Prim.Native.String.{String, ◌++◌, slice}
use text.Mathlib.TextLemmas.{append_assoc}
use text.Mathlib.TextPositions.{len-append, slice-append_left}
use kubeflow_controller.Common.{◌-◌, ◌≡◌, refl, sym, ap, ◌∙◌, arith, List, [], ◌∷◌}
use kubeflow_controller.Tensorflow.Distributed.Spec.{add_hosts, drop_last, hosts_flag}

-- The hosts with commas between them.
abbrev pub joined : String → List String → String
joined h [] = h
joined h (k ∷ ks) = h ++ ("," ++ joined k ks)

add_hosts-joined :
    (s h : String) (hs : List String) → add_hosts s (h ∷ hs) ≡ (s ++ joined h hs) ++ ","
unfolding add_hosts
add_hosts-joined s h [] = sym (append_assoc s h ",")
add_hosts-joined s h (k ∷ ks) =
    add_hosts-joined (s ++ (h ++ ",")) k ks
    ∙ ap (λ t. t ++ ",")
        (append_assoc s (h ++ ",") (joined k ks)
          ∙ ap (λ t. s ++ t) (append_assoc h "," (joined k ks)))

drop_last-append : (t : String) → drop_last (t ++ ",") ≡ t
unfolding drop_last
drop_last-append t =
    ap (λ n. slice (t ++ ",") 0 n) (ap (λ n. n - 1) (len-append t ",") ∙ omega arith)
    ∙ slice-append_left t ","

-- A flag for one host or more is the flag's name and the hosts with commas between them: the comma
-- that the loop leaves at the end is cut off.
hosts_flag-joined :
    (flag h : String) (hs : List String) → hosts_flag flag (h ∷ hs) ≡ flag ++ joined h hs
unfolding hosts_flag
hosts_flag-joined flag h hs =
    ap drop_last (add_hosts-joined flag h hs) ∙ drop_last-append (flag ++ joined h hs)

-- With no host, the flag loses its last character.
no_hosts : hosts_flag "--ps_hosts=" [] ≡ "--ps_hosts"
unfolding hosts_flag
no_hosts = refl
