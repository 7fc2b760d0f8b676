-- ===== src/Agents/Kubernetes/Classes.antt =====
-- agents/k8s_runbook.py: what an empty list of source addresses does.
use tengen.Prelude.{false, ◌≡◌, refl, Result, ok, raised, ◌>>=◌, is_ok}
use tengen.Value.{Value, arr, no_items, get_in, str, item, empty_obj, obj}
use tengen.Agents.Json.{head-fails, later-fails, rest-fails, json_dict, dict_of}
use tengen.Agents.Kubernetes.{entries, enrich_event, source_ip, first_of}

first_of-empty :
    (u event : Value) → is_ok (first_of (arr no_items) >>= λ d. get_in u "src_ip" d) ≡ false
unfolding first_of
first_of-empty u event = refl

source_ip-empty :
    (raw event : Value) (r : Result Value)
    → get_in raw "sourceIPs" (arr (item (str "") no_items)) ≡ ok (arr no_items)
    → is_ok (
        r >>= λ u. get_in raw "sourceIPs" (arr (item (str "") no_items)) >>= λ ips.
        first_of ips >>= λ d. get_in u "src_ip" d)
      ≡ false
source_ip-empty raw event (raised e) h = refl
source_ip-empty raw event (ok u) h = rw h (first_of-empty u event)

bind-fails :
    (r : Result Value) (f : Value → Result Value)
    → ((v : Value) → r ≡ ok v → is_ok (f v) ≡ false)
    → is_ok (r >>= f) ≡ false
bind-fails (raised e) f h = refl
bind-fails (ok v) f h = h v refl

entries-fail :
    (raw event o u : Value)
    → get_in raw "sourceIPs" (arr (item (str "") no_items)) ≡ ok (arr no_items)
    → is_ok (dict_of (entries raw event o u)) ≡ false
entries-fail raw event o u k = later-fails _ _ _ (
    later-fails _ _ _ (
      later-fails _ _ _ (
        later-fails _ _ _ (
          later-fails _ _ _ (
            later-fails _ _ _ (
              later-fails _ _ _ (
                head-fails "source_ip" (source_ip raw event) _
                  (source_ip-empty raw event (get_in event "network" empty_obj) k))))))))

-- An event whose raw event has an empty list of source addresses is answered with an error, also
-- when the normalized event knows the address: the default is computed before it is needed.
pub enrich_event-no_sources :
    (event raw : Value)
    → get_in event "raw_event" empty_obj ≡ ok raw
    → get_in raw "sourceIPs" (arr (item (str "") no_items)) ≡ ok (arr no_items)
    → is_ok (enrich_event event) ≡ false
unfolding enrich_event
enrich_event-no_sources event raw h k = rw h (
    bind-fails (get_in raw "objectRef" empty_obj)
      (λ o. get_in raw "user" empty_obj >>= λ u. json_dict (entries raw event o u))
      (λ o _.
        bind-fails (get_in raw "user" empty_obj) (λ u. json_dict (entries raw event o u))
          (λ u _.
            rest-fails (dict_of (entries raw event o u)) (λ fs. ok (obj fs))
              (entries-fail raw event o u k))))
