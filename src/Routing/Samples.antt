-- ===== src/Routing/Samples.antt =====
-- The routing theorems at concrete alerts.
use tengen.Prelude.{
  ℕ, ◌+◌, String, Bool, true, false, none, some, List, [], ◌∷◌, ◌++◌, ◌≡◌, ◌≢◌, refl, sym, ◌⊎◌, ok,
  Done, All,
}
use tengen.Value.{Value, Fields, field, end, str, obj, get?}
use tengen.Models.Alert.{Alert}
use tengen.Models.Alert.Sample.{sample_codec, sample_alert, validate}
use tengen.Routing.Registry.{match, all_routes, Route}
use tengen.Routing.Registry.Matching.{Misses, IsFirst, match_lem}
use tengen.Routing.Routes.{
  loaded, cloudtrail_route, matches_cloudtrail, matches_eks, matches_guardduty, matches_gcp,
  matches_azure, matches_crowdstrike, matches_k8s, matches_firewall, firewall_route,
}
use tengen.Routing.Routes.Azure.{match-ne-azure}
use tengen.Routing.Router.{Router, route_alert, dlq_message}
use tengen.Routing.Router.Delivery.{route_alert-ending, ack-routed, Leaves, ending}
use tengen.Routing.Router.DeadLetters.{
  on_message-dlq_message, redeliver-letters, redeliver, refusals, letters,
}
use tengen.Queue.Consumer.{on_message, ack, nack}

abbrev show : Value → String
show v = "?"

abbrev cloudtrail_payload : Fields
cloudtrail_payload =
    field "eventSource" (str "s3.amazonaws.com") (field "eventVersion" (str "1.08") end)

abbrev azure_payload : Fields
azure_payload =
    field "action" (str "DENY")
      (field "resourceProvider" (obj (field "value" (str "Microsoft.Compute") end)) end)

abbrev router : List Bool → Router
router faults = record {
  publisher = record { connected = true; published = []; faults = faults };
  emitting = true;
  emitted = [];
}

abbrev alert : Alert
alert = sample_alert cloudtrail_payload

found : match cloudtrail_payload (loaded show) ≡ some cloudtrail_route
unfolding match matches_cloudtrail
found = refl

match_lem_example :
    ((route : Route) × (match cloudtrail_payload (loaded show) ≡ some route)
      × IsFirst cloudtrail_payload (all_routes (loaded show)) route)
    ⊎ ((match cloudtrail_payload (loaded show) ≡ none)
        × All (Misses cloudtrail_payload) (all_routes (loaded show)))
match_lem_example = match_lem cloudtrail_payload (loaded show)

match-ne-azure_example : ◌≢◌ {A = String} "network.firewall" "cloud.azure.activity"
unfolding get? match matches_cloudtrail matches_eks matches_guardduty matches_gcp matches_azure
    matches_crowdstrike matches_k8s matches_firewall
match-ne-azure_example =
    match-ne-azure show azure_payload (field "value" (str "Microsoft.Compute") end) firewall_route
      refl refl

route_alert-ending_example :
    Leaves sample_codec "now" "refused" alert
      (match cloudtrail_payload (loaded show))
      (router (true ∷ []))
      (route_alert sample_codec "now" "refused" (loaded show) alert (router (true ∷ [])))
      (ending (match cloudtrail_payload (loaded show)) (true ∷ []))
route_alert-ending_example =
    route_alert-ending sample_codec "now" "refused" (loaded show) alert (router (true ∷ [])) refl
      refl

accepted :
    (on_message sample_codec
      (route_alert sample_codec "now" "" (loaded show))
      (sample_codec.dump alert)
      (router [])).0
    ≡ ack
unfolding on_message route_alert match matches_cloudtrail validate
accepted = refl

ack-routed_example :
    (on_message sample_codec
      (route_alert sample_codec "now" "" (loaded show))
      (sample_codec.dump alert)
      (router [])).1.publisher.published
    ≡ record { queue = "runbook.cloudtrail"; body = sample_codec.dump alert } ∷ []
ack-routed_example =
    ack-routed sample_codec "now" "" (loaded show) alert cloudtrail_route (router []) found accepted

note : Alert → ℕ → Done × ℕ
note a n = (ok tt, n + 1)

on_message-dlq_message_example :
    on_message sample_codec note (dlq_message sample_codec "now" "" alert "no_route_matched" "") 7
    ≡ (nack false, 7)
on_message-dlq_message_example =
    on_message-dlq_message sample_codec "now" "" note alert "no_route_matched" "" 7

three_refusals : refusals 3 ≡ true ∷ false ∷ true ∷ false ∷ true ∷ false ∷ []
unfolding refusals
three_refusals = refl

abbrev deliveries : List (String × String)
deliveries = ("t1", "refused") ∷ ("t2", "refused") ∷ ("t3", "closed") ∷ []

redeliver-letters_example :
    (redeliver sample_codec
      (loaded show)
      deliveries
      (sample_codec.dump alert)
      (router (true ∷ false ∷ true ∷ false ∷ true ∷ false ∷ []))).publisher.published
    ≡ [] ++ letters sample_codec alert deliveries
redeliver-letters_example =
    redeliver-letters sample_codec (loaded show) deliveries alert cloudtrail_route
      (router (true ∷ false ∷ true ∷ false ∷ true ∷ false ∷ [])) found refl (sym three_refusals)
