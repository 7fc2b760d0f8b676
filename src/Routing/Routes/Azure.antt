-- ===== src/Routing/Routes/Azure.antt =====
-- The Azure route, and activity logs whose provider is an object.
use tengen.Prelude.{String, ◌≡◌, ◌≢◌, some, raised, attribute_error, arith, eq_iff}
use tengen.Value.{Value, Fields, get?, obj}
use tengen.Routing.Registry.{Route, match}
use tengen.Routing.Routes.{loaded, matches_azure}

matches_azure-obj :
    (show : Value → String) (raw provider : Fields)
    → get? "resourceProvider" raw ≡ some (obj provider)
    → matches_azure show raw ≡ raised attribute_error
unfolding matches_azure
matches_azure-obj show raw provider h = rw h

-- A payload whose `resourceProvider` is an object makes the Azure matcher raise, whatever its
-- operation and tenant are, so that it takes another route or none.
pub match-ne-azure :
    (show : Value → String) (raw provider : Fields) (route : Route)
    → get? "resourceProvider" raw ≡ some (obj provider)
    → match raw (loaded show) ≡ some route
    → route.name ≢ "cloud.azure.activity"
unfolding match
match-ne-azure show raw provider route h found same = ground (
  arith,
  matches_azure-obj show raw provider h,
  eq_iff "cloud.aws.cloudtrail" "cloud.azure.activity",
  eq_iff "cloud.aws.eks" "cloud.azure.activity",
  eq_iff "cloud.aws.guardduty" "cloud.azure.activity",
  eq_iff "cloud.gcp.event_audit" "cloud.azure.activity",
  eq_iff "edr.crowdstrike" "cloud.azure.activity",
  eq_iff "k8s.audit" "cloud.azure.activity",
  eq_iff "network.firewall" "cloud.azure.activity",
)
