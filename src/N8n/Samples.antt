-- ===== src/N8n/Samples.antt =====
-- The theorems on webhooks at concrete tables, servers and responses.
use tengen.Prelude.{
  ℕ, zero, suc, String, true, Option, none, some, [], ◌∷◌, ◌≡◌, ◌↔◌, ◌⊎◌, arith, refl, ok, ◌≤◌,
}
use tengen.Value.{Value, Fields, field, end, obj, str, get}
use tengen.Models.Alert.Sample.{sample_alert}
use tengen.N8n.Resolver.{RouteResolver, File, resolve, find_route}
use tengen.N8n.Resolver.Order.{first_leaf, candidates, find_route-first_leaf}
use tengen.N8n.Resolver.Reload.{HoldsTable, resolve-current}
use tengen.N8n.Client.{
  N8nClient, Answer, response, connection_error, execute, judge, request_failed,
}
use tengen.N8n.Client.Retries.{Retried, failed_after, execute-final, execute-exhausted}
use tengen.N8n.Response.{parse_response}
use tengen.N8n.Response.Extraction.{parse_response-error_iff}
use tengen.Text.{take_chars}

abbrev webhook : String → Value
webhook url = obj (field "webhook" (str url) end)

abbrev table : Fields
table =
    field "aws"
      (obj (
        field "cloudtrail"
          (obj (field "root_login" (webhook "u1") (field "_default" (webhook "u2") end))) end))
      (field "_default" (webhook "u0") end)

abbrev file : File
file = record { mtime = 7; loaded = obj (field "routes" (obj table) end) }

abbrev stale : RouteResolver
stale = record { mtime = 3; routes = obj end }

root_login_found :
    find_route "aws" "cloudtrail" (some "root_login") table
    ≡ some (record {
      webhook_url = str "u1";
      route_path = "aws.cloudtrail.root_login";
      description = str "";
    })
unfolding find_route
root_login_found = refl

find_route-first_leaf_example :
    find_route "aws" "cloudtrail" (some "root_login") table
    ≡ first_leaf (candidates "aws" "cloudtrail" (some "root_login")) table
find_route-first_leaf_example = find_route-first_leaf "aws" "cloudtrail" (some "root_login") table

file-HoldsTable : HoldsTable file table
unfolding get
file-HoldsTable = record {
  fields = field "routes" (obj table) end;
  is_dictionary = refl;
  entry = refl;
}

resolve-current_example :
    resolve "gcp" "audit" none (some file) stale
    ≡ (ok (find_route "gcp" "audit" none table), record { mtime = 7; routes = obj table })
resolve-current_example =
    resolve-current "gcp" "audit" none file table stale file-HoldsTable (λ e. absurd (omega arith))

-- The first attempt times out, the second is refused, a third would succeed.
answers : ℕ → Answer
answers zero = connection_error "timed out"
answers (suc zero) = response 404 "no such hook" none
answers (suc (suc _)) = response 200 "{}" (some (obj end))

client : ℕ → N8nClient
client n = record { max_retries = n }

first-Retried : (k : ℕ) → k ≤ 1 → Retried "u" answers 0 k
unfolding answers judge
first-Retried k h zero p q = (record { error = "timed out"; status = none }, refl)
first-Retried k h (suc j) p q = absurd (omega arith)

execute-final_example : execute (client 3) "u" answers ≡ (
  request_failed (record { url = "u"; status = some 404; detail = "no such hook"; attempts = 1 }),
  record { posts = 2; delays = 0 ∷ [] },
)
unfolding answers judge client take_chars
execute-final_example =
    execute-final (client 3) "u" answers 1
      (request_failed
        (record { url = "u"; status = some 404; detail = "no such hook"; attempts = 1 }))
      (omega arith) (first-Retried 1 (omega arith)) refl

execute-exhausted_example : execute (client 1) "u" answers ≡ (
  failed_after 1 "u" answers (record { error = "timed out"; status = none }),
  record { posts = 1; delays = [] },
)
unfolding answers judge client
execute-exhausted_example =
    execute-exhausted (client 1) "u" answers 0 (record { error = "timed out"; status = none }) refl
      (first-Retried 1 (omega arith)) refl

parse_response-error_iff_example :
    ((parse_response "now" none (sample_alert end) "aws").enrichment_error ≡ true)
    ↔ ((◌≡◌ {A = Option Fields} none none) ⊎ (none ≡ some end))
parse_response-error_iff_example = parse_response-error_iff "now" "aws" none (sample_alert end)
