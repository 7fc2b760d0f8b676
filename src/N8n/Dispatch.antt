-- ===== src/N8n/Dispatch.antt =====
-- agents/router.py: the two tools of the router agent. A text of JSON is kept as the value that
-- `json.dumps` is given, or that `json.loads` gives.
use tengen.Prelude.{
  ℕ, String, Bool, true, false, Option, none, some, Result, ok, raised, value_error, ◌≡◌, ◌↔◌,
  arith, if◌then◌else◌,
}
use tengen.Value.{Value, field, end, obj, str, null, bool, int, pos, has}
use tengen.N8n.Resolver.{RouteMatch, RouteResolver, File, resolve}
use tengen.N8n.Client.{N8nClient, Answer, Outcome, returned, request_failed, invalid_json, execute}

abbrev text_or_null : Option String → Value
text_or_null none = null
text_or_null (some s) = str s

abbrev number_or_null : Option ℕ → Value
number_or_null none = null
number_or_null (some n) = int (pos n)

-- The dictionary of a match, and that of `NoRouteError`
abbrev described : String → String → Option String → Option RouteMatch → Value
described vendor category event_type (some m) = obj (
    field "webhook_url" m.webhook_url
      (field "route_path" (str m.route_path) (field "description" m.description end)))
described vendor category event_type none = obj (
    field "error" (str "no_route") (
      field "vendor" (str vendor)
        (field "category" (str category) (field "event_type" (text_or_null event_type) end))))

abbrev describe : String → String → Option String → Result (Option RouteMatch) → Result Value
describe vendor category event_type (raised e) = raised e
describe vendor category event_type (ok found) = ok (described vendor category event_type found)

unfoldable pub resolve_route :
    String → String → Option String → Option File → RouteResolver → Result Value × RouteResolver
resolve_route vendor category event_type file r =
    let (found, r') = resolve vendor category event_type file r in
    (describe vendor category event_type found, r')

-- `details` is the text of the exception, in both cases of failure.
module _ (details : String) where
  abbrev report : Outcome → Result Value
  report (returned v) = ok v
  report (request_failed f) = ok (
      obj (
        field "error" (str "webhook_failed") (
          field "details" (str details) (
            field "url" (str f.url) (
              field "status" (number_or_null f.status)
                (field "attempts" (int (pos f.attempts)) (field "dlq" (bool true) end)))))))
  report invalid_json = raised value_error

  unfoldable pub execute_webhook : N8nClient → String → Bool → (ℕ → Answer) → Result Value
  execute_webhook client url payload_parses answers =
      if payload_parses
      then report (execute client url answers).0
      else ok (obj (field "error" (str "invalid_payload") (field "details" (str details) end)))

abbrev pub reports_error : Result Value → Bool
reports_error (ok (obj fs)) = has "error" fs
reports_error _ = false

-- The tool reports an error exactly when the resolver found no route.
pub resolve_route-error_iff :
    (vendor category : String) (event_type : Option String) (file : Option File) (r : RouteResolver)
    → (reports_error (resolve_route vendor category event_type file r).0 ≡ true)
      ↔ ((resolve vendor category event_type file r).0 ≡ ok none)
unfolding resolve_route has
resolve_route-error_iff vendor category event_type file r = ground arith
