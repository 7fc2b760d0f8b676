-- ===== src/Metrics/Emitter.antt =====
-- metrics/emitter.py. The broker keeps the messages of the metrics queue; whether each of the next
-- connections and publications fails is a schedule, and nothing fails when it is over.
pub mod Pipeline
use tengen.Prelude.{
  ℕ, zero, suc, ◌+◌, ◌-◌, ◌*◌, ◌/◌, ◌%◌, ◌≤◌, ◌<◌, String, Bool, true, false, not, ◌&&◌, ◌||◌,
  Option, none, some, List, [], ◌∷◌, ◌++◌, ◌≡◌, ◌≢◌, refl, sym, ap, subst, ◌∙◌, ◌⊎◌, inl, inr, ◌↔◌,
  Result, ok, raised, Done, ◌>>=◌, if◌then◌else◌, ◌==◌, eq_iff, arith, map, append-nil,
  append_assoc, is_some, get_or, length, all, any, All, Dict, lookup, insert, eqb, ltb, leb, one_of,
  Bool-cases, Option-cases, type_error, attribute_error, key_error, index_error, value_error,
  runtime_error, is_ok, value_or, some-injective, ok-injective,
}
use tengen.Value.{Value, Fields, str, obj, field, end}

-- `self._connection` and `self._channel`: `None`, or whether it is open
pub data Link : Type 0 where
  absent opened closed : Link

abbrev pub is_open : Link → Bool
is_open opened = true
is_open absent = false
is_open closed = false

pub record MetricsEmitter : Type 0 where
  pub connection : Link
  pub channel : Link
  pub sent : List Value
  pub connection_faults : List Bool
  pub publish_faults : List Bool

unfoldable pub reset : MetricsEmitter → MetricsEmitter
reset m = record m { connection = absent; channel = absent }

abbrev pub first_fault : List Bool → Bool
first_fault [] = false
first_fault (fault ∷ faults) = fault

abbrev pub later_faults : List Bool → List Bool
later_faults [] = []
later_faults (fault ∷ faults) = faults

-- A new connection with its channel, or whatever the broker raised
abbrev pub connect : MetricsEmitter → Bool × MetricsEmitter
connect m =
    let m' = record m { connection_faults = later_faults m.connection_faults } in
    if first_fault m.connection_faults
    then (false, reset m')
    else (true, record m' { connection = opened; channel = opened })

unfoldable pub ensure_connected : MetricsEmitter → Bool × MetricsEmitter
unfolding reset
ensure_connected m = if is_open m.connection && is_open m.channel then (true, m) else connect m

-- `data or {}`
abbrev pub data_or_empty : Option Fields → Fields
data_or_empty none = end
data_or_empty (some fs) = fs

abbrev pub message : String → String → Option Fields → Value
message now event fields = obj (
    field "event" (str event)
      (field "ts" (str now) (field "data" (obj (data_or_empty fields)) end)))

abbrev pub basic_publish : Value → MetricsEmitter → MetricsEmitter
basic_publish body m =
    let m' = record m { publish_faults = later_faults m.publish_faults } in
    if first_fault m.publish_faults then reset m' else record m' { sent = m.sent ++ body ∷ [] }

abbrev pub publish_if : Value → Bool × MetricsEmitter → MetricsEmitter
publish_if body (false, m) = m
publish_if body (true, m) = basic_publish body m

unfoldable pub emit : String → String → Option Fields → MetricsEmitter → MetricsEmitter
unfolding ensure_connected
emit now event fields m = publish_if (message now event fields) (ensure_connected m)

-- `close`: what closing raises is passed over.
unfoldable pub close : MetricsEmitter → MetricsEmitter
unfolding reset
close m = reset m

-- Events that are emitted one after another
unfoldable pub emit_all : String → List (String × Option Fields) → MetricsEmitter → MetricsEmitter
unfolding emit
emit_all now [] m = m
emit_all now ((event, fields) ∷ es) m = emit_all now es (emit now event fields m)
