-- ===== src/Normalizers/Severities.antt =====
-- The severities of AWS and CrowdStrike events.
use tengen.Prelude.{String, Bool, true, ◌≡◌, refl, ok, ok-injective, some, sym, ◌∙◌}
use tengen.Value.{Value, Fields, get, get_in, is_text, str, obj, empty_obj, get?, holds}
use tengen.Models.Alert.{critical}
use tengen.Models.NormalizedEvent.{NormalizedEvent, ActorContext}
use tengen.Normalizers.Reading.{◌>>=◌}
use tengen.Normalizers.Building.{Environment, EventArgs, make_event, make_actor}
use tengen.Normalizers.Cloud.{normalize_aws, aws_severity, is_admin}
use tengen.Normalizers.Sources.{OnOk, OnOk-bind, OnOk-bind_known, of-OnOk, returned}
use tengen.Text.{contains}

-- The event is critical and its actor has privileges.
abbrev pub IsAlarming : NormalizedEvent → Type 0
IsAlarming e = (e.severity ≡ critical) × (e.actor.is_privileged ≡ true)

make_event-IsAlarming :
    (env : Environment) (a : EventArgs)
    → a.severity ≡ critical
    → a.actor.is_privileged ≡ true
    → OnOk IsAlarming (make_event env a)
unfolding make_event
make_event-IsAlarming env a s p = search (OnOk-bind, returned) depth 20

make_actor-privileged :
    (env : Environment) (identity identity_type account_id : Value) (p : Bool) (a : ActorContext)
    → make_actor env identity identity_type account_id p ≡ ok a
    → a.is_privileged ≡ p
make_actor-privileged env identity identity_type account_id p a h =
    of-OnOk {P = λ a. a.is_privileged ≡ p}
      (OnOk-bind _ _ (λ i. OnOk-bind _ _ (λ t. OnOk-bind _ _ (λ c. returned _ refl)))) h

is_admin-root : (t arn : Value) (p : Bool) → t ≡ str "Root" → is_admin t arn ≡ ok p → p ≡ true
unfolding is_admin is_text
is_admin-root t arn p e h =
    let k : is_admin (str "Root") arn ≡ ok p = rw e at h in sym (ok-injective k)

get_in-found :
    (v : Value) (fs : Fields) (k : String) (d t : Value)
    → v ≡ obj fs
    → get? k fs ≡ some t
    → get_in v k d ≡ ok t
unfolding get_in get
get_in-found v fs k d t e h = rw e (rw h refl)

module _ (raw identity : Fields) (dict : get "userIdentity" empty_obj raw ≡ obj identity)
    (root : get? "type" identity ≡ some (str "Root")) where
  root_type :
      (default : Value) → get_in (get "userIdentity" empty_obj raw) "type" default ≡ ok (str "Root")
  root_type default = get_in-found _ identity "type" default (str "Root") dict root

  aws_severity-root : aws_severity raw ≡ ok critical
  unfolding aws_severity ◌>>=◌ holds contains
  aws_severity-root = rw (root_type (str "")) refl

  -- An event of a Root identity is critical, and its actor is privileged, whatever else the payload
  -- holds.
  pub normalize_aws-root :
      (env : Environment) (e : NormalizedEvent) → normalize_aws env raw ≡ ok e → IsAlarming e
  unfolding normalize_aws
  normalize_aws-root env e h =
      of-OnOk {P = IsAlarming}
        (OnOk-bind _ _ (λ arn. OnOk-bind _ _ (λ account. OnOk-bind_known _ _ (λ t ht.
          OnOk-bind_known _ _ (λ p hp. OnOk-bind _ _ (λ first. OnOk-bind _ _ (λ name.
            OnOk-bind_known _ _ (λ actor ha. OnOk-bind _ _ (λ r. OnOk-bind _ _ (λ rn.
              OnOk-bind _ _ (λ rt. OnOk-bind _ _ (λ target. OnOk-bind _ _ (λ network.
                OnOk-bind_known _ _ (λ s hs.
                  make_event-IsAlarming env _ (ok-injective (sym hs ∙ aws_severity-root)) (
                    make_actor-privileged env name t account p actor ha
                    ∙ is_admin-root t arn p (ok-injective (sym ht ∙ root_type (str "Unknown")))
                        hp)))))))))))))))
        h
