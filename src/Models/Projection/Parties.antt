-- ===== src/Models/Projection/Parties.antt =====
-- The actor and the target of an event, read off its projection.
use tengen.Prelude.{
  String, Bool, true, false, ◌≡◌, refl, Option, none, some, List, [], ◌∷◌, eq_iff, lookup, is_some,
  if◌then◌else◌, arith, get_or, Dict,
}
use tengen.Models.NormalizedEvent.{NormalizedEvent, ActorContext, TargetContext}
use tengen.Models.Udm.Nouns.{User, Resource, Noun}
use tengen.Models.Udm.Event.{Datetime, UdmEvent}
use tengen.Models.Projection.{to_udm, kept, actor_labels, user_of, at_most_one, principal_of}

-- The first of a list, or nothing.
abbrev pub first_text : List String → String
first_text [] = ""
first_text (s ∷ _) = s

abbrev pub userid_of : Option User → String
userid_of none = ""
userid_of (some u) = u.userid

abbrev pub label : String → Dict String → String
label k d = get_or (lookup k d) ""

abbrev actor : String → String → String → Bool → ActorContext
actor identity identity_type account_id is_privileged = record {
  identity = identity;
  identity_type = identity_type;
  account_id = account_id;
  is_privileged = is_privileged;
}

actor-ext :
    {i j t u c d : String} {p q : Bool}
    → i ≡ j
    → t ≡ u
    → c ≡ d
    → p ≡ q
    → actor i t c p ≡ actor j u d q
actor-ext hi ht hc hp = cc

abbrev pub actor_of : UdmEvent → ActorContext
actor_of u =
    actor (userid_of u.principal.user) (label "identity_type" u.principal.labels)
      u.principal.administrative_domain (is_some (lookup "is_privileged" u.principal.labels))

pub first-at_most_one : (s : String) → first_text (at_most_one s) ≡ s
first-at_most_one s = ground (arith, eq_iff s "")

userid_of-user_of : (s : String) → userid_of (user_of s) ≡ s
userid_of-user_of s = ground (arith, eq_iff s "")

label-type : (a : ActorContext) → label "identity_type" (kept (actor_labels a)) ≡ a.identity_type
unfolding kept lookup
label-type a = ground (arith, eq_iff a.identity_type "")

label-privileged :
    (t : String) (p : Bool)
    → is_some (
        lookup "is_privileged"
          (kept (("identity_type", t) ∷ ("is_privileged", if p then "true" else "") ∷ [])))
      ≡ p
unfolding kept lookup
label-privileged t true = ground (arith, eq_iff t "")
label-privileged t false = ground (arith, eq_iff t "")

-- The actor can be read off the projected event's principal.
pub actor_of-to_udm :
    (fromisoformat : String → Option Datetime) (e : NormalizedEvent)
    → actor_of (to_udm fromisoformat e) ≡ e.actor
unfolding to_udm principal_of
actor_of-to_udm fromisoformat e =
    actor-ext (userid_of-user_of e.actor.identity) (label-type e.actor) refl
      (label-privileged e.actor.identity_type e.actor.is_privileged)

-- The target context that the target's noun shows: no region.
abbrev name_of : Option Resource → String
name_of none = ""
name_of (some r) = r.name

abbrev type_of : Option Resource → String
type_of none = ""
type_of (some r) = r.resource_type

abbrev target : String → String → String → TargetContext
target resource_name resource_type namespace = record {
  resource_name = resource_name;
  resource_type = resource_type;
  region = "";
  namespace = namespace;
}

abbrev shown_target : Option Noun → TargetContext
shown_target none = target "" "" ""
shown_target (some n) = target (name_of n.resource) (type_of n.resource) n.namespace

abbrev pub target_of : UdmEvent → TargetContext
target_of u = shown_target u.target
