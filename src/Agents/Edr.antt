-- ===== src/Agents/Edr.antt =====
-- agents/edr_runbook.py: the class of a detection.
use tengen.Prelude.{String, Option, List, [], ◌∷◌, ◌++◌, Result, ok, ◌>>=◌, if◌then◌else◌}
use tengen.Text.{lower, join}
use tengen.Value.{Value, str, arr, no_items, empty_obj, get_in}
use tengen.Agents.Json.{lower_of, parsed, elements, texts_of, any_in}
use tengen.Agents.Kubernetes.{class_or}

abbrev pub credential_words : List String
credential_words = "credential" ∷ "lsass" ∷ "mimikatz" ∷ "hashdump" ∷ "kerberoast" ∷ []

abbrev pub lateral_words : List String
lateral_words = "lateral" ∷ "smb" ∷ "pass-the-hash" ∷ "wmi" ∷ "psexec" ∷ "rdp" ∷ []

abbrev pub malware_words : List String
malware_words = "malware" ∷ "ransomware" ∷ "trojan" ∷ "backdoor" ∷ "dropper" ∷ "execution" ∷ []

unfoldable pub class_of_text : String → String
unfolding any_in
class_of_text s =
    if any_in credential_words s
    then "credential_dumping"
    else if any_in lateral_words s
    then "lateral_movement"
    else if any_in malware_words s
    then "malware_detection"
    else "malware_detection"

-- `b.get("tactic", b.get("Tactic", "")).lower()`
abbrev pub lower_field : String → String → Value → Result String
lower_field k j b = get_in b j (str "") >>= λ d. get_in b k d >>= λ v. lower_of v

-- `all_text`: the tags, the tactics and the techniques, in small letters
unfoldable pub all_text : Value → Result String
unfolding get_in elements texts_of lower join
all_text event = get_in event "raw_event" empty_obj >>= λ raw.
    get_in event "tags" (arr no_items) >>= λ ts. elements ts >>= λ tag_items.
    texts_of (λ t. lower_of t) tag_items >>= λ tags. get_in raw "Behaviors" (arr no_items) >>= λ d.
    get_in raw "behaviors" d >>= λ bs. elements bs >>= λ behaviors.
    texts_of (λ b. lower_field "tactic" "Tactic" b) behaviors >>= λ tactics.
    texts_of (λ b. lower_field "technique" "Technique" b) behaviors >>= λ techniques.
    ok (join " " (tags ++ tactics ++ techniques))

unfoldable pub classify : Value → Result String
unfolding all_text class_of_text
classify event = all_text event >>= λ s. ok (class_of_text s)

module _ (loads : String → Option Value) where
  unfoldable pub classify_threat_type : String → String
  unfolding classify
  classify_threat_type t = class_or "malware_detection" (parsed loads t >>= λ event. classify event)
