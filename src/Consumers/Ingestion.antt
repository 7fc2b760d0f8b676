-- ===== src/Consumers/Ingestion.antt =====
-- What the consumers of consumers/ share: they make an alert of a payload, count it, and hand it to
-- the callback.
use tengen.Prelude.{
  ℕ, ◌+◌, String, Bool, true, false, List, [], ◌∷◌, ◌++◌, ◌≡◌, refl, ap, ◌⊎◌, inl, inr, raised,
  Done, value_error, is_ok,
}
use tengen.Value.{null, str, bool, int, float, arr, Value, Fields, obj, str, bool, int, float, arr}
use tengen.Models.Alert.{Alert, info}

-- What the factories of an alert's fields give: two fresh ids and the time
pub record Stamp : Type 0 where
  pub id : String
  pub alert_id : String
  pub received_at : String

-- `Alert(source=…, raw_payload=…, metadata=…)` of a payload that is a dictionary
abbrev pub new_alert : Stamp → String → Fields → Fields → Alert
new_alert stamp source payload metadata = record {
  id = stamp.id;
  source = source;
  received_at = stamp.received_at;
  raw_payload = payload;
  metadata = metadata;
  alert_id = stamp.alert_id;
  severity = info;
  event_type = "";
  timestamp = "";
  account_id = "";
  region = "";
  project_id = "";
}

-- An alert that the callback was given, and whether it returned
pub record Call : Type 0 where
  pub alert : Alert
  pub returned : Bool

-- The state that the callback acts on, the alerts that were made, the sources that were counted, and
-- the calls.
pub record Ingest (C : Type 0) : Type 0 where
  pub client : C
  pub made : ℕ
  pub counted : List String
  pub calls : List Call

-- A consumer: the ids and times to come, whether it has an emitter, and its callback
pub record Hooks (C : Type 0) : Type 0 where
  pub stamps : ℕ → Stamp
  pub emits : Bool
  pub callback : Alert → C → Done × C

module _ {C : Type 0} where
  abbrev pub counting : Bool → String → Ingest C → Ingest C
  counting true source s = record s { counted = s.counted ++ source ∷ [] }
  counting false source s = s

  abbrev pub called : Alert → Done × C → Ingest C → Done × Ingest C
  called alert (r, c) s = (
    r,
    record s { client = c; calls = s.calls ++ record { alert = alert; returned = is_ok r } ∷ [] },
  )

  -- The alert is made, counted and handed on; a payload that is no dictionary fails validation.
  unfoldable pub ingest : Hooks C → String → Value → Fields → Ingest C → Done × Ingest C
  ingest h source (obj payload) metadata s =
      let alert = new_alert (h.stamps s.made) source payload metadata in
      let s' = counting h.emits source (record s { made = s.made + 1 }) in
      called alert (h.callback alert s'.client) s'
  ingest h source _ metadata s = (raised value_error, s)

  pub counting-calls :
      (emits : Bool) (source : String) (s : Ingest C) → (counting emits source s).calls ≡ s.calls
  counting-calls true source s = refl
  counting-calls false source s = refl

  -- What is raised is no alert, or the alert that was made is the last of the calls.
  pub ingest-called :
      (h : Hooks C) (source : String) (payload : Value) (metadata : Fields) (s : Ingest C)
      → ((ingest h source payload metadata s).1 ≡ s)
          × ((ingest h source payload metadata s).0 ≡ raised value_error)
        ⊎ ((alert : Alert) × (alert.metadata ≡ metadata)
            × (payload ≡ obj alert.raw_payload)
            × ((ingest h source payload metadata s).1.calls
                ≡ s.calls
                  ++ record {
                    alert = alert;
                    returned = is_ok (ingest h source payload metadata s).0;
                  }
                    ∷ []))
  unfolding ingest
  ingest-called h source (obj payload) metadata s = inr (
    new_alert (h.stamps s.made) source payload metadata,
    refl,
    refl,
    ap
        (λ l.
          l
          ++ record {
            alert = new_alert (h.stamps s.made) source payload metadata;
            returned = is_ok (ingest h source (obj payload) metadata s).0;
          }
            ∷ [])
        (counting-calls h.emits source (record s { made = s.made + 1 })),
  )
  ingest-called h source (str x) metadata s = inl (refl, refl)
  ingest-called h source (bool x) metadata s = inl (refl, refl)
  ingest-called h source (int x) metadata s = inl (refl, refl)
  ingest-called h source (float x k) metadata s = inl (refl, refl)
  ingest-called h source (arr x) metadata s = inl (refl, refl)
  ingest-called h source null metadata s = inl (refl, refl)

  pub ingest-calls :
      (h : Hooks C) (source : String) (payload : Value) (metadata : Fields) (s : Ingest C)
      → ((ingest h source payload metadata s).1 ≡ s)
          × ((ingest h source payload metadata s).0 ≡ raised value_error)
        ⊎ ((alert : Alert) × (alert.metadata ≡ metadata)
            × ((ingest h source payload metadata s).1.calls
                ≡ s.calls
                  ++ record {
                    alert = alert;
                    returned = is_ok (ingest h source payload metadata s).0;
                  }
                    ∷ []))
  ingest-calls h source payload metadata s = elim (ingest-called h source payload metadata s) [
    | inl x ↦ inl x
    | inr (alert, e, _, k) ↦ inr (alert, e, k)
  ]
