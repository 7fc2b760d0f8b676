-- ===== src/Agents/Query/Correlation/Counts.antt =====
-- agents/query.py: what the search for an address reports for CloudTrail.
use tengen.Prelude.{
  String, false, List, [], ◌∷◌, ◌≡◌, refl, ap, ◌⊎◌, inl, inr, Result, ok, raised, ◌>>=◌, arith, All,
  is_ok, Error,
}
use tengen.Value.Native.{json, datetime, dumps_native}
use tengen.Agents.Query.CloudTrail.{
  Event, dumps_events, entries_of, query_cloudtrail_by_ip, ip_query,
}
use tengen.Agents.Json.{
  dict_of, rest-fails, or_error, get_path, error_json, later-fails, count_items,
}
use tengen.Value.{Value, Fields, arr, no_items, null, get_in, get, get?, pos, int}
use tengen.Enrichment.Requests.{World}
use tengen.Agents.Query.Correlation.{correlate_ip_across_sources, pos, int, cloudtrail_entry}

-- boto3 gives each event an EventTime, and every time as a datetime.
abbrev pub HasTime : Event → Type 0
HasTime [] = ⊥
HasTime ((k, json v) ∷ es) = HasTime es
HasTime ((k, datetime t) ∷ es) = (k ≡ "EventTime") ⊎ HasTime es

dict_of-entries_of : (e : Event) → HasTime e → is_ok (dict_of (entries_of e)) ≡ false
unfolding dict_of entries_of dumps_native
dict_of-entries_of [] h = elim h [ ]
dict_of-entries_of ((k, json v) ∷ es) h =
    later-fails k (ok v) (entries_of es) (dict_of-entries_of es h)
dict_of-entries_of ((k, datetime t) ∷ es) h = refl

dumps_events-fails :
    (e : Event) (es : List Event) → HasTime e → is_ok (dumps_events (e ∷ es)) ≡ false
unfolding dumps_events
dumps_events-fails e es h = rest-fails _ _ (rest-fails _ _ (dict_of-entries_of e h))

module _ (describe : Error → String) where
  abbrev reply : Result (List Event) → Value
  reply r = or_error describe (r >>= λ es. dumps_events es >>= λ vs. ok (arr vs))

  or_error-fails :
      (r : Result Value)
      → is_ok r ≡ false
      → (e : Error) × (or_error describe r ≡ error_json describe e)
  or_error-fails (raised e) h = (e, refl)
  or_error-fails (ok v) h = ground arith

  -- A list that is printed is empty.
  reply-cases :
      (r : Result (List Event))
      → ((es : List Event) → r ≡ ok es → All HasTime es)
      → ((r ≡ ok []) × (reply r ≡ arr no_items)) ⊎ ((e : Error) × (reply r ≡ error_json describe e))
  unfolding dumps_events
  reply-cases (raised e) h = inr (e, refl)
  reply-cases (ok []) h = inl (refl, refl)
  reply-cases (ok (e ∷ es)) h =
      inr (or_error-fails _ (rest-fails _ _ (dumps_events-fails e es (h (e ∷ es) refl).0)))

  -- What the search reports for CloudTrail
  module _ (lookup_events : Fields → Result (List Event)) (w : World)
      (score : Value → Value → Result Value) where
    abbrev pub reported : String → String → String → Result Value
    reported ip start_time end_time =
        get_path (correlate_ip_across_sources lookup_events w score describe ip start_time end_time)
          ("sources" ∷ "cloudtrail" ∷ []) null

    -- Let every event that CloudTrail gives have its time, as a datetime. Then the search reports 0 where
    -- CloudTrail gives no events, and an error in every other case, but never a number of events.
    pub correlate-uncounted :
        ((kwargs : Fields) (es : List Event) → lookup_events kwargs ≡ ok es → All HasTime es)
        → (ip start_time end_time : String)
        → ((lookup_events (ip_query ip start_time end_time (pos 10)) ≡ ok [])
            × (reported ip start_time end_time ≡ ok (int (pos 0))))
          ⊎ ((e : Error) × (reported ip start_time end_time ≡ ok (error_json describe e)))
    unfolding correlate_ip_across_sources query_cloudtrail_by_ip get_path get_in get get?
        count_items
    correlate-uncounted h ip start_time end_time =
        elim (reply-cases (lookup_events (ip_query ip start_time end_time (pos 10)))
          (h (ip_query ip start_time end_time (pos 10)))) [
            | inl (k, q) ↦ inl (k, ap (λ v. ok (cloudtrail_entry v)) q)
            | inr (e, q) ↦ inr (e, ap (λ v. ok (cloudtrail_entry v)) q)
          ]
