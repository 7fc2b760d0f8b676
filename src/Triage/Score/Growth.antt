-- ===== src/Triage/Score/Growth.antt =====
-- One more event in an incident.
use native.Mathlib.Decide.{dec_lt}
use native.Mathlib.Nat.{
  mul-le-mul, mul-lt-mul_of_pos_right, mul-lt-mul_of_pos_left, mul-pos, le_trans, le_refl,
}
use tengen.Prelude.{
  ℕ, ◌≤◌, ◌<◌, ◌≡◌, ◌*◌, String, List, [], ◌∷◌, ◌++◌, arith, length, length-append, any, true,
}
use tengen.Models.NormalizedEvent.{NormalizedEvent}
use tengen.Models.Incident.{Incident}
use tengen.Triage.Correlation.{Stamp, extend}
use tengen.Triage.Score.{
  source_weight, max_severity, recurrence_factor, boost, is_privileged, Rounding, score_incident,
  score_events,
}
use tengen.Triage.Score.Bounds.{
  severity_score_bounds, source_weight_bounds, recurrence_factor_bounds, boost_bounds,
}

max_severity-append :
    (es : List NormalizedEvent) (e : NormalizedEvent)
    → max_severity es ≤ max_severity (es ++ e ∷ [])
unfolding max_severity
max_severity-append [] e = omega arith
max_severity-append (x ∷ es) e = omega (arith, max_severity-append es e)

max_severity_pos : (e : NormalizedEvent) (es : List NormalizedEvent) → 0 < max_severity (e ∷ es)
unfolding max_severity
max_severity_pos e es = omega (arith, severity_score_bounds e.severity)

recurrence_factor_mono : (m n : ℕ) → m ≤ n → recurrence_factor m ≤ recurrence_factor n
unfolding recurrence_factor
recurrence_factor_mono m n h = omega arith

any-append :
    (es : List NormalizedEvent) (e : NormalizedEvent)
    → any is_privileged es ≡ true
    → any is_privileged (es ++ e ∷ []) ≡ true
any-append [] e h = cc
any-append (x ∷ es) e h = ground (arith, any-append es e)

boost-append : (es : List NormalizedEvent) (e : NormalizedEvent) → boost es ≤ boost (es ++ e ∷ [])
unfolding boost
boost-append es e = ground (arith, any-append es e)

-- Of two products with factors above 0, the one with a larger factor, and none smaller, is larger.
module _ (s s' w r r' b b' : ℕ) (ps : 0 < s) (pw : 0 < w) (pr : 0 < r) (pb : 0 < b) (hs : s ≤ s')
    (hr : r ≤ r') (hb : b ≤ b') where
  product-lt_of_s : s < s' → s * w * r * b < s' * w * r' * b'
  product-lt_of_s h =
      le_trans
        (mul-lt-mul_of_pos_right (mul-lt-mul_of_pos_right (mul-lt-mul_of_pos_right h pw) pr) pb)
        (mul-le-mul (mul-le-mul (le_refl (s' * w)) hr) hb)

  product-lt_of_r : r < r' → s * w * r * b < s' * w * r' * b'
  product-lt_of_r h =
      le_trans (mul-lt-mul_of_pos_right (mul-lt-mul_of_pos_left h (mul-pos ps pw)) pb)
        (mul-le-mul (mul-le-mul (mul-le-mul hs (le_refl w)) (le_refl r')) hb)

  product-lt_of_b : b < b' → s * w * r * b < s' * w * r' * b'
  product-lt_of_b h =
      le_trans (mul-lt-mul_of_pos_left h (mul-pos (mul-pos ps pw) pr))
        (mul-le-mul (mul-le-mul (mul-le-mul hs (le_refl w)) hr) (le_refl b'))

round2_mono :
    (rounding : Rounding) (s s' w r r' b b' : ℕ)
    → 0 < s
    → 0 < w
    → 0 < r
    → 0 < b
    → s ≤ s'
    → r ≤ r'
    → b ≤ b'
    → rounding.round2 s w r b ≤ rounding.round2 s' w r' b'
round2_mono rounding s s' w r r' b b' ps pw pr pb hs hr hb =
    let below = rounding.from_above s w r b in
    let above = rounding.from_below s' w r' b' in
    elim (dec_lt s s') [
      | yes h ↦ omega (arith, product-lt_of_s s s' w r r' b b' ps pw pr pb hs hr hb h)
      | no h ↦ elim (dec_lt r r') [
        | yes k ↦ omega (arith, product-lt_of_r s s' w r r' b b' ps pw pr pb hs hr hb k)
        | no k ↦ elim (dec_lt b b') [
          | yes l ↦ omega (arith, product-lt_of_b s s' w r r' b b' ps pw pr pb hs hr hb l)
          | no l ↦
              let es : s ≡ s' = omega arith in
              let er : r ≡ r' = omega arith in
              let eb : b ≡ b' = omega arith in rw (es, er, eb) (le_refl _)
        ]
      ]
    ]

pub score_events-append :
    (rounding : Rounding) (es : List NormalizedEvent) (e : NormalizedEvent)
    → score_events rounding es ≤ score_events rounding (es ++ e ∷ [])
score_events-append rounding [] e = omega arith
score_events-append rounding (x ∷ es) e =
    round2_mono rounding (max_severity (x ∷ es)) (max_severity (x ∷ es ++ e ∷ []))
      (source_weight x.source_type) (recurrence_factor (length (x ∷ es)))
      (recurrence_factor (length (x ∷ es ++ e ∷ []))) (boost (x ∷ es)) (boost (x ∷ es ++ e ∷ []))
      (max_severity_pos x es) (omega (arith, source_weight_bounds x.source_type))
      (omega (arith, recurrence_factor_bounds (length (x ∷ es))))
      (omega (arith, boost_bounds (x ∷ es))) (max_severity-append (x ∷ es) e)
      (recurrence_factor_mono (length (x ∷ es)) (length (x ∷ es ++ e ∷ []))
        (omega (arith, length-append {0} es (e ∷ []))))
      (boost-append (x ∷ es) e)

-- When an event joins an incident, its score does not fall.
pub score_incident-extend :
    (rounding : Rounding) (parse : String → Stamp) (now : ℕ) (stamp new_id : String)
    (event : NormalizedEvent) (incident : Incident)
    → score_incident rounding incident
      ≤ score_incident rounding (extend parse now stamp new_id event incident)
unfolding score_incident extend
score_incident-extend rounding parse now stamp new_id event incident =
    score_events-append rounding incident.events event
