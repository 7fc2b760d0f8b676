-- ===== src/Udm/Updater/Fresh.antt =====
-- The proposals that are marked as new.
use tengen.Prelude.{
  String, Bool, true, false, ◌&&◌, none, List, [], ◌∷◌, ◌≡◌, inl, inr, ◌==◌, eq_iff, arith, All,
  one_of, Bool-cases, eq_refl,
}
use tengen.Udm.FieldRegistry.{Row, list_fields}
use tengen.Udm.Updater.{
  FieldProposal, Key, was_seen, proposal, seen_with, proposals_from, propose_from_registry,
  row_target, row_name, row_exists, exists_on, pos,
}
use tengen.Value.{pos}

abbrev pub same_key : String → String → FieldProposal → Bool
same_key t n p = p.target_model == t && p.field_name == n

-- The proposal is not a new one for the field `n` of the model `t`.
abbrev pub IsOther : String → String → FieldProposal → Type 0
IsOther t n p = (p.is_new && same_key t n p) ≡ false

-- A new proposal is for a field that its model lacks, and none behind it is for the same field.
abbrev pub IsFirst : FieldProposal → List FieldProposal → Type 0
IsFirst p ps =
    p.is_new ≡ true
    → (exists_on p.target_model p.field_name ≡ false) × All (IsOther p.target_model p.field_name) ps

abbrev pub AreFirst : List FieldProposal → Type 0
AreFirst [] = Unit
AreFirst (p ∷ ps) = IsFirst p ps × AreFirst ps

proposal-IsOther :
    (t n : String) (seen : List Key) (r : Row)
    → was_seen (t, n) seen ≡ true
    → IsOther t n (proposal r seen)
unfolding proposal
proposal-IsOther t n seen r h = ground (arith, eq_iff (row_target r) t, eq_iff (row_name r) n)

was_seen-with :
    (t n : String) (seen : List Key) (r : Row)
    → was_seen (t, n) seen ≡ true
    → was_seen (t, n) (seen_with r seen) ≡ true
unfolding was_seen
was_seen-with t n seen r h = ground arith

seen-IsOther :
    (statuses : List String) (t n : String) (seen : List Key) (rows : List Row)
    → was_seen (t, n) seen ≡ true
    → All (IsOther t n) (proposals_from statuses seen rows)
unfolding proposals_from
seen-IsOther statuses t n seen [] h = tt
seen-IsOther statuses t n seen (r ∷ rows) h = elim (Bool-cases (one_of r.status statuses)) [
  | inl e ↦ rw e (
    proposal-IsOther t n seen r h,
    seen-IsOther statuses t n (seen_with r seen) rows (was_seen-with t n seen r h),
  )
  | inr e ↦ rw e (seen-IsOther statuses t n seen rows h)
]

new-missing :
    (seen : List Key) (r : Row)
    → (proposal r seen).is_new ≡ true
    → exists_on (row_target r) (row_name r) ≡ false
unfolding proposal
new-missing seen r h = ground arith

was_seen_head :
    (seen : List Key) (r : Row)
    → row_exists r ≡ false
    → was_seen (row_target r, row_name r) (seen_with r seen) ≡ true
unfolding was_seen
was_seen_head seen r h = ground (arith, eq_refl (row_target r), eq_refl (row_name r))

proposal-IsFirst :
    (statuses : List String) (seen : List Key) (r : Row) (rows : List Row)
    → IsFirst (proposal r seen) (proposals_from statuses (seen_with r seen) rows)
unfolding proposal
proposal-IsFirst statuses seen r rows h =
    let missing = new-missing seen r h in
    (
      missing,
      seen-IsOther statuses (row_target r) (row_name r) (seen_with r seen) rows
          (was_seen_head seen r missing),
    )

proposals_from-AreFirst :
    (statuses : List String) (seen : List Key) (rows : List Row)
    → AreFirst (proposals_from statuses seen rows)
unfolding proposals_from
proposals_from-AreFirst statuses seen [] = tt
proposals_from-AreFirst statuses seen (r ∷ rows) = elim (Bool-cases (one_of r.status statuses)) [
  | inl e ↦ rw e (
    proposal-IsFirst statuses seen r rows,
    proposals_from-AreFirst statuses (seen_with r seen) rows,
  )
  | inr e ↦ rw e (proposals_from-AreFirst statuses seen rows)
]

-- For all statuses and rows, and however the rows are ordered, every proposal that is marked as new is
-- for a field that its model lacks, and no proposal behind it that is marked as new is for the same
-- field of the same model.
pub propose_from_registry-AreFirst :
    (order_by : List Row → List Row) (statuses : List String) (rows : List Row)
    → AreFirst (propose_from_registry order_by statuses rows)
unfolding propose_from_registry
propose_from_registry-AreFirst order_by statuses rows =
    proposals_from-AreFirst statuses [] (list_fields order_by none none (pos 10000) rows)
