-- ===== src/N8n/Resolver/Reload.antt =====
-- Reloading the table, and what an answer rests on.
use tengen.Prelude.{
  String, Option, none, some, ◌≡◌, ◌≢◌, arith, refl, ok, eqb_iff, eqb, Bool-cases, inl, inr,
}
use tengen.Value.{Value, Fields, obj, get?, get, empty_obj, str}
use tengen.N8n.Resolver.{
  RouteResolver, File, resolve, find_route, leaf, else_try, vendor_level, branch, RouteMatch, str,
}

-- The file holds a table: a dictionary whose entry `routes`, or the empty one, is a dictionary.
pub record HoldsTable (file : File) (routes : Fields) : Type 0 where
  pub fields : Fields
  pub is_dictionary : file.loaded ≡ obj fields
  pub entry : get "routes" empty_obj fields ≡ obj routes

-- What the resolver has loaded at the file's time of modification is the file's table.
abbrev pub IsConsistent : File → Fields → RouteResolver → Type 0
IsConsistent file routes r = file.mtime ≡ r.mtime → r.routes ≡ obj routes

else_try-some : {A : Type 0} (o : Option A) (a : A) → else_try o (some a) ≡ none → ⊥
else_try-some none a h = cc
else_try-some (some b) a h = cc

module _ (vendor category : String) (event_type : Option String) where
  -- With a readable file that holds a table, an answer is that of the file as it is now, and the
  -- resolver then has that table and its time.
  pub resolve-current :
      (file : File) (routes : Fields) (r : RouteResolver)
      → HoldsTable file routes
      → IsConsistent file routes r
      → resolve vendor category event_type (some file) r ≡ (
        ok (find_route vendor category event_type routes),
        record { mtime = file.mtime; routes = obj routes },
      )
  unfolding resolve
  resolve-current file routes r table consistent = elim (Bool-cases (eqb file.mtime r.mtime)) [
    | inl same ↦
        let t : file.mtime ≡ r.mtime = (eqb_iff file.mtime r.mtime).0 same in
        let e = consistent t in ground arith
    | inr changed ↦ ground (arith, table.is_dictionary, table.entry)
  ]

  -- Without the file the answer is that of the table that was loaded last.
  pub resolve_missing :
      (routes : Fields) (r : RouteResolver)
      → r.routes ≡ obj routes
      → resolve vendor category event_type none r
        ≡ (ok (find_route vendor category event_type routes), r)
  unfolding resolve
  resolve_missing routes r h = rw h refl

  -- A table whose `_default` has a webhook gives every request a match.
  pub find_route-default :
      (routes fields : Fields) (url : Value)
      → get? "_default" routes ≡ some (obj fields)
      → get? "webhook" fields ≡ some url
      → find_route vendor category event_type routes ≢ none
  unfolding find_route leaf
  find_route-default routes fields url h k e =
      let m : RouteMatch = record {
        webhook_url = url;
        route_path = "_default";
        description = get "description" (str "") fields;
      } in
      else_try-some
        (vendor_level vendor category event_type (get? vendor routes) (branch (get? vendor routes)))
        m (rw (h, k, leaf) at e)
