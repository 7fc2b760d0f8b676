-- ===== src/Tools/Runbooks/Listed.antt =====
-- tools/runbook_loader.py: what is listed can be loaded.
use tengen.Prelude.{
  String, true, false, ◌||◌, Option, none, some, [], ◌∷◌, ◌≡◌, refl, ap, inl, inr, Result, ◌==◌,
  arith, map, Dict, lookup, one_of, Bool-cases,
}
use tengen.Value.{Value}
use tengen.Tools.Runbooks.{
  Runbook, RunbookCodec, Directory, slug, load_runbook, list_runbooks, names_of, in_directory,
  found,
}

names-lookup :
    (name : String) (files : Dict Value)
    → one_of name (map (λ f. f.0) files) ≡ true
    → (v : Value) × (lookup name files ≡ some v)
unfolding lookup
names-lookup name [] h = ground arith
names-lookup name ((k, v) ∷ files) h = elim (Bool-cases (k == name)) [
  | inl e ↦ (v, rw e refl)
  | inr e ↦ let (u, p) = names-lookup name files (rest h e) in (u, rw e p)
]
  where
    rest :
        (k == name || one_of name (map (λ f. f.0) files)) ≡ true
        → (k == name) ≡ false
        → one_of name (map (λ f. f.0) files) ≡ true
    rest h e = ground arith

module _ (codec : RunbookCodec) where
  -- The loader reads a file and does not report that there is none.
  abbrev pub Reads : Result (Option Runbook) → Type 0
  Reads r = (v : Value) × (r ≡ found codec (some v))

  listed-Reads :
      (o : Option (Dict Value)) (name : String)
      → one_of name (names_of o) ≡ true
      → Reads (in_directory codec o name)
  listed-Reads none name h = ground arith
  listed-Reads (some files) name h =
      let (v, p) = names-lookup name files h in (v, ap (found codec) p)

  -- A runbook that is listed under a name of small letters without spaces is read when it is loaded
  -- by this name.
  pub load_runbook-listed :
      (dir : Directory) (provider name : String)
      → slug name ≡ name
      → one_of name (list_runbooks dir provider) ≡ true
      → Reads (load_runbook codec dir provider name)
  unfolding load_runbook list_runbooks
  load_runbook-listed dir provider name s h = rw s (listed-Reads (dir provider) name h)
