-- ===== src/Value/Native.antt =====
-- Values of Python that hold times: what pydantic's model_dump and the clients of the clouds give, and
-- what json.dumps makes of them.
use tengen.Prelude.{
  String, Bool, true, ◌&&◌, List, [], ◌∷◌, Result, ok, raised, if◌then◌else◌, ◌==◌, type_error,
  is_ok,
}
use tengen.Value.{Value, Fields, end, field}

pub data Native : Type 0 where
  json : Value → Native
  datetime : String → Native

-- A dictionary of such values
abbrev pub Dump : Type 0
Dump = List (String × Native)

-- `json.dumps` of a value
unfoldable pub dumps_native : Native → Result Value
dumps_native (json v) = ok v
dumps_native (datetime t) = raised type_error

-- Whether `json.dumps` takes a dictionary
unfoldable pub dumps_dict : Dump → Bool
unfolding dumps_native
dumps_dict [] = true
dumps_dict ((k, n) ∷ d) = is_ok (dumps_native n) && dumps_dict d

-- `d.get(key, default)`
unfoldable pub get_native : String → Native → Dump → Native
get_native key default [] = default
get_native key default ((k, n) ∷ d) =
    let rest = get_native key default d in if k == key then n else rest

-- A dictionary that `json.loads` gives
unfoldable pub dump_of : Fields → Dump
dump_of end = []
dump_of (field k v fs) = (k, json v) ∷ dump_of fs
