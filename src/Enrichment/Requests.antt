-- ===== src/Enrichment/Requests.antt =====
-- What the lookups are given: the environment, and servers whose answers are JSON or an exception,
-- which a status of 400 or more is too.
use tengen.Prelude.{
  String, Bool, true, false, Option, none, some, Result, ok, raised, get_or, type_error, key_error,
  Error,
}
use tengen.Value.{Value, Fields, str, obj, field, end, get?}

pub record Request : Type 0 where
  pub post : Bool
  pub url : String
  pub params : Fields

-- `os.environ`, and `httpx`: the answer to a request after `raise_for_status` and `json`
pub record World : Type 0 where
  pub env : String → Option String
  pub fetch : Request → Result Value

-- `os.environ.get(name, "")`
abbrev pub setting : World → String → String
setting w name = get_or (w.env name) ""

abbrev pub get_request : String → Fields → Request
get_request url params = record { post = false; url = url; params = params }

abbrev pub post_request : String → Fields → Request
post_request url params = record { post = true; url = url; params = params }

-- `d["access_token"]`
abbrev pub access_token : Value → Result Value
access_token (obj fs) = elim (get? "access_token" fs) [ none ↦ raised key_error | some v ↦ ok v ]
access_token _ = raised type_error

-- An answer that has no more than what was asked and an error
abbrev pub failure : String → String → String → Value
failure key id error = obj (field key (str id) (field "error" (str error) end))

-- `except Exception` of a lookup
module _ (describe : Error → String) where
  abbrev pub or_failure : String → String → Result Value → Value
  or_failure key id (ok v) = v
  or_failure key id (raised e) = failure key id (describe e)
