-- ===== src/Value/Laws.antt =====
-- Laws of dictionaries of values.
use tengen.Prelude.{String, ◌≡◌, refl, some, if◌then◌else◌, arith, ◌==◌, eq_iff}
use tengen.Value.{Value, Fields, end, field, get?, set}

pub get?-set :
    (k j : String) (v : Value) (fs : Fields)
    → get? j (set k v fs) ≡ (if k == j then some v else get? j fs)
unfolding get? set
get?-set k j v end = refl
get?-set k j v (field i w fs) =
    ground (arith, eq_iff k j, eq_iff i k, eq_iff i j, get?-set k j v fs)
