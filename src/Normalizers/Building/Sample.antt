-- ===== src/Normalizers/Building/Sample.antt =====
-- A concrete environment.
use tengen.Prelude.{String, Option, some, none, refl, raised, value_error}
use tengen.Value.{Value, str, int, ℤ}
use tengen.Normalizers.Building.{Environment}

abbrev text_field : Value → Option String
text_field (str s) = some s
text_field _ = none

abbrev count_field : Value → Option ℤ
count_field (int z) = some z
count_field _ = none

-- Validation that takes texts and integers only
abbrev pub env : Environment
env = record {
  text_field = text_field;
  accepts_text = λ s. refl;
  count_field = count_field;
  accepts_int = λ z. refl;
  show = λ v. "";
  int_of_text = λ s. raised value_error;
  new_id = "id-1";
}
