-- ===== src/Config/Sample.antt =====
-- Values without floats, for runs.
use gffg.Prelude.{[], none}
use gffg.Config.{Values}

abbrev pub plain : Values
plain = record {
  Float32 = Unit;
  Float64 = Unit;
  Other = Unit;
  print_float32 = λ x. [];
  print_float64 = λ x. [];
  print_other = λ x. [];
  parse_float = λ bits s. none;
  int_to_float32 = λ n. tt;
  int_to_float64 = λ n. tt;
  narrow = λ x. tt;
  widen = λ x. tt;
}
