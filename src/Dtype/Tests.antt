-- ===== src/Dtype/Tests.antt =====
-- The theorem about vague types at one type.
use decision.Prelude.{◌≡◌, leb}
use decision.Dtype.{type_number, d_type_is_vague, variable_types, d_type_is_vague_lem}

d_type_is_vague_lem_example : d_type_is_vague type_number ≡ leb 2 (variable_types type_number)
d_type_is_vague_lem_example = d_type_is_vague_lem type_number
