-- ===== src/Common/Runs.antt =====
-- The signature at inputs with a known hash.
use gffg.Prelude.{◌≡◌, refl, []}
use gffg.Prelude.Text.{codes}
use gffg.Common.{gen_rid}

gen_rid_empty : gen_rid [] ≡ 0xcbf29ce484222325
unfolding gen_rid
gen_rid_empty = refl

gen_rid_a : gen_rid (codes "a") ≡ 0xaf63dc4c8601ec8c
unfolding gen_rid
gen_rid_a = refl
