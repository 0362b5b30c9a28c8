-- ===== src/Docs/Search/Ids.antt =====
-- docs/html/search/search.js, convertToId: the names of symbols as the ids of rows.
pub mod Laws
use mathlib.Core.List.{◌++◌}
use riscv_simulator_pipeline.Base.{ℕ, ◌+◌, Bool, ◌&&◌, ◌||◌, List, [], ◌∷◌, ltb, leb, if◌then◌else◌}
use riscv_simulator_pipeline.Docs.Text.{Text, codes, to_hex, radix_digits}

-- `c.match(/[a-z0-9\u0080-\uFFFF]/)`
unfoldable pub is_id_unit : ℕ → Bool
is_id_unit c = leb b'a' c && leb c b'z' || leb b'0' c && leb c b'9' || leb 128 c

-- One turn of the loop: what it adds to `result`.
unfoldable pub id_unit : ℕ → Text
unfolding is_id_unit radix_digits
id_unit c =
    if is_id_unit c
    then c ∷ []
    else if ltb c 16
    then codes "_0" ++ to_hex c
    else codes "_" ++ to_hex c

unfoldable pub convert_to_id : Text → Text
convert_to_id [] = []
convert_to_id (c ∷ s) = id_unit c ++ convert_to_id s
