-- ===== src/Csv/Tests.antt =====
-- A table of two columns.
use go_casclib.Common.{◌≡◌, ◌↔◌, [], ◌∷◌}
use go_casclib.Csv.{split_line}
use go_casclib.Csv.Split.{join, AreFields, split_line_iff}

split_line_iff_example :
    (split_line 124 (97 ∷ 124 ∷ []) ≡ (97 ∷ []) ∷ [] ∷ [])
    ↔ ((join 124 ((97 ∷ []) ∷ [] ∷ []) ≡ 97 ∷ 124 ∷ []) × AreFields 124 ((97 ∷ []) ∷ [] ∷ []))
split_line_iff_example = split_line_iff 124 (97 ∷ 124 ∷ []) ((97 ∷ []) ∷ [] ∷ [])
