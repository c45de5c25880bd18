-- ===== src/Steering/Age.antt =====
-- `age_update` of puls-engine/core/steering.cpp.
use puls_rfc.Prelude.{
  ℕ, ◌+◌, Bool, true, false, List, [], ◌∷◌, set, replicate, length, if◌then◌else◌,
}
use puls_rfc.Steering.Decode.{Decoder}

-- `for (int idx : selected) is_sel[idx] = 1;`
unfoldable pub mark_all : List Bool → List ℕ → List Bool
mark_all is_sel [] = is_sel
mark_all is_sel (i ∷ is) = mark_all (set is_sel i true) is

unfoldable pub age_by : List Bool → List Decoder → List Decoder
age_by (s ∷ ss) (x ∷ xs) =
    (if s then record x { wait = 0 } else record x { wait = x.wait + 1 }) ∷ age_by ss xs
age_by _ xs = xs

unfoldable pub age_update : List Decoder → List ℕ → List Decoder
unfolding mark_all age_by
age_update pool selected = age_by (mark_all (replicate (length pool) false) selected) pool
