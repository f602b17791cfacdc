-- ===== src/Dlist/Tests.antt =====
-- Lists at concrete inputs, and the theorems about them applied to them.
use moon_in_water.Prelude.{◌≡◌, [], ◌∷◌, ◌==◌, arith, if◌then◌else◌}
use moon_in_water.Dlist.{Store, null, dlist_del}
use moon_in_water.Dlist.Chain.{IsChain}
use moon_in_water.Dlist.Splice.{IsList}
use moon_in_water.Dlist.Unlink.{dlist_del-IsChain}

-- 10, 20 and 30 in a row.
abbrev three : Store
three node =
    if node == 10
    then record { prev = 0; next = 20 }
    else if node == 20
    then record { prev = 10; next = 30 }
    else if node == 30
    then record { prev = 20; next = 0 }
    else record { prev = 0; next = 0 }

three-IsList : IsList three (10 ∷ []) 20 (30 ∷ [])
three-IsList = ground arith

dlist_del-IsChain_example :
    IsChain (dlist_del three 20).0 null (10 ∷ 30 ∷ []) null
    × ((dlist_del three 20).1 ≡ 30)
    × ((dlist_del three 20).0 20 ≡ record { prev = null; next = null })
dlist_del-IsChain_example = dlist_del-IsChain three (10 ∷ []) 20 (30 ∷ []) three-IsList
