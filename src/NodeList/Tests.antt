-- ===== src/NodeList/Tests.antt =====
-- include/ckit/list.h on three nodes, and the theorems about it at these.
use libckit.Common.{refl, [], ◌∷◌, arith, ◌==◌, if◌then◌else◌}
use libckit.NodeList.{Nodes}
use libckit.NodeList.Ring.{Linked, IsRing}

-- the nodes 1 and 2 around the anchor 0; all others by themselves
abbrev nodes : Nodes
nodes q =
    if q == 0
    then (record { prev = 2; next = 1 })
    else if q == 1
    then (record { prev = 0; next = 2 })
    else if q == 2
    then (record { prev = 1; next = 0 })
    else record { prev = q; next = q }

nodes-IsRing : IsRing nodes 0 (1 ∷ 2 ∷ [])
unfolding Linked
nodes-IsRing = record {
  linked = (refl, refl, (refl, refl, (refl, refl)));
  distinct = ((omega arith, (omega arith, tt)), ((omega arith, tt), (tt, tt)));
}
