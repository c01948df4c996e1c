-- ===== src/AppTools/Snapshots.antt =====
-- What a snapshot of the registry of app tools holds.
use mathlib.Core.List.{Perm}
use a_hand.Base.{◌≡◌, refl, map}
use a_hand.Base.Sort.{IsSorted, IsOrder, sort_by-perm, sort_by-IsSorted, text_IsOrder}
use a_hand.AppTools.{AppToolRegistry, snapshot, name_leb}

name_IsOrder : IsOrder name_leb
name_IsOrder = record {
  total = λ a b. text_IsOrder.total a.name b.name;
  trans = λ a b c. text_IsOrder.trans a.name b.name c.name;
}

-- A snapshot lists every registered tool once, by name, and carries the current revision.
snapshot_lem :
    {H : Type 0} (r : AppToolRegistry H)
    → Perm (snapshot r).tools (map (λ e. e.1.descriptor) r.tools)
      × IsSorted name_leb (snapshot r).tools
      × ((snapshot r).revision ≡ r.revision)
unfolding snapshot
snapshot_lem r = (
  sort_by-perm name_leb (map (λ e. e.1.descriptor) r.tools),
  sort_by-IsSorted name_leb name_IsOrder (map (λ e. e.1.descriptor) r.tools),
  refl,
)
