-- ===== src/Ewf/Tests.antt =====
-- Two segments within a limit, and the same two beyond it.
use dfir_evidence_workbench.Base.{◌≤◌, ◌≡◌, refl, false, List, [], ◌∷◌}
use dfir_evidence_workbench.Base.Result.{ok}
use dfir_evidence_workbench.Ewf.{
  Segment, degraded, valid, walk, segments_ok, inventory, status, limits_ok,
}
use dfir_evidence_workbench.Ewf.Complete.{IsListed, bytes_of, inventory-IsComplete}

abbrev segments : List Segment
segments =
    record { name = "a.E01"; stat = ok 3; digest = ok "d1" }
    ∷ record { name = "a.E02"; stat = ok 4; digest = ok "d2" }
    ∷ []

is_valid : status (inventory 10 segments) ≡ valid
unfolding walk
is_valid = refl

-- Beyond the limit the set is degraded and not unsupported, as its first segment is listed.
beyond : status (inventory 5 segments) ≡ degraded
unfolding walk
beyond = refl

beyond_limits : limits_ok 10 5 segments ≡ ok false
unfolding walk segments_ok limits_ok
beyond_limits = refl

inventory-IsComplete_example :
    IsListed 0 segments (inventory 10 segments).segments
    × ((inventory 10 segments).total_bytes ≡ bytes_of (inventory 10 segments).segments)
    × ((inventory 10 segments).total_bytes ≤ 10)
inventory-IsComplete_example = inventory-IsComplete 10 segments is_valid
