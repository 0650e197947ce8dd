-- ===== src/UrlTest/Groups/Examples.antt =====
-- A manager whose groups contain each other.
use android_lib_box_lite.Common.{true, some, List, Str, bytes, has, ◌≡◌, ◌↔◌}
use android_lib_box_lite.UrlTest.Toy.{manager, manager-IsManager}
use android_lib_box_lite.UrlTest.Groups.{update_groups}
use android_lib_box_lite.UrlTest.Groups.Reselection.{Reselected, update_groups_decides}

update_groups_decides_example :
    (tags : List Str) × (update_groups (some manager) (bytes "d") ≡ some tags)
    × ((t : Str) → (has tags t ≡ true) ↔ Reselected manager (bytes "d") manager.outbounds t)
update_groups_decides_example = update_groups_decides manager (bytes "d") manager-IsManager
