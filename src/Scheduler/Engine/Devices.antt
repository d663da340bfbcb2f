-- ===== src/Scheduler/Engine/Devices.antt =====
-- backend/services/scheduler/scheduler_engine.py: `_resolve_devices`. The set of ids stands in the
-- order in which the queries give them.
use sphere_platform.Base.{
  String, Bool, true, false, ◌&&◌, Option, none, some, List, [], ◌∷◌, ◌++◌, ◌==◌, if◌then◌else◌,
  has, keep_if,
}
use sphere_platform.Base.Dict.{Dict, get_or}
use sphere_platform.Scheduler.Schedule.{Schedule, Device, Catalogue}

-- `result.update(rows)`
abbrev pub add_new : List String → List String → List String
add_new ids [] = ids
add_new ids (x ∷ xs) = add_new (if has ids x then ids else ids ++ x ∷ []) xs

-- The ids of the rows that a filter takes.
unfoldable pub select_ids : (String → Device → Bool) → Dict Device → List String
select_ids p [] = []
select_ids p ((id, d) ∷ rest) = let ids = select_ids p rest in if p id d then id ∷ ids else ids

abbrev pub is_own : String → Device → Bool
is_own org d = (d.org_id == org) && d.is_active

abbrev pub of_group : Catalogue → Option String → List String
of_group c none = []
of_group c (some g) = get_or c.group_members g []

abbrev pub add_tags : Catalogue → String → List String → List String → List String
add_tags c org [] ids = ids
add_tags c org (t ∷ ts) ids =
    add_tags c org ts (add_new ids (select_ids (λ id d. is_own org d && has d.tags t) c.devices))

abbrev pub online : Option String → Bool
online none = false
online (some s) = s == "online"

abbrev pub only_online : Bool → Option (String → Option String) → List String → List String
only_online false cache ids = ids
only_online true none ids = ids
only_online true (some status) ids = keep_if (λ id. online (status id)) ids

unfoldable pub resolve_devices : Catalogue → Schedule → List String
unfolding select_ids
resolve_devices c s = only_online s.only_online c.status_cache (
    add_tags c s.org_id s.device_tags (
      add_new (add_new [] (select_ids (λ id d. has s.device_ids id && is_own s.org_id d) c.devices))
        (of_group c s.group_id)))
