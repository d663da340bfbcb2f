-- ===== src/Scheduler/Service.antt =====
-- backend/services/scheduler/schedule_service.py: `ScheduleService`. A schedule that a request gives
-- is one of which a single trigger is set; listing is left out.
use sphere_platform.Base.{
  ℕ, ◌+◌, String, Bool, true, false, Option, none, some, ◌==◌, ltb, nat_eq, if◌then◌else◌,
}
use sphere_platform.Base.Dict.{Dict, get, put}
use sphere_platform.Tasks.Service.{Reply, ok, http_error}
use sphere_platform.Scheduler.Schedule.{Schedule, Catalogue}

-- `if schedule.cron_expression`: the empty text and 0 count as not set.
abbrev pub set_text : Option String → Option String
set_text none = none
set_text (some s) = if s == "" then none else some s

abbrev pub set_number : Option ℕ → Option ℕ
set_number none = none
set_number (some n) = if nat_eq n 0 then none else some n

abbrev pub or_now : Option ℕ → ℕ → ℕ
or_now none now = now
or_now (some t) now = t

abbrev pub next_one_shot : ℕ → Option ℕ → Option ℕ
next_one_shot now none = none
next_one_shot now (some t) = if ltb now t then some t else none

abbrev pub next_interval : ℕ → Schedule → Option ℕ → Option ℕ
next_interval now s none = next_one_shot now s.one_shot_at
next_interval now s (some n) = some (or_now s.last_fired_at now + n)

abbrev pub next_cron : Catalogue → ℕ → Schedule → Option String → Option ℕ
next_cron c now s none = next_interval now s (set_number s.interval_seconds)
next_cron c now s (some e) = some (c.cron e s.timezone now)

-- `_compute_next_fire`
unfoldable pub compute_next_fire : Catalogue → ℕ → Schedule → Option ℕ
compute_next_fire c now s = next_cron c now s (set_text s.cron_expression)

-- `_advance_fire_time`
unfoldable pub advance_fire_time : Catalogue → ℕ → Schedule → Schedule
unfolding compute_next_fire
advance_fire_time c now s = record s { next_fire_at = compute_next_fire c now s }

unfoldable pub create : Catalogue → ℕ → Dict Schedule → String → Schedule → Dict Schedule
unfolding advance_fire_time
create c now d id s = put d id (advance_fire_time c now s)

abbrev pub in_org : String → Option Schedule → Option Schedule
in_org org none = none
in_org org (some s) = if s.org_id == org then some s else none

-- `get`
unfoldable pub get_schedule : Dict Schedule → String → String → Option Schedule
get_schedule d id org = in_org org (get d id)

-- The trigger that an update sets clears the others.
pub data Trigger : Type 0 where
  cron : String → Trigger
  interval : ℕ → Trigger
  one_shot : ℕ → Trigger

abbrev pub set_trigger : Option Trigger → Schedule → Schedule
set_trigger none s = s
set_trigger (some (cron e)) s = record s {
  cron_expression = some e;
  interval_seconds = none;
  one_shot_at = none;
}
set_trigger (some (interval n)) s = record s {
  cron_expression = none;
  interval_seconds = some n;
  one_shot_at = none;
}
set_trigger (some (one_shot t)) s = record s {
  cron_expression = none;
  interval_seconds = none;
  one_shot_at = some t;
}

-- The other fields of an update are a function on the row.
abbrev pub update_found :
    Catalogue
    → ℕ
    → Dict Schedule
    → String
    → Option Trigger
    → (Schedule → Schedule)
    → Option Schedule
    → Reply (Dict Schedule)
update_found c now d id t fields none = http_error 404
update_found c now d id t fields (some s) =
    ok (put d id (advance_fire_time c now (fields (set_trigger t s))))

unfoldable pub update :
    Catalogue
    → ℕ
    → Dict Schedule
    → String
    → String
    → Option Trigger
    → (Schedule → Schedule)
    → Reply (Dict Schedule)
update c now d id org t fields = update_found c now d id t fields (get_schedule d id org)

abbrev pub deactivated : Schedule → Schedule
deactivated s = record s { is_active = false; next_fire_at = none }

abbrev pub delete_found : Dict Schedule → String → Option Schedule → Reply (Dict Schedule)
delete_found d id none = http_error 404
delete_found d id (some s) = ok (put d id (deactivated s))

unfoldable pub delete : Dict Schedule → String → String → Reply (Dict Schedule)
delete d id org = delete_found d id (get_schedule d id org)

abbrev pub toggled : Catalogue → ℕ → Bool → Schedule → Schedule
toggled c now true s = advance_fire_time c now (record s { is_active = true })
toggled c now false s = deactivated s

abbrev pub toggle_found :
    Catalogue → ℕ → Dict Schedule → String → Bool → Option Schedule → Reply (Dict Schedule)
toggle_found c now d id active none = http_error 404
toggle_found c now d id active (some s) = ok (put d id (toggled c now active s))

unfoldable pub toggle :
    Catalogue → ℕ → Dict Schedule → String → String → Bool → Reply (Dict Schedule)
toggle c now d id org active = toggle_found c now d id active (get_schedule d id org)

abbrev pub fire_found : ℕ → Dict Schedule → String → Option Schedule → Reply (Dict Schedule)
fire_found now d id none = http_error 404
fire_found now d id (some s) = ok (put d id (record s { next_fire_at = some now }))

unfoldable pub fire_now : ℕ → Dict Schedule → String → String → Reply (Dict Schedule)
fire_now now d id org = fire_found now d id (get_schedule d id org)
