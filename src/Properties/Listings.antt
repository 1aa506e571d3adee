-- ===== src/Properties/Listings.antt =====
-- How the listings follow what is done: app/services/ and the queries of app/repositories/.

use asset_pilot_fastapi.Repositories.Queries.Laws.{any_only_key, any-filter, any-order_by, any-map}
use asset_pilot_fastapi.Properties.Users.{deactivate-ok}
use asset_pilot_fastapi.Table.Laws.{find-replace_found, replace-HasUniqueKeys}
use asset_pilot_fastapi.Result.Ensures.{of_Ensures}
use asset_pilot_fastapi.Services.Users.{deactivate}
use asset_pilot_fastapi.Api.History.{log_append_only}
use asset_pilot_fastapi.Enums.{UserRole-discrete, UserRole}
use asset_pilot_fastapi.Models.{User, DeviceLog}
use asset_pilot_fastapi.Repositories.{get_user}
use asset_pilot_fastapi.Api.Reach.{Reach}
use asset_pilot_fastapi.Table.{replace, HasUniqueKeys}
use asset_pilot_fastapi.Database.{user_key, Env, Db}
use asset_pilot_fastapi.Repositories.Queries.PeopleQueries.{
  DeviceLogRow, by_user_name, occurred_later, log_entry_row, paged, list_active_by_role,
  list_for_item,
}
use asset_pilot_fastapi.Repositories.Queries.{order_by, user_name, outer, Sql}
use asset_pilot_fastapi.Views.People.{
  UserOption, DeviceLogEntry, user_option_from, list_employees, list_managers, entry_from,
  get_timeline,
}
use asset_pilot_fastapi.Result.{ok}
use asset_pilot_fastapi.Prelude.{
  filter, refl, sym, ap, [], ◌∙◌, ◌∙◌, same, map, arith, not, ◌&&◌, ◌&&◌, ◌∷◌, ◌||◌, ◌==◌, ◌==◌,
  ◌||◌, ◌≡◌, ◌++◌, ◌≡◌, ◌++◌, any, List, ℕ, Bool, true, false, none,
}

module _ (sql : Sql) (db : Db) (k : ℕ) where
  -- The users of a role that can be chosen.
  active_by_role-any :
      (role : UserRole)
      → any (λ (o : UserOption). o.id == k) (map user_option_from (list_active_by_role sql role db))
        ≡ any
            (λ (u : User). (same UserRole-discrete u.role role && u.is_active) && u.id == k)
            db.users
  unfolding list_active_by_role user_option_from
  active_by_role-any role =
      any-map (λ (o : UserOption). o.id == k) user_option_from (list_active_by_role sql role db)
      ∙ any-order_by (λ (u : User). u.id == k) (by_user_name sql) _
      ∙ any-filter (λ (u : User). u.id == k)
          (λ (u : User). same UserRole-discrete u.role role && u.is_active) db.users

-- If `deactivate` returns where the ids of users are unique, the user can no longer be chosen: neither the list of managers nor that of employees has an option with their id.
pub deactivate-unlisted :
    (sql : Sql) (env : Env) (user_id : ℕ) (db db' : Db) (result : User)
    → HasUniqueKeys user_key db.users
    → deactivate env user_id db ≡ ok (result, db')
    → (any (λ (o : UserOption). o.id == user_id) (list_managers sql db') ≡ false)
      × (any (λ (o : UserOption). o.id == user_id) (list_employees sql db') ≡ false)
unfolding list_managers list_employees get_user
deactivate-unlisted sql env user_id db db' result unique h =
    let (user, found, free, stamped, database) =
      of_Ensures (deactivate-ok env user_id db) (result, db') h in
    let users' : db'.users ≡ replace user_key result db.users = ap (λ (d : Db). d.users) database in
    let unlisted : (role : UserRole)
        → any (λ (u : User). (same UserRole-discrete u.role role && u.is_active) && u.id == user_id)
            db'.users
          ≡ false =
      λ role. rw users' (
        any_only_key user_key _ user_id _ {r = result}
          (replace-HasUniqueKeys user_key result db.users unique)
          (λ x passed. ground (arith, passed))
          (find-replace_found user_key result user_id db.users {old = user} found
            (ground (arith, stamped)))
          (ground (arith, stamped))) in
    (
      active_by_role-any sql db' user_id UserRole.manager ∙ unlisted UserRole.manager,
      active_by_role-any sql db' user_id UserRole.employee ∙ unlisted UserRole.employee,
    )

timeline-any :
    (p : DeviceLogEntry → Bool) (item_id : ℕ) (milestones_only : Bool) (db : Db)
    → any p (get_timeline item_id milestones_only db)
      ≡ any
          (λ (l : DeviceLog).
            (l.item_id == item_id && (not milestones_only || l.is_milestone))
            && p (entry_from (outer (user_name db) l.actor_id) l))
          db.device_logs
unfolding get_timeline list_for_item paged log_entry_row
timeline-any p item_id milestones_only db =
    let wanted =
      λ (l : DeviceLog). l.item_id == item_id && (not milestones_only || l.is_milestone) in
    let entries = filter wanted db.device_logs in
    let entry = λ (row : DeviceLogRow). entry_from row.actor_name row.device_log in
    any-map p entry (list_for_item item_id milestones_only none db)
    ∙ any-map (λ row. p (entry row)) (log_entry_row db) (order_by occurred_later entries)
    ∙ any-order_by (λ l. p (entry (log_entry_row db l))) occurred_later entries
    ∙ any-filter (λ l. p (entry (log_entry_row db l))) wanted db.device_logs

any-append :
    {A : Type 0} (p : A → Bool) (xs ys : List A) → any p (xs ++ ys) ≡ (any p xs || any p ys)
any-append p [] ys = refl
any-append p (x ∷ xs) ys = ground (arith, any-append p xs ys)

-- What the timeline of a device has shown stays on it: an entry that it shows, with or without the restriction to milestones, is shown in every database that calls and registrations lead to.
pub timeline_grows :
    {start db : Db} (k item_id : ℕ) (milestones_only : Bool)
    → Reach start db
    → any (λ (e : DeviceLogEntry). e.id == k) (get_timeline item_id milestones_only start) ≡ true
    → any (λ (e : DeviceLogEntry). e.id == k) (get_timeline item_id milestones_only db) ≡ true
unfolding entry_from
timeline_grows {start} {db} k item_id milestones_only reach shown =
    let (entries, grown) = log_append_only reach in
    let test = λ (l : DeviceLog).
      (l.item_id == item_id && (not milestones_only || l.is_milestone)) && l.id == k in
    let before = timeline-any (λ e. e.id == k) item_id milestones_only start in
    let after = timeline-any (λ e. e.id == k) item_id milestones_only db in
    after
    ∙ ap (any test) grown
    ∙ any-append test start.device_logs entries
    ∙ ap (λ (b : Bool). b || any test entries) (sym before ∙ shown)
