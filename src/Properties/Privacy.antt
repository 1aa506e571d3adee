-- ===== src/Properties/Privacy.antt =====
-- What the listings of users do not depend on: app/services/user_service.py and dropdown_service.py.
use asset_pilot_fastapi.Repositories.Queries.Laws.{page_of-list_page}
use asset_pilot_fastapi.Pagination.{list_page, PaginationParams}
use asset_pilot_fastapi.Enums.{UserRole-discrete, UserRole}
use asset_pilot_fastapi.Repositories.Queries.PeopleQueries.{
  newest_user_first, by_user_name, is_chosen, list_user_rows, user_row, list_active_by_role,
}
use asset_pilot_fastapi.Views.People.{
  list_employees, list_managers, user_result_from, user_list_entry_from, user_option_from,
  list_users,
}
use asset_pilot_fastapi.Repositories.Queries.{
  Sql, user_name, outer, insert_ordered, order_by, column,
}
use asset_pilot_fastapi.Table.{find}
use asset_pilot_fastapi.Database.{user_key, Db}
use asset_pilot_fastapi.Models.{User}
use asset_pilot_fastapi.Prelude.{
  sym, ◌&&◌, ◌&&◌, none, same, some, refl, [], ◌∙◌, ◌∙◌, ap, arith, ◌∷◌, filter, ◌≡◌, ◌≡◌, map,
  List, ℕ, Bool, String, Option,
}

module _ (h : User → Option String) where
  -- A database with other password hashes.
  abbrev rehashed : User → User
  rehashed u = record u { password_hash = h u }

  abbrev pub rehash : Db → Db
  rehash db = record db { users = map rehashed db.users }

  find-rehashed :
      (k : ℕ) (users : List User)
      → column (λ (u : User). u.name) (find user_key k (map rehashed users))
        ≡ column (λ (u : User). u.name) (find user_key k users)
  unfolding find
  find-rehashed k [] = refl
  find-rehashed k (u ∷ us) = ground (arith, find-rehashed k us)

  filter-rehashed :
      (p : User → Bool) (users : List User)
      → ((u : User) → p (rehashed u) ≡ p u)
      → filter p (map rehashed users) ≡ map rehashed (filter p users)
  filter-rehashed p [] same = refl
  filter-rehashed p (u ∷ us) same = ground (arith, same u, filter-rehashed p us same)

  insert-rehashed :
      (after : User → User → Bool) (x : User) (users : List User)
      → ((u v : User) → after (rehashed u) (rehashed v) ≡ after u v)
      → insert_ordered after (rehashed x) (map rehashed users)
        ≡ map rehashed (insert_ordered after x users)
  insert-rehashed after x [] same = refl
  insert-rehashed after x (u ∷ us) same = ground (arith, same x u, insert-rehashed after x us same)

  order_by-rehashed :
      (after : User → User → Bool) (users : List User)
      → ((u v : User) → after (rehashed u) (rehashed v) ≡ after u v)
      → order_by after (map rehashed users) ≡ map rehashed (order_by after users)
  order_by-rehashed after [] same = refl
  order_by-rehashed after (u ∷ us) same =
      ap (insert_ordered after (rehashed u)) (order_by-rehashed after us same)
      ∙ insert-rehashed after u (order_by after us) same

  manager-rehashed :
      (db : Db) (manager_id : Option ℕ)
      → outer (user_name (rehash db)) manager_id ≡ outer (user_name db) manager_id
  manager-rehashed db none = refl
  manager-rehashed db (some k) = find-rehashed k db.users

  entries-rehashed :
      (db : Db) (users : List User)
      → map user_list_entry_from (map (user_row (rehash db)) (map rehashed users))
        ≡ map user_list_entry_from (map (user_row db) users)
  unfolding user_list_entry_from user_row user_result_from
  entries-rehashed db [] = refl
  entries-rehashed db (u ∷ us) =
      ground (arith, manager-rehashed db u.manager_id, entries-rehashed db us)

  options-rehashed :
      (users : List User) → map user_option_from (map rehashed users) ≡ map user_option_from users
  unfolding user_option_from
  options-rehashed [] = refl
  options-rehashed (u ∷ us) = ap (◌∷◌ (user_option_from u)) (options-rehashed us)

  by_role-rehashed :
      (sql : Sql) (role : UserRole) (db : Db)
      → map user_option_from (list_active_by_role sql role (rehash db))
        ≡ map user_option_from (list_active_by_role sql role db)
  unfolding list_active_by_role
  by_role-rehashed sql role db =
      let active = λ (u : User). same UserRole-discrete u.role role && u.is_active in
      ap (λ us. map user_option_from (order_by (by_user_name sql) us))
        (filter-rehashed active db.users (λ u. refl))
      ∙ ap (map user_option_from)
          (order_by-rehashed (by_user_name sql) (filter active db.users) (λ u v. refl))
      ∙ options-rehashed (order_by (by_user_name sql) (filter active db.users))

  -- The password hashes of users reach no listing of users: with any other hashes in their place, every page of users, the list of managers and that of employees are the same.
  pub hashes_hidden :
      (sql : Sql) (role : Option UserRole) (is_active : Option Bool) (words : Option String)
      (pagination : PaginationParams) (db : Db)
      → (list_users sql role is_active words pagination (rehash db)
          ≡ list_users sql role is_active words pagination db)
        × (list_managers sql (rehash db) ≡ list_managers sql db)
        × (list_employees sql (rehash db) ≡ list_employees sql db)
  unfolding list_users list_user_rows list_managers list_employees is_chosen
  hashes_hidden sql role is_active words pagination db =
      let chosen = is_chosen sql role is_active words in
      let rows = order_by newest_user_first (filter chosen db.users) in
      let same_rows =
        ap (order_by newest_user_first) (filter-rehashed chosen db.users (λ u. refl))
        ∙ order_by-rehashed newest_user_first (filter chosen db.users) (λ u v. refl) in
      (
        page_of-list_page user_list_entry_from pagination _
            ∙ ap
                (λ us.
                  list_page pagination (map user_list_entry_from (map (user_row (rehash db)) us)))
                same_rows
            ∙ ap (list_page pagination) (entries-rehashed db rows)
            ∙ sym (page_of-list_page user_list_entry_from pagination (map (user_row db) rows)),
        by_role-rehashed sql UserRole.manager db,
        by_role-rehashed sql UserRole.employee db,
      )
